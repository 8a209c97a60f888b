-- ===== src/Experiment/Tests.antt =====
-- An experiment with a 70/30 split, and a stand-in for the hash.
use cortex_gateway.Prelude.{
  ℕ, ◌≡◌, refl, true, some, List, [], ◌∷◌, Text, codes, lower, strip, rstrip, lstrip, is_space,
  char_lower,
}
use cortex_gateway.Experiment.{
  ExperimentArm, ExperimentConfig, ab_test, validate_arm, validate_each, validate_arms,
  validate_config, total_weight, pick, bucket_of, assign, has_duplicates,
}
use cortex_gateway.Experiment.Laws.{assignment, Owns, assign-Owns}

abbrev champion : ExperimentArm
champion = record { name = codes "a"; provider = codes "groq"; model = codes "m"; weight = 70 }

abbrev challenger : ExperimentArm
challenger = record { name = codes "b"; provider = codes "openai"; model = codes "n"; weight = 30 }

abbrev split : ExperimentConfig
split = record {
  enabled = true;
  id = codes "x";
  version = 1;
  type = ab_test;
  arms = champion ∷ challenger ∷ [];
}

-- The bytes 0, 0, 35 and 40 are the number 9000.
abbrev fixed_hash : Text → List ℕ
fixed_hash t = 0 ∷ 0 ∷ 35 ∷ 40 ∷ 7 ∷ []

split_valid : validate_config split ≡ some split
unfolding validate_config validate_each validate_arm validate_arms total_weight has_duplicates strip
    lower rstrip lstrip is_space char_lower
split_valid = refl

assigned :
    assign fixed_hash (codes "t") (codes "r") (some split) ≡ some (assignment split challenger)
unfolding assign bucket_of pick
assigned = refl

assign-Owns_example :
    (a : ExperimentArm) × Owns
      (champion ∷ challenger ∷ [])
      (bucket_of fixed_hash (codes "t") (codes "x") 1 (codes "r"))
      a
    × (assign fixed_hash (codes "t") (codes "r") (some split) ≡ some (assignment split a))
assign-Owns_example = assign-Owns fixed_hash (codes "t") (codes "r") split split split_valid refl
