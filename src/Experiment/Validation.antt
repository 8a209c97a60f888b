-- ===== src/Experiment/Validation.antt =====
-- The validators of an experiment leave what they returned as it is.
use cortex_gateway.Prelude.{
  ◌≡◌, refl, inl, inr, some, List, [], ◌∷◌, arith, Option-cases, is_empty, Text, lower, strip,
  lower_idem, strip_idem, lower-strip,
}
use cortex_gateway.Experiment.{
  ExperimentArm, ExperimentConfig, validate_arm, validate_each, validate_config,
}

strip-lower : (s : Text) → lower (strip (lower (strip s))) ≡ lower (strip s)
strip-lower s = rw (← lower-strip (strip s)) (rw (strip_idem s) (lower_idem (strip s)))

strip-lower_empty : (s : Text) → strip (lower (strip s)) ≡ lower (strip s)
strip-lower_empty s = rw (← lower-strip (strip s), strip_idem s) refl

is_empty-lower : (s : Text) → is_empty (lower s) ≡ is_empty s
unfolding lower
is_empty-lower [] = refl
is_empty-lower (c ∷ cs) = refl

validate_arm_idem : (a b : ExperimentArm) → validate_arm a ≡ some b → validate_arm b ≡ some b
unfolding validate_arm
validate_arm_idem a b h = ground (
  arith,
  strip_idem a.name,
  strip_idem a.model,
  strip-lower a.provider,
  strip-lower_empty a.provider,
  is_empty-lower (strip a.provider),
)

validate_each_idem :
    (xs ys : List ExperimentArm) → validate_each xs ≡ some ys → validate_each ys ≡ some ys
unfolding validate_each
validate_each_idem [] ys h = ground (arith, h)
validate_each_idem (x ∷ xs) ys h = elim (Option-cases (validate_arm x)) [
  | inl n ↦ absurd (ground (arith, h, n))
  | inr (b, e) ↦ elim (Option-cases (validate_each xs)) [
    | inl n ↦ absurd (ground (arith, h, e, n))
    | inr (bs, f) ↦
        let same : b ∷ bs ≡ ys = ground (arith, h, e, f) in
        rw (← same) (ground (arith, validate_arm_idem x b e, validate_each_idem xs bs f))
  ]
]

-- What validation returned is valid, and validation does not change it.
pub validate_config_idem :
    (c d : ExperimentConfig) → validate_config c ≡ some d → validate_config d ≡ some d
unfolding validate_config
validate_config_idem c d h = elim (Option-cases (validate_each c.arms)) [
  | inl n ↦ absurd (ground (arith, h, n))
  | inr (arms, e) ↦ ground (arith, h, e, strip_idem c.id, validate_each_idem c.arms arms e)
]
