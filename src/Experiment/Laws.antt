-- ===== src/Experiment/Laws.antt =====
-- The traffic split: which buckets an arm owns, and that a validated experiment assigns every
-- request.
use cortex_gateway.Prelude.{
  ℕ, ◌+◌, ◌-◌, ◌*◌, ◌≤◌, ◌<◌, ◌≡◌, refl, ap, inl, inr, true, some, List, [], ◌∷◌, ◌++◌, arith, ltb,
  Bool-cases, last_or, Text,
}
use cortex_gateway.Experiment.{
  ExperimentArm, ExperimentConfig, ExperimentAssignment, total_weight, validate_arms,
  validate_config, pick, bucket_of, assign,
}

-- The loop gives an arm the `weight * 100` buckets behind those of the arms before it.
pick-range :
    (before : List ExperimentArm) (a : ExperimentArm) (after : List ExperimentArm)
    (fallback : ExperimentArm) (bucket start : ℕ)
    → start + total_weight before * 100 ≤ bucket
    → bucket < start + (total_weight before + a.weight) * 100
    → pick bucket start fallback (before ++ a ∷ after) ≡ a
unfolding pick total_weight
pick-range [] a after fallback bucket start p q = ground arith
pick-range (x ∷ before) a after fallback bucket start p q =
    ground (arith, pick-range before a after fallback bucket (start + x.weight * 100))

-- Each arm of an experiment owns exactly as many consecutive buckets as its weight times 100, in declaration
-- order: the loop selects it for each bucket from the total weight before it, times 100, to below the total weight
-- with it, times 100, whatever the fallback.
pub pick-owns :
    (before : List ExperimentArm) (a : ExperimentArm) (after : List ExperimentArm)
    (fallback : ExperimentArm) (bucket : ℕ)
    → total_weight before * 100 ≤ bucket
    → bucket < (total_weight before + a.weight) * 100
    → pick bucket 0 fallback (before ++ a ∷ after) ≡ a
pick-owns before a after fallback bucket p q =
    pick-range before a after fallback bucket 0 (omega arith) (omega arith)

-- Where a bucket below the total falls: the arms before, the arm, and the arms after.
pub find_owner :
    (arms : List ExperimentArm) (bucket : ℕ)
    → bucket < total_weight arms * 100
    → (before : List ExperimentArm) × (a : ExperimentArm) × (after : List ExperimentArm) × (arms
        ≡ before ++ a ∷ after)
      × (total_weight before * 100 ≤ bucket)
      × (bucket < (total_weight before + a.weight) * 100)
unfolding total_weight
find_owner [] bucket h = absurd (omega arith)
find_owner (x ∷ arms) bucket h = elim (Bool-cases (ltb bucket (x.weight * 100))) [
  | inl e ↦ ([], x, arms, refl, omega arith, ground arith)
  | inr e ↦
      let (before, a, after, p, q, r) = find_owner arms (bucket - x.weight * 100) (ground arith) in
      (x ∷ before, a, after, ap (◌∷◌ x) p, ground arith, ground arith)
]

pick_owner :
    (arms : List ExperimentArm) (fallback : ExperimentArm) (bucket : ℕ)
    → bucket < total_weight arms * 100
    → (before : List ExperimentArm) × (a : ExperimentArm) × (after : List ExperimentArm) × (arms
        ≡ before ++ a ∷ after)
      × (total_weight before * 100 ≤ bucket)
      × (bucket < (total_weight before + a.weight) * 100)
      × (pick bucket 0 fallback arms ≡ a)
pick_owner arms fallback bucket h =
    let (before, a, after, p, q, r) = find_owner arms bucket h in
    (before, a, after, p, q, r, rw p (pick-owns before a after fallback bucket q r))

bucket_of-lt :
    (sha256 : Text → List ℕ) (t e : Text) (v : ℕ) (r : Text) → bucket_of sha256 t e v r < 10000
unfolding bucket_of
bucket_of-lt sha256 t e v r = omega arith

-- What a validated configuration satisfies.
validate_config-total :
    (c c' : ExperimentConfig) → validate_config c ≡ some c' → total_weight c'.arms ≡ 100
unfolding validate_config validate_arms
validate_config-total c c' h = ground arith

-- The assignment that names an arm of an experiment.
abbrev pub assignment : ExperimentConfig → ExperimentArm → ExperimentAssignment
assignment e a = record {
  experiment_id = e.id;
  experiment_version = e.version;
  arm_name = a.name;
  provider = a.provider;
  model = a.model;
}

-- `a` stands among the arms and owns the bucket: it lies from the total weight of the arms before
-- `a`, times 100, to below the total weight with `a`, times 100.
pub record Owns (arms : List ExperimentArm) (bucket : ℕ) (a : ExperimentArm) : Type 0 where
  pub before : List ExperimentArm
  pub after : List ExperimentArm
  pub placed : arms ≡ before ++ a ∷ after
  pub from : total_weight before * 100 ≤ bucket
  pub to : bucket < (total_weight before + a.weight) * 100

assign_arms :
    (sha256 : Text → List ℕ) (team_id request_id : Text) (e : ExperimentConfig)
    (arms : List ExperimentArm)
    → e.arms ≡ arms
    → e.enabled ≡ true
    → total_weight arms ≡ 100
    → (a : ExperimentArm) × Owns arms (bucket_of sha256 team_id e.id e.version request_id) a
      × (assign sha256 team_id request_id (some e) ≡ some (assignment e a))
unfolding assign
assign_arms sha256 team_id request_id e [] p on t = absurd (unfold total_weight in omega arith)
assign_arms sha256 team_id request_id e (x ∷ xs) p on t =
    let bucket = bucket_of sha256 team_id e.id e.version request_id in
    let below : bucket < total_weight (x ∷ xs) * 100 =
      omega (arith, bucket_of-lt sha256 team_id e.id e.version request_id) in
    let (before, a, after, q, l, u, k) = pick_owner (x ∷ xs) (last_or x xs) bucket below in
    (
      a,
      record { before = before; after = after; placed = q; from = l; to = u },
      ground (arith, p, on, k),
    )

-- A request of an enabled experiment that passed validation is always assigned: the assignment
-- names the experiment and the arm that owns the bucket of the request's hash, that is, the
-- bucket lies from the total weight of the arms before it, times 100, to below the total weight
-- with it, times 100.
pub assign-Owns :
    (sha256 : Text → List ℕ) (team_id request_id : Text) (raw e : ExperimentConfig)
    → validate_config raw ≡ some e
    → e.enabled ≡ true
    → (a : ExperimentArm) × Owns e.arms (bucket_of sha256 team_id e.id e.version request_id) a
      × (assign sha256 team_id request_id (some e) ≡ some (assignment e a))
assign-Owns sha256 team_id request_id raw e v on =
    assign_arms sha256 team_id request_id e e.arms refl on (validate_config-total raw e v)
