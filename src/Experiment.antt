-- ===== src/Experiment.antt =====
-- Traffic experiments: `ExperimentArm` and `ExperimentConfig` with their validators
-- (backend/app/policy/schemas.py), `ExperimentAssignment` (backend/app/experiment/schemas.py) and
-- `ExperimentAssigner` (backend/app/experiment/assigner.py). `sha256` of Python's hashlib is a
-- parameter: it takes a text, of which it hashes the UTF-8 encoding, to the bytes of the digest.
pub mod Laws
pub mod Validation
pub mod Tests
use cortex_gateway.Prelude.{
  take, ℕ, ◌+◌, ◌*◌, ◌/◌, ◌%◌, Bool, false, not, ◌||◌, Option, none, some, List, [], ◌∷◌, ◌++◌, map,
  ltb, ◌==◌, if◌then◌else◌, length, any, is_empty, last_or, Text, codes, lower, strip, show_nat,
  text_eq,
}

pub data ExperimentType : Type 0 where
  ab_test canary : ExperimentType

pub record ExperimentArm : Type 0 where
  pub name : Text
  pub provider : Text
  pub model : Text
  pub weight : ℕ

pub record ExperimentConfig : Type 0 where
  pub enabled : Bool
  pub id : Text
  pub version : ℕ
  pub type : ExperimentType
  pub arms : List ExperimentArm

pub record ExperimentAssignment : Type 0 where
  pub experiment_id : Text
  pub experiment_version : ℕ
  pub arm_name : Text
  pub provider : Text
  pub model : Text

-- The validators of an arm; none is a validation error. The weight is a number that is not
-- negative, so `weight <= 0` is `weight == 0`.
unfoldable pub validate_arm : ExperimentArm → Option ExperimentArm
validate_arm a =
    if a.weight == 0
    then none
    else if is_empty (strip a.name)
    then none
    else if is_empty (strip a.provider)
    then none
    else if is_empty (strip a.model)
    then none
    else some (record a {
      name = strip a.name;
      provider = lower (strip a.provider);
      model = strip a.model;
    })

unfoldable pub validate_each : List ExperimentArm → Option (List ExperimentArm)
validate_each [] = some []
validate_each (a ∷ as') = elim (validate_arm a) [
  | none ↦ none
  | some b ↦ elim (validate_each as') [ none ↦ none | some bs ↦ some (b ∷ bs) ]
]

-- `sum(a.weight for a in arms)`.
unfoldable pub total_weight : List ExperimentArm → ℕ
total_weight [] = 0
total_weight (a ∷ as') = a.weight + total_weight as'

-- `len(names) != len(set(names))`: some name stands twice.
unfoldable pub has_duplicates : List Text → Bool
has_duplicates [] = false
has_duplicates (n ∷ ns) = any (text_eq n) ns || has_duplicates ns

-- `validate_arms`, after the validators of the fields.
unfoldable pub validate_arms : List ExperimentArm → Bool
unfolding has_duplicates
validate_arms arms =
    if ltb (length arms) 2
    then false
    else if has_duplicates (map (λ a. a.name) arms)
    then false
    else total_weight arms == 100

-- `ExperimentConfig.model_validate`.
unfoldable pub validate_config : ExperimentConfig → Option ExperimentConfig
validate_config c =
    if is_empty (strip c.id)
    then none
    else if ltb c.version 1
    then none
    else elim (validate_each c.arms) [
      | none ↦ none
      | some arms ↦
          if validate_arms arms then some (record c { id = strip c.id; arms = arms }) else none
    ]

abbrev pub bucket_size : ℕ
bucket_size = 10000

-- `int.from_bytes(bytes, "big")`, after the value of the bytes before.
unfoldable pub from_bytes : ℕ → List ℕ → ℕ
from_bytes acc [] = acc
from_bytes acc (b ∷ bytes) = from_bytes (acc * 256 + b) bytes

-- The loop over the arms: the first whose cumulative threshold is above the bucket, or the last.
unfoldable pub pick : ℕ → ℕ → ExperimentArm → List ExperimentArm → ExperimentArm
pick bucket cumulative fallback [] = fallback
pick bucket cumulative fallback (a ∷ as') =
    let cumulative' = cumulative + a.weight * (bucket_size / 100) in
    let rest = pick bucket cumulative' fallback as' in if ltb bucket cumulative' then a else rest

-- The text that is hashed.
unfoldable pub hash_input : Text → Text → ℕ → Text → Text
hash_input team_id experiment_id version request_id =
    team_id
    ++ (codes ":"
        ++ (experiment_id ++ (codes ":" ++ (show_nat version ++ (codes ":" ++ request_id)))))

module _ (sha256 : Text → List ℕ) where
  unfoldable pub bucket_of : Text → Text → ℕ → Text → ℕ
  unfolding from_bytes hash_input
  bucket_of team_id experiment_id version request_id =
      from_bytes 0 (take 4 (sha256 (hash_input team_id experiment_id version request_id)))
      % bucket_size

  -- `_select_arm`, on arms that are not empty: the first and the others.
  unfoldable pub select_arm :
      Text → Text → ExperimentConfig → ExperimentArm → List ExperimentArm → ExperimentAssignment
  select_arm team_id request_id e a as' =
      let bucket = bucket_of team_id e.id e.version request_id in
      let arm = pick bucket 0 (last_or a as') (a ∷ as') in
      record {
        experiment_id = e.id;
        experiment_version = e.version;
        arm_name = arm.name;
        provider = arm.provider;
        model = arm.model;
      }

  -- `ExperimentAssigner.assign`.
  unfoldable pub assign : Text → Text → Option ExperimentConfig → Option ExperimentAssignment
  unfolding select_arm
  assign team_id request_id none = none
  assign team_id request_id (some e) =
      if not e.enabled
      then none
      else elim e.arms [ [] ↦ none | a ∷ as' ↦ some (select_arm team_id request_id e a as') ]
