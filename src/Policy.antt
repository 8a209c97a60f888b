-- ===== src/Policy.antt =====
-- Team policies: the sections of backend/app/policy/schemas.py with their validators,
-- `PolicyService` of backend/app/policy/service.py and `PolicyResolver` of
-- backend/app/policy/resolver.py. A stored policy is the JSON object of a row: its sections with the
-- fields that are there, and the names of other sections; a value that is not of the type of its
-- field is left out of the model. The table holds one row for a team at most. An exception of the
-- database is none for the whole table. The columns `created_at` and `updated_at` are left out.
pub mod Laws
pub mod Tests
use cortex_gateway.Prelude.{
  remove, ℕ, Bool, true, false, not, Option, none, some, List, [], map, if◌then◌else◌, is_empty,
  Dict, lookup, insert, Text, codes, upper, strip, text_eq,
}
use mathlib.Core.Option
use cortex_gateway.Experiment.{ExperimentConfig, validate_config}
use cortex_gateway.Guardrails.{GuardrailsPolicy, Setting, off, warn, block}
use cortex_gateway.Routing.Models.{
  RoutingMode, manual, auto, lowest_cost, lowest_latency, best_available, capability_based,
}

pub data BudgetAction : Type 0 where
  block_action warn_action downgrade_action : BudgetAction

-- The sections of a stored policy; a field that is not there is none.
pub record RawGuardrails : Type 0 where
  pub max_prompt_length : Option ℕ
  pub pii_detection : Option Text
  pub injection_detection : Option Text

pub record RawPolicy : Type 0 where
  pub routing : Option (Option Text)
  pub fallback : Option (Option Bool)
  pub budget : Option (Option Text)
  pub cache : Option (Option Bool)
  pub experiment : Option ExperimentConfig
  pub guardrails : Option RawGuardrails
  pub extra : List Text

-- A section with one field is the value of that field.
pub record TeamPolicyInput : Type 0 where
  pub routing : Option RoutingMode
  pub fallback : Option Bool
  pub budget : Option BudgetAction
  pub cache : Option Bool
  pub experiment : Option ExperimentConfig
  pub guardrails : Option GuardrailsPolicy

pub data Source : Type 0 where
  global team : Source

pub record ResolvedPolicy : Type 0 where
  pub routing : RoutingMode
  pub fallback : Bool
  pub budget : BudgetAction
  pub cache : Bool
  pub source : Source
  pub experiment : Option ExperimentConfig
  pub guardrails : GuardrailsPolicy

abbrev pub no_guardrails : GuardrailsPolicy
no_guardrails = record { max_prompt_length = none; pii_detection = off; injection_detection = off }

-- `GLOBAL_DEFAULT_POLICY`.
abbrev pub global_default_policy : ResolvedPolicy
global_default_policy = record {
  routing = auto;
  fallback = true;
  budget = block_action;
  cache = false;
  source = global;
  experiment = none;
  guardrails = no_guardrails;
}

-- The members of the literal type of `strategy`.
unfoldable pub strategy_of : Text → Option RoutingMode
strategy_of t =
    if text_eq t (codes "manual")
    then some manual
    else if text_eq t (codes "auto")
    then some auto
    else if text_eq t (codes "lowest_cost")
    then some lowest_cost
    else if text_eq t (codes "lowest_latency")
    then some lowest_latency
    else if text_eq t (codes "best_available")
    then some best_available
    else if text_eq t (codes "capability_based")
    then some capability_based
    else none

unfoldable pub strategy_text : RoutingMode → Text
strategy_text manual = codes "manual"
strategy_text auto = codes "auto"
strategy_text lowest_cost = codes "lowest_cost"
strategy_text lowest_latency = codes "lowest_latency"
strategy_text best_available = codes "best_available"
strategy_text capability_based = codes "capability_based"

-- The members of the literal type of `action`, behind `normalise_action`.
unfoldable pub action_of : Text → Option BudgetAction
action_of t =
    let action = upper (strip t) in
    if text_eq action (codes "BLOCK")
    then some block_action
    else if text_eq action (codes "WARN")
    then some warn_action
    else if text_eq action (codes "DOWNGRADE")
    then some downgrade_action
    else none

unfoldable pub action_text : BudgetAction → Text
action_text block_action = codes "BLOCK"
action_text warn_action = codes "WARN"
action_text downgrade_action = codes "DOWNGRADE"

unfoldable pub setting_of : Text → Option Setting
setting_of t =
    if text_eq t (codes "off")
    then some off
    else if text_eq t (codes "warn")
    then some warn
    else if text_eq t (codes "block")
    then some block
    else none

unfoldable pub setting_text : Setting → Text
setting_text off = codes "off"
setting_text warn = codes "warn"
setting_text block = codes "block"

-- A field with a default: none is a validation error.
unfoldable pub with_default {ℓ} : {A : Type ℓ} → (Text → Option A) → A → Option Text → Option A
with_default read default none = some default
with_default read default (some t) = read t

unfoldable pub or_default {ℓ} : {A : Type ℓ} → A → Option A → A
or_default default none = default
or_default default (some a) = a

-- A section that may be missing, with the validator of its content.
unfoldable pub optional {ℓ κ} :
    {A : Type ℓ} {B : Type κ} → (A → Option B) → Option A → Option (Option B)
optional validate none = some none
optional validate (some a) = elim (validate a) [ none ↦ none | some b ↦ some (some b) ]

unfoldable pub validate_guardrails : RawGuardrails → Option GuardrailsPolicy
unfolding with_default setting_of
validate_guardrails g = elim (with_default setting_of off g.pii_detection) [
  | none ↦ none
  | some p ↦ elim (with_default setting_of off g.injection_detection) [
    | none ↦ none
    | some i ↦ some (record {
      max_prompt_length = g.max_prompt_length;
      pii_detection = p;
      injection_detection = i;
    })
  ]
]

infixl 5 ◌>>=◌
unfoldable pub ◌>>=◌ : {A B : Type 0} → Option A → (A → Option B) → Option B
none >>= f = none
some a >>= f = f a

-- `TeamPolicyInput.model_validate`; other sections are forbidden.
unfoldable pub model_validate : RawPolicy → Option TeamPolicyInput
unfolding optional with_default strategy_of action_of or_default validate_guardrails
model_validate raw = optional (with_default strategy_of auto) raw.routing >>= λ routing.
    optional (with_default action_of block_action) raw.budget >>= λ budget.
    optional validate_config raw.experiment >>= λ experiment.
    optional validate_guardrails raw.guardrails >>= λ guardrails.
    if not (is_empty raw.extra)
    then none
    else some (record {
      routing = routing;
      fallback = Option.map (or_default true) raw.fallback;
      budget = budget;
      cache = Option.map (or_default false) raw.cache;
      experiment = experiment;
      guardrails = guardrails;
    })

-- `model_dump(exclude_none=True)`.
unfoldable pub model_dump : TeamPolicyInput → RawPolicy
unfolding strategy_text action_text setting_text
model_dump p = record {
  routing = Option.map (λ m. some (strategy_text m)) p.routing;
  fallback = Option.map (λ b. some b) p.fallback;
  budget = Option.map (λ a. some (action_text a)) p.budget;
  cache = Option.map (λ b. some b) p.cache;
  experiment = p.experiment;
  guardrails =
      Option.map
        (λ (g : GuardrailsPolicy). record {
          max_prompt_length = g.max_prompt_length;
          pii_detection = some (setting_text g.pii_detection);
          injection_detection = some (setting_text g.injection_detection);
        })
        p.guardrails;
  extra = [];
}

pub record TeamPolicyRow : Type 0 where
  pub policy : RawPolicy
  pub enabled : Bool

abbrev pub Table : Type 0
Table = Dict TeamPolicyRow

-- `get_policy_model`: the row, where it is enabled.
unfoldable pub get_policy_model : Table → Text → Option TeamPolicyRow
get_policy_model db team_id = elim (lookup team_id db) [
  | none ↦ none
  | some row ↦ if row.enabled then some row else none
]

unfoldable pub get_policy_dict : Table → Text → Option RawPolicy
unfolding get_policy_model
get_policy_dict db team_id =
    Option.map (λ (r : TeamPolicyRow). r.policy) (get_policy_model db team_id)

unfoldable pub upsert_policy : Table → Text → TeamPolicyInput → Table
unfolding model_dump
upsert_policy db team_id p = insert team_id (record { policy = model_dump p; enabled = true }) db

unfoldable pub delete_policy : Table → Text → Table × Bool
unfolding get_policy_model
delete_policy db team_id = elim (get_policy_model db team_id) [
  | none ↦ (db, false)
  | some row ↦ (remove team_id db, true)
]

-- The sections of a team on top of the defaults.
unfoldable pub merge_input : TeamPolicyInput → ResolvedPolicy
unfolding or_default
merge_input p = record {
  routing = or_default global_default_policy.routing p.routing;
  fallback = or_default global_default_policy.fallback p.fallback;
  budget = or_default global_default_policy.budget p.budget;
  cache = or_default global_default_policy.cache p.cache;
  source = team;
  experiment = p.experiment;
  guardrails = or_default global_default_policy.guardrails p.guardrails;
}

-- `_merge`: a stored policy that is not valid counts as none.
unfoldable pub merge : RawPolicy → ResolvedPolicy
unfolding model_validate merge_input
merge raw = elim (model_validate raw) [ none ↦ global_default_policy | some p ↦ merge_input p ]

unfoldable pub resolve_stored : Option RawPolicy → ResolvedPolicy
unfolding merge
resolve_stored none = global_default_policy
resolve_stored (some raw) = merge raw

-- `resolve`; the table is none if the database fails.
unfoldable pub resolve : Option Table → Option Text → ResolvedPolicy
unfolding get_policy_dict resolve_stored
resolve db none = global_default_policy
resolve none (some team_id) = global_default_policy
resolve (some db) (some team_id) =
    if is_empty team_id then global_default_policy else resolve_stored (get_policy_dict db team_id)
