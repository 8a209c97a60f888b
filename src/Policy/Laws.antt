-- ===== src/Policy/Laws.antt =====
-- What a stored policy resolves to.
use cortex_gateway.Prelude.{
  lookup-insert, remove, lookup-remove_self, ◌≡◌, refl, inl, inr, Bool, true, false, Option, none,
  some, arith, if◌then◌else◌, Bool-cases, Option-cases, is_empty, lookup, insert, Text, upper,
  strip, text_eq, char_upper, lstrip, rstrip, is_space,
}
use mathlib.Core.Option
use cortex_gateway.Experiment.{ExperimentConfig, validate_config}
use cortex_gateway.Experiment.Validation.{validate_config_idem}
use cortex_gateway.Guardrails.{GuardrailsPolicy, Setting, off, warn, block}
use cortex_gateway.Routing.Models.{
  RoutingMode, manual, auto, lowest_cost, lowest_latency, best_available, capability_based,
}
use cortex_gateway.Policy.{
  BudgetAction, block_action, warn_action, downgrade_action, RawPolicy, RawGuardrails,
  TeamPolicyInput, TeamPolicyRow, Table, global_default_policy, strategy_of, strategy_text,
  action_of, action_text, setting_of, setting_text, with_default, or_default, optional,
  validate_guardrails, model_validate, model_dump, get_policy_model, get_policy_dict, upsert_policy,
  delete_policy, merge_input, merge, resolve_stored, resolve, ◌>>=◌,
}

strategy_of-strategy_text : (m : RoutingMode) → strategy_of (strategy_text m) ≡ some m
unfolding strategy_of strategy_text
strategy_of-strategy_text manual = refl
strategy_of-strategy_text auto = refl
strategy_of-strategy_text lowest_cost = refl
strategy_of-strategy_text lowest_latency = refl
strategy_of-strategy_text best_available = refl
strategy_of-strategy_text capability_based = refl

action_of-action_text : (a : BudgetAction) → action_of (action_text a) ≡ some a
unfolding action_of action_text upper char_upper strip lstrip rstrip is_space
action_of-action_text block_action = refl
action_of-action_text warn_action = refl
action_of-action_text downgrade_action = refl

setting_of-setting_text : (s : Setting) → setting_of (setting_text s) ≡ some s
unfolding setting_of setting_text
setting_of-setting_text off = refl
setting_of-setting_text warn = refl
setting_of-setting_text block = refl

-- An experiment that validation leaves as it is, if there is one.
abbrev pub IsSettled : Option ExperimentConfig → Type 0
IsSettled none = Unit
IsSettled (some e) = validate_config e ≡ some e

optional-some :
    {A B : Type 0} (validate : A → Option B) (a : A) (b : B)
    → validate a ≡ some b
    → optional validate (some a) ≡ some (some b)
unfolding optional
optional-some validate a b h = rw (h, optional) refl

-- A section that its validator reads back.
optional-map :
    {A B : Type 0} (validate : A → Option B) (dump : B → A)
    → ((b : B) → validate (dump b) ≡ some b)
    → (o : Option B) → optional validate (Option.map dump o) ≡ some o
unfolding optional
optional-map validate dump h none = refl
optional-map validate dump h (some b) = optional-some validate (dump b) b (h b)

optional-experiment :
    (e : Option ExperimentConfig) → IsSettled e → optional validate_config e ≡ some e
unfolding optional
optional-experiment none h = refl
optional-experiment (some e) h = optional-some validate_config e e h

-- What is stored for guardrails.
abbrev dump_guardrails : GuardrailsPolicy → RawGuardrails
dump_guardrails g = record {
  max_prompt_length = g.max_prompt_length;
  pii_detection = some (setting_text g.pii_detection);
  injection_detection = some (setting_text g.injection_detection);
}

validate-dump_guardrails : (g : GuardrailsPolicy) → validate_guardrails (dump_guardrails g) ≡ some g
unfolding validate_guardrails with_default
validate-dump_guardrails g =
    rw (setting_of-setting_text g.pii_detection, validate_guardrails)
      (rw (setting_of-setting_text g.injection_detection, validate_guardrails) refl)

map-or_default :
    (d : Bool) (b : Option Bool) → Option.map (or_default d) (Option.map (λ x. some x) b) ≡ b
unfolding or_default
map-or_default d none = refl
map-or_default d (some b) = refl

model_validate-dump :
    (p : TeamPolicyInput) → IsSettled p.experiment → model_validate (model_dump p) ≡ some p
unfolding model_validate model_dump ◌>>=◌ with_default
model_validate-dump p h =
    rw
      (
        optional-map (with_default strategy_of auto) (λ m. some (strategy_text m))
            strategy_of-strategy_text p.routing,
        ◌>>=◌,
      )
      (rw
        (
          optional-map (with_default action_of block_action) (λ a. some (action_text a))
              action_of-action_text p.budget,
          ◌>>=◌,
        )
        (rw (optional-experiment p.experiment h, ◌>>=◌)
          (rw
            (
              optional-map validate_guardrails dump_guardrails validate-dump_guardrails
                  p.guardrails,
              ◌>>=◌,
            )
            (rw (map-or_default true p.fallback, map-or_default false p.cache) refl))))

optional-IsSettled :
    (raw e : Option ExperimentConfig) → optional validate_config raw ≡ some e → IsSettled e
unfolding optional
optional-IsSettled none none h = tt
optional-IsSettled none (some e) h = ground (arith, h)
optional-IsSettled (some c) none h = tt
optional-IsSettled (some c) (some e) h = elim (Option-cases (validate_config c)) [
  | inl n ↦ absurd (ground (arith, rw (n, optional) at h))
  | inr (d, k) ↦
      let same : d ≡ e = ground (arith, rw (k, optional) at h) in
      rw (← same) (validate_config_idem c d k)
]

model_validate-IsSettled :
    (raw : RawPolicy) (p : TeamPolicyInput) → model_validate raw ≡ some p → IsSettled p.experiment
unfolding model_validate ◌>>=◌
model_validate-IsSettled raw p h =
    optional-IsSettled raw.experiment p.experiment (ground (arith, h))

-- The table behind a look-up for an enabled row.
get_policy_dict-insert :
    (db : Table) (team_id other : Text) (raw : RawPolicy)
    → get_policy_dict (insert team_id (record { policy = raw; enabled = true }) db) other
      ≡ (if text_eq team_id other then some raw else get_policy_dict db other)
unfolding get_policy_dict get_policy_model
get_policy_dict-insert db team_id other raw =
    let row : TeamPolicyRow = record { policy = raw; enabled = true } in
    elim (Bool-cases (text_eq team_id other)) [
      | inl e ↦
          let found : lookup other (insert team_id row db) ≡ some row =
            rw lookup-insert (rw e refl) in
          rw e (rw (found, get_policy_model) refl)
      | inr e ↦
          let found : lookup other (insert team_id row db) ≡ lookup other db =
            rw lookup-insert (rw e refl) in
          rw e (rw (found, get_policy_model) refl)
    ]

resolve_of :
    (db : Table) (team_id : Text)
    → is_empty team_id ≡ false
    → resolve (some db) (some team_id) ≡ resolve_stored (get_policy_dict db team_id)
unfolding resolve
resolve_of db team_id h = ground (arith, h)

merge-dump : (p : TeamPolicyInput) → IsSettled p.experiment → merge (model_dump p) ≡ merge_input p
unfolding merge
merge-dump p h = rw (model_validate-dump p h, merge) refl

-- A valid policy that is stored for a team, by way of its JSON and of a second validation, is what
-- the team's requests resolve to: its sections on top of the defaults. What every other team
-- resolves to stays as it was.
pub resolve-upsert :
    (db : Table) (team_id other : Text) (raw : RawPolicy) (p : TeamPolicyInput)
    → model_validate raw ≡ some p
    → is_empty other ≡ false
    → resolve (some (upsert_policy db team_id p)) (some other)
      ≡ (if text_eq team_id other then merge_input p else resolve (some db) (some other))
unfolding upsert_policy
resolve-upsert db team_id other raw p h n =
    rw
      (
        resolve_of (insert team_id _ db) other n,
        resolve_of db other n,
        get_policy_dict-insert db team_id other (model_dump p),
      )
      (elim (Bool-cases (text_eq team_id other)) [
        | inl e ↦ rw e (unfold resolve_stored in merge-dump p (model_validate-IsSettled raw p h))
        | inr e ↦ rw e refl
      ])

get_policy_dict-delete :
    (db : Table) (team_id : Text) → get_policy_dict (delete_policy db team_id).0 team_id ≡ none
unfolding get_policy_dict delete_policy
get_policy_dict-delete db team_id = elim (Option-cases (get_policy_model db team_id)) [
  | inl n ↦ rw (n, delete_policy) (rw n refl)
  | inr (r, e) ↦
      let gone : get_policy_model (remove team_id db) team_id ≡ none =
        unfold get_policy_model in rw (lookup-remove_self team_id db, get_policy_model) refl in
      rw (e, delete_policy) (rw gone refl)
]

-- Behind the deletion of its policy a team resolves to the global default, whether there was
-- an enabled policy, a disabled one or none.
pub resolve-delete :
    (db : Table) (team_id : Text)
    → resolve (some (delete_policy db team_id).0) (some team_id) ≡ global_default_policy
unfolding resolve
resolve-delete db team_id = rw get_policy_dict-delete (elim (Bool-cases (is_empty team_id)) [
  | inl e ↦ rw e refl
  | inr e ↦ rw e (unfold resolve_stored in refl)
])
