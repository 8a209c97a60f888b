-- ===== src/Policy/Tests.antt =====
-- A stored policy at a concrete team.
use cortex_gateway.Prelude.{
  ◌≡◌, refl, false, none, some, [], if◌then◌else◌, codes, upper, strip, text_eq, rstrip, lstrip,
  is_space, char_upper,
}
use cortex_gateway.Policy.{
  ◌>>=◌, RawPolicy, TeamPolicyInput, warn_action, model_validate, merge_input, upsert_policy,
  resolve,
}
use cortex_gateway.Guardrails.{off, block}
use cortex_gateway.Routing.Models.{lowest_cost}
use cortex_gateway.Policy.Laws.{resolve-upsert}

abbrev stored : RawPolicy
stored = record {
  routing = some (some (codes "lowest_cost"));
  fallback = none;
  budget = some (some (codes " warn "));
  cache = some none;
  experiment = none;
  guardrails = some (record {
    max_prompt_length = none;
    pii_detection = some (codes "block");
    injection_detection = none;
  });
  extra = [];
}

abbrev input : TeamPolicyInput
input = record {
  routing = some lowest_cost;
  fallback = none;
  budget = some warn_action;
  cache = some false;
  experiment = none;
  guardrails =
      some (record { max_prompt_length = none; pii_detection = block; injection_detection = off });
}

stored_valid : model_validate stored ≡ some input
unfolding model_validate ◌>>=◌ upper strip rstrip lstrip is_space char_upper
stored_valid = refl

resolve-upsert_example : resolve (some (upsert_policy [] (codes "t") input)) (some (codes "t")) ≡ (
    if text_eq (codes "t") (codes "t")
    then merge_input input
    else resolve (some []) (some (codes "t")))
resolve-upsert_example = resolve-upsert [] (codes "t") (codes "t") stored input stored_valid refl
