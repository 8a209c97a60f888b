-- ===== src/Guardrails/Tests.antt =====
-- Runs of the guardrails with stand-ins for the search of the patterns.
use cortex_gateway.Prelude.{
  ◌≡◌, Bool, true, false, ◌&&◌, ◌||◌, Option, none, some, List, [], ◌∷◌, if◌then◌else◌, Text, codes,
  contains,
}
use cortex_gateway.Guardrails.{
  prompt_size, warn, block, Pattern, pii_pattern, phrase, GuardrailsPolicy, build_prompt, run,
}
use cortex_gateway.Guardrails.Laws.{returns, finds_pii, finds_phrase, exceeds, is_on, blocks}
use cortex_gateway.Guardrails.Run.{names_of, action_of, run-verdict}

-- A number of three digits, found by every pattern for PII and by no phrase.
abbrev found : Pattern → Text → Bool
found (pii_pattern code) prompt = contains (codes "123") prompt
found (phrase i) prompt = false

-- The same, with phrases whose search raises.
abbrev broken : Pattern → Text → Option Bool
broken (pii_pattern code) prompt = some true
broken (phrase i) prompt = none

abbrev policy : GuardrailsPolicy
policy = record { max_prompt_length = some 100; pii_detection = block; injection_detection = warn }

abbrev messages : List Text
messages = codes "my id" ∷ codes "is 123" ∷ []

run-verdict_example :
    ((run (returns found) messages policy).triggered_names ≡ (
      if exceeds (some 100) (build_prompt messages)
      then prompt_size ∷ []
      else names_of
          (is_on block && finds_pii found (build_prompt messages))
          (is_on warn && finds_phrase found (build_prompt messages))))
    × ((run (returns found) messages policy).final_action ≡ (
        if exceeds (some 100) (build_prompt messages)
        then some block
        else action_of
            ((blocks block && finds_pii found (build_prompt messages))
              || (blocks warn && finds_phrase found (build_prompt messages)))
            ((is_on block && finds_pii found (build_prompt messages))
              || (is_on warn && finds_phrase found (build_prompt messages)))))
run-verdict_example = run-verdict found messages policy
