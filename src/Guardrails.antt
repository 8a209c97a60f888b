-- ===== src/Guardrails.antt =====
-- The guardrails on a prompt: backend/app/guardrails/base.py, prompt_size.py, pii.py, injection.py
-- and runner.py, with `GuardrailsPolicy` of backend/app/policy/schemas.py.
-- `re` of Python searches the compiled patterns: `search` is a parameter, which takes a pattern and
-- the prompt, and returns none if it raises. Python's exceptions in `run` come from it alone.
pub mod Laws
pub mod Tests
pub mod Run
use cortex_gateway.Prelude.{
  ℕ, ◌+◌, Bool, true, false, not, Option, none, some, List, [], ◌∷◌, ◌++◌, ltb, if◌then◌else◌,
  length, any, is_empty, Text, codes,
}

pub data Guardrail : Type 0 where
  prompt_size pii injection : Guardrail

-- `Literal["off", "warn", "block"]`.
pub data Setting : Type 0 where
  off warn block : Setting

pub data ReasonCode : Type 0 where
  max_length_exceeded email_address phone_number ssn credit_card injection_pattern : ReasonCode

-- The compiled patterns, `_PATTERNS` and `_INJECTION_PHRASES`, by name and by position.
pub data Pattern : Type 0 where
  pii_pattern : ReasonCode → Pattern
  phrase : ℕ → Pattern

pub record GuardrailResult : Type 0 where
  pub triggered : Bool
  pub guardrail : Guardrail
  pub action : Setting
  pub reason_code : Option ReasonCode

pub record GuardrailRunResult : Type 0 where
  pub triggered_names : List Guardrail
  pub final_action : Option Setting
  pub results : List GuardrailResult

pub record GuardrailsPolicy : Type 0 where
  pub max_prompt_length : Option ℕ
  pub pii_detection : Setting
  pub injection_detection : Setting

-- `PromptSizeGuardrail(max_chars).check(prompt)`.
unfoldable pub check_size : Option ℕ → Text → Option GuardrailResult
check_size none prompt = none
check_size (some limit) prompt =
    if ltb limit (length prompt)
    then some (record {
      triggered = true;
      guardrail = prompt_size;
      action = block;
      reason_code = some max_length_exceeded;
    })
    else none

abbrev pub pii_patterns : List ReasonCode
pii_patterns = email_address ∷ phone_number ∷ ssn ∷ credit_card ∷ []

-- The positions of the twelve phrases.
abbrev pub injection_phrases : List ℕ
injection_phrases = 0 ∷ 1 ∷ 2 ∷ 3 ∷ 4 ∷ 5 ∷ 6 ∷ 7 ∷ 8 ∷ 9 ∷ 10 ∷ 11 ∷ []

-- What a computation returns, or none if it raised.
infixl 5 ◌>>=◌
abbrev pub ◌>>=◌ : {A B : Type 0} → Option A → (A → Option B) → Option B
none >>= f = none
some a >>= f = f a

module _ (search : Pattern → Text → Option Bool) where
  -- The loop of `PiiGuardrail.check`: the first pattern that matches.
  unfoldable pub scan_pii : Setting → List ReasonCode → Text → Option (Option GuardrailResult)
  scan_pii action [] prompt = some none
  scan_pii action (code ∷ codes') prompt =
      let rest = scan_pii action codes' prompt in
      search (pii_pattern code) prompt >>= λ found.
      if found
      then some (
          some (record {
            triggered = true;
            guardrail = pii;
            action = action;
            reason_code = some code;
          }))
      else rest

  unfoldable pub check_pii : Setting → Text → Option (Option GuardrailResult)
  check_pii off prompt = some none
  check_pii warn prompt = scan_pii warn pii_patterns prompt
  check_pii block prompt = scan_pii block pii_patterns prompt

  -- The loop of `InjectionGuardrail.check`.
  unfoldable pub scan_injection : Setting → List ℕ → Text → Option (Option GuardrailResult)
  scan_injection action [] prompt = some none
  scan_injection action (i ∷ is') prompt =
      let rest = scan_injection action is' prompt in
      search (phrase i) prompt >>= λ found.
      if found
      then some (
          some (record {
            triggered = true;
            guardrail = injection;
            action = action;
            reason_code = some injection_pattern;
          }))
      else rest

  unfoldable pub check_injection : Setting → Text → Option (Option GuardrailResult)
  check_injection off prompt = some none
  check_injection warn prompt = scan_injection warn injection_phrases prompt
  check_injection block prompt = scan_injection block injection_phrases prompt

-- `" ".join(m.content for m in messages)`.
unfoldable pub build_prompt : List Text → Text
build_prompt [] = []
build_prompt (m ∷ []) = m
build_prompt (m ∷ n ∷ ms) = m ++ (32 ∷ build_prompt (n ∷ ms))

-- `if result is not None and result.triggered`: the two appends.
unfoldable pub append_result : GuardrailRunResult → Option GuardrailResult → GuardrailRunResult
append_result r none = r
append_result r (some g) =
    if g.triggered
    then record r {
      triggered_names = r.triggered_names ++ g.guardrail ∷ [];
      results = r.results ++ g ∷ [];
    }
    else r

is_block : Setting → Bool
is_block block = true
is_block _ = false

-- `Aggregate final action`.
unfoldable pub aggregate : GuardrailRunResult → GuardrailRunResult
unfolding is_block
aggregate r =
    if any (λ g. is_block g.action) r.results
    then record r { final_action = some block }
    else if not (is_empty r.results)
    then record r { final_action = some warn }
    else r

abbrev pub empty_result : GuardrailRunResult
empty_result = record { triggered_names = []; final_action = none; results = [] }

module _ (search : Pattern → Text → Option Bool) where
  -- From the injection check on; an exception leaves the result as it is.
  unfoldable pub run_injection : GuardrailsPolicy → Text → GuardrailRunResult → GuardrailRunResult
  unfolding append_result aggregate
  run_injection policy prompt r = elim (check_injection search policy.injection_detection prompt) [
    | none ↦ r
    | some result ↦ aggregate (append_result r result)
  ]

  -- From the PII check on.
  unfoldable pub run_pii : GuardrailsPolicy → Text → GuardrailRunResult → GuardrailRunResult
  unfolding append_result
  run_pii policy prompt r = elim (check_pii search policy.pii_detection prompt) [
    | none ↦ r
    | some result ↦ run_injection policy prompt (append_result r result)
  ]

  -- `GuardrailRunner.run`, on the contents of the request's messages.
  unfoldable pub run : List Text → GuardrailsPolicy → GuardrailRunResult
  unfolding append_result
  run messages policy =
      let prompt = build_prompt messages in
      elim (check_size policy.max_prompt_length prompt) [
        | none ↦ run_pii policy prompt empty_result
        | some g ↦
            if g.triggered
            then record (append_result empty_result (some g)) { final_action = some block }
            else run_pii policy prompt empty_result
      ]

unfoldable pub is_blocked : GuardrailRunResult → Bool
unfolding is_block
is_blocked r = elim r.final_action [ none ↦ false | some a ↦ is_block a ]
