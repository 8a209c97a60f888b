-- ===== src/Guardrails/Run.antt =====
-- The verdict of a whole run.
use cortex_gateway.Prelude.{
  ℕ, ◌≡◌, refl, ◌⊎◌, inl, inr, Bool, true, false, ◌&&◌, ◌||◌, Option, none, some, List, [], ◌∷◌,
  ◌++◌, arith, ltb, if◌then◌else◌, Bool-cases, length, Text,
}
use cortex_gateway.Guardrails.{
  max_length_exceeded, run_pii, run_injection, check_size, is_blocked, Guardrail, prompt_size, pii,
  injection, Setting, warn, block, Pattern, GuardrailResult, GuardrailsPolicy, build_prompt,
  append_result, aggregate, empty_result, run, is_block,
}
use cortex_gateway.Guardrails.Laws.{
  returns, finds_pii, finds_phrase, exceeds, is_on, blocks, Verdict, check_pii-Verdict,
  check_injection-Verdict,
}

-- The two parts of the result that the caller reads, from the detectors' answers.
abbrev pub names_of : Bool → Bool → List Guardrail
names_of p i = (if p then pii ∷ [] else []) ++ (if i then injection ∷ [] else [])

abbrev pub action_of : Bool → Bool → Option Setting
action_of blocked fired = if blocked then some block else if fired then some warn else none

aggregate_two :
    (pa ia : Setting) (pf jf : Bool) (p i : Option GuardrailResult)
    → Verdict pii pa (is_on pa && pf) p
    → Verdict injection ia (is_on ia && jf) i
    → let r = aggregate (append_result (append_result empty_result p) i) in
      let fires = is_on pa && pf in
      let fires' = is_on ia && jf in
      (r.triggered_names ≡ names_of fires fires')
      × (r.final_action ≡ action_of ((blocks pa && pf) || (blocks ia && jf)) (fires || fires'))
unfolding aggregate append_result
aggregate_two pa ia pf jf none none v w = ground arith
aggregate_two pa ia pf jf none (some i) v w = ground arith
aggregate_two pa ia pf jf (some p) none v w = ground arith
aggregate_two pa ia pf jf (some p) (some i) v w = ground arith

run_pii_verdict :
    (found : Pattern → Text → Bool) (policy : GuardrailsPolicy) (prompt : Text)
    → let r = run_pii (returns found) policy prompt empty_result in
      let fires = is_on policy.pii_detection && finds_pii found prompt in
      let fires' = is_on policy.injection_detection && finds_phrase found prompt in
      (r.triggered_names ≡ names_of fires fires')
      × (r.final_action
          ≡ action_of
              ((blocks policy.pii_detection && finds_pii found prompt)
                || (blocks policy.injection_detection && finds_phrase found prompt))
              (fires || fires'))
unfolding run_pii run_injection
run_pii_verdict found policy prompt =
    let (p, e, v) = check_pii-Verdict found prompt policy.pii_detection in
    let (i, f, w) = check_injection-Verdict found prompt policy.injection_detection in
    rw (e, run_pii)
      (rw (f, run_injection)
        (aggregate_two policy.pii_detection policy.injection_detection (finds_pii found prompt)
          (finds_phrase found prompt) p i v w))

abbrev too_long : GuardrailResult
too_long = record {
  triggered = true;
  guardrail = prompt_size;
  action = block;
  reason_code = some max_length_exceeded;
}

size_cases :
    (limit : Option ℕ) (prompt : Text)
    → ((exceeds limit prompt ≡ true) × (check_size limit prompt ≡ some too_long))
      ⊎ ((exceeds limit prompt ≡ false) × (check_size limit prompt ≡ none))
unfolding check_size
size_cases none prompt = inr (refl, refl)
size_cases (some limit) prompt = elim (Bool-cases (ltb limit (length prompt))) [
  | inl e ↦ inl (e, rw e)
  | inr e ↦ inr (e, rw e)
]

-- If no search raises: a prompt over the size limit is blocked by that guardrail alone, with no
-- other run; otherwise exactly the detectors that are on and find a pattern are named, PII first,
-- and the action is to block if one that finds a pattern is set to block, to warn if some other
-- finds one, and none if nothing is found.
pub run-verdict :
    (found : Pattern → Text → Bool) (messages : List Text) (policy : GuardrailsPolicy)
    → let prompt = build_prompt messages in
      let r = run (returns found) messages policy in
      let over = exceeds policy.max_prompt_length prompt in
      let fires = is_on policy.pii_detection && finds_pii found prompt in
      let fires' = is_on policy.injection_detection && finds_phrase found prompt in
      (r.triggered_names ≡ (if over then prompt_size ∷ [] else names_of fires fires'))
      × (r.final_action ≡ (
          if over
          then some block
          else action_of
              ((blocks policy.pii_detection && finds_pii found prompt)
                || (blocks policy.injection_detection && finds_phrase found prompt))
              (fires || fires')))
unfolding run
run-verdict found messages policy =
    elim (size_cases policy.max_prompt_length (build_prompt messages)) [
      | inl (over, e) ↦ rw (e, run) (rw over (refl, refl))
      | inr (within, e) ↦
          rw (e, run) (rw within (run_pii_verdict found policy (build_prompt messages)))
    ]

-- That a guardrail stops the prompt: it is too long, or a detector that is set to block finds a
-- pattern in it.
abbrev pub stops : (Pattern → Text → Bool) → GuardrailsPolicy → Text → Bool
stops found policy prompt =
    exceeds policy.max_prompt_length prompt
    || ((blocks policy.pii_detection && finds_pii found prompt)
        || (blocks policy.injection_detection && finds_phrase found prompt))

blocked_action :
    (over blocked fired : Bool)
    → elim (if over then some block else action_of blocked fired) [
      | none ↦ false
      | some a ↦ is_block a
    ]
      ≡ (over || blocked)
unfolding is_block
blocked_action true blocked fired = refl
blocked_action false true fired = refl
blocked_action false false true = refl
blocked_action false false false = refl

-- A run blocks exactly the prompts that a guardrail stops, if no search raises.
pub run-stops :
    (found : Pattern → Text → Bool) (messages : List Text) (policy : GuardrailsPolicy)
    → is_blocked (run (returns found) messages policy) ≡ stops found policy (build_prompt messages)
unfolding is_blocked
run-stops found messages policy =
    let prompt = build_prompt messages in
    rw ((run-verdict found messages policy).1, is_blocked)
      (blocked_action (exceeds policy.max_prompt_length prompt)
        ((blocks policy.pii_detection && finds_pii found prompt)
          || (blocks policy.injection_detection && finds_phrase found prompt))
        ((is_on policy.pii_detection && finds_pii found prompt)
          || (is_on policy.injection_detection && finds_phrase found prompt)))
