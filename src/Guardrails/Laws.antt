-- ===== src/Guardrails/Laws.antt =====
-- What a run of the guardrails decides, and what an exception of a search does to it.
use cortex_gateway.Prelude.{
  ℕ, ◌≡◌, refl, inl, inr, Bool, true, false, ◌&&◌, Option, none, some, List, [], ◌∷◌, ltb,
  Bool-cases, length, any, Text,
}
use cortex_gateway.Guardrails.{
  injection_pattern, Guardrail, pii, injection, Setting, off, warn, block, ReasonCode, Pattern,
  pii_pattern, phrase, GuardrailResult, pii_patterns, injection_phrases, scan_pii, check_pii,
  scan_injection, check_injection,
}

-- A search that never raises.
abbrev pub returns : (Pattern → Text → Bool) → Pattern → Text → Option Bool
returns found p t = some (found p t)

unfoldable pub finds_pii : (Pattern → Text → Bool) → Text → Bool
finds_pii found prompt = any (λ c. found (pii_pattern c) prompt) pii_patterns

unfoldable pub finds_phrase : (Pattern → Text → Bool) → Text → Bool
finds_phrase found prompt = any (λ i. found (phrase i) prompt) injection_phrases

-- A prompt longer than the configured maximum, if there is one.
abbrev pub exceeds : Option ℕ → Text → Bool
exceeds none prompt = false
exceeds (some limit) prompt = ltb limit (length prompt)

abbrev pub is_on : Setting → Bool
is_on off = false
is_on _ = true

abbrev pub blocks : Setting → Bool
blocks block = true
blocks _ = false

-- What a detector returns: nothing, or a trigger of its own with the configured action.
abbrev pub Verdict : Guardrail → Setting → Bool → Option GuardrailResult → Type 0
Verdict g action fires none = fires ≡ false
Verdict g action fires (some r) =
    (fires ≡ true) × (r.triggered ≡ true) × (r.guardrail ≡ g) × (r.action ≡ action)

module _ (found : Pattern → Text → Bool) (prompt : Text) where
  scan_pii-Verdict :
      (action : Setting) (cs : List ReasonCode)
      → (r : Option GuardrailResult) × (scan_pii (returns found) action cs prompt ≡ some r)
        × Verdict pii action (any (λ c. found (pii_pattern c) prompt) cs) r
  unfolding scan_pii
  scan_pii-Verdict action [] = (none, refl, refl)
  scan_pii-Verdict action (c ∷ cs) = elim (Bool-cases (found (pii_pattern c) prompt)) [
    | inl e ↦ (
      some (record { triggered = true; guardrail = pii; action = action; reason_code = some c }),
      rw e,
      (rw e, refl, refl, refl),
    )
    | inr e ↦ let (r, p, v) = scan_pii-Verdict action cs in (r, rw e p, rw e v)
  ]

  scan_injection-Verdict :
      (action : Setting) (is' : List ℕ)
      → (r : Option GuardrailResult) × (scan_injection (returns found) action is' prompt ≡ some r)
        × Verdict injection action (any (λ i. found (phrase i) prompt) is') r
  unfolding scan_injection
  scan_injection-Verdict action [] = (none, refl, refl)
  scan_injection-Verdict action (i ∷ is') = elim (Bool-cases (found (phrase i) prompt)) [
    | inl e ↦ (
      some (record {
        triggered = true;
        guardrail = injection;
        action = action;
        reason_code = some injection_pattern;
      }),
      rw e,
      (rw e, refl, refl, refl),
    )
    | inr e ↦ let (r, p, v) = scan_injection-Verdict action is' in (r, rw e p, rw e v)
  ]

  pub check_pii-Verdict :
      (action : Setting)
      → (r : Option GuardrailResult) × (check_pii (returns found) action prompt ≡ some r)
        × Verdict pii action (is_on action && finds_pii found prompt) r
  unfolding check_pii finds_pii
  check_pii-Verdict off = (none, refl, refl)
  check_pii-Verdict warn = scan_pii-Verdict warn pii_patterns
  check_pii-Verdict block = scan_pii-Verdict block pii_patterns

  pub check_injection-Verdict :
      (action : Setting)
      → (r : Option GuardrailResult) × (check_injection (returns found) action prompt ≡ some r)
        × Verdict injection action (is_on action && finds_phrase found prompt) r
  unfolding check_injection finds_phrase
  check_injection-Verdict off = (none, refl, refl)
  check_injection-Verdict warn = scan_injection-Verdict warn injection_phrases
  check_injection-Verdict block = scan_injection-Verdict block injection_phrases
