-- ===== src/Retry.antt =====
-- `RetryPolicy` of backend/app/reliability/retry.py. Times are whole numbers of ticks, a thousand of
-- which are the 0.0001 s to which a delay is rounded; the draw of `random.uniform(0.0, 0.15 * capped)`
-- is an argument.
pub mod Tests
use cortex_gateway.Prelude.{
  list-cases, lookup-insert, then_by_both, In-uncons, SameMembers, keep-SameMembers, map-In, In-map,
  map-SameMembers, then_by, lex, IsOrder, lex-IsOrder, some-injective, remove, lookup-remove_self,
  take, ℕ, zero, suc, ◌+◌, ◌-◌, ◌*◌, ◌/◌, ◌%◌, ◌≤◌, ◌<◌, ◌≡◌, refl, sym, ap, ◌∙◌, ◌≢◌, ◌↔◌, ◌⊎◌,
  inl, inr, Bool, true, false, not, ◌&&◌, ◌||◌, Option, none, some, List, [], ◌∷◌, ◌++◌, map, arith,
  ltb, leb, ◌==◌, if◌then◌else◌, is_some, ltb→lt, lt→ltb, leb→le, le→leb, ltb-false, leb-false,
  ==_iff, ==_refl, tests, Bool-cases, Option-cases, and_true, length, replicate, keep, any, all,
  is_empty, last_or, head, All, In, here, there, length-append, length-keep-le, In-keep, keep-In,
  All-In, Dict, lookup, insert, map_values, dict_keys, lookup-insert_self, lookup-insert_ne,
  lookup-map_values, Text, codes, lower, upper, strip, before_colon, starts_with, contains,
  show_nat, text_leb, normalize, text_eq, text_eq_iff, text_eq_refl, text_eq_sym, text_eq-false,
  lower_idem, strip_idem, lower-strip, normalize_idem, text_leb_total, text_leb_trans,
  text_leb_antisym,
}
use native.Mathlib.Nat.{pow-le-pow_right, mul-le-mul_left}
use Prim.Native.Nat.{min, ◌^◌}

pub record RetryPolicy : Type 0 where
  pub max_retries : ℕ
  pub base_delay : ℕ
  pub max_delay : ℕ
  pub jitter : Bool

unfoldable pub capped_delay : RetryPolicy → ℕ → ℕ
capped_delay p retry_attempt = min p.max_delay (p.base_delay * 2 ^ retry_attempt)

-- `round(delay, 4)`: the nearest multiple of a thousand ticks, of two the one that is even.
unfoldable pub round_delay : ℕ → ℕ
round_delay delay =
    let whole = delay / 1000 in
    let rest = delay % 1000 in
    if ltb rest 500 || (rest == 500 && whole % 2 == 0) then whole * 1000 else (whole + 1) * 1000

unfoldable pub compute_delay : RetryPolicy → ℕ → ℕ → ℕ
unfolding capped_delay round_delay
compute_delay p retry_attempt jitter_amount = round_delay (
    if p.jitter
    then min p.max_delay (capped_delay p retry_attempt + jitter_amount)
    else capped_delay p retry_attempt)

-- A delay lies within half a step of the exponential backoff and of the maximum, which both may
-- be left by the rounding; it exceeds the backoff by no more than the jitter and that half step.
pub compute_delay_bounds :
    (p : RetryPolicy) (n j : ℕ)
    → (compute_delay p n j ≤ p.max_delay + 500)
      × (capped_delay p n ≤ compute_delay p n j + 500)
      × (compute_delay p n j ≤ capped_delay p n + (if p.jitter then j else 0) + 500)
unfolding compute_delay capped_delay round_delay
compute_delay_bounds p n j = ground arith

-- The backoff never falls from one retry to a later one.
pub capped_delay_mono : (p : RetryPolicy) (m n : ℕ) → m ≤ n → capped_delay p m ≤ capped_delay p n
unfolding capped_delay
capped_delay_mono p m n h =
    omega (arith, mul-le-mul_left p.base_delay (pow-le-pow_right {n = 2} (omega arith) h))
