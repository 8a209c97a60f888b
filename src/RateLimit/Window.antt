-- ===== src/RateLimit/Window.antt =====
-- How many requests of a scope pass in one window.
use Prim.Native.Nat.{min, ℕ}
use native.Mathlib.Nat.{lt-div-mul-add}
use cortex_gateway.Prelude.{
  ◌+◌, ◌-◌, ◌*◌, ◌/◌, ◌≤◌, ◌<◌, ◌≡◌, ap, ◌∙◌, inl, inr, true, some, arith, ◌==◌, if◌then◌else◌,
  leb→le, Bool-cases,
}
use cortex_gateway.Floats.{Floats, f1}
use cortex_gateway.RateLimit.{
  Counters, count_of, Scope, window_start, window_key, effective_count, script, verdict,
  check_scope,
}
use cortex_gateway.Prelude.{Text}

module _ (fl : Floats) (redis : Counters) where
  open fl use {F, lit, le, add, sub, mul, div, ceil}
  open redis use {Store, answers, get}

  -- The effective count is not below the count of the current window.
  curr-le-effective :
      (prev curr window elapsed : ℕ)
      → elapsed ≤ window * 1000
      → min curr 9007199254740992 ≤ effective_count fl redis prev curr window elapsed
  unfolding effective_count
  curr-le-effective prev curr window elapsed h =
      let fraction = div (lit elapsed 1000) (lit window 1) in
      let weight = sub (f1 fl) fraction in
      let unit : le fraction (f1 fl) ≡ true =
        fl.div_unit _ _ (fl.lit_nonneg elapsed 1000 (omega arith))
          (fl.lit_mono elapsed window 1000 (omega arith) h) in
      let positive : le (lit 0 1) (lit prev 1) ≡ true =
        fl.lit_mono 0 prev 1 (omega arith) (omega arith) in
      let product =
        fl.mul_nonneg (lit prev 1) weight positive (fl.sub_nonneg fraction (f1 fl) unit) in
      fl.ceil_lower curr _ (fl.add_nonneg _ (lit curr 1) product)

  -- The time within its window.
  elapsed_bound :
      (window now : ℕ) → 0 < window → now - window_start window now * 1000 ≤ window * 1000
  unfolding window_start
  elapsed_bound window now p = omega (arith, lt-div-mul-add {a = now / 1000} p)

  -- The script: the counter of its first key grows by one, and its answer is not below it.
  script_step :
      (curr_key prev_key : Text) (window elapsed : ℕ) (s : Store)
      → 0 < window
      → elapsed ≤ window * 1000
      → let (count, ttl', s') = script fl redis curr_key prev_key window elapsed s in
        (count_of (get curr_key s') ≡ count_of (get curr_key s) + 1)
        × (min (count_of (get curr_key s) + 1) 9007199254740992 ≤ count)
  unfolding script
  script_step curr_key prev_key window elapsed s p h =
      let (n, counted) = redis.incr curr_key s in
      let c : n ≡ count_of (get curr_key s) + 1 = redis.incr_count curr_key s in
      let g = redis.get-incr curr_key s in
      let e = redis.get-expire curr_key curr_key (window * 2) counted (omega arith) in
      let low = λ (prev : ℕ). curr-le-effective prev n window elapsed h in
      let kept : get curr_key
            (if n == 1 then redis.expire curr_key (window * 2) counted else counted)
          ≡ some n =
        elim (Bool-cases (n == 1)) [ inl one ↦ rw one (e ∙ g) | inr more ↦ rw more g ] in
      (ap count_of kept ∙ c, rw (← c) (low _))

  -- One check that is answered: the counter of its window grows by one, and if it passes the new
  -- count is within the limit.
  check_scope_step :
      (scope : Scope) (id : Text) (limit window now start : ℕ) (s : Store)
      → 0 < window
      → window_start window now ≡ start
      → answers s ≡ true
      → limit < 9007199254740992
      → let r = check_scope fl redis true scope id limit window now s in
        let k = window_key scope id start in
        (count_of (get k r.1) ≡ count_of (get k s) + 1)
        × (r.0.allowed ≡ true → count_of (get k s) + 1 ≤ limit)
  unfolding check_scope verdict
  check_scope_step scope id limit window now start s p e a small =
      let (grows, low) =
        script_step (window_key scope id start) (window_key scope id (start - window)) window
          (now - start * 1000) s p (rw (← e) (elapsed_bound window now p)) in
      rw a (rw e (grows, λ ok. let fits = leb→le _ _ ok in omega (arith, fits, low)))

  -- What happens to the counter of a scope in the window that starts at `start`: checks of the
  -- scope within the window, of which `n` passed, and anything else that leaves the counter alone.
  pub data Run (scope : Scope) (id : Text) (limit window start : ℕ) (s : Store)
      : ℕ → Store → Type 0 where
    begins : Run scope id limit window start s 0 s
    checks :
        {n : ℕ} {t : Store} (now : ℕ)
        → Run scope id limit window start s n t
        → window_start window now ≡ start
        → answers t ≡ true
        → Run scope id limit window start s
            (if (check_scope fl redis true scope id limit window now t).0.allowed then n + 1 else n)
            (check_scope fl redis true scope id limit window now t).1
    other :
        {n : ℕ} {t u : Store}
        → Run scope id limit window start s n t
        → get (window_key scope id start) u ≡ get (window_key scope id start) t
        → Run scope id limit window start s n u

  Run-counted :
      {scope : Scope} {id : Text} {limit window start : ℕ} {s : Store} {n : ℕ} {t : Store}
      → Run scope id limit window start s n t
      → 0 < window
      → limit < 9007199254740992
      → (n ≤ limit) × (n ≤ count_of (get (window_key scope id start) t))
  Run-counted begins p small = (omega arith, omega arith)
  Run-counted {scope} {id} {limit} {window} {start} (checks {n} {t} now r e a) p small =
      let (low, counted) = Run-counted r p small in
      let (grows, passes) = check_scope_step scope id limit window now start t p e a small in
      elim (Bool-cases (check_scope fl redis true scope id limit window now t).0.allowed) [
        | inl ok ↦ let fits = passes ok in rw ok (omega (arith, fits), omega (arith, grows))
        | inr refused ↦ rw refused (omega arith, omega (arith, grows))
      ]
  Run-counted (other r e) p small =
      let (low, counted) = Run-counted r p small in (low, rw e counted)

  -- In one window at most `limit` requests of a scope pass, whatever the previous window held and
  -- at whatever times within the window they come, while Redis answers and keeps the counter of the
  -- window, for a limit below 2 ^ 53.
  pub Run-limit :
      {scope : Scope} {id : Text} {limit window start : ℕ} {s t : Store} {n : ℕ}
      → Run scope id limit window start s n t
      → 0 < window
      → limit < 9007199254740992
      → n ≤ limit
  Run-limit r p small = (Run-counted r p small).0
