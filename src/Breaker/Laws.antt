-- ===== src/Breaker/Laws.antt =====
-- The breaker's invariant, its transitions and what each state lets through.
use cortex_gateway.Prelude.{ℕ, ◌≤◌, ◌<◌, ◌≡◌, refl, true, List, [], ◌∷◌, arith, is_some, Text}
use cortex_gateway.Errors.{Error}
use cortex_gateway.Breaker.{
  closed, open_state, Breaker, init, resolve_state, can_execute, record_success, record_failure,
  trip, reset,
}

-- The calls that change a breaker, each with the clock readings that it takes.
pub data Call : Type 0 where
  asks reads succeeds trips : ℕ → Call
  fails : Error → ℕ → ℕ → Call
  resets : Call

unfoldable pub step : Breaker → Call → Breaker
unfolding can_execute resolve_state record_success record_failure trip reset
step b (asks now) = (can_execute b now).0
step b (reads now) = resolve_state b now
step b (succeeds now) = record_success b now
step b (fails exc now later) = record_failure b exc now later
step b (trips now) = trip b now
step b resets = reset b

pub record IsValid (b : Breaker) : Type 0 where
  pub below_threshold : b.state ≡ closed → b.failure_count < b.failure_threshold
  pub capped : b.failure_count ≤ b.failure_threshold
  pub stamped : b.state ≡ open_state → is_some b.last_failure_time ≡ true
  pub probes : b.half_open_trial_count ≤ b.half_open_trials

pub step-IsValid :
    (b : Breaker) (c : Call) → 0 < b.failure_threshold → IsValid b → IsValid (step b c)
unfolding step
step-IsValid b (asks now) p v = ground arith
step-IsValid b (reads now) p v = ground arith
step-IsValid b (succeeds now) p v = ground arith
step-IsValid b (fails exc now later) p v = ground arith
step-IsValid b (trips now) p v = ground arith
step-IsValid b resets p v = ground arith

pub init-IsValid :
    (provider : Text) (threshold cooldown trials : ℕ)
    → 0 < threshold
    → IsValid (init provider threshold cooldown trials)
unfolding init
init-IsValid provider threshold cooldown trials p = ground arith

unfoldable pub run : Breaker → List Call → Breaker
run b [] = b
run b (c ∷ cs) = run (step b c) cs

step-failure_threshold :
    (b : Breaker) (c : Call) → (step b c).failure_threshold ≡ b.failure_threshold
unfolding step
step-failure_threshold b (asks now) = ground arith
step-failure_threshold b (reads now) = ground arith
step-failure_threshold b (succeeds now) = ground arith
step-failure_threshold b (fails exc now later) = ground arith
step-failure_threshold b (trips now) = refl
step-failure_threshold b resets = refl

run_from-IsValid :
    (b : Breaker) (cs : List Call) → 0 < b.failure_threshold → IsValid b → IsValid (run b cs)
unfolding run
run_from-IsValid b [] p v = v
run_from-IsValid b (c ∷ cs) p v =
    run_from-IsValid (step b c) cs (rw step-failure_threshold p) (step-IsValid b c p v)

-- Whatever calls are made on a new breaker with a positive threshold, at whatever clock readings:
-- while it is closed its failures are below the threshold, they never pass it, an open breaker
-- knows the time of its last failure, and no more probes were granted than its trials.
pub run-IsValid :
    (provider : Text) (threshold cooldown trials : ℕ) (cs : List Call)
    → 0 < threshold
    → IsValid (run (init provider threshold cooldown trials) cs)
run-IsValid provider threshold cooldown trials cs p =
    run_from-IsValid _ cs (unfold init in p) (init-IsValid provider threshold cooldown trials p)
