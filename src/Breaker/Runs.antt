-- ===== src/Breaker/Runs.antt =====
-- What a breaker does over sequences of calls: when it trips, how many probes it grants, and when
-- it refuses for ever.
use cortex_gateway.Prelude.{
  ℕ, ◌+◌, ◌-◌, ◌≤◌, ◌<◌, ◌≡◌, refl, true, false, some, List, [], ◌∷◌, arith, ltb, leb,
  if◌then◌else◌, length, All,
}
use Prim.Native.Nat.{min}
use cortex_gateway.Errors.{Error, is_circuit_breaker_failure}
use cortex_gateway.Breaker.{closed, open_state, half_open, Breaker, can_execute, record_failure}
use cortex_gateway.Breaker.Laws.{Call, asks, reads, succeeds, trips, fails, resets, step, run}

-- Failures in a row, each with its exception and its two clock readings.
unfoldable pub fail_all : Breaker → List (Error × ℕ × ℕ) → Breaker
fail_all b [] = b
fail_all b ((exc, now, later) ∷ fs) = fail_all (record_failure b exc now later) fs

abbrev pub AllCount : List (Error × ℕ × ℕ) → Type 0
AllCount [] = Unit
AllCount ((exc, _, _) ∷ fs) = (is_circuit_breaker_failure exc ≡ true) × AllCount fs

record_failure-open :
    (b : Breaker) (exc : Error) (now later : ℕ)
    → b.state ≡ open_state
    → (record_failure b exc now later).state ≡ open_state
unfolding record_failure
record_failure-open b exc now later o = ground arith

fail_all-open :
    (b : Breaker) (fs : List (Error × ℕ × ℕ))
    → b.state ≡ open_state
    → (fail_all b fs).state ≡ open_state
unfolding fail_all
fail_all-open b [] o = o
fail_all-open b ((exc, now, later) ∷ fs) o =
    fail_all-open (record_failure b exc now later) fs (record_failure-open b exc now later o)

-- One counted failure of a closed breaker.
record_failure-closed :
    (b : Breaker) (exc : Error) (now later : ℕ)
    → is_circuit_breaker_failure exc ≡ true
    → b.state ≡ closed
    → (record_failure b exc now later).state
      ≡ (if leb b.failure_threshold (b.failure_count + 1) then open_state else closed)
unfolding record_failure
record_failure-closed b exc now later k c = ground arith

record_failure-count :
    (b : Breaker) (exc : Error) (now later : ℕ)
    → is_circuit_breaker_failure exc ≡ true
    → b.state ≡ closed
    → ((record_failure b exc now later).failure_count ≡ b.failure_count + 1)
      × ((record_failure b exc now later).failure_threshold ≡ b.failure_threshold)
unfolding record_failure
record_failure-count b exc now later k c = ground arith

-- A closed breaker that is below its threshold and takes counted failures in a row, at any times, is closed
-- while they do not reach the threshold and open from then on.
pub fail_all-state :
    (b : Breaker) (fs : List (Error × ℕ × ℕ))
    → b.state ≡ closed
    → b.failure_count < b.failure_threshold
    → AllCount fs
    → (fail_all b fs).state
      ≡ (if leb b.failure_threshold (b.failure_count + length fs) then open_state else closed)
unfolding fail_all
fail_all-state b [] c p a = ground arith
fail_all-state b ((exc, now, later) ∷ fs) c p a =
    let b' = record_failure b exc now later in
    ground (
      arith,
      record_failure-closed b exc now later a.0 c,
      record_failure-count b exc now later a.0 c,
      fail_all-open b' fs,
      fail_all-state b' fs,
    )

-- Requests that ask a breaker one after the other: the breaker they leave and how many it let pass.
unfoldable pub ask_all : Breaker → List ℕ → Breaker × ℕ
ask_all b [] = (b, 0)
ask_all b (now ∷ nows) =
    let (b', allowed) = can_execute b now in
    let (c, passed) = ask_all b' nows in (c, (if allowed then passed + 1 else passed))

can_execute-half_open :
    (b : Breaker) (now : ℕ)
    → b.state ≡ half_open
    → ((can_execute b now).0.state ≡ half_open)
      × ((can_execute b now).0.half_open_trials ≡ b.half_open_trials)
      × ((can_execute b now).1 ≡ ltb b.half_open_trial_count b.half_open_trials)
      × ((can_execute b now).0.half_open_trial_count ≡ (
          if ltb b.half_open_trial_count b.half_open_trials
          then b.half_open_trial_count + 1
          else b.half_open_trial_count))
unfolding can_execute
can_execute-half_open b now h = ground arith

-- Of any number of requests that ask a half-open breaker, at any times, exactly as many pass as
-- it has trials left, or all of them if they are fewer.
pub ask_all-half_open :
    (b : Breaker) (nows : List ℕ)
    → b.state ≡ half_open
    → (ask_all b nows).1 ≡ min (length nows) (b.half_open_trials - b.half_open_trial_count)
unfolding ask_all
ask_all-half_open b [] h = omega arith
ask_all-half_open b (now ∷ nows) h =
    ground (arith, can_execute-half_open b now h, ask_all-half_open (can_execute b now).0 nows)

-- The calls that neither record a success, nor a failure that counts, nor set the breaker by hand.
abbrev pub IsIdle : Call → Type 0
IsIdle (asks now) = Unit
IsIdle (reads now) = Unit
IsIdle (fails exc now later) = is_circuit_breaker_failure exc ≡ false
IsIdle _ = ⊥

step-wedged :
    (b : Breaker) (c : Call)
    → b.state ≡ half_open
    → b.half_open_trials ≤ b.half_open_trial_count
    → IsIdle c
    → step b c ≡ b
unfolding step
step-wedged b (asks now) h p i = ground arith
step-wedged b (reads now) h p i = ground arith
step-wedged b (fails exc now later) h p i = ground arith
step-wedged b (succeeds now) h p i = absurd i
step-wedged b (trips now) h p i = absurd i
step-wedged b resets h p i = absurd i

run-wedged :
    (b : Breaker) (cs : List Call)
    → b.state ≡ half_open
    → b.half_open_trials ≤ b.half_open_trial_count
    → All IsIdle cs
    → run b cs ≡ b
unfolding run
run-wedged b [] h p i = refl
run-wedged b (c ∷ cs) h p i = rw (step-wedged b c h p i.0) (run-wedged b cs h p i.1)

can_execute-wedged :
    (b : Breaker) (now : ℕ)
    → b.state ≡ half_open
    → b.half_open_trials ≤ b.half_open_trial_count
    → (can_execute b now).1 ≡ false
unfolding can_execute
can_execute-wedged b now h p = ground arith

-- A half-open breaker whose trials are used up refuses every request, at every later time, as long
-- as no success and no counted failure is recorded and nobody trips or resets it: a probe that
-- ends in an uncounted failure, or in nothing, leaves its provider blocked for ever.
pub can_execute-run_wedged :
    (b : Breaker) (cs : List Call) (now : ℕ)
    → b.state ≡ half_open
    → b.half_open_trials ≤ b.half_open_trial_count
    → All IsIdle cs
    → (can_execute (run b cs) now).1 ≡ false
can_execute-run_wedged b cs now h p i = rw (run-wedged b cs h p i) (can_execute-wedged b now h p)

-- The calls that an open breaker ignores while it cools down from a failure at time `t`.
abbrev pub IsEarly : ℕ → Call → Type 0
IsEarly limit (asks now) = now < limit
IsEarly limit (reads now) = now < limit
IsEarly limit (succeeds now) = now < limit
IsEarly limit (fails exc now later) = is_circuit_breaker_failure exc ≡ false
IsEarly limit _ = ⊥

step-early :
    (b : Breaker) (c : Call) (t : ℕ)
    → b.state ≡ open_state
    → b.last_failure_time ≡ some t
    → IsEarly (t + b.cooldown_seconds) c
    → step b c ≡ b
unfolding step
step-early b (asks now) t h p i = ground arith
step-early b (reads now) t h p i = ground arith
step-early b (succeeds now) t h p i = ground arith
step-early b (fails exc now later) t h p i = ground arith
step-early b (trips now) t h p i = absurd i
step-early b resets t h p i = absurd i

run-early :
    (b : Breaker) (cs : List Call) (t : ℕ)
    → b.state ≡ open_state
    → b.last_failure_time ≡ some t
    → All (IsEarly (t + b.cooldown_seconds)) cs
    → run b cs ≡ b
unfolding run
run-early b [] t h p i = refl
run-early b (c ∷ cs) t h p i = rw (step-early b c t h p i.0) (run-early b cs t h p i.1)

can_execute-open :
    (b : Breaker) (now t : ℕ)
    → b.state ≡ open_state
    → b.last_failure_time ≡ some t
    → 0 < b.half_open_trials
    → (can_execute b now).1 ≡ leb (t + b.cooldown_seconds) now
unfolding can_execute
can_execute-open b now t h p q = ground arith

-- An open breaker with trials that last failed at time `t`, after any calls before the end of its cooldown (requests,
-- reads of the state, successes, and uncounted failures at any time), is as it was, and it lets a request at
-- any time pass exactly if the cooldown since `t` is over.
pub can_execute-run_open :
    (b : Breaker) (cs : List Call) (t now : ℕ)
    → b.state ≡ open_state
    → b.last_failure_time ≡ some t
    → 0 < b.half_open_trials
    → All (IsEarly (t + b.cooldown_seconds)) cs
    → (run b cs ≡ b) × ((can_execute (run b cs) now).1 ≡ leb (t + b.cooldown_seconds) now)
can_execute-run_open b cs t now h p q i =
    let same = run-early b cs t h p i in (same, rw same (can_execute-open b now t h p q))
