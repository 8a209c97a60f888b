-- ===== src/Breaker.antt =====
-- The circuit breaker of one provider: `ProviderCircuitBreaker` of
-- backend/app/reliability/circuit_breaker.py, with `CircuitState` of backend/app/reliability/models.py.
-- A method returns the new breaker. Time is a reading of the monotonic clock, a number of its ticks,
-- and `cooldown_seconds` is counted in the same ticks; a method that reads the clock twice takes
-- both readings. Logging has no effect on the state and is left out.
pub mod Laws
pub mod Runs
pub mod Registry
pub mod Tests
use cortex_gateway.Prelude.{
  ℕ, ◌+◌, Bool, true, false, Option, none, some, ltb, leb, if◌then◌else◌, Text, normalize,
}
use cortex_gateway.Errors.{Error, is_circuit_breaker_failure}

pub data CircuitState : Type 0 where
  closed open_state half_open : CircuitState

pub record Breaker : Type 0 where
  pub provider : Text
  pub failure_threshold : ℕ
  pub cooldown_seconds : ℕ
  pub half_open_trials : ℕ
  pub state : CircuitState
  pub failure_count : ℕ
  pub last_failure_time : Option ℕ
  pub half_open_trial_count : ℕ

-- `ProviderCircuitBreaker(provider, failure_threshold, cooldown_seconds, half_open_trials)`.
unfoldable pub init : Text → ℕ → ℕ → ℕ → Breaker
init provider failure_threshold cooldown_seconds half_open_trials = record {
  provider = normalize provider;
  failure_threshold = failure_threshold;
  cooldown_seconds = cooldown_seconds;
  half_open_trials = half_open_trials;
  state = closed;
  failure_count = 0;
  last_failure_time = none;
  half_open_trial_count = 0;
}

-- `elapsed >= cooldown`, with the subtraction moved to the other side.
cooled_down : Breaker → Option ℕ → ℕ → Bool
cooled_down b none now = false
cooled_down b (some t) now = leb (t + b.cooldown_seconds) now

unfoldable pub resolve_state : Breaker → ℕ → Breaker
unfolding cooled_down
resolve_state b now = elim b.state [
  | open_state ↦
      if cooled_down b b.last_failure_time now
      then record b { state = half_open; half_open_trial_count = 0 }
      else b
  | closed ↦ b
  | half_open ↦ b
]

-- What `can_execute` does once the state is resolved.
admit : Breaker → Breaker × Bool
admit b = elim b.state [
  | closed ↦ (b, true)
  | half_open ↦
      if ltb b.half_open_trial_count b.half_open_trials
      then (record b { half_open_trial_count = b.half_open_trial_count + 1 }, true)
      else (b, false)
  | open_state ↦ (b, false)
]

unfoldable pub can_execute : Breaker → ℕ → Breaker × Bool
unfolding admit resolve_state
can_execute b now = admit (resolve_state b now)

-- What `record_success` does once the state is resolved.
settle_success : Breaker → Breaker
settle_success b = elim b.state [
  | half_open ↦ record b {
    state = closed;
    failure_count = 0;
    half_open_trial_count = 0;
    last_failure_time = none;
  }
  | closed ↦ record b { failure_count = 0 }
  | open_state ↦ b
]

unfoldable pub record_success : Breaker → ℕ → Breaker
unfolding settle_success resolve_state
record_success b now = settle_success (resolve_state b now)

-- What `record_failure` does once the state is resolved.
settle_failure : Breaker → Breaker
settle_failure b = elim b.state [
  | half_open ↦ record b { state = open_state }
  | closed ↦
      let counted = record b { failure_count = b.failure_count + 1 } in
      if leb b.failure_threshold (b.failure_count + 1)
      then record counted { state = open_state }
      else counted
  | open_state ↦ b
]

-- `now` is read first, `later` by the resolution of the state.
unfoldable pub record_failure : Breaker → Error → ℕ → ℕ → Breaker
unfolding settle_failure resolve_state
record_failure b exc now later =
    if is_circuit_breaker_failure exc
    then settle_failure (resolve_state (record b { last_failure_time = some now }) later)
    else b

unfoldable pub trip : Breaker → ℕ → Breaker
trip b now = record b {
  state = open_state;
  last_failure_time = some now;
  failure_count = b.failure_threshold;
}

unfoldable pub reset : Breaker → Breaker
reset b = record b {
  state = closed;
  failure_count = 0;
  half_open_trial_count = 0;
  last_failure_time = none;
}
