-- ===== src/Breaker/Registry.antt =====
-- `CircuitBreakerRegistry` of backend/app/reliability/circuit_breaker.py: a breaker for each
-- provider, made when it is first asked for. A method returns the new registry.
use cortex_gateway.Prelude.{
  ℕ, ◌≡◌, ◌∙◌, ◌≢◌, inl, inr, Bool, none, some, [], arith, if◌then◌else◌, Bool-cases, Dict, lookup,
  insert, map_values, lookup-insert_self, lookup-insert_ne, lookup-map_values, Text, normalize,
  text_eq, text_eq_iff, normalize_idem,
}
use cortex_gateway.Errors.{Error}
use cortex_gateway.Breaker.{
  Breaker, CircuitState, closed, init, resolve_state, can_execute, record_success, record_failure,
  reset,
}

pub record Registry : Type 0 where
  pub failure_threshold : ℕ
  pub cooldown_seconds : ℕ
  pub half_open_trials : ℕ
  pub breakers : Dict Breaker

-- `CircuitBreakerRegistry(failure_threshold, cooldown_seconds, half_open_trials)`.
unfoldable pub new_registry : ℕ → ℕ → ℕ → Registry
new_registry failure_threshold cooldown_seconds half_open_trials = record {
  failure_threshold = failure_threshold;
  cooldown_seconds = cooldown_seconds;
  half_open_trials = half_open_trials;
  breakers = [];
}

-- The breaker that `get_breaker` returns for a key.
unfoldable pub breaker_at : Registry → Text → Breaker
breaker_at reg key = elim (lookup key reg.breakers) [
  | some b ↦ b
  | none ↦ init key reg.failure_threshold reg.cooldown_seconds reg.half_open_trials
]

-- The registry holds references, so a method of the breaker that `get_breaker` returns writes the
-- new breaker under its key.
unfoldable pub put_breaker : Registry → Text → Breaker → Registry
put_breaker reg key b = record reg { breakers = insert key b reg.breakers }

unfoldable pub get_breaker : Registry → Text → Registry × Breaker
unfolding put_breaker
get_breaker reg provider =
    let key = normalize provider in (put_breaker reg key (breaker_at reg key), breaker_at reg key)

unfoldable pub registry_can_execute : Registry → Text → ℕ → Registry × Bool
unfolding get_breaker
registry_can_execute reg provider now =
    let (reg', b) = get_breaker reg provider in
    let (b', allowed) = can_execute b now in (put_breaker reg' (normalize provider) b', allowed)

unfoldable pub registry_record_success : Registry → Text → ℕ → Registry
unfolding get_breaker
registry_record_success reg provider now =
    let (reg', b) = get_breaker reg provider in
    put_breaker reg' (normalize provider) (record_success b now)

unfoldable pub registry_record_failure : Registry → Text → Error → ℕ → ℕ → Registry
unfolding get_breaker
registry_record_failure reg provider exc now later =
    let (reg', b) = get_breaker reg provider in
    put_breaker reg' (normalize provider) (record_failure b exc now later)

unfoldable pub get_state : Registry → Text → ℕ → Registry × CircuitState
unfolding get_breaker
get_state reg provider now =
    let (reg', b) = get_breaker reg provider in
    let b' = resolve_state b now in (put_breaker reg' (normalize provider) b', b'.state)

unfoldable pub reset_all : Registry → Registry
reset_all reg = record reg { breakers = map_values reset reg.breakers }

-- The registry's methods with a provider.
pub data Method : Type 0 where
  asks succeeds reads : ℕ → Method
  fails : Error → ℕ → ℕ → Method

unfoldable pub registry_step : Registry → Text → Method → Registry
unfolding registry_can_execute registry_record_success registry_record_failure get_state
registry_step reg provider (asks now) = (registry_can_execute reg provider now).0
registry_step reg provider (succeeds now) = registry_record_success reg provider now
registry_step reg provider (reads now) = (get_state reg provider now).0
registry_step reg provider (fails exc now later) =
    registry_record_failure reg provider exc now later

-- The same call on the breaker alone.
unfoldable pub breaker_step : Breaker → Method → Breaker
breaker_step b (asks now) = (can_execute b now).0
breaker_step b (succeeds now) = record_success b now
breaker_step b (reads now) = resolve_state b now
breaker_step b (fails exc now later) = record_failure b exc now later

put-at : (reg : Registry) (key : Text) (b : Breaker) → breaker_at (put_breaker reg key b) key ≡ b
unfolding breaker_at put_breaker
put-at reg key b = ground (arith, lookup-insert_self key b reg.breakers)

put-at_ne :
    (reg : Registry) (key other : Text) (b : Breaker)
    → key ≢ other
    → breaker_at (put_breaker reg key b) other ≡ breaker_at reg other
unfolding breaker_at put_breaker
put-at_ne reg key other b h = ground (arith, lookup-insert_ne key other b reg.breakers h)

-- One method, on the breaker of its own provider and on the others.
registry_step-same :
    (reg : Registry) (provider : Text) (m : Method)
    → breaker_at (registry_step reg provider m) (normalize provider)
      ≡ breaker_step (breaker_at reg (normalize provider)) m
unfolding registry_step breaker_step
registry_step-same reg provider (asks now) = put-at _ _ _
registry_step-same reg provider (succeeds now) = put-at _ _ _
registry_step-same reg provider (reads now) = put-at _ _ _
registry_step-same reg provider (fails exc now later) = put-at _ _ _

registry_step-others :
    (reg : Registry) (provider other : Text) (m : Method)
    → normalize provider ≢ other
    → breaker_at (registry_step reg provider m) other ≡ breaker_at reg other
unfolding registry_step
registry_step-others reg provider other (asks now) h = put-at_ne _ _ _ _ h ∙ put-at_ne _ _ _ _ h
registry_step-others reg provider other (succeeds now) h = put-at_ne _ _ _ _ h ∙ put-at_ne _ _ _ _ h
registry_step-others reg provider other (reads now) h = put-at_ne _ _ _ _ h ∙ put-at_ne _ _ _ _ h
registry_step-others reg provider other (fails exc now later) h =
    put-at_ne _ _ _ _ h ∙ put-at_ne _ _ _ _ h

-- A method with a provider acts on the breaker of that provider's normalised name as the method of
-- the breaker does, and leaves the breaker of every other name as it was.
pub registry_step-breaker_at :
    (reg : Registry) (provider other : Text) (m : Method)
    → breaker_at (registry_step reg provider m) other ≡ (
        if text_eq (normalize provider) other
        then breaker_step (breaker_at reg other) m
        else breaker_at reg other)
registry_step-breaker_at reg provider other m =
    elim (Bool-cases (text_eq (normalize provider) other)) [
      | inl e ↦
          let same = (text_eq_iff (normalize provider) other).0 e in
          rw e (rw (← same) (registry_step-same reg provider m))
      | inr e ↦ rw e (
          registry_step-others reg provider other m
            (λ q. absurd (ground (arith, (text_eq_iff (normalize provider) other).1 q, e))))
    ]

init-provider : (key : Text) (f c t : ℕ) → (init (normalize key) f c t).provider ≡ normalize key
unfolding init
init-provider key f c t = normalize_idem key

-- After `reset_all` every provider's circuit is closed with no failure and no probe counted.
pub reset_all-closed :
    (reg : Registry) (provider : Text)
    → let b = breaker_at (reset_all reg) provider in
      (b.state ≡ closed) × (b.failure_count ≡ 0) × (b.half_open_trial_count ≡ 0)
unfolding breaker_at reset_all reset init
reset_all-closed reg provider = ground (arith, lookup-map_values reset provider reg.breakers)
