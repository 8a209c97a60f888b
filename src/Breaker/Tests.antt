-- ===== src/Breaker/Tests.antt =====
-- Runs of a breaker and of the registry at concrete inputs.
use cortex_gateway.Prelude.{
  ◌+◌, ◌-◌, ◌≡◌, refl, true, false, none, some, [], ◌∷◌, arith, leb, if◌then◌else◌, codes,
  normalize, text_eq,
}
use cortex_gateway.Errors.{is_circuit_breaker_failure, Error, provider_timeout, provider_auth}
use cortex_gateway.Breaker.{
  Breaker, closed, open_state, half_open, init, can_execute, record_failure,
}
use cortex_gateway.Breaker.Laws.{asks, reads, succeeds, fails, IsValid, run, run-IsValid}
use cortex_gateway.Breaker.Runs.{
  fail_all, fail_all-state, ask_all, ask_all-half_open, can_execute-run_wedged,
  can_execute-run_open,
}
use cortex_gateway.Breaker.Registry.{
  Method, new_registry, breaker_at, registry_step, breaker_step, registry_step-breaker_at,
  reset_all, reset_all-closed,
}
use Prim.Native.Nat.{min}

abbrev timeout : Error
timeout = record { class = provider_timeout; message = [] }

abbrev refused : Error
refused = record { class = provider_auth; message = [] }

counts : is_circuit_breaker_failure timeout ≡ true
unfolding is_circuit_breaker_failure
counts = refl

passes : is_circuit_breaker_failure refused ≡ false
unfolding is_circuit_breaker_failure
passes = refl

-- Threshold 2, a cooldown of 30 ticks, one trial.
abbrev fresh : Breaker
fresh = record {
  provider = codes "openai";
  failure_threshold = 2;
  cooldown_seconds = 30;
  half_open_trials = 1;
  state = closed;
  failure_count = 0;
  last_failure_time = none;
  half_open_trial_count = 0;
}

abbrev opened : Breaker
opened = record fresh { state = open_state; failure_count = 2; last_failure_time = some 6 }

abbrev probing : Breaker
probing = record opened { state = half_open }

abbrev wedged : Breaker
wedged = record probing { half_open_trial_count = 1 }

trips_at_two : fail_all fresh ((timeout, 4, 5) ∷ (timeout, 6, 7) ∷ []) ≡ opened
unfolding fail_all record_failure is_circuit_breaker_failure
trips_at_two = refl

fail_all-state_example :
    (fail_all fresh ((timeout, 4, 5) ∷ (timeout, 6, 7) ∷ [])).state
    ≡ (if leb 2 (0 + 2) then open_state else closed)
fail_all-state_example =
    fail_all-state fresh ((timeout, 4, 5) ∷ (timeout, 6, 7) ∷ []) refl (omega arith)
      (counts, (counts, tt))

ask_all-half_open_example : (ask_all probing (40 ∷ 40 ∷ 41 ∷ [])).1 ≡ min 3 (1 - 0)
ask_all-half_open_example = ask_all-half_open probing (40 ∷ 40 ∷ 41 ∷ []) refl

can_execute-run_wedged_example :
    (can_execute (run wedged (fails refused 50 50 ∷ asks 60 ∷ reads 99 ∷ [])) 100000).1 ≡ false
can_execute-run_wedged_example =
    can_execute-run_wedged wedged (fails refused 50 50 ∷ asks 60 ∷ reads 99 ∷ []) 100000 refl
      (omega arith) (passes, (tt, (tt, tt)))

can_execute-run_open_example :
    (run opened (asks 10 ∷ succeeds 20 ∷ []) ≡ opened)
    × ((can_execute (run opened (asks 10 ∷ succeeds 20 ∷ [])) 36).1 ≡ leb (6 + 30) 36)
can_execute-run_open_example =
    can_execute-run_open opened (asks 10 ∷ succeeds 20 ∷ []) 6 36 refl refl (omega arith)
      (omega arith, (omega arith, tt))

run-IsValid_example :
    IsValid
      (run (init (codes "OpenAI") 2 30 1) (fails timeout 4 5 ∷ fails timeout 6 7 ∷ asks 50 ∷ []))
run-IsValid_example =
    run-IsValid (codes "OpenAI") 2 30 1 (fails timeout 4 5 ∷ fails timeout 6 7 ∷ asks 50 ∷ [])
      (omega arith)

registry_step-breaker_at_example :
    breaker_at
      (registry_step (new_registry 5 30 1) (codes " OpenAI ") (Method.fails timeout 4 5))
      (codes "openai")
    ≡ (if text_eq (normalize (codes " OpenAI ")) (codes "openai")
        then breaker_step
            (breaker_at (new_registry 5 30 1) (codes "openai"))
            (Method.fails timeout 4 5)
        else breaker_at (new_registry 5 30 1) (codes "openai"))
registry_step-breaker_at_example =
    registry_step-breaker_at (new_registry 5 30 1) (codes " OpenAI ") (codes "openai")
      (Method.fails timeout 4 5)

reset_all-closed_example :
    ((breaker_at (reset_all (new_registry 5 30 1)) (codes "groq")).state ≡ closed)
    × ((breaker_at (reset_all (new_registry 5 30 1)) (codes "groq")).failure_count ≡ 0)
    × ((breaker_at (reset_all (new_registry 5 30 1)) (codes "groq")).half_open_trial_count ≡ 0)
reset_all-closed_example = reset_all-closed (new_registry 5 30 1) (codes "groq")
