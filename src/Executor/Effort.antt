-- ===== src/Executor/Effort.antt =====
-- The effort of one call of `execute`.
use cortex_gateway.Prelude.{
  ℕ, ◌+◌, ◌*◌, ◌≤◌, ◌≡◌, refl, Option, [], ◌∷◌, arith, length, length-append, Text,
}
use cortex_gateway.Chat.{ChatCompletionRequest}
use cortex_gateway.Floats.{Floats}
use cortex_gateway.Executor.{Outside, Config, Context, State, ◌>>=◌, read_clock, modify}
use cortex_gateway.Executor.Loop.{select_target, new_context, execute}
use cortex_gateway.Executor.Bounds.{Cost, rounds-Grows}

attempts-Cost : Cost (λ c. length c.attempts) 1 0 0
unfolding select_target
attempts-Cost = record {
  attempted = λ a c. omega (arith, length-append c.attempts (a ∷ []));
  failed = λ a c e. omega (arith, length-append c.attempts (a ∷ []));
  noted = λ c e. omega arith;
  retried = λ c. omega arith;
  selected = λ t c. omega arith;
  failed_over = λ c. omega arith;
}

retries-Cost : Cost (λ c. c.retry_count) 0 1 0
unfolding select_target
retries-Cost = record {
  attempted = λ a c. omega arith;
  failed = λ a c e. omega arith;
  noted = λ c e. omega arith;
  retried = λ c. omega arith;
  selected = λ t c. omega arith;
  failed_over = λ c. omega arith;
}

failovers-Cost : Cost (λ c. c.failover_attempts) 0 0 1
unfolding select_target
failovers-Cost = record {
  attempted = λ a c. omega arith;
  failed = λ a c e. omega arith;
  noted = λ c e. omega arith;
  retried = λ c. omega arith;
  selected = λ t c. omega arith;
  failed_over = λ c. omega arith;
}

module _ (fl : Floats) (out : Outside fl.F) (cfg : Config fl.F) where
  open fl use {F}

  -- A number of the context that is 0 in a new one.
  execute_bound :
      (size : Context → ℕ) (x y z : ℕ)
      → Cost size x y z
      → ((provider model : Text) (now : ℕ) → size (new_context fl out cfg provider model now) ≡ 0)
      → (request : ChatCompletionRequest F) (provider model : Text) (mode : Option Text)
      → (s : State fl out cfg)
      → size (execute fl out cfg request provider model mode s).1.context
        ≤ (cfg.max_failover_attempts + 1) * (x + cfg.retry_policy.max_retries * (y + x) + z)
  unfolding execute ◌>>=◌ read_clock modify
  execute_bound size x y z cost fresh request provider model mode s = omega (
    arith,
    (rounds-Grows fl out cfg size x y z cost request mode (cfg.max_failover_attempts + 1) _).bound
        _,
    fresh provider model (out.clock s.world).0,
  )

  -- However the providers, the clock and the draws answer, and whether it returns or raises, a call
  -- of `execute` makes at most `max_retries + 1` attempts and `max_retries` retries for each of
  -- `max_failover_attempts + 1` providers, and fails over at most `max_failover_attempts + 1` times.
  pub execute-attempts :
      (request : ChatCompletionRequest F) (provider model : Text) (mode : Option Text)
      (s : State fl out cfg)
      → let c = (execute fl out cfg request provider model mode s).1.context in
        (length c.attempts ≤ (cfg.max_failover_attempts + 1) * (cfg.retry_policy.max_retries + 1))
        × (c.retry_count ≤ (cfg.max_failover_attempts + 1) * cfg.retry_policy.max_retries)
        × (c.failover_attempts ≤ cfg.max_failover_attempts + 1)
  execute-attempts request provider model mode s = (
    omega (
      arith,
      execute_bound (λ c. length c.attempts) 1 0 0 attempts-Cost
          (λ p m n. unfold new_context in refl) request provider model mode s,
    ),
    omega (
      arith,
      execute_bound (λ c. c.retry_count) 0 1 0 retries-Cost (λ p m n. unfold new_context in refl)
          request provider model mode s,
    ),
    omega (
      arith,
      execute_bound (λ c. c.failover_attempts) 0 0 1 failovers-Cost
          (λ p m n. unfold new_context in refl) request provider model mode s,
    ),
  )
