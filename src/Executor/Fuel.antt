-- ===== src/Executor/Fuel.antt =====
-- The number of rounds that the outer loop of `execute` in Executor/Loop is given.
use cortex_gateway.Prelude.{
  ℕ, zero, suc, ◌+◌, ◌-◌, ◌≤◌, ◌≡◌, refl, ap, inl, inr, Bool, true, false, Option, none, some,
  arith, ltb, leb, if◌then◌else◌, lt→ltb, Bool-cases, Text,
}
use cortex_gateway.Errors.{Error}
use cortex_gateway.Chat.{ChatCompletionResponse, ChatCompletionRequest}
use cortex_gateway.Floats.{Floats}
use cortex_gateway.Routing.Models.{RoutingCandidate}
use cortex_gateway.Executor.{
  Outside, Config, Context, Target, Outcome, ok, raise, State, M, ◌>>=◌, return, throw, throw_last,
  modify,
}
use cortex_gateway.Executor.Loop.{
  Next, done, again, failover, failover_disabled, short_circuit, after_attempts, select_target,
  round, rounds, proceed, switch_to,
}
use cortex_gateway.Executor.Bounds.{
  Cost, Grows, weaken, check_deadline-Grows, Grows-modify, circuit_can_execute-Grows,
  select_fallback-Grows, try_provider-Grows,
}

-- How far the count of failovers is below a number.
abbrev below : ℕ → Context → ℕ
below n c = n - c.failover_attempts

below-Cost : (n : ℕ) → Cost (below n) 0 0 0
unfolding select_target
below-Cost n = record {
  attempted = λ a c. omega arith;
  failed = λ a c e. omega arith;
  noted = λ c e. omega arith;
  retried = λ c. omega arith;
  selected = λ t c. omega arith;
  failed_over = λ c. omega arith;
}

module _ (fl : Floats) (out : Outside fl.F) (cfg : Config fl.F) where
  open fl use {F}

  -- A step does not lower the count of failovers.
  record Keeps {A : Type 0} (m : M fl out cfg A) : Type 0 where
    grows : (n : ℕ) → Grows fl out cfg (below n) 0 m

  Keeps-le :
      {A : Type 0} {m : M fl out cfg A}
      → Keeps m
      → (s : State fl out cfg) → s.context.failover_attempts ≤ (m s).1.context.failover_attempts
  Keeps-le k s = omega (arith, (k.grows s.context.failover_attempts).bound s)

  -- A step after which the loop goes on has counted one more.
  record Counts (m : M fl out cfg (Next F)) : Type 0 where
    more :
        (s u : State fl out cfg) (t : Target)
        → m s ≡ (ok (again t), u)
        → s.context.failover_attempts + 1 ≤ u.context.failover_attempts

  Counts-bind :
      {A : Type 0} {m : M fl out cfg A} {f : A → M fl out cfg (Next F)}
      → Keeps m
      → ((a : A) → Counts (f a))
      → Counts (m >>= f)
  unfolding ◌>>=◌
  Counts-bind {A} {m} {f} k c = record { more = λ s u t e. go s u t (m s) (Keeps-le k s) e }
    where
      go :
          (s u : State fl out cfg) (t : Target) (r : Outcome A × State fl out cfg)
          → s.context.failover_attempts ≤ r.1.context.failover_attempts
          → ((λ (x : State fl out cfg). r) >>= f) s ≡ (ok (again t), u)
          → s.context.failover_attempts + 1 ≤ u.context.failover_attempts
      go s u t (ok a, v) le e = omega (arith, (c a).more v u t e)
      go s u t (raise x, v) le e = absurd (ground arith)

  Counts-throw : (e : Error) → Counts (throw e)
  unfolding throw
  Counts-throw e = record { more = λ s u t h. absurd (ground arith) }

  Counts-throw_last : Counts (throw_last fl out cfg)
  unfolding throw_last
  Counts-throw_last = record { more = λ s u t h. absurd (ground arith) }

  Counts-if :
      (b : Bool) {m k : M fl out cfg (Next F)} → Counts m → Counts k → Counts (if b then m else k)
  Counts-if true p q = p
  Counts-if false p q = q

  Counts-cond :
      (test : State fl out cfg → Bool) {m k : M fl out cfg (Next F)}
      → Counts m
      → Counts k
      → Counts (λ s. if test s then m s else k s)
  Counts-cond test {m} {k} p q = record { more = λ s u t e. go (test s) s u t e }
    where
      go :
          (b : Bool) (s u : State fl out cfg) (t : Target)
          → (if b then m s else k s) ≡ (ok (again t), u)
          → s.context.failover_attempts + 1 ≤ u.context.failover_attempts
      go true s u t e = p.more s u t e
      go false s u t e = q.more s u t e

  modify-Keeps :
      (f : Context → Context)
      → ((c : Context) → (f c).failover_attempts ≡ c.failover_attempts)
      → Keeps (modify fl out cfg f)
  modify-Keeps f h = record {
    grows = λ n. Grows-modify fl out cfg (below n) (λ c. omega (arith, h c));
  }

  switch_to-Counts :
      (c : Option (RoutingCandidate F)) {m : M fl out cfg (Next F)}
      → Counts m
      → Counts (switch_to fl out cfg c m)
  unfolding switch_to modify return ◌>>=◌
  switch_to-Counts none p = p
  switch_to-Counts (some c) p = record {
    more = λ s u t e.
        omega (
          arith,
          ap (λ (x : Outcome (Next F) × State fl out cfg). x.1.context.failover_attempts) e,
        );
  }

  failover-Counts :
      (request : ChatCompletionRequest F) {m : M fl out cfg (Next F)}
      → Counts m
      → Counts (failover fl out cfg request m)
  unfolding failover
  failover-Counts request p =
      Counts-bind (record { grows = λ n. select_fallback-Grows fl out cfg (below n) request })
        (λ fallback. switch_to-Counts fallback p)

  short_circuit-Counts :
      (request : ChatCompletionRequest F) (t : Target) → Counts (short_circuit fl out cfg request t)
  unfolding short_circuit
  short_circuit-Counts request t =
      Counts-bind (modify-Keeps _ (λ c. refl))
        (λ noted. Counts-if _ (Counts-throw _) (failover-Counts request (Counts-throw _)))

  after_attempts-Counts :
      (request : ChatCompletionRequest F) (result : Option (ChatCompletionResponse F))
      → Counts (after_attempts fl out cfg request result)
  unfolding after_attempts
  after_attempts-Counts request (some resp) = record { more = λ s u t e. absurd (ground arith) }
  after_attempts-Counts request none =
      Counts-cond (λ s. failover_disabled fl out cfg request) Counts-throw_last
        (Counts-cond (λ s. leb cfg.max_failover_attempts s.context.failover_attempts)
          Counts-throw_last (failover-Counts request Counts-throw_last))

  round-Counts :
      (request : ChatCompletionRequest F) (mode : Option Text) (t : Target)
      → Counts (round fl out cfg request mode t)
  unfolding round
  round-Counts request mode t =
      Counts-bind (record { grows = λ n. check_deadline-Grows fl out cfg (below n) 0 })
        (λ in_time. Counts-bind (modify-Keeps _ (λ c. refl)) (λ selected.
          Counts-bind
            (record { grows = λ n. circuit_can_execute-Grows fl out cfg (below n) t.provider })
            (λ allowed.
              Counts-if allowed
                (Counts-bind
                  (record {
                    grows = λ n.
                        weaken fl out cfg (below n)
                          (try_provider-Grows fl out cfg (below n) 0 0 0 (below-Cost n) request mode
                            t)
                          (omega arith);
                  })
                  (after_attempts-Counts request))
                (short_circuit-Counts request t))))

  -- What follows a round may differ where the round does not lead.
  proceed_same :
      {f g : Target → M fl out cfg (ChatCompletionResponse F)} (s : State fl out cfg)
      → ((next : Target) (u : State fl out cfg)
          → s.context.failover_attempts + 1 ≤ u.context.failover_attempts
          → f next u ≡ g next u)
      → (r : Outcome (Next F) × State fl out cfg)
      → ((u : State fl out cfg) (next : Target)
          → r ≡ (ok (again next), u)
          → s.context.failover_attempts + 1 ≤ u.context.failover_attempts)
      → ((λ (x : State fl out cfg). r) >>= λ next. proceed fl out cfg next f) s
        ≡ ((λ (x : State fl out cfg). r) >>= λ next. proceed fl out cfg next g) s
  unfolding ◌>>=◌ proceed
  proceed_same s same (ok (done resp), u) more = refl
  proceed_same s same (ok (again next), u) more = same next u (more u next refl)
  proceed_same s same (raise x, u) more = refl

  -- When the rounds and the failovers that are counted reach `max_failover_attempts + 1`, more rounds
  -- change nothing: the loop has ended by a response, by an exception or by its condition.
  pub rounds_enough :
      (request : ChatCompletionRequest F) (mode : Option Text) (left total : ℕ) (t : Target)
      (s : State fl out cfg)
      → left ≤ total
      → cfg.max_failover_attempts + 1 ≤ left + s.context.failover_attempts
      → rounds fl out cfg request mode total t s ≡ rounds fl out cfg request mode left t s
  unfolding rounds ◌>>=◌ proceed
  rounds_enough request mode zero zero t s le h = refl
  rounds_enough request mode zero (suc total) t s le h =
      rw (lt→ltb cfg.max_failover_attempts s.context.failover_attempts (omega arith)) refl
  rounds_enough request mode (suc left) zero t s le h = absurd (omega arith)
  rounds_enough request mode (suc left) (suc total) t s le h =
      elim (Bool-cases (ltb cfg.max_failover_attempts s.context.failover_attempts)) [
        | inl e ↦ rw e refl
        | inr e ↦ rw e (
            proceed_same s
              (λ next u more.
                rounds_enough request mode left total next u (omega arith) (omega arith))
              (round fl out cfg request mode t s) ((round-Counts request mode t).more s))
      ]
