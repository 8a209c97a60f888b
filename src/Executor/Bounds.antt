-- ===== src/Executor/Bounds.antt =====
-- How much one call of `execute` does, whatever the providers, the clock and the draws answer.
use cortex_gateway.Prelude.{
  ℕ, zero, suc, ◌+◌, ◌*◌, ◌≤◌, ◌≡◌, refl, Bool, true, false, Option, none, some, List, [], ◌∷◌,
  arith, leb, if◌then◌else◌, Text,
}
use cortex_gateway.Errors.{Error, circuit_open_error}
use cortex_gateway.Chat.{ChatCompletionResponse, ChatCompletionRequest}
use cortex_gateway.Floats.{Floats}
use cortex_gateway.Routing.Models.{RoutingCandidate}
use cortex_gateway.Executor.{
  Reply, Outside, AttemptRecord, Config, Context, Target, Outcome, ok, raise, State, M, ◌>>=◌,
  return, throw, throw_last, read_clock, modify, check_deadline, circuit_can_execute,
  circuit_record_success, circuit_record_failure, circuit_state, keep_available, discover,
  rank_available, select_fallback, answer, fails,
}
use cortex_gateway.Executor.Attempt.{
  add_attempt, stats_success, stats_failure, succeed, fail, call_provider, draw_delay, sleep_for,
  before_attempt, attempt, attempts_from, try_provider, or_next, handle_reply,
}
use cortex_gateway.Executor.Loop.{
  Next, done, again, failover, short_circuit, after_attempts, select_target, round, rounds, proceed,
  switch_to,
}

-- What an attempt, a retry and a failover may add to a number of the context, to which nothing
-- else adds.
pub record Cost (size : Context → ℕ) (per_attempt per_retry per_failover : ℕ) : Type 0 where
  pub attempted : (a : AttemptRecord) (c : Context) → size (add_attempt a c) ≤ size c + per_attempt
  pub failed :
      (a : AttemptRecord) (c : Context) (e : Error)
      → size (add_attempt a (record c { last_error = some e })) ≤ size c + per_attempt
  pub noted : (c : Context) (e : Error) → size (record c { last_error = some e }) ≤ size c
  pub retried :
      (c : Context) → size (record c { retry_count = c.retry_count + 1 }) ≤ size c + per_retry
  pub selected : (t : Target) (c : Context) → size (select_target t c) ≤ size c
  pub failed_over :
      (c : Context)
      → size (record c { failover_triggered = true; failover_attempts = c.failover_attempts + 1 })
        ≤ size c + per_failover

module _ (fl : Floats) (out : Outside fl.F) (cfg : Config fl.F) (size : Context → ℕ) where
  open fl use {F}

  -- A step adds at most `n`, whether it returns or raises.
  pub record Grows {A : Type 0} (n : ℕ) (m : M fl out cfg A) : Type 0 where
    pub bound : (s : State fl out cfg) → size (m s).1.context ≤ size s.context + n

  settle :
      {A B : Type 0} (r : Outcome A × State fl out cfg) (f : A → M fl out cfg B) (x n : ℕ)
      → size r.1.context ≤ x
      → ((a : A) → Grows n (f a))
      → (s : State fl out cfg) → size (((λ (u : State fl out cfg). r) >>= f) s).1.context ≤ x + n
  unfolding ◌>>=◌
  settle (ok a, t) f x n p q s = omega (arith, (q a).bound t, p)
  settle (raise e, t) f x n p q s = omega (arith, p)

  Grows-bind :
      {A B : Type 0} {m : M fl out cfg A} {f : A → M fl out cfg B} {k n : ℕ}
      → Grows k m
      → ((a : A) → Grows n (f a))
      → Grows (k + n) (m >>= f)
  unfolding ◌>>=◌
  Grows-bind {m = m} {f = f} {k} {n} p q = record {
    bound = λ s. omega (arith, settle (m s) f (size s.context + k) n (p.bound s) q s);
  }

  pub weaken : {A : Type 0} {m : M fl out cfg A} {k n : ℕ} → Grows k m → k ≤ n → Grows n m
  weaken p h = record { bound = λ s. omega (arith, p.bound s, h) }

  -- Behind a step that adds nothing.
  then-Grows :
      {A B : Type 0} {m : M fl out cfg A} {f : A → M fl out cfg B} {n : ℕ}
      → Grows 0 m
      → ((a : A) → Grows n (f a))
      → Grows n (m >>= f)
  then-Grows p q = weaken (Grows-bind p q) (omega arith)

  stays :
      {A : Type 0} {m : M fl out cfg A} {n : ℕ}
      → ((s : State fl out cfg) → (m s).1.context ≡ s.context)
      → Grows n m
  stays p = record { bound = λ s. rw (p s) (omega arith) }

  Grows-return : {A : Type 0} (a : A) {n : ℕ} → Grows n (return a)
  unfolding return
  Grows-return a = stays (λ s. refl)

  Grows-throw : {A : Type 0} (e : Error) {n : ℕ} → Grows n (throw {A = A} e)
  unfolding throw
  Grows-throw e = stays (λ s. refl)

  Grows-if :
      {A : Type 0} {m k : M fl out cfg A} {n : ℕ} (b : Bool)
      → Grows n m
      → Grows n k
      → Grows n (if b then m else k)
  Grows-if true p q = p
  Grows-if false p q = q

  pub Grows-modify :
      {f : Context → Context} {n : ℕ}
      → ((c : Context) → size (f c) ≤ size c + n)
      → Grows n (modify fl out cfg f)
  unfolding modify
  Grows-modify p = record { bound = λ s. p s.context }

  read_clock-Grows : {n : ℕ} → Grows n (read_clock fl out cfg)
  unfolding read_clock
  read_clock-Grows = stays (λ s. refl)

  pub check_deadline-Grows : (delay : ℕ) {n : ℕ} → Grows n (check_deadline fl out cfg delay)
  unfolding check_deadline
  check_deadline-Grows delay =
      then-Grows read_clock-Grows (λ now. record { bound = λ s. ground arith })

  throw_last-Grows : {A : Type 0} {n : ℕ} → Grows n (throw_last fl out cfg {A = A})
  unfolding throw_last
  throw_last-Grows = record { bound = λ s. ground arith }

  pub circuit_can_execute-Grows :
      (provider : Text) {n : ℕ} → Grows n (circuit_can_execute fl out cfg provider)
  unfolding circuit_can_execute
  circuit_can_execute-Grows provider = then-Grows read_clock-Grows (λ now. stays (λ s. refl))

  keep_available-Grows :
      (cs : List (RoutingCandidate F)) {n : ℕ} → Grows n (keep_available fl out cfg cs)
  unfolding keep_available
  keep_available-Grows [] = Grows-return _
  keep_available-Grows (c ∷ cs) =
      then-Grows (circuit_can_execute-Grows c.provider)
        (λ allowed. then-Grows (keep_available-Grows cs) (λ others. Grows-return _))

  rank_available-Grows :
      (request : ChatCompletionRequest F) (cs : List (RoutingCandidate F)) {n : ℕ}
      → Grows n (rank_available fl out cfg request cs)
  unfolding rank_available return throw
  rank_available-Grows request cs = record { bound = λ s. ground arith }

  -- A step at a state, unless a condition on the state ends it.
  unless_bound :
      {A : Type 0} (b : Bool) (r : Outcome A) (m : M fl out cfg A) (n : ℕ) (s : State fl out cfg)
      → Grows n m
      → size (if b then (r, s) else m s).1.context ≤ size s.context + n
  unless_bound true r m n s p = omega arith
  unless_bound false r m n s p = p.bound s

  either_bound :
      {A : Type 0} (b : Bool) (m k : M fl out cfg A) (n : ℕ) (s : State fl out cfg)
      → Grows n m
      → Grows n k
      → size (if b then m s else k s).1.context ≤ size s.context + n
  either_bound true m k n s p q = p.bound s
  either_bound false m k n s p q = q.bound s

  discover-Grows : {n : ℕ} → Grows n (discover fl out cfg)
  unfolding discover
  discover-Grows = stays (λ s. refl)

  pub select_fallback-Grows :
      (request : ChatCompletionRequest F) {n : ℕ} → Grows n (select_fallback fl out cfg request)
  unfolding select_fallback
  select_fallback-Grows request {n} = then-Grows discover-Grows (λ candidates. record {
    bound = λ s.
        unless_bound _ (ok none) _ n s (
          then-Grows (keep_available-Grows _)
            (λ available. rank_available-Grows request available));
  })

  draw_delay-Grows : (i : ℕ) {n : ℕ} → Grows n (draw_delay fl out cfg i)
  unfolding draw_delay
  draw_delay-Grows i = record { bound = λ s. ground arith }

  sleep_for-Grows : (delay : ℕ) {n : ℕ} → Grows n (sleep_for fl out cfg delay)
  unfolding sleep_for
  sleep_for-Grows delay = record { bound = λ s. ground arith }

  module _ (x y z : ℕ) (cost : Cost size x y z) where
    succeed-Grows :
        (mode : Option Text) (t : Target) (number : ℕ) (resp : ChatCompletionResponse F)
        → Grows x (succeed fl out cfg mode t number resp)
    unfolding succeed circuit_record_success circuit_state stats_success
    succeed-Grows mode t number resp = then-Grows read_clock-Grows (λ finished.
        weaken
          (Grows-bind (Grows-modify (cost.attempted _)) (λ recorded.
            then-Grows (then-Grows read_clock-Grows (λ now. stays (λ s. refl))) (λ noted.
              then-Grows (stays (λ s. refl)) (λ tracked.
                then-Grows (then-Grows read_clock-Grows (λ now. stays (λ s. refl)))
                  (λ state. stays {n = 0} (λ s. refl))))))
          (omega arith))

    fail-Grows : (t : Target) (number : ℕ) (exc : Error) → Grows x (fail fl out cfg t number exc)
    unfolding fail circuit_record_failure stats_failure
    fail-Grows t number exc = then-Grows read_clock-Grows (λ finished.
        weaken
          (Grows-bind (Grows-modify (λ c. cost.failed _ c exc)) (λ recorded.
            then-Grows (stays (λ s. refl)) (λ tracked. Grows-if _ (Grows-throw exc) (
              Grows-if {n = 0} _
                (then-Grows
                  (then-Grows read_clock-Grows
                    (λ now. then-Grows read_clock-Grows (λ later. stays (λ s. refl))))
                  (λ counted. Grows-return none))
                (Grows-return none)))))
          (omega arith))

    -- The cost of what comes before the attempt at a position.
    abbrev pub retry_cost : ℕ → ℕ
    retry_cost zero = 0
    retry_cost (suc i) = y

    before_attempt-Grows : (i : ℕ) → Grows (retry_cost i) (before_attempt fl out cfg i)
    unfolding before_attempt
    before_attempt-Grows zero = check_deadline-Grows 0
    before_attempt-Grows (suc i) = then-Grows (check_deadline-Grows 0) (λ early.
        then-Grows (draw_delay-Grows i) (λ delay.
          then-Grows (check_deadline-Grows delay) (λ in_time.
            weaken
              (Grows-bind (Grows-modify cost.retried) (λ counted. sleep_for-Grows delay {n = 0}))
              (omega arith))))

    handle_reply-Grows :
        (mode : Option Text) (t : Target) (i : ℕ) (reply : Reply F)
        → Grows x (handle_reply fl out cfg mode t i reply)
    unfolding handle_reply
    handle_reply-Grows mode t i (answer resp) = succeed-Grows mode t (i + 1) resp
    handle_reply-Grows mode t i (fails exc) = fail-Grows t i exc

    attempt-Grows :
        (request : ChatCompletionRequest F) (mode : Option Text) (t : Target) (i : ℕ)
        → Grows (retry_cost i + x) (attempt fl out cfg request mode t i)
    unfolding attempt call_provider
    attempt-Grows request mode t i = Grows-bind (before_attempt-Grows i) (λ ready.
        then-Grows read_clock-Grows
          (λ started. then-Grows (stays (λ s. refl)) (handle_reply-Grows mode t i)))

    or_next-Grows :
        {m : M fl out cfg (Option (ChatCompletionResponse F))} {n : ℕ}
        (result : Option (ChatCompletionResponse F))
        → Grows n m
        → Grows n (or_next fl out cfg result m)
    unfolding or_next
    or_next-Grows (some resp) p = Grows-return _
    or_next-Grows none p = p

    retry_cost_bound : (i : ℕ) → retry_cost i ≤ y
    retry_cost_bound zero = omega arith
    retry_cost_bound (suc i) = omega arith

    retries-Grows :
        (request : ChatCompletionRequest F) (mode : Option Text) (t : Target) (i left : ℕ)
        → Grows (left * (y + x)) (attempts_from fl out cfg request mode t i left)
    unfolding attempts_from
    retries-Grows request mode t i zero = Grows-return none
    retries-Grows request mode t i (suc left) =
        weaken
          (Grows-bind (attempt-Grows request mode t i)
            (λ result. or_next-Grows result (retries-Grows request mode t (i + 1) left)))
          (omega (arith, retry_cost_bound i))

    -- One attempt, and a retry and an attempt for every further one.
    abbrev pub provider_cost : ℕ
    provider_cost = x + cfg.retry_policy.max_retries * (y + x)

    pub try_provider-Grows :
        (request : ChatCompletionRequest F) (mode : Option Text) (t : Target)
        → Grows provider_cost (try_provider fl out cfg request mode t)
    unfolding try_provider attempts_from
    try_provider-Grows request mode t =
        weaken
          (Grows-bind (attempt-Grows request mode t 0) (λ result.
            or_next-Grows result
              (retries-Grows request mode t (0 + 1) cfg.retry_policy.max_retries)))
          (omega arith)

    switch_to-Grows :
        {m : M fl out cfg (Next F)} (c : Option (RoutingCandidate F))
        → Grows z m
        → Grows z (switch_to fl out cfg c m)
    unfolding switch_to
    switch_to-Grows none p = p
    switch_to-Grows (some c) p =
        weaken (Grows-bind (Grows-modify cost.failed_over) (λ counted. Grows-return _ {n = 0}))
          (omega arith)

    failover-Grows :
        {m : M fl out cfg (Next F)} (request : ChatCompletionRequest F)
        → Grows z m
        → Grows z (failover fl out cfg request m)
    unfolding failover
    failover-Grows request p =
        then-Grows (select_fallback-Grows request) (λ fallback. switch_to-Grows fallback p)

    short_circuit-Grows :
        (request : ChatCompletionRequest F) (t : Target)
        → Grows z (short_circuit fl out cfg request t)
    unfolding short_circuit
    short_circuit-Grows request t =
        then-Grows (Grows-modify (λ c. omega (arith, cost.noted c (circuit_open_error t.provider))))
          (λ noted. Grows-if _ (Grows-throw _) (failover-Grows request (Grows-throw _)))

    after_attempts-Grows :
        (request : ChatCompletionRequest F) (result : Option (ChatCompletionResponse F))
        → Grows z (after_attempts fl out cfg request result)
    unfolding after_attempts
    after_attempts-Grows request (some resp) = stays (λ s. refl)
    after_attempts-Grows request none = record {
      bound = λ s.
          either_bound _ (throw_last fl out cfg)
            (λ u.
              if leb cfg.max_failover_attempts u.context.failover_attempts
              then throw_last fl out cfg u
              else failover fl out cfg request (throw_last fl out cfg) u)
            z s throw_last-Grows
            (record {
              bound = λ u.
                  either_bound _ (throw_last fl out cfg)
                    (failover fl out cfg request (throw_last fl out cfg)) z u throw_last-Grows
                    (failover-Grows request throw_last-Grows);
            });
    }

    round-Grows :
        (request : ChatCompletionRequest F) (mode : Option Text) (t : Target)
        → Grows (provider_cost + z) (round fl out cfg request mode t)
    unfolding round
    round-Grows request mode t = then-Grows (check_deadline-Grows 0) (λ in_time.
        then-Grows (Grows-modify (λ c. omega (arith, cost.selected t c))) (λ selected.
          then-Grows (circuit_can_execute-Grows t.provider) (λ allowed.
            Grows-if _
              (Grows-bind (try_provider-Grows request mode t) (after_attempts-Grows request))
              (weaken (short_circuit-Grows request t) (omega arith)))))

    proceed-Grows :
        {rest : Target → M fl out cfg (ChatCompletionResponse F)} {n : ℕ} (next : Next F)
        → ((t : Target) → Grows n (rest t))
        → Grows n (proceed fl out cfg next rest)
    unfolding proceed
    proceed-Grows (done resp) p = Grows-return resp
    proceed-Grows (again t) p = p t

    pub rounds-Grows :
        (request : ChatCompletionRequest F) (mode : Option Text) (left : ℕ) (t : Target)
        → Grows (left * (provider_cost + z)) (rounds fl out cfg request mode left t)
    unfolding rounds
    rounds-Grows request mode zero t = throw_last-Grows
    rounds-Grows request mode (suc left) t = record {
      bound = λ s.
          either_bound _ (throw_last fl out cfg) _ (suc left * (provider_cost + z)) s
            throw_last-Grows
            (weaken
              (Grows-bind (round-Grows request mode t)
                (λ next. proceed-Grows next (rounds-Grows request mode left)))
              (omega arith));
    }
