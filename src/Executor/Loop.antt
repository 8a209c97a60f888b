-- ===== src/Executor/Loop.antt =====
-- `ReliabilityExecutor.execute` of backend/app/reliability/executor.py: the outer loop over the
-- providers. A round ends in a response, in an exception or in the next target. Each next target
-- counts one failover, so `max_failover_attempts + 1` rounds are all there can be.
use cortex_gateway.Prelude.{
  ℕ, zero, suc, ◌+◌, Bool, true, false, not, Option, none, some, [], ◌∷◌, ltb, leb, if◌then◌else◌,
  Text, lower,
}
use cortex_gateway.Errors.{circuit_open_error}
use cortex_gateway.Chat.{ChatCompletionResponse, ChatCompletionRequest}
use cortex_gateway.Floats.{Floats}
use cortex_gateway.Routing.Models.{RoutingCandidate}
use cortex_gateway.Executor.{
  Outside, Config, Context, Target, ok, M, ◌>>=◌, return, throw, throw_last, read_clock, modify,
  check_deadline, circuit_can_execute, select_fallback,
}
use cortex_gateway.Executor.Attempt.{try_provider}

pub data Next (F : Type 0) : Type 0 where
  done : ChatCompletionResponse F → Next F
  again : Target → Next F

-- The provider at hand joins those that were attempted.
unfoldable pub select_target : Target → Context → Context
select_target t c = record c {
  attempted_providers = lower t.provider ∷ c.attempted_providers;
  selected_provider = t.provider;
  selected_model = t.model;
}

module _ (fl : Floats) (out : Outside fl.F) (cfg : Config fl.F) where
  open fl use {F}

  -- `request.failover_enabled is False`.
  unfoldable pub failover_disabled : ChatCompletionRequest F → Bool
  failover_disabled r = elim r.failover_enabled [ none ↦ false | some b ↦ not b ]

  -- What the selector returned: the next target, or the exception `last` if there is none.
  unfoldable pub switch_to :
      Option (RoutingCandidate F) → M fl out cfg (Next F) → M fl out cfg (Next F)
  unfolding modify
  switch_to none last = last
  switch_to (some c) last =
      modify fl out cfg
        (λ x. record x { failover_triggered = true; failover_attempts = x.failover_attempts + 1 })
      >>= λ counted.
          return (again (record { provider = c.provider; model = c.model; is_failover = true }))

  unfoldable pub failover : ChatCompletionRequest F → M fl out cfg (Next F) → M fl out cfg (Next F)
  unfolding select_fallback switch_to
  failover request last = select_fallback fl out cfg request >>= λ fallback. switch_to fallback last

  -- The circuit is open.
  unfoldable pub short_circuit : ChatCompletionRequest F → Target → M fl out cfg (Next F)
  unfolding failover failover_disabled modify
  short_circuit request t =
      modify fl out cfg (λ c. record c { last_error = some (circuit_open_error t.provider) })
      >>= λ noted.
          if failover_disabled request
          then throw (circuit_open_error t.provider)
          else failover request (throw (circuit_open_error t.provider))

  -- Behind the retry loop: a response, or the failover.
  unfoldable pub after_attempts :
      ChatCompletionRequest F → Option (ChatCompletionResponse F) → M fl out cfg (Next F)
  unfolding failover failover_disabled throw_last
  after_attempts request (some resp) s = (ok (done resp), s)
  after_attempts request none s =
      if failover_disabled request
      then throw_last fl out cfg s
      else if leb cfg.max_failover_attempts s.context.failover_attempts
      then throw_last fl out cfg s
      else failover request (throw_last fl out cfg) s

  -- One pass through the outer loop.
  unfoldable pub round : ChatCompletionRequest F → Option Text → Target → M fl out cfg (Next F)
  unfolding check_deadline modify select_target circuit_can_execute short_circuit try_provider
      after_attempts
  round request routing_mode t = check_deadline fl out cfg 0 >>= λ in_time.
      modify fl out cfg (select_target t) >>= λ selected.
      circuit_can_execute fl out cfg t.provider >>= λ allowed.
      if allowed
      then (try_provider fl out cfg request routing_mode t >>= λ result.
          after_attempts request result)
      else short_circuit request t

  -- A response ends the loop, a target is the next to try.
  unfoldable pub proceed :
      Next F
      → (Target → M fl out cfg (ChatCompletionResponse F))
      → M fl out cfg (ChatCompletionResponse F)
  proceed (done resp) rest = return resp
  proceed (again t) rest = rest t

  -- `while failover_attempts <= max_failover_attempts`, on `left` rounds.
  unfoldable pub rounds :
      ChatCompletionRequest F → Option Text → ℕ → Target → M fl out cfg (ChatCompletionResponse F)
  unfolding round throw_last proceed
  rounds request routing_mode zero t = throw_last fl out cfg
  rounds request routing_mode (suc left) t =
      let rest = rounds request routing_mode left in
      λ s.
        if ltb cfg.max_failover_attempts s.context.failover_attempts
        then throw_last fl out cfg s
        else (round request routing_mode t >>= λ next. proceed next rest) s

  -- The context of a new request.
  unfoldable pub new_context : Text → Text → ℕ → Context
  new_context provider model now = record {
    deadline_timestamp = now + cfg.total_request_timeout;
    original_provider = provider;
    original_model = model;
    selected_provider = provider;
    selected_model = model;
    attempted_providers = [];
    retry_count = 0;
    failover_attempts = 0;
    failover_triggered = false;
    attempts = [];
    last_error = none;
  }

  unfoldable pub execute :
      ChatCompletionRequest F → Text → Text → Option Text → M fl out cfg (ChatCompletionResponse F)
  unfolding read_clock modify new_context rounds
  execute request provider model routing_mode = read_clock fl out cfg >>= λ now.
      modify fl out cfg (λ c. new_context provider model now) >>= λ entered.
      rounds request routing_mode (cfg.max_failover_attempts + 1)
        (record { provider = provider; model = model; is_failover = false })
