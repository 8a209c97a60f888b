-- ===== src/Executor/Attempt.antt =====
-- One attempt of `ReliabilityExecutor.execute` at one provider, and the retries:
-- backend/app/reliability/executor.py, the body of the inner loop and the loop.
use cortex_gateway.Prelude.{
  ℕ, zero, suc, ◌+◌, Bool, true, false, not, Option, none, some, [], ◌∷◌, ◌++◌, ltb, ◌==◌,
  if◌then◌else◌, Text,
}
use cortex_gateway.Errors.{Error, is_transient_error}
use cortex_gateway.Breaker.{CircuitState}
use cortex_gateway.Chat.{ChatCompletionResponse, ChatCompletionRequest}
use cortex_gateway.Floats.{Floats}
use cortex_gateway.Retry.{capped_delay, compute_delay}
use cortex_gateway.Routing.Stats.{track_success, track_failure}
use cortex_gateway.Executor.{
  Reply, answer, fails, Outside, AttemptRecord, Config, Context, Target, ok, M, ◌>>=◌, return,
  throw, read_clock, modify, check_deadline, circuit_record_success, circuit_record_failure,
  circuit_state,
}

-- The record of an attempt, `number` counted from 1.
abbrev pub attempt_record : Target → ℕ → Bool → AttemptRecord
attempt_record t number is_success = record {
  provider = t.provider;
  model = t.model;
  attempt_number = number;
  is_failover = t.is_failover;
  is_success = is_success;
}

abbrev pub add_attempt : AttemptRecord → Context → Context
add_attempt a c = record c { attempts = c.attempts ++ a ∷ [] }

module _ (fl : Floats) (out : Outside fl.F) (cfg : Config fl.F) where
  open fl use {F}

  -- The reliability metadata of a response.
  unfoldable pub attach_metadata :
      Option Text
      → Target
      → CircuitState
      → Context
      → ChatCompletionResponse F
      → ChatCompletionResponse F
  attach_metadata routing_mode t state c resp = record resp {
    metadata = record resp.metadata {
      routing_mode = routing_mode;
      selected_provider = some t.provider;
      selected_model = some t.model;
      original_provider = some c.original_provider;
      failover_triggered = c.failover_triggered;
      retry_count = c.retry_count;
      failover_attempts = c.failover_attempts;
      circuit_breaker_state = some state;
    };
  }

  unfoldable pub stats_success : Target → F → M fl out cfg (Unit {0})
  stats_success t latency s =
      (ok tt, record s { tracker = track_success fl s.tracker t.provider t.model latency })

  unfoldable pub stats_failure : Target → M fl out cfg (Unit {0})
  stats_failure t s = (ok tt, record s { tracker = track_failure fl s.tracker t.provider t.model })

  -- The success path.
  unfoldable pub succeed :
      Option Text
      → Target
      → ℕ
      → ChatCompletionResponse F
      → M fl out cfg (Option (ChatCompletionResponse F))
  unfolding read_clock modify circuit_record_success circuit_state stats_success
  succeed routing_mode t number resp = read_clock fl out cfg >>= λ finished.
      modify fl out cfg (add_attempt (attempt_record t number true)) >>= λ done.
      circuit_record_success fl out cfg t.provider >>= λ recorded.
      stats_success t resp.metadata.latency_ms >>= λ tracked.
      circuit_state fl out cfg t.provider >>= λ state s.
      (ok (some (attach_metadata routing_mode t state s.context resp)), s)

  -- The path of an exception: it is raised again unless it is transient, and the last attempt
  -- counts for the circuit.
  unfoldable pub fail : Target → ℕ → Error → M fl out cfg (Option (ChatCompletionResponse F))
  unfolding read_clock modify circuit_record_failure stats_failure
  fail t attempt_idx exc = read_clock fl out cfg >>= λ finished.
      modify fl out cfg (λ c.
        add_attempt (attempt_record t (attempt_idx + 1) false) (record c { last_error = some exc }))
      >>= λ done. stats_failure t >>= λ tracked.
          if not (is_transient_error exc)
          then throw exc
          else if attempt_idx == cfg.retry_policy.max_retries
          then (circuit_record_failure fl out cfg t.provider exc >>= λ recorded. return none)
          else return none

  -- `provider.chat`, on the request with the provider and model at hand.
  unfoldable pub call_provider : ChatCompletionRequest F → Target → M fl out cfg (Reply F)
  call_provider request t s =
      let (reply, w) =
        out.chat t.provider (record request { provider = some t.provider; model = t.model })
          s.world in
      (ok reply, record s { world = w })

  -- The delay before a retry; jitter draws a random amount.
  unfoldable pub draw_delay : ℕ → M fl out cfg ℕ
  draw_delay retry_attempt s =
      let policy = cfg.retry_policy in
      let (amount, w) = out.draw (capped_delay policy retry_attempt) s.world in
      if policy.jitter
      then (ok (compute_delay policy retry_attempt amount), record s { world = w })
      else (ok (compute_delay policy retry_attempt 0), s)

  -- `if delay > 0: await sleep(delay)`.
  unfoldable pub sleep_for : ℕ → M fl out cfg (Unit {0})
  sleep_for delay s =
      (ok tt, if ltb 0 delay then record s { world = out.sleep delay s.world } else s)

  -- Before an attempt: the deadline, and the backoff before a retry.
  unfoldable pub before_attempt : ℕ → M fl out cfg (Unit {0})
  unfolding check_deadline modify draw_delay sleep_for
  before_attempt zero = check_deadline fl out cfg 0
  before_attempt (suc retry_attempt) = check_deadline fl out cfg 0 >>= λ early.
      draw_delay retry_attempt >>= λ delay. check_deadline fl out cfg delay >>= λ in_time.
      modify fl out cfg (λ c. record c { retry_count = c.retry_count + 1 }) >>= λ counted.
      sleep_for delay

  -- The `try` around the call: what follows the provider's reply.
  unfoldable pub handle_reply :
      Option Text → Target → ℕ → Reply F → M fl out cfg (Option (ChatCompletionResponse F))
  unfolding succeed fail
  handle_reply routing_mode t attempt_idx (answer resp) =
      succeed routing_mode t (attempt_idx + 1) resp
  handle_reply routing_mode t attempt_idx (fails exc) = fail t attempt_idx exc

  -- One pass through the inner loop: a response, or none after a transient failure.
  unfoldable pub attempt :
      ChatCompletionRequest F
      → Option Text
      → Target
      → ℕ
      → M fl out cfg (Option (ChatCompletionResponse F))
  unfolding before_attempt read_clock call_provider handle_reply
  attempt request routing_mode t attempt_idx = before_attempt attempt_idx >>= λ ready.
      read_clock fl out cfg >>= λ started.
      call_provider request t >>= λ reply. handle_reply routing_mode t attempt_idx reply

  -- A response ends the loop.
  unfoldable pub or_next :
      Option (ChatCompletionResponse F)
      → M fl out cfg (Option (ChatCompletionResponse F))
      → M fl out cfg (Option (ChatCompletionResponse F))
  or_next (some resp) rest = return (some resp)
  or_next none rest = rest

  -- The inner loop, with `left` attempts to go.
  unfoldable pub attempts_from :
      ChatCompletionRequest F
      → Option Text
      → Target
      → ℕ
      → ℕ
      → M fl out cfg (Option (ChatCompletionResponse F))
  unfolding attempt or_next
  attempts_from request routing_mode t attempt_idx zero = return none
  attempts_from request routing_mode t attempt_idx (suc left) =
      let rest = attempts_from request routing_mode t (attempt_idx + 1) left in
      attempt request routing_mode t attempt_idx >>= λ result. or_next result rest

  -- `for attempt_idx in range(1 + max_retries)`.
  unfoldable pub try_provider :
      ChatCompletionRequest F
      → Option Text
      → Target
      → M fl out cfg (Option (ChatCompletionResponse F))
  unfolding attempts_from
  try_provider request routing_mode t =
      attempts_from request routing_mode t 0 (suc cfg.retry_policy.max_retries)
