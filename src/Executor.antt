-- ===== src/Executor.antt =====
-- `ReliabilityExecutor` of backend/app/reliability/executor.py and `FailoverSelector` of
-- backend/app/reliability/failover.py, with `AttemptRecord` and `ReliabilityContext` of
-- backend/app/reliability/models.py. What lies outside the process is the record `Outside`: the
-- clock, sleep, the random draws, the providers' answers and their completions, over a state of
-- their own. A step is a function of the executor's state, which ends in a value or an exception.
-- Logging, and the latency and error text of an attempt record, which nothing reads, are left out.
pub mod Attempt
pub mod Loop
pub mod Bounds
pub mod Effort
pub mod Fuel
pub mod Tests
use cortex_gateway.Prelude.{
  ℕ, ◌+◌, Bool, not, ◌||◌, Option, none, some, List, [], ◌∷◌, map, leb, if◌then◌else◌, keep, any,
  is_empty, Text, lower, text_eq,
}
use cortex_gateway.Errors.{Error, total_deadline_exceeded_error, failover_exhausted_error}
use cortex_gateway.Breaker.{CircuitState}
use cortex_gateway.Breaker.Registry.{
  Registry, registry_can_execute, registry_record_success, registry_record_failure, get_state,
}
use cortex_gateway.Chat.{ChatCompletionRequest, ChatCompletionResponse}
use cortex_gateway.Floats.{Floats}
use cortex_gateway.Providers.{ProviderRegistry}
use cortex_gateway.Retry.{RetryPolicy}
use cortex_gateway.Routing.Models.{RoutingMode, RoutingCandidate, PolicyWeights, get_weights}
use cortex_gateway.Routing.Metadata.{Catalog}
use cortex_gateway.Routing.Stats.{Tracker}
use cortex_gateway.Routing.Candidates.{build_candidates}
use cortex_gateway.Routing.Router
use cortex_gateway.Routing.Router.{
  resolve_routing_mode, filter_by_capabilities, prefer_healthy, capabilities_of,
}
use cortex_gateway.Routing.Scorer.{score_candidates}

-- What `registry.get(name)` and then the provider's `chat` do: a response, or what either raises.
pub data Reply (F : Type 0) : Type 0 where
  answer : ChatCompletionResponse F → Reply F
  fails : Error → Reply F

pub record Outside (F : Type 0) : Type 1 where
  pub World : Type 0
  pub clock : World → ℕ × World
  pub sleep : ℕ → World → World
  pub draw : ℕ → World → ℕ × World
  pub survey : World → ProviderRegistry × World
  pub chat : Text → ChatCompletionRequest F → World → Reply F × World

pub record AttemptRecord : Type 0 where
  pub provider : Text
  pub model : Text
  pub attempt_number : ℕ
  pub is_failover : Bool
  pub is_success : Bool

-- The settings of the executor, its retry policy and its routing engine.
pub record Config (F : Type 0) : Type 0 where
  pub retry_policy : RetryPolicy
  pub total_request_timeout : ℕ
  pub max_failover_attempts : ℕ
  pub catalog : Catalog F
  pub auto_weights : Option (PolicyWeights F)
  pub default_mode : RoutingMode

-- The context of one request, with the local variable `last_error`.
pub record Context : Type 0 where
  pub deadline_timestamp : ℕ
  pub original_provider : Text
  pub original_model : Text
  pub selected_provider : Text
  pub selected_model : Text
  pub attempted_providers : List Text
  pub retry_count : ℕ
  pub failover_attempts : ℕ
  pub failover_triggered : Bool
  pub attempts : List AttemptRecord
  pub last_error : Option Error

-- The provider and model at hand, and whether it came by failover.
pub record Target : Type 0 where
  pub provider : Text
  pub model : Text
  pub is_failover : Bool

pub data Outcome {ℓ} (A : Type ℓ) : Type ℓ where
  ok : A → Outcome A
  raise : Error → Outcome A

-- Steps on a state, which stop at an exception and keep the state that they left.
infixl 5 ◌>>=◌
unfoldable pub ◌>>=◌ :
    {S A B : Type 0} → (S → Outcome A × S) → (A → S → Outcome B × S) → S → Outcome B × S
◌>>=◌ m f s = let (r, s') = m s in elim r [ ok a ↦ f a s' | raise e ↦ (raise e, s') ]

unfoldable pub return : {S A : Type 0} → A → S → Outcome A × S
return a s = (ok a, s)

unfoldable pub throw : {S A : Type 0} → Error → S → Outcome A × S
throw e s = (raise e, s)

module _ (fl : Floats) (out : Outside fl.F) (cfg : Config fl.F) where
  open fl use {F}
  open out use {World, clock, sleep, draw, survey, chat}

  pub record State : Type 0 where
    pub circuits : Registry
    pub tracker : Tracker fl
    pub context : Context
    pub world : World

  abbrev pub M : Type 0 → Type 0
  M A = State → Outcome A × State

  -- `raise last_error` if there is one, else `FailoverExhaustedError()`.
  unfoldable pub throw_last : {A : Type 0} → M A
  throw_last s = elim s.context.last_error [
    | some e ↦ (raise e, s)
    | none ↦ (raise failover_exhausted_error, s)
  ]

  -- `time.monotonic()`.
  unfoldable pub read_clock : M ℕ
  read_clock s = let (now, w) = clock s.world in (ok now, record s { world = w })

  unfoldable pub modify : (Context → Context) → M (Unit {0})
  modify f s = (ok tt, record s { context = f s.context })

  -- `if context.is_deadline_exceeded(): raise TotalDeadlineExceededError()`, also with a delay
  -- that is still to come.
  unfoldable pub check_deadline : ℕ → M (Unit {0})
  unfolding read_clock
  check_deadline delay = read_clock >>= λ now s.
      if leb s.context.deadline_timestamp (now + delay)
      then (raise total_deadline_exceeded_error, s)
      else (ok tt, s)

  unfoldable pub circuit_can_execute : Text → M Bool
  unfolding read_clock
  circuit_can_execute provider = read_clock >>= λ now s.
      let (circuits, allowed) = registry_can_execute s.circuits provider now in
      (ok allowed, record s { circuits = circuits })

  unfoldable pub circuit_record_success : Text → M (Unit {0})
  unfolding read_clock
  circuit_record_success provider = read_clock >>= λ now s.
      (ok tt, record s { circuits = registry_record_success s.circuits provider now })

  -- The clock is read a second time by `_resolve_state`.
  unfoldable pub circuit_record_failure : Text → Error → M (Unit {0})
  unfolding read_clock
  circuit_record_failure provider exc = read_clock >>= λ now. read_clock >>= λ later s.
      (ok tt, record s { circuits = registry_record_failure s.circuits provider exc now later })

  unfoldable pub circuit_state : Text → M CircuitState
  unfolding read_clock
  circuit_state provider = read_clock >>= λ now s.
      let (circuits, state) = get_state s.circuits provider now in
      (ok state, record s { circuits = circuits })

  -- `[c for c in eligible if can_execute(c.provider)]`: every call may use up a probe.
  unfoldable pub keep_available : List (RoutingCandidate F) → M (List (RoutingCandidate F))
  unfolding circuit_can_execute
  keep_available [] = return []
  keep_available (c ∷ cs) =
      let rest = keep_available cs in
      circuit_can_execute c.provider >>= λ allowed.
      rest >>= λ others. return (if allowed then c ∷ others else others)

  -- The candidates as the providers answer now.
  unfoldable pub discover : M (List (RoutingCandidate F))
  discover s =
      let (reg, w) = survey s.world in
      (ok (build_candidates fl reg cfg.catalog s.tracker), record s { world = w })

  -- `select_fallback` from the candidates with a circuit that lets them pass.
  unfoldable pub rank_available :
      ChatCompletionRequest F → List (RoutingCandidate F) → M (Option (RoutingCandidate F))
  rank_available request available =
      let required = capabilities_of request.required_capabilities in
      let capable =
        if is_empty required then available else filter_by_capabilities fl available required in
      if is_empty available || is_empty capable
      then return none
      else elim (resolve_routing_mode fl cfg.default_mode request) [
        | Router.raise c ↦ throw (record { class = c; message = [] })
        | Router.ok mode ↦
            return
              (elim (score_candidates fl (prefer_healthy fl capable)
                (get_weights fl cfg.auto_weights mode)) [
                  | [] ↦ none
                  | best ∷ others ↦ some best.candidate
                ])
      ]

  unfoldable pub select_fallback : ChatCompletionRequest F → M (Option (RoutingCandidate F))
  unfolding keep_available discover rank_available
  select_fallback request = discover >>= λ candidates s.
      let attempted = map lower s.context.attempted_providers in
      let eligible = keep (λ c. not (any (text_eq (lower c.provider)) attempted)) candidates in
      if is_empty eligible
      then (ok none, s)
      else (keep_available eligible >>= λ available. rank_available request available) s
