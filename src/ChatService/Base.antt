-- ===== src/ChatService/Base.antt =====
-- What the steps of `ChatService.complete` of backend/app/services/chat_service.py share: the
-- services that the endpoint hands in, the state they keep, and steps that end in a value or an
-- exception.
use cortex_gateway.Prelude.{ℕ, Bool, Option, List, Dict, Text}
use cortex_gateway.Budget
use cortex_gateway.Chat.{ChatCompletionRequest, ChatCompletionResponse}
use cortex_gateway.Errors.{Error}
use cortex_gateway.Executor
use cortex_gateway.Executor.{Outside, Config, State}
use cortex_gateway.Floats.{Floats}
use cortex_gateway.RateLimit.{Counters, Scope, TeamRateLimit}
use cortex_gateway.SemanticCache.{Redis, Codec}
use cortex_gateway.SemanticCache
use cortex_gateway.Budget.Calendar.{DateTime}
use cortex_gateway.Auth.{RequestContext}
use cortex_gateway.Policy.{ResolvedPolicy}

-- The settings that `complete` reads.
pub record Settings : Type 0 where
  pub rate_limit_enabled : Bool
  pub rate_limit_api_key_requests : ℕ
  pub rate_limit_api_key_window_seconds : ℕ
  pub rate_limit_team_requests : ℕ
  pub rate_limit_team_window_seconds : ℕ
  pub rate_limit_org_requests : ℕ
  pub rate_limit_org_window_seconds : ℕ
  pub budget_enabled : Bool
  pub budget_warning_threshold_percent : ℕ
  pub budget_expose_remaining : Bool

-- Which services are given; `overrides` is none where the service of the team limits is missing or
-- raises.
pub record Services : Type 0 where
  pub rate_limiter : Bool
  pub connected : Bool
  pub overrides : Option (Dict TeamRateLimit)
  pub budget_service : Bool
  pub cost_calculator : Bool
  pub semantic_cache : Bool

-- The readings of the clock: one for each scope of the limiter, and for the budget the two of a
-- rollover, that of the reservation and that of the settlement or the release.
pub record Times : Type 0 where
  pub key_ms : ℕ
  pub team_ms : ℕ
  pub org_ms : ℕ
  pub budget_now : DateTime
  pub budget_later : DateTime
  pub budget_reserved : DateTime
  pub budget_settled : DateTime

-- How the executor or a service fails, or that a limit is exceeded.
pub data Failure : Type 0 where
  rate_limited : ℕ → Scope → Failure
  failed : Error → Failure

pub data Result {ℓ} (A : Type ℓ) : Type ℓ where
  done : A → Result A
  fail : Failure → Result A

-- Steps on a state, which stop at an exception and keep the state that they left.
infixl 5 ◌>>=◌
unfoldable pub ◌>>=◌ :
    {S A B : Type 0} → (S → Result A × S) → (A → S → Result B × S) → S → Result B × S
◌>>=◌ m f s = let (r, s') = m s in elim r [ done a ↦ f a s' | fail e ↦ (fail e, s') ]

unfoldable pub return : {S A : Type 0} → A → S → Result A × S
return a s = (done a, s)

unfoldable pub throw : {S A : Type 0} → Failure → S → Result A × S
throw e s = (fail e, s)

-- `try: … except Exception: cleanup; raise`.
unfoldable pub on_failure : {S A : Type 0} → (S → Result A × S) → (S → S) → S → Result A × S
on_failure m cleanup s =
    let (r, s') = m s in elim r [ done a ↦ (done a, s') | fail e ↦ (fail e, cleanup s') ]

-- Everything that lies outside: floats, the limiter's and the cache's Redis, the providers.
pub record System : Type 1 where
  pub fl : Floats
  pub counters : Counters
  pub out : Outside fl.F
  pub cfg : Config fl.F
  pub redis : Redis
  pub codec : Codec fl.F
  pub cache_settings : SemanticCache.Settings fl.F
  pub sha256 : Text → List ℕ

-- The arguments of `complete`; `uuid` is what `uuid.uuid4()` gives.
pub record Call (F : Type 0) : Type 0 where
  pub request : ChatCompletionRequest F
  pub request_id : Text
  pub context : Option RequestContext
  pub settings : Settings
  pub services : Services
  pub resolved_policy : Option ResolvedPolicy
  pub times : Times
  pub uuid : Text

-- The provider and model to call, and the routing mode as the executor is told it.
pub record Target : Type 0 where
  pub provider : Text
  pub model : Text
  pub routing_mode : Text

module _ (sys : System) where
  -- `scheduled` holds the calls of `store` that wait in the event loop, newest first.
  pub record World : Type 0 where
    pub counts : sys.counters.Store
    pub budgets : Budget.Table sys.fl.F
    pub executor : State sys.fl sys.out sys.cfg
    pub cache : sys.redis.Store
    pub scheduled : List (ChatCompletionRequest sys.fl.F × ChatCompletionResponse sys.fl.F)

  abbrev pub M : Type 0 → Type 0
  M A = World → Result A × World

  -- A step of the executor.
  unfoldable pub lift : {A : Type 0} → Executor.M sys.fl sys.out sys.cfg A → M A
  lift m w =
      let (r, s) = m w.executor in
      elim r [
        | Executor.ok a ↦ (done a, record w { executor = s })
        | Executor.raise e ↦ (fail (failed e), record w { executor = s })
      ]
