-- ===== src/ChatService/Admission.antt =====
-- The first steps of `ChatService.complete` of backend/app/services/chat_service.py: the rate limits,
-- the target and the cache.
use cortex_gateway.Prelude.{
  ℕ, Bool, false, not, ◌&&◌, ◌||◌, Option, none, some, [], if◌then◌else◌, is_some, is_empty, Dict,
  Text, codes, lower, text_eq,
}
use cortex_gateway.ChatService.Base.{
  Call, Target, System, M, done, fail, failed, rate_limited, ◌>>=◌, return, throw, Settings, World,
}
use cortex_gateway.Auth.{RequestContext, attribute}
use cortex_gateway.Chat.{ChatCompletionRequest, ChatCompletionResponse}
use cortex_gateway.Errors.{Error, invalid_manual_routing}
use cortex_gateway.RateLimit.{
  Limits, Scope, key, team, org, check_all, get_limit, TeamRateLimit, RateLimitOutcome,
}
use cortex_gateway.Policy.{ResolvedPolicy, global_default_policy, strategy_text}
use cortex_gateway.Routing.Router
use cortex_gateway.Routing.Router.{
  Engine, given, capabilities_of, resolve_routing_mode, route, is_manual,
}
use cortex_gateway.SemanticCache.{cache_lookup}
use cortex_gateway.Providers.{ProviderRegistry}
use cortex_gateway.Routing.Models.{RoutingMode, RoutingDecision}
use cortex_gateway.Experiment.{ExperimentAssignment, assign}

abbrev pub or_value {ℓ} : {A : Type ℓ} → Option A → A → A
or_value none d = d
or_value (some a) d = a

-- `request.provider` or `request.routing_mode` is given and is `"manual"`.
abbrev pub is_text : Text → Option Text → Bool
is_text t none = false
is_text t (some x) = text_eq x t

-- The requests for a minute that a team may make: its override, or the setting.
unfoldable pub team_requests : Option (Dict TeamRateLimit) → Text → ℕ → ℕ
unfolding get_limit
team_requests none team_id default = default
team_requests (some db) team_id default =
    if is_empty team_id then default else elim (get_limit db team_id) [
      | none ↦ default
      | some row ↦ or_value row.requests_per_minute default
    ]

unfoldable pub identifier_of : RequestContext → Scope → Text
identifier_of c key = c.api_key_id
identifier_of c team = c.team_id
identifier_of c org = c.organization_id

unfoldable pub limit_of : Settings → ℕ → Scope → ℕ
limit_of s rpm key = s.rate_limit_api_key_requests
limit_of s rpm team = rpm
limit_of s rpm org = s.rate_limit_org_requests

unfoldable pub window_of : Settings → Scope → ℕ
window_of s key = s.rate_limit_api_key_window_seconds
window_of s team = s.rate_limit_team_window_seconds
window_of s org = s.rate_limit_org_window_seconds

module _ (sys : System) where
  open sys use {fl, cfg, out, counters, redis, codec, cache_settings, sha256}
  open fl use {F}

  abbrev pub policy_of : Call F → ResolvedPolicy
  policy_of call = or_value call.resolved_policy global_default_policy

  -- The limits of a request in a context.
  unfoldable pub limits_of : Call F → RequestContext → Limits
  unfolding team_requests identifier_of limit_of window_of
  limits_of call c = record {
    identifier = identifier_of c;
    limit =
        limit_of call.settings
          (team_requests call.services.overrides c.team_id call.settings.rate_limit_team_requests);
    window = window_of call.settings;
  }

  -- The remaining requests, or `RateLimitExceeded`.
  unfoldable pub admit : RateLimitOutcome → M sys (Option ℕ)
  admit outcome =
      if outcome.allowed
      then return (some outcome.binding_result.remaining)
      else throw
          (rate_limited outcome.binding_result.retry_after_seconds outcome.binding_result.scope)

  unfoldable pub limit_rate : Call F → M sys (Option ℕ)
  unfolding limits_of admit
  limit_rate call w = elim call.context [
    | none ↦ (done none, w)
    | some c ↦
        let t = call.times in
        let (outcome, counts) =
          check_all fl counters call.services.connected (limits_of call c) t.key_ms t.team_ms
            t.org_ms w.counts in
        if call.services.rate_limiter && call.settings.rate_limit_enabled
        then admit outcome (record w { counts = counts })
        else (done none, w)
  ]

  -- `is_manual`.
  unfoldable pub asks_manual : ChatCompletionRequest F → Bool
  asks_manual r =
      is_text (codes "manual") r.routing_mode
      || (is_some (given r.provider)
          && not (text_eq (lower r.model) (codes "auto"))
          && not (is_some r.routing_mode)
          && is_empty (capabilities_of r.required_capabilities))

  -- `effective_routing_mode` before the routing engine has spoken.
  unfoldable pub effective_routing_mode : Call F → Text
  unfolding asks_manual strategy_text
  effective_routing_mode call =
      if asks_manual call.request
      then codes "manual"
      else or_value (given call.request.routing_mode) (strategy_text (policy_of call).routing)

  -- The providers are asked for their health unless the mode is manual or not a mode.
  unfoldable pub asks_providers : Router.Result RoutingMode → Bool
  unfolding is_manual
  asks_providers (Router.raise c) = false
  asks_providers (Router.ok mode) = not (is_manual fl mode)

  -- The routing engine, over the providers as they answered.
  unfoldable pub engine_of : ProviderRegistry → World sys → Engine fl
  engine_of reg w = record {
    registry = reg;
    stats_tracker = w.executor.tracker;
    metadata_catalog = cfg.catalog;
    auto_weights = cfg.auto_weights;
    default_mode = cfg.default_mode;
  }

  -- `self._routing_engine.route(request)`.
  unfoldable pub route_request : ChatCompletionRequest F → M sys (RoutingDecision F)
  unfolding asks_providers engine_of
  route_request r w =
      let (reg, asked) = out.survey w.executor.world in
      let w' =
        if asks_providers (resolve_routing_mode fl cfg.default_mode r)
        then record w { executor = record w.executor { world = asked } }
        else w in
      elim (route fl (engine_of reg w) r) [
        | Router.ok decision ↦ (done decision, w')
        | Router.raise c ↦ (fail (failed (record { class = c; message = [] })), w')
      ]

  -- The target that the request names.
  unfoldable pub manual_target : ChatCompletionRequest F → Text → M sys Target
  manual_target r mode =
      let invalid : Error = record { class = invalid_manual_routing; message = [] } in
      elim (given r.provider) [
        | none ↦ throw (failed invalid)
        | some provider ↦
            if text_eq (lower r.model) (codes "auto")
            then throw (failed invalid)
            else return (record { provider = provider; model = r.model; routing_mode = mode })
      ]

  -- The target that the routing engine finds.
  unfoldable pub routed_target : ChatCompletionRequest F → M sys Target
  unfolding route_request strategy_text
  routed_target r = route_request r >>= λ decision. return (record {
    provider = decision.provider;
    model = decision.model;
    routing_mode = strategy_text decision.routing_mode;
  })

  unfoldable pub choose_target : Call F → M sys Target
  unfolding manual_target routed_target
  choose_target call =
      let mode = effective_routing_mode call in
      if asks_manual call.request
      then manual_target call.request mode
      else routed_target call.request

  -- A response from the cache gets the identity of the request.
  unfoldable pub identify : Call F → Option ℕ → ChatCompletionResponse F → ChatCompletionResponse F
  identify call remaining r = record r {
    metadata = record r.metadata { rate_limit_remaining = remaining; request_id = call.request_id };
  }

  -- The lookup, where the cache is given and the policy allows it.
  unfoldable pub consult_cache : Call F → Option ℕ → M sys (Option (ChatCompletionResponse F))
  unfolding attribute identify
  consult_cache call remaining w = elim call.context [
    | none ↦ (done none, w)
    | some c ↦
        let found =
          cache_lookup fl redis codec cache_settings call.request c
            (attribute (codes "request_id") c) call.uuid w.cache in
        if call.services.semantic_cache && (policy_of call).cache
        then elim found [
          | none ↦ (done none, w)
          | some response ↦ (done (some (identify call remaining response)), w)
        ]
        else (done none, w)
  ]

  -- The arm of the experiment that a request is assigned to.
  unfoldable pub assignment_of : Call F → Option ExperimentAssignment
  unfolding assign
  assignment_of call = elim call.context [
    | none ↦ none
    | some c ↦ assign sha256 c.team_id call.request_id (policy_of call).experiment
  ]

  -- The target of the arm, if there is one.
  unfoldable pub redirect : Option ExperimentAssignment → Target → Target
  redirect none t = t
  redirect (some a) t = record t { provider = a.provider; model = a.model }
