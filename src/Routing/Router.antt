-- ===== src/Routing/Router.antt =====
-- `RoutingEngine` of backend/app/routing/router.py. The message of an exception is left out.
pub mod Laws
use cortex_gateway.Prelude.{
  Bool, true, false, not, ◌&&◌, ◌||◌, Option, none, some, List, [], ◌∷◌, map, if◌then◌else◌,
  is_some, keep, any, all, is_empty, Text, codes, lower, strip, normalize, text_eq,
}
use cortex_gateway.Errors.{
  ErrorClass, invalid_manual_routing, invalid_routing_mode, no_routable_provider,
  no_capable_provider,
}
use cortex_gateway.Floats.{Floats, f1}
use cortex_gateway.Chat.{ChatCompletionRequest}
use cortex_gateway.Providers.{ProviderRegistry, is_registered}
use cortex_gateway.Routing.Models.{
  RoutingMode, manual, auto, lowest_cost, lowest_latency, best_available, capability_based,
  RoutingCandidate, RoutingDecision, PolicyWeights, manual_score, get_weights,
}
use cortex_gateway.Routing.Metadata
use cortex_gateway.Routing.Metadata.{Catalog}
use cortex_gateway.Routing.Stats.{Tracker}
use cortex_gateway.Routing.Candidates.{build_candidates}
use cortex_gateway.Routing.Scorer.{ScoredCandidate, score_candidates}

pub data Result {ℓ} (A : Type ℓ) : Type ℓ where
  ok : A → Result A
  raise : ErrorClass → Result A

infixl 5 ◌>>=◌
abbrev pub ◌>>=◌ {ℓ κ} : {A : Type ℓ} {B : Type κ} → Result A → (A → Result B) → Result B
ok a >>= f = f a
raise e >>= f = raise e

pub record Engine (fl : Floats) : Type 0 where
  pub registry : ProviderRegistry
  pub stats_tracker : Tracker fl
  pub metadata_catalog : Catalog fl.F
  pub auto_weights : Option (PolicyWeights fl.F)
  pub default_mode : RoutingMode

-- The members of `VALID_MODES`.
unfoldable pub mode_of : Text → Option RoutingMode
mode_of t =
    if text_eq t (codes "manual")
    then some manual
    else if text_eq t (codes "auto")
    then some auto
    else if text_eq t (codes "lowest_cost")
    then some lowest_cost
    else if text_eq t (codes "lowest_latency")
    then some lowest_latency
    else if text_eq t (codes "best_available")
    then some best_available
    else if text_eq t (codes "capability_based")
    then some capability_based
    else none

-- A text that is there and not empty: what Python holds to be true.
abbrev pub given : Option Text → Option Text
given none = none
given (some t) = if is_empty t then none else some t

-- `required_capabilities or []`.
abbrev pub capabilities_of : Option (List Text) → List Text
capabilities_of none = []
capabilities_of (some cs) = cs

-- `_filter_by_capabilities`: the required names that are not blank are among the candidate's.
unfoldable pub supports : List Text → List Text → Bool
supports capabilities required =
    all (λ r. any (text_eq r) (map normalize capabilities))
      (map normalize (keep (λ r. not (is_empty (strip r))) required))

module _ (fl : Floats) where
  open fl use {F}

  unfoldable pub filter_by_capabilities :
      List (RoutingCandidate F) → List Text → List (RoutingCandidate F)
  filter_by_capabilities cs required = keep (λ c. supports c.capabilities required) cs

  is_concrete : ChatCompletionRequest F → Bool
  is_concrete r =
      is_some (given r.provider)
      && not (is_empty r.model)
      && not (text_eq (lower r.model) (codes "auto"))

  -- `_resolve_routing_mode`.
  unfoldable pub resolve_routing_mode : RoutingMode → ChatCompletionRequest F → Result RoutingMode
  unfolding is_concrete
  resolve_routing_mode default_mode r = elim (given r.routing_mode) [
    | some t ↦ elim (mode_of (lower t)) [ none ↦ raise invalid_routing_mode | some m ↦ ok m ]
    | none ↦
        if is_concrete r
        then ok manual
        else if not (is_empty (capabilities_of r.required_capabilities))
        then ok capability_based
        else ok default_mode
  ]

  -- The branch of manual routing.
  unfoldable pub route_manual : Engine fl → ChatCompletionRequest F → Result (RoutingDecision F)
  route_manual e r = elim (given r.provider) [
    | none ↦ raise invalid_manual_routing
    | some provider ↦
        if is_empty r.model || text_eq (lower r.model) (codes "auto")
        then raise invalid_manual_routing
        else if not (is_registered e.registry provider)
        then raise no_routable_provider
        else let meta = Metadata.get fl e.metadata_catalog provider r.model in
          ok (record {
            provider = provider;
            model = r.model;
            routing_mode = manual;
            score = f1 fl;
            score_breakdown = manual_score (f1 fl);
            candidate = record {
              provider = provider;
              model = r.model;
              capabilities = meta.capabilities;
              context_window = meta.context_window;
              cost_per_1k_tokens = meta.cost_per_1k_tokens;
              is_healthy = true;
              baseline_latency_ms = meta.baseline_latency_ms;
              runtime_latency_ms = none;
              runtime_success_rate = f1 fl;
              total_requests = 0;
            };
          })
  ]

  -- The provider that the request asks for, if it asks for one.
  unfoldable pub filter_by_provider :
      ChatCompletionRequest F → List (RoutingCandidate F) → List (RoutingCandidate F)
  filter_by_provider r cs = elim (given r.provider) [
    | none ↦ cs
    | some p ↦
        if text_eq (lower p) (codes "auto")
        then cs
        else keep (λ c. text_eq (lower c.provider) (lower p)) cs
  ]

  unfoldable pub filter_required :
      ChatCompletionRequest F → List (RoutingCandidate F) → List (RoutingCandidate F)
  unfolding filter_by_capabilities
  filter_required r cs =
      let required = capabilities_of r.required_capabilities in
      if is_empty required then cs else filter_by_capabilities cs required

  -- The healthy candidates, or all if none is healthy.
  unfoldable pub prefer_healthy : List (RoutingCandidate F) → List (RoutingCandidate F)
  prefer_healthy cs =
      let healthy = keep (λ c. c.is_healthy) cs in if is_empty healthy then cs else healthy

  -- The decision for the best of a ranking.
  unfoldable pub decide : RoutingMode → List (ScoredCandidate F) → Result (RoutingDecision F)
  decide mode [] = raise no_routable_provider
  decide mode (best ∷ others) = ok (record {
    provider = best.candidate.provider;
    model = best.candidate.model;
    routing_mode = mode;
    score = best.total_score;
    score_breakdown = best.score_breakdown;
    candidate = best.candidate;
  })

  -- From the discovered candidates on.
  unfoldable pub route_among :
      Engine fl
      → ChatCompletionRequest F
      → RoutingMode
      → List (RoutingCandidate F)
      → Result (RoutingDecision F)
  route_among e r mode discovered =
      let chosen = filter_by_provider r discovered in
      let capable = filter_required r chosen in
      if is_empty discovered
      then raise no_routable_provider
      else if is_empty chosen
      then raise no_routable_provider
      else if is_empty capable
      then raise no_capable_provider
      else decide mode
          (score_candidates fl (prefer_healthy capable) (get_weights fl e.auto_weights mode))

  unfoldable pub is_manual : RoutingMode → Bool
  is_manual manual = true
  is_manual _ = false

  unfoldable pub route : Engine fl → ChatCompletionRequest F → Result (RoutingDecision F)
  unfolding is_manual
  route e r = resolve_routing_mode e.default_mode r >>= λ mode.
      if is_manual mode
      then route_manual e r
      else route_among e r mode (build_candidates fl e.registry e.metadata_catalog e.stats_tracker)
