-- ===== src/Routing/Candidates.antt =====
-- `CandidateBuilder` and `_resolve_ollama_models` of backend/app/routing/candidates.py.
use cortex_gateway.Prelude.{
  Bool, false, ◌||◌, Option, none, some, List, [], ◌∷◌, ◌++◌, map, if◌then◌else◌, keep, any,
  is_empty, Text, codes, strip, before_colon, text_eq,
}
use cortex_gateway.Floats.{Floats, f1}
use cortex_gateway.Providers
use cortex_gateway.Providers.{Adapter, ProviderRegistry, provider_names}
use cortex_gateway.Routing.Models.{RoutingCandidate}
use cortex_gateway.Routing.Metadata
use cortex_gateway.Routing.Metadata.{Catalog, provider_model_names}
use cortex_gateway.Routing.Stats.{Tracker, get_stats, success_rate, latency_ms}

abbrev pub or_else {ℓ} : {A : Type ℓ} → Option A → A → A
or_else none a = a
or_else (some b) a = b

-- The registry's name for a model is installed: itself, or by the name before the tag.
unfoldable pub is_installed : List Text → Text → Bool
is_installed live catalog_model =
    let normalized = strip catalog_model in
    any (text_eq normalized) live
    || any (λ lm. text_eq (before_colon lm) (before_colon normalized)) live

-- `_resolve_ollama_models`.
unfoldable pub resolve_ollama_models : List Text → List Text → List Text
unfolding is_installed
resolve_ollama_models live_models catalog_models =
    keep (is_installed (map strip live_models)) catalog_models

-- What `_inspect_provider` finds out: name, health and models; none if the registry has no such
-- provider. An exception of an answer is an unhealthy provider, or one with no models.
pub record Inspection : Type 0 where
  pub provider_name : Text
  pub is_healthy : Bool
  pub live_models : List Text

unfoldable pub inspect_provider : ProviderRegistry → Text → Option Inspection
inspect_provider reg name = elim (Providers.get reg name) [
  | none ↦ none
  | some a ↦ some (record {
    provider_name = a.name;
    is_healthy = or_else a.health_check false;
    live_models = or_else a.list_models [];
  })
]

module _ (fl : Floats) where
  open fl use {F}

  -- The models to enumerate for a provider.
  unfoldable pub models_of : Catalog F → Inspection → List Text
  unfolding resolve_ollama_models
  models_of catalog i =
      let names = provider_model_names fl catalog i.provider_name in
      if text_eq i.provider_name (codes "ollama")
      then resolve_ollama_models i.live_models (provider_model_names fl catalog (codes "ollama"))
      else if is_empty i.live_models
      then names
      else i.live_models

  unfoldable pub make_candidate : Catalog F → Tracker fl → Inspection → Text → RoutingCandidate F
  make_candidate catalog tracker i model_name =
      let meta = Metadata.get fl catalog i.provider_name model_name in
      let stats = get_stats fl tracker i.provider_name model_name in
      record {
        provider = i.provider_name;
        model = model_name;
        capabilities = meta.capabilities;
        context_window = meta.context_window;
        cost_per_1k_tokens = meta.cost_per_1k_tokens;
        is_healthy = i.is_healthy;
        baseline_latency_ms = meta.baseline_latency_ms;
        runtime_latency_ms = elim stats [ none ↦ none | some s ↦ latency_ms fl s ];
        runtime_success_rate = elim stats [ none ↦ f1 fl | some s ↦ success_rate fl s ];
        total_requests = elim stats [ none ↦ 0 | some s ↦ s.total_requests ];
      }

  unfoldable pub candidates_from :
      ProviderRegistry → Catalog F → Tracker fl → List Text → List (RoutingCandidate F)
  unfolding inspect_provider models_of make_candidate
  candidates_from reg catalog tracker [] = []
  candidates_from reg catalog tracker (name ∷ names) =
      let rest = candidates_from reg catalog tracker names in
      elim (inspect_provider reg name) [
        | none ↦ rest
        | some i ↦ map (make_candidate catalog tracker i) (models_of catalog i) ++ rest
      ]

  unfoldable pub build_candidates :
      ProviderRegistry → Catalog F → Tracker fl → List (RoutingCandidate F)
  unfolding candidates_from
  build_candidates reg catalog tracker = candidates_from reg catalog tracker (provider_names reg)
