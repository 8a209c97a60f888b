-- ===== src/Routing/Tests.antt =====
-- The ranking of two candidates, over fixed-point numbers.
use cortex_gateway.Prelude.{
  In-uncons, SameMembers, then_by, ℕ, ◌≡◌, refl, sym, ap, ◌∙◌, ◌≢◌, inl, inr, true, none, some,
  List, [], ◌∷◌, map, arith, head, All, here, there, Text, codes, lower, strip, text_leb, normalize,
  rstrip, lstrip, is_space, char_lower,
}
use mathlib.Core.List.{Perm}
use cortex_gateway.Floats.Scaled.{scaled}
use cortex_gateway.Routing.Models.{
  RoutingCandidate, PolicyWeights, auto, get_weights, RoutingDecision, factors,
  effective_latency_ms, policy_weights,
}
use cortex_gateway.Routing.Scorer.{
  ScoredCandidate, score_candidates, sort_scored, score_one, latency_score, cost_score,
  normalize_weights, bounds_of, insert_sorted, key_le, min_or_zero,
}
use cortex_gateway.Routing.Scorer.Laws.{Ranked, InRange, score_candidates-Sorted}
use cortex_gateway.Routing.Scorer.Invariance.{IsUnambiguous, score_candidates-head}
use cortex_gateway.Chat.{ChatCompletionRequest}
use cortex_gateway.Routing.Router.{
  Engine, ok, route_among, filter_by_provider, filter_required, supports, decide, prefer_healthy,
  filter_by_capabilities,
}
use cortex_gateway.Routing.Router.Laws.{Serves, route_among-Serves}
use cortex_gateway.Floats.{clamp, fmax, fmin, list_max, list_min}

abbrev candidate : Text → ℕ → ℕ → RoutingCandidate ℕ
candidate provider cost latency = record {
  provider = provider;
  model = codes "m";
  capabilities = codes "chat" ∷ [];
  context_window = 8192;
  cost_per_1k_tokens = cost;
  is_healthy = true;
  baseline_latency_ms = latency;
  runtime_latency_ms = none;
  runtime_success_rate = 10000;
  total_requests = 0;
}

abbrev slow : RoutingCandidate ℕ
slow = candidate (codes "a") 50 5000000

abbrev quick : RoutingCandidate ℕ
quick = candidate (codes "b") 50 1000000

abbrev even : PolicyWeights ℕ
even = get_weights scaled none auto

abbrev candidates : List (RoutingCandidate ℕ)
candidates = slow ∷ quick ∷ []

score_candidates-Sorted_example :
    Perm
      (map (λ (s : ScoredCandidate ℕ). s.candidate) (score_candidates scaled candidates even))
      candidates
    × Ranked scaled (score_candidates scaled candidates even)
    × All (InRange scaled) (score_candidates scaled candidates even)
score_candidates-Sorted_example = score_candidates-Sorted scaled candidates even

abbrev provider_of : RoutingCandidate ℕ → Text
provider_of c = c.provider

other_provider : codes "a" ≢ codes "b"
other_provider h = ground (arith, h)

distinct : IsUnambiguous scaled candidates
distinct a b p q e f = elim (In-uncons p) [
  | inl u ↦ elim (In-uncons q) [
    | inl v ↦ sym u ∙ v
    | inr k ↦ elim (In-uncons k) [
      | inl v ↦ absurd (other_provider (ap provider_of u ∙ e ∙ ap provider_of (sym v)))
      | inr m ↦ elim m [ ]
    ]
  ]
  | inr k ↦ elim (In-uncons k) [
    | inl u ↦ elim (In-uncons q) [
      | inl v ↦ absurd (other_provider (ap provider_of v ∙ sym e ∙ ap provider_of (sym u)))
      | inr l ↦ elim (In-uncons l) [ inl v ↦ sym u ∙ v | inr m ↦ elim m [ ] ]
    ]
    | inr m ↦ elim m [ ]
  ]
]

swapped : SameMembers candidates (quick ∷ slow ∷ [])
swapped = record {
  to = λ a m. elim (In-uncons m) [
    | inl e ↦ rw (← e) (there here)
    | inr k ↦ elim (In-uncons k) [ inl e ↦ rw (← e) here | inr none_left ↦ elim none_left [ ] ]
  ];
  from = λ a m. elim (In-uncons m) [
    | inl e ↦ rw (← e) (there here)
    | inr k ↦ elim (In-uncons k) [ inl e ↦ rw (← e) here | inr none_left ↦ elim none_left [ ] ]
  ];
}

score_candidates-head_example :
    head (score_candidates scaled candidates even)
    ≡ head (score_candidates scaled (quick ∷ slow ∷ []) even)
score_candidates-head_example =
    score_candidates-head scaled candidates (quick ∷ slow ∷ []) even distinct swapped

abbrev catalog_free : Engine scaled
catalog_free = record {
  registry = [];
  stats_tracker = [];
  metadata_catalog = record { catalog = []; ollama_default_cost = 0 };
  auto_weights = none;
  default_mode = auto;
}

abbrev request : ChatCompletionRequest ℕ
request = record {
  provider = some (codes "b");
  model = codes "auto";
  messages = [];
  routing_mode = none;
  required_capabilities = some (codes "chat" ∷ []);
  temperature = none;
  max_tokens = none;
  top_p = none;
  stop = none;
  failover_enabled = none;
  stream = none;
}

-- The only candidate of the named provider.
abbrev decision : RoutingDecision ℕ
decision = record {
  provider = codes "b";
  model = codes "m";
  routing_mode = auto;
  score = 10000;
  score_breakdown = factors 10000 10000 10000 10000;
  candidate = quick;
}

decided : route_among scaled catalog_free request auto candidates ≡ ok decision
unfolding route_among filter_by_provider lower char_lower filter_required supports strip rstrip
    lstrip is_space normalize decide score_candidates prefer_healthy sort_scored score_one clamp
    latency_score cost_score normalize_weights bounds_of fmax fmin list_max list_min then_by
    text_leb effective_latency_ms get_weights policy_weights filter_by_capabilities insert_sorted
    key_le min_or_zero
decided = refl

route_among-Serves_example :
    Serves scaled request candidates quick × (codes "b" ≡ codes "b") × (codes "m" ≡ codes "m")
route_among-Serves_example =
    route_among-Serves scaled catalog_free request auto candidates decision decided
