-- ===== src/Routing/Scorer.antt =====
-- `CandidateScorer` of backend/app/routing/scorer.py. The sort is stable, as Python's is.
pub mod Order
pub mod Sort
pub mod Laws
pub mod Invariance
use cortex_gateway.Prelude.{
  then_by, Bool, not, ◌&&◌, ◌||◌, List, [], ◌∷◌, map, if◌then◌else◌, keep, text_leb,
}
use cortex_gateway.Floats.{Floats, f0, f1, lt, feq, fmax, list_min, list_max, clamp}
use cortex_gateway.Routing.Models.{
  RoutingCandidate, ScoreBreakdown, factors, PolicyWeights, effective_latency_ms,
}

pub record ScoredCandidate (F : Type 0) : Type 0 where
  pub candidate : RoutingCandidate F
  pub total_score : F
  pub score_breakdown : ScoreBreakdown F

-- The bounds of the pool by which the factors are normalised.
pub record Bounds (F : Type 0) : Type 0 where
  pub min_lat : F
  pub max_lat : F
  pub min_cost : F
  pub max_cost : F
  pub min_paid_cost : F

module _ (fl : Floats) where
  open fl use {F, lit, add, mul, div, round, le}

  -- `_normalize_weights`.
  unfoldable pub normalize_weights : PolicyWeights F → PolicyWeights F
  normalize_weights w =
      let total =
        add (add (add w.health_weight w.success_rate_weight) w.latency_weight) w.cost_weight in
      if le total (f0 fl)
      then record {
        health_weight = lit 25 100;
        success_rate_weight = lit 25 100;
        latency_weight = lit 25 100;
        cost_weight = lit 25 100;
      }
      else record {
        health_weight = div w.health_weight total;
        success_rate_weight = div w.success_rate_weight total;
        latency_weight = div w.latency_weight total;
        cost_weight = div w.cost_weight total;
      }

  -- `min(costs) if costs else 0.0`.
  unfoldable pub min_or_zero : List F → F
  min_or_zero [] = f0 fl
  min_or_zero (p ∷ ps) = list_min fl p ps

  -- The bounds of a pool that is not empty.
  unfoldable pub bounds_of : RoutingCandidate F → List (RoutingCandidate F) → Bounds F
  bounds_of c cs =
      let latency = effective_latency_ms fl in
      let paid = keep (lt fl (f0 fl)) (map (λ x. x.cost_per_1k_tokens) (c ∷ cs)) in
      record {
        min_lat = list_min fl (latency c) (map latency cs);
        max_lat = list_max fl (latency c) (map latency cs);
        min_cost = list_min fl c.cost_per_1k_tokens (map (λ x. x.cost_per_1k_tokens) cs);
        max_cost = list_max fl c.cost_per_1k_tokens (map (λ x. x.cost_per_1k_tokens) cs);
        min_paid_cost = min_or_zero paid;
      }

  unfoldable pub latency_score : Bounds F → F → F
  latency_score b lat =
      if feq fl b.max_lat b.min_lat
      then f1 fl
      else if lt fl (f0 fl) lat
      then div b.min_lat lat
      else f1 fl

  unfoldable pub cost_score : Bounds F → F → F
  cost_score b cost =
      if feq fl b.max_cost b.min_cost || feq fl cost (f0 fl)
      then f1 fl
      else if feq fl b.min_cost (f0 fl) && lt fl (f0 fl) b.min_paid_cost
      then fmax fl (lit 5 100) (mul (lit 75 100) (div b.min_paid_cost cost))
      else if lt fl (f0 fl) b.min_cost
      then div b.min_cost cost
      else f1 fl

  -- The body of the loop over the candidates, with weights that are normalised.
  unfoldable pub score_one : PolicyWeights F → Bounds F → RoutingCandidate F → ScoredCandidate F
  score_one w b c =
      let health = if c.is_healthy then f1 fl else f0 fl in
      let success = clamp fl c.runtime_success_rate in
      let latency = latency_score b (effective_latency_ms fl c) in
      let cost = cost_score b c.cost_per_1k_tokens in
      let total = clamp fl (
        add
          (add (add (mul health w.health_weight) (mul success w.success_rate_weight))
            (mul latency w.latency_weight))
          (mul cost w.cost_weight)) in
      record {
        candidate = c;
        total_score = round 4 total;
        score_breakdown =
            factors (round 4 health) (round 4 success) (round 4 latency) (round 4 cost);
      }

  -- The order of the sort keys: `a` may stand before `b`.
  unfoldable pub key_le : ScoredCandidate F → ScoredCandidate F → Bool
  key_le a b =
      let c = a.candidate in
      let d = b.candidate in
      then_by (le b.total_score a.total_score) (le a.total_score b.total_score) (
        then_by (c.is_healthy || not d.is_healthy) (d.is_healthy || not c.is_healthy) (
          then_by (le d.runtime_success_rate c.runtime_success_rate)
            (le c.runtime_success_rate d.runtime_success_rate)
            (then_by (le (effective_latency_ms fl c) (effective_latency_ms fl d))
              (le (effective_latency_ms fl d) (effective_latency_ms fl c))
              (then_by (le c.cost_per_1k_tokens d.cost_per_1k_tokens)
                (le d.cost_per_1k_tokens c.cost_per_1k_tokens)
                (then_by (text_leb c.provider d.provider) (text_leb d.provider c.provider)
                  (text_leb c.model d.model))))))

  -- A stable sort: an element stands before those that came behind it and have the same key.
  unfoldable pub insert_sorted :
      ScoredCandidate F → List (ScoredCandidate F) → List (ScoredCandidate F)
  insert_sorted a [] = a ∷ []
  insert_sorted a (b ∷ bs) =
      let rest = insert_sorted a bs in if key_le a b then a ∷ b ∷ bs else b ∷ rest

  unfoldable pub sort_scored : List (ScoredCandidate F) → List (ScoredCandidate F)
  unfolding insert_sorted
  sort_scored [] = []
  sort_scored (a ∷ as') = insert_sorted a (sort_scored as')

  -- `score_candidates`, with the four weights that its callers give.
  unfoldable pub score_candidates :
      List (RoutingCandidate F) → PolicyWeights F → List (ScoredCandidate F)
  score_candidates [] w = []
  score_candidates (c ∷ cs) w =
      sort_scored (map (score_one (normalize_weights w) (bounds_of c cs)) (c ∷ cs))
