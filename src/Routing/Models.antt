-- ===== src/Routing/Models.antt =====
-- The data of the routing engine: backend/app/routing/models.py and
-- backend/app/routing/policies.py. The records are over the type of floats.
use cortex_gateway.Prelude.{ℕ, Bool, Option, none, some, List, if◌then◌else◌, Text}
use cortex_gateway.Floats.{Floats}

pub data RoutingMode : Type 0 where
  manual auto lowest_cost lowest_latency best_available capability_based : RoutingMode

pub record ModelMetadata (F : Type 0) : Type 0 where
  pub provider : Text
  pub model : Text
  pub cost_per_1k_tokens : F
  pub input_cost_per_1k : F
  pub output_cost_per_1k : F
  pub capabilities : List Text
  pub context_window : ℕ
  pub baseline_latency_ms : F

pub record RoutingCandidate (F : Type 0) : Type 0 where
  pub provider : Text
  pub model : Text
  pub capabilities : List Text
  pub context_window : ℕ
  pub cost_per_1k_tokens : F
  pub is_healthy : Bool
  pub baseline_latency_ms : F
  pub runtime_latency_ms : Option F
  pub runtime_success_rate : F
  pub total_requests : ℕ

-- The scores of the factors; a manual decision has a score of its own.
pub data ScoreBreakdown (F : Type 0) : Type 0 where
  manual_score : F → ScoreBreakdown F
  factors : (health success_rate latency cost : F) → ScoreBreakdown F

pub record RoutingDecision (F : Type 0) : Type 0 where
  pub provider : Text
  pub model : Text
  pub routing_mode : RoutingMode
  pub score : F
  pub score_breakdown : ScoreBreakdown F
  pub candidate : RoutingCandidate F

pub record PolicyWeights (F : Type 0) : Type 0 where
  pub health_weight : F
  pub success_rate_weight : F
  pub latency_weight : F
  pub cost_weight : F

module _ (fl : Floats) where
  open fl use {F, lit, le}

  -- `effective_latency_ms`.
  unfoldable pub effective_latency_ms : RoutingCandidate F → F
  effective_latency_ms c = elim c.runtime_latency_ms [
    | none ↦ c.baseline_latency_ms
    | some x ↦ if le x (lit 0 1) then c.baseline_latency_ms else x
  ]

  weights : ℕ → ℕ → ℕ → ℕ → PolicyWeights F
  weights h s l c = record {
    health_weight = lit h 100;
    success_rate_weight = lit s 100;
    latency_weight = lit l 100;
    cost_weight = lit c 100;
  }

  -- `_POLICY_WEIGHTS`.
  unfoldable pub policy_weights : RoutingMode → PolicyWeights F
  unfolding weights
  policy_weights auto = weights 30 30 20 20
  policy_weights lowest_cost = weights 15 15 10 60
  policy_weights lowest_latency = weights 15 15 60 10
  policy_weights best_available = weights 40 40 10 10
  policy_weights capability_based = weights 30 30 20 20
  policy_weights manual = weights 25 25 25 25

  -- `RoutingPolicyRegistry(default_auto_weights).get_weights(mode)`: every mode has weights, and
  -- those of "auto" may be overridden.
  unfoldable pub get_weights : Option (PolicyWeights F) → RoutingMode → PolicyWeights F
  unfolding policy_weights
  get_weights (some w) auto = w
  get_weights _ mode = policy_weights mode
