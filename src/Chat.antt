-- ===== src/Chat.antt =====
-- The request and the response of a chat completion: backend/app/schemas/chat.py. The records are
-- over the type of floats; the remaining budget is an amount of `Budget`.
use cortex_gateway.Breaker.{CircuitState}
use cortex_gateway.Prelude.{
  ℕ, Bool, Option, none, some, List, if◌then◌else◌, is_empty, Text, lower, strip,
}

pub data Role : Type 0 where
  system user assistant : Role

pub record ChatMessage : Type 0 where
  pub role : Role
  pub content : Text

pub record ChatCompletionRequest (F : Type 0) : Type 0 where
  pub provider : Option Text
  pub model : Text
  pub messages : List ChatMessage
  pub routing_mode : Option Text
  pub required_capabilities : Option (List Text)
  pub temperature : Option F
  pub max_tokens : Option ℕ
  pub top_p : Option F
  pub stop : Option (List Text)
  pub failover_enabled : Option Bool
  pub stream : Option Bool

-- The validators of `provider` and `model`, which run before the model is built.
unfoldable pub normalize_provider : Option Text → Option Text
normalize_provider none = none
normalize_provider (some v) = let val = lower (strip v) in if is_empty val then none else some val

unfoldable pub normalize_model : Text → Text
normalize_model v = strip v

pub record UsageMetadata : Type 0 where
  pub prompt_tokens : Option ℕ
  pub completion_tokens : Option ℕ
  pub total_tokens : Option ℕ

-- The metadata of a response; `circuit_breaker_state` is the value of the state.
pub record ResponseMetadata (F : Type 0) : Type 0 where
  pub request_id : Text
  pub latency_ms : F
  pub routing_mode : Option Text
  pub selected_provider : Option Text
  pub selected_model : Option Text
  pub original_provider : Option Text
  pub failover_triggered : Bool
  pub retry_count : ℕ
  pub failover_attempts : ℕ
  pub circuit_breaker_state : Option CircuitState
  pub estimated_cost : Option F
  pub actual_cost : Option F
  pub remaining_budget : Option F
  pub budget_warning : Bool
  pub budget_downgraded : Bool
  pub rate_limit_remaining : Option ℕ
  pub cache_hit : Bool
  pub experiment_id : Option Text
  pub experiment_version : Option ℕ
  pub experiment_arm : Option Text

-- A choice holds the content of the assistant's message, whose role is fixed.
pub record ChatCompletionChoice : Type 0 where
  pub index : ℕ
  pub content : Text
  pub finish_reason : Option Text

-- `id`, `object` and `created`, which no code of the gateway reads, are left out.
pub record ChatCompletionResponse (F : Type 0) : Type 0 where
  pub provider : Text
  pub model : Text
  pub choices : List ChatCompletionChoice
  pub usage : UsageMetadata
  pub metadata : ResponseMetadata F
