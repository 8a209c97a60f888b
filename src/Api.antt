-- ===== src/Api.antt =====
-- The answers of the API to exceptions, and the rows of the request log: backend/app/exceptions.py,
-- the class attributes `code` of the exceptions, and the two functions of
-- backend/app/observability/log_writer.py that build a row. The messages of the answers, the log
-- lines and the trace identifiers are left out. Starlette calls the handler of the first class of
-- the exception's bases that has one.
pub mod ChatEndpoint
pub mod Laws
pub mod Tests
use cortex_gateway.Prelude.{ℕ, Option, none, some, List, [], ◌∷◌, if◌then◌else◌, Text, codes}
use cortex_gateway.Auth.{RequestContext}
use cortex_gateway.Breaker.{CircuitState}
use cortex_gateway.Chat.{ChatCompletionResponse}
use cortex_gateway.ChatService.Base.{Failure, rate_limited, failed}
use cortex_gateway.Errors.{ErrorClass, Error, mro, status_code}
use cortex_gateway.Errors
use cortex_gateway.Guardrails.{Guardrail, ReasonCode, Setting, block}
use cortex_gateway.Policy.{BudgetAction}
use cortex_gateway.RateLimit.{Scope}

-- The class attribute `code`, none for a class without it.
unfoldable pub code : ErrorClass → Option Text
code Errors.provider_exception = some (codes "PROVIDER_ERROR")
code Errors.invalid_provider = some (codes "INVALID_PROVIDER")
code Errors.provider_disabled = some (codes "PROVIDER_DISABLED")
code Errors.invalid_model = some (codes "INVALID_MODEL")
code Errors.provider_timeout = some (codes "PROVIDER_TIMEOUT")
code Errors.provider_rate_limit = some (codes "PROVIDER_RATE_LIMITED")
code Errors.provider_unavailable = some (codes "PROVIDER_UNAVAILABLE")
code Errors.provider_auth = some (codes "PROVIDER_AUTHENTICATION_FAILED")
code Errors.provider_error = some (codes "PROVIDER_ERROR")
code Errors.total_deadline_exceeded = some (codes "PROVIDER_TIMEOUT")
code Errors.circuit_open = some (codes "PROVIDER_UNAVAILABLE")
code Errors.failover_exhausted = some (codes "PROVIDER_UNAVAILABLE")
code Errors.routing_exception = some (codes "ROUTING_ERROR")
code Errors.no_routable_provider = some (codes "NO_ROUTABLE_PROVIDER")
code Errors.no_capable_provider = some (codes "NO_CAPABLE_PROVIDER")
code Errors.invalid_routing_mode = some (codes "INVALID_ROUTING_MODE")
code Errors.invalid_manual_routing = some (codes "INVALID_MANUAL_ROUTING")
code Errors.gateway_control = some (codes "CONTROL_ERROR")
code Errors.rate_limit_exceeded = some (codes "RATE_LIMIT_EXCEEDED")
code Errors.budget_exceeded = some (codes "BUDGET_EXCEEDED")
code Errors.budget_configuration = some (codes "BUDGET_CONFIGURATION_ERROR")
code _ = none

-- The exceptions that reach the handlers from the chat endpoint: those of the pipeline, and
-- `GuardrailBlocked` with the guardrail and the reason of the block.
pub data Raised : Type 0 where
  pipeline : Failure → Raised
  guardrail_blocked : Option Guardrail → Option ReasonCode → Raised

-- A JSON answer: its status, the code in its body, its details, and the header `Retry-After`.
pub record ErrorResponse : Type 0 where
  pub status : ℕ
  pub error_code : Text
  pub details : Option (Option Guardrail × Option ReasonCode)
  pub retry_after : Option ℕ

-- `_error_response`, without details.
abbrev pub error_response : ℕ → Text → ErrorResponse
error_response status error_code = record {
  status = status;
  error_code = error_code;
  details = none;
  retry_after = none;
}

-- `unhandled_exception_handler`.
unfoldable pub unhandled : ErrorResponse
unhandled = error_response 500 (codes "INTERNAL_SERVER_ERROR")

-- What a handler reads from the attributes of the exception.
unfoldable pub from_attributes : ErrorClass → ErrorResponse
unfolding code status_code unhandled
from_attributes c = elim (status_code c) [
  | none ↦ unhandled
  | some status ↦ elim (code c) [ none ↦ unhandled | some name ↦ error_response status name ]
]

-- The handler that is registered for a class, if there is one, on an exception of class `raised`.
unfoldable pub registered : ErrorClass → ErrorClass → Option ErrorResponse
unfolding from_attributes code
registered Errors.provider_exception raised = some (from_attributes raised)
registered Errors.rate_limit_exceeded raised =
    some (record (error_response 429 (codes "RATE_LIMIT_EXCEEDED")) { retry_after = some 60 })
registered Errors.budget_exceeded raised = some (error_response 402 (codes "BUDGET_EXCEEDED"))
registered _ raised = none

-- The first of the classes with a handler.
unfoldable pub first_registered : List ErrorClass → ErrorClass → ErrorResponse
unfolding registered unhandled
first_registered [] raised = unhandled
first_registered (c ∷ rest) raised =
    let other = first_registered rest raised in
    elim (registered c raised) [ none ↦ other | some response ↦ response ]

unfoldable pub handle_failure : Failure → ErrorResponse
unfolding first_registered
handle_failure (rate_limited retry_after scope) =
    record (error_response 429 (codes "RATE_LIMIT_EXCEEDED")) { retry_after = some retry_after }
handle_failure (failed e) = first_registered (mro e.class) e.class

unfoldable pub handle : Raised → ErrorResponse
unfolding handle_failure
handle (pipeline e) = handle_failure e
handle (guardrail_blocked guardrail reason) =
    record (error_response 400 (codes "INVALID_REQUEST")) { details = some (guardrail, reason) }

-- The fields of a row that the endpoint gives or computes; the others are copied from the response.
pub record LogRow (F : Type 0) : Type 0 where
  pub request_id : Text
  pub organization_id : Text
  pub team_id : Text
  pub status : Text
  pub http_status_code : ℕ
  pub error_code : Option Text
  pub failover_from_provider : Option Text
  pub failover_to_provider : Option Text
  pub budget_policy_applied : Option BudgetAction
  pub budget_action : Option Text
  pub guardrails_triggered : Option (List Guardrail)
  pub guardrail_action : Option Setting
  pub response : Option (ChatCompletionResponse F)

module _ {F : Type 0} where
  unfoldable pub build_error_log :
      Text
      → RequestContext
      → Text
      → ℕ
      → Text
      → Option Text
      → Option (List Guardrail)
      → Option Setting
      → LogRow F
  build_error_log request_id context status http_status_code error_code budget_action triggered
        action =
      record {
        request_id = request_id;
        organization_id = context.organization_id;
        team_id = context.team_id;
        status = status;
        http_status_code = http_status_code;
        error_code = some error_code;
        failover_from_provider = none;
        failover_to_provider = none;
        budget_policy_applied = none;
        budget_action = budget_action;
        guardrails_triggered = triggered;
        guardrail_action = action;
        response = none;
      }

  unfoldable pub build_success_log :
      Text
      → RequestContext
      → ChatCompletionResponse F
      → Option BudgetAction
      → Option (List Guardrail)
      → Option Setting
      → LogRow F
  build_success_log request_id context response budget_policy triggered action =
      let meta = response.metadata in
      record {
        request_id = request_id;
        organization_id = context.organization_id;
        team_id = context.team_id;
        status = codes "success";
        http_status_code = 200;
        error_code = none;
        failover_from_provider = if meta.failover_triggered then meta.original_provider else none;
        failover_to_provider = if meta.failover_triggered then meta.selected_provider else none;
        budget_policy_applied = budget_policy;
        budget_action = some (
            if meta.budget_downgraded
            then codes "downgraded"
            else if meta.budget_warning
            then codes "warned"
            else codes "none");
        guardrails_triggered = triggered;
        guardrail_action = action;
        response = some response;
      }
