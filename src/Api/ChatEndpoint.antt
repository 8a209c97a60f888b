-- ===== src/Api/ChatEndpoint.antt =====
-- `chat_completions` of backend/app/api/v1/endpoints/chat.py with its dependencies
-- `_get_rate_limiter` and `_get_resolved_policy`. The counters of Prometheus are left out. Scheduling
-- a background task does not fail. FastAPI runs the scheduled tasks behind the response that an
-- endpoint returns; the response to an exception comes from its handler and has none. The name of
-- the class of an exception without a `code` is an argument.
use cortex_gateway.Prelude.{
  Bool, true, false, ◌&&◌, Option, none, some, List, [], ◌∷◌, if◌then◌else◌, keep, is_empty, head,
  Text, codes,
}
use cortex_gateway.Auth.{RequestContext}
use cortex_gateway.Chat.{ChatMessage, ChatCompletionRequest, ChatCompletionResponse}
use cortex_gateway.Errors.{
  ErrorClass, isinstance, status_code, rate_limit_exceeded, budget_exceeded,
}
use cortex_gateway.ChatService.Base.{
  System, Settings, Services, Times, Call, World, Failure, rate_limited, failed, Result, done, fail,
}
use cortex_gateway.ChatService.{complete}
use cortex_gateway.Guardrails.{
  Guardrail, block, Pattern, GuardrailResult, GuardrailRunResult, run, is_blocked,
}
use cortex_gateway.Policy.{Table, ResolvedPolicy, resolve, or_default}
use cortex_gateway.Api.{
  code, Raised, pipeline, guardrail_blocked, ErrorResponse, handle, LogRow, build_error_log,
  build_success_log, Setting,
}
use cortex_gateway.Prelude.{map}

-- An authenticated request, and what its dependencies read: `policies` is none if the database
-- fails, `redis` says whether there is a client.
pub record Incoming (F : Type 0) : Type 0 where
  pub request : ChatCompletionRequest F
  pub request_id : Text
  pub context : RequestContext
  pub settings : Settings
  pub request_log_enabled : Bool
  pub redis : Bool
  pub policies : Option Table
  pub times : Times
  pub uuid : Text

pub data Reply (F : Type 0) : Type 0 where
  answered : ChatCompletionResponse F → Reply F
  refused : ErrorResponse → Reply F

-- The services that the dependencies build; the service of the team limits is not among the
-- arguments of the call.
unfoldable pub services_of : Settings → Bool → Services
services_of settings redis = record {
  rate_limiter = true;
  connected = settings.rate_limit_enabled && redis;
  overrides = none;
  budget_service = true;
  cost_calculator = true;
  semantic_cache = true;
}

unfoldable pub get_resolved_policy : Option Table → RequestContext → ResolvedPolicy
get_resolved_policy policies context = resolve policies (some context.team_id)

is_block : GuardrailResult → Bool
is_block r = elim r.action [ block ↦ true | _ ↦ false ]

-- The first result that blocks, else the first result.
unfoldable pub primary_of : GuardrailRunResult → Option GuardrailResult
unfolding is_block
primary_of r = elim (head (keep is_block r.results)) [ some g ↦ some g | none ↦ head r.results ]

unfoldable pub blocked_by : GuardrailRunResult → Raised
unfolding primary_of
blocked_by r = elim (primary_of r) [
  | none ↦ guardrail_blocked none none
  | some g ↦ guardrail_blocked (some g.guardrail) g.reason_code
]

-- `guardrail_triggered_json`, without its encoding.
unfoldable pub triggered_of : GuardrailRunResult → Option (List Guardrail)
triggered_of r = if is_empty r.triggered_names then none else some r.triggered_names

-- `guardrail_action_str`.
unfoldable pub action_of : GuardrailRunResult → Option Setting
action_of r = if is_empty r.triggered_names then none else r.final_action

module _ {F : Type 0} (type_name : ErrorClass → Text) where
  -- The row of an exception of the pipeline: by its clause of the `try`.
  unfoldable pub failure_log : Text → RequestContext → Failure → LogRow F
  unfolding build_error_log
  failure_log id context (rate_limited retry_after scope) =
      build_error_log id context (codes "rate_limited") 429 (codes "RATE_LIMIT_EXCEEDED") none none
        none
  failure_log id context (failed e) =
      let name = or_default (type_name e.class) (code e.class) in
      if isinstance e (rate_limit_exceeded ∷ [])
      then build_error_log id context (codes "rate_limited") 429 name none none none
      else if isinstance e (budget_exceeded ∷ [])
      then build_error_log id context (codes "budget_blocked") 402 name (some (codes "blocked"))
          none none
      else build_error_log id context (codes "failure") (or_default 500 (status_code e.class)) name
          none none none

module _ (sys : System) (search : Pattern → Text → Option Bool)
    (type_name : ErrorClass → Text) where
  open sys use {fl}
  open fl use {F}

  pub record Served : Type 0 where
    pub reply : Reply F
    pub scheduled : List (LogRow F)
    pub world : World sys

  -- The rows that are written: those that are scheduled, if the endpoint returns.
  unfoldable pub written : Served → List (LogRow F)
  written s = elim s.reply [ answered response ↦ s.scheduled | refused e ↦ [] ]

  -- `if settings.request_log_enabled: background_tasks.add_task(...)`.
  unfoldable pub scheduled_rows : Incoming F → LogRow F → List (LogRow F)
  scheduled_rows i row = if i.request_log_enabled then row ∷ [] else []

  abbrev pub contents_of : ChatCompletionRequest F → List Text
  contents_of r = map (λ (m : ChatMessage). m.content) r.messages

  unfoldable pub guardrail_run : Incoming F → GuardrailRunResult
  guardrail_run i =
      run search (contents_of i.request) (get_resolved_policy i.policies i.context).guardrails

  -- The call of `complete`.
  unfoldable pub call_of : Incoming F → Call F
  unfolding services_of get_resolved_policy
  call_of i = record {
    request = i.request;
    request_id = i.request_id;
    context = some i.context;
    settings = i.settings;
    services = services_of i.settings i.redis;
    resolved_policy = some (get_resolved_policy i.policies i.context);
    times = i.times;
    uuid = i.uuid;
  }

  -- What follows the call.
  unfoldable pub finish :
      Incoming F → GuardrailRunResult → Result (ChatCompletionResponse F) × World sys → Served
  unfolding scheduled_rows triggered_of action_of failure_log get_resolved_policy
  finish i g (done response, w) = record {
    reply = answered response;
    scheduled = scheduled_rows i (
        build_success_log i.request_id i.context response
          (some (get_resolved_policy i.policies i.context).budget) (triggered_of g) (action_of g));
    world = w;
  }
  finish i g (fail e, w) = record {
    reply = refused (handle (pipeline e));
    scheduled = scheduled_rows i (failure_log type_name i.request_id i.context e);
    world = w;
  }

  unfoldable pub chat_completions : Incoming F → World sys → Served
  unfolding guardrail_run blocked_by triggered_of scheduled_rows call_of finish
  chat_completions i w =
      let g = guardrail_run i in
      if is_blocked g
      then record {
        reply = refused (handle (blocked_by g));
        scheduled = scheduled_rows i (
            build_error_log i.request_id i.context (codes "guardrail_blocked") 400
              (codes "INVALID_REQUEST") none (triggered_of g) (some block));
        world = w;
      }
      else finish i g (complete sys (call_of i) w)
