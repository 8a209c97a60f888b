-- ===== src/Adapters.antt =====
-- The adapters of OpenAI and Groq, which differ in their texts: backend/app/providers/
-- openai_provider.py and groq_provider.py; those of Ollama and Gemini are in
-- Adapters/Ollama and Adapters/Gemini. What a call of
-- the vendor's SDK ends in is an argument: a value, or the exception by the `except` clause that
-- takes it. The `details` of an exception, which are never returned, and the log lines are left out.
pub mod Ollama
pub mod Groq
pub mod Gemini
pub mod Laws
pub mod Tests
use cortex_gateway.Prelude.{
  ℕ, ◌+◌, ◌-◌, Bool, true, false, not, ◌||◌, Option, none, some, List, [], ◌∷◌, ◌++◌, map, leb,
  ◌==◌, if◌then◌else◌, keep, is_empty, Text, codes, lower, contains,
}
use cortex_gateway.Breaker.{CircuitState}
use cortex_gateway.Chat.{
  Role, ChatMessage, ChatCompletionRequest, ChatCompletionResponse, ChatCompletionChoice,
  UsageMetadata, ResponseMetadata,
}
use cortex_gateway.Errors.{ErrorClass, Error}
use cortex_gateway.Errors
use cortex_gateway.Executor.{Reply, answer, fails}
use cortex_gateway.Floats.{Floats}
use cortex_gateway.Providers.{sort_texts}

-- `APITimeoutError`, `APIStatusError` with its status and message, `APIConnectionError`, any other.
pub data Sdk (A : Type 0) : Type 0 where
  returned : A → Sdk A
  timed_out connection_error unexpected : Sdk A
  status_error : ℕ → Text → Sdk A

-- What the two classes differ in: their name and label, the models of OpenAI's list that are kept,
-- and what another exception of the list is turned into.
pub record Vendor : Type 0 where
  pub name : Text
  pub label : Text
  pub lists : Text → Bool
  pub known_models : Option (List Text)

abbrev pub openai : Vendor
openai = record {
  name = codes "openai";
  label = codes "OpenAI";
  lists = λ id. contains (codes "gpt") (lower id);
  known_models = none;
}

abbrev pub groq : Vendor
groq = record {
  name = codes "groq";
  label = codes "Groq";
  lists = λ id. true;
  known_models = some (
      codes "llama-3.3-70b-versatile"
      ∷ codes "llama-3.1-8b-instant"
      ∷ codes "llama3-8b-8192"
      ∷ codes "llama3-70b-8192"
      ∷ codes "mixtral-8x7b-32768"
      ∷ codes "gemma2-9b-it"
      ∷ []);
}

abbrev pub error : ErrorClass → Text → Error
error c message = record { class = c; message = message }

-- `_raise_from_status`.
unfoldable pub raise_from_status : Vendor → ℕ → Text → Error
raise_from_status v status message =
    if status == 401 || status == 403
    then error Errors.provider_auth (v.label ++ codes " authentication failed. Check your API key.")
    else if status == 429
    then error Errors.provider_rate_limit
        (v.label ++ codes " rate limit reached. Please try again later.")
    else if status == 404
    then error Errors.invalid_model
        (codes "Model not found on " ++ (v.label ++ (codes ": " ++ message)))
    else if leb 500 status
    then error Errors.provider_unavailable (v.label ++ codes " is currently unavailable.")
    else error Errors.provider_error (v.label ++ (codes " returned an error: " ++ message))

-- What the SDK returns of a completion.
pub record Choice : Type 0 where
  pub index : ℕ
  pub content : Option Text
  pub finish_reason : Option Text

pub record Completion : Type 0 where
  pub model : Text
  pub usage : Option UsageMetadata
  pub choices : List Choice

unfoldable pub no_usage : UsageMetadata
no_usage = record { prompt_tokens = none; completion_tokens = none; total_tokens = none }

-- `c.message.content or ""`.
unfoldable pub content_or_empty : Option Text → Text
content_or_empty none = []
content_or_empty (some t) = t

unfoldable pub normalize_choice : Choice → ChatCompletionChoice
unfolding content_or_empty
normalize_choice c = record {
  index = c.index;
  content = content_or_empty c.content;
  finish_reason = c.finish_reason;
}

-- `if request.stop`: neither none nor empty.
unfoldable pub stop_given : Option (List Text) → Option (List Text)
stop_given none = none
stop_given (some stop) = if is_empty stop then none else some stop

module _ (fl : Floats) where
  open fl use {F}

  -- The keyword arguments of the call; one that is not set is none.
  pub record Payload : Type 0 where
    pub model : Text
    pub messages : List (Role × Text)
    pub temperature : Option F
    pub max_tokens : Option ℕ
    pub top_p : Option F
    pub stop : Option (List Text)

  unfoldable pub payload : ChatCompletionRequest F → Payload
  unfolding stop_given
  payload r = record {
    model = r.model;
    messages = map (λ (m : ChatMessage). (m.role, m.content)) r.messages;
    temperature = r.temperature;
    max_tokens = r.max_tokens;
    top_p = r.top_p;
    stop = stop_given r.stop;
  }

  -- `ResponseMetadata(request_id=..., latency_ms=round(latency_ms, 2))` of the elapsed seconds.
  unfoldable pub new_metadata : Text → F → ResponseMetadata F
  new_metadata request_id elapsed = record {
    request_id = request_id;
    latency_ms = fl.round 2 (fl.mul elapsed (fl.lit 1000 1));
    routing_mode = none;
    selected_provider = none;
    selected_model = none;
    original_provider = none;
    failover_triggered = false;
    retry_count = 0;
    failover_attempts = 0;
    circuit_breaker_state = none;
    estimated_cost = none;
    actual_cost = none;
    remaining_budget = none;
    budget_warning = false;
    budget_downgraded = false;
    rate_limit_remaining = none;
    cache_hit = false;
    experiment_id = none;
    experiment_version = none;
    experiment_arm = none;
  }

  -- `chat`; `create` is the SDK's call on the payload.
  unfoldable pub chat :
      Vendor → (Payload → Sdk Completion) → ChatCompletionRequest F → Text → F → Reply F
  unfolding payload normalize_choice new_metadata no_usage raise_from_status
  chat v create request request_id elapsed = elim (create (payload request)) [
    | timed_out ↦ fails (error Errors.provider_timeout (v.label ++ codes " request timed out."))
    | status_error status message ↦ fails (raise_from_status v status message)
    | connection_error ↦ fails (
        error Errors.provider_unavailable (codes "Could not connect to " ++ (v.label ++ codes ".")))
    | unexpected ↦
        fails
          (error Errors.provider_error (codes "Unexpected error from " ++ (v.label ++ codes ".")))
    | returned completion ↦ answer record {
      provider = v.name;
      model = completion.model;
      choices = map normalize_choice completion.choices;
      usage = elim completion.usage [ none ↦ no_usage | some u ↦ u ];
      metadata = new_metadata request_id elapsed;
    }
  ]

-- `health_check`.
unfoldable pub health_check : {A : Type 0} → Sdk A → Bool
health_check (returned a) = true
health_check _ = false

pub data Models : Type 0 where
  models : List Text → Models
  no_models : Error → Models

-- What follows another exception of the list.
unfoldable pub list_failed : Vendor → Models
list_failed v = elim v.known_models [
  | some known ↦ models known
  | none ↦ no_models (
      error Errors.provider_unavailable (codes "Could not fetch " ++ (v.label ++ codes " models.")))
]

unfoldable pub list_models : Vendor → Sdk (List Text) → Models
unfolding sort_texts raise_from_status list_failed
list_models v (returned ids) = models (sort_texts (keep v.lists ids))
list_models v (status_error status message) = no_models (raise_from_status v status message)
list_models v timed_out =
    no_models (error Errors.provider_timeout (v.label ++ codes " model list timed out."))
list_models v connection_error = list_failed v
list_models v unexpected = list_failed v
