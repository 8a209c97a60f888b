-- ===== src/Adapters/Ollama.antt =====
-- `OllamaProvider` of backend/app/providers/ollama_provider.py. What the HTTP client's call ends in
-- is an argument: a response, or the exception by the `except` clause that takes it. A body that is
-- JSON is an object with the fields that the adapter reads, each of the type it expects.
use cortex_gateway.Prelude.{
  ℕ, ◌+◌, Bool, false, not, ◌||◌, Option, none, some, List, [], ◌∷◌, ◌++◌, map, leb, ◌==◌,
  if◌then◌else◌, is_some, keep, is_empty, Text, codes, lower, contains, show_nat,
}
use cortex_gateway.Chat.{Role, ChatMessage, ChatCompletionRequest, UsageMetadata}
use cortex_gateway.Errors.{Error}
use cortex_gateway.Errors
use cortex_gateway.Executor.{Reply, answer, fails}
use cortex_gateway.Floats.{Floats}
use cortex_gateway.Providers.{sort_texts}
use cortex_gateway.Adapters.{error, stop_given, new_metadata, Models, models, no_models}

-- The fields that the adapter reads; one that is not there is none.
pub record Fields : Type 0 where
  pub content : Option Text
  pub done_reason : Option Text
  pub is_done : Bool
  pub prompt_eval_count : Option ℕ
  pub eval_count : Option ℕ
  pub model : Option Text
  pub error_message : Option Text
  pub names : List Text

-- `json` is none if the body is no JSON object.
pub record Response : Type 0 where
  pub status_code : ℕ
  pub text : Text
  pub json : Option Fields

pub data Http : Type 0 where
  responded : Response → Http
  timed_out not_connected unexpected : Http

-- The `options` of the payload; none if there are none.
pub record Options (F : Type 0) : Type 0 where
  pub temperature : Option F
  pub top_p : Option F
  pub num_predict : Option ℕ
  pub stop : Option (List Text)

pub record Payload (F : Type 0) : Type 0 where
  pub model : Text
  pub messages : List (Role × Text)
  pub stream : Bool
  pub options : Option (Options F)

module _ {F : Type 0} where
  unfoldable pub options_of : ChatCompletionRequest F → Option (Options F)
  unfolding stop_given
  options_of r =
      let stop = stop_given r.stop in
      if is_some r.temperature || (is_some r.top_p || (is_some r.max_tokens || is_some stop))
      then some record {
        temperature = r.temperature;
        top_p = r.top_p;
        num_predict = r.max_tokens;
        stop = stop;
      }
      else none

  unfoldable pub payload : ChatCompletionRequest F → Payload F
  unfolding options_of
  payload r = record {
    model = r.model;
    messages = map (λ (m : ChatMessage). (m.role, m.content)) r.messages;
    stream = false;
    options = options_of r;
  }

unfoldable pub or_text : Text → Option Text → Text
or_text default none = default
or_text default (some t) = t

-- The message of an error: the field, or the body.
unfoldable pub error_text : Response → Text
unfolding or_text
error_text r = elim r.json [ none ↦ r.text | some fields ↦ or_text r.text fields.error_message ]

-- That a text speaks of a model, or of something that was not found.
unfoldable pub names_model : Text → Bool
names_model t = contains (codes "model") (lower t) || contains (codes "not found") (lower t)

-- `_handle_http_error`.
unfoldable pub handle_http_error : Response → Text → Error
unfolding error_text names_model
handle_http_error r requested_model =
    let status = r.status_code in
    if status == 404
    then if names_model (error_text r)
      then error Errors.invalid_model
          (codes "Model '" ++ (requested_model ++ codes "' not found in Ollama."))
      else error Errors.provider_unavailable
          (codes "Ollama endpoint not found (HTTP " ++ (show_nat status ++ codes ")."))
    else if leb 500 status
    then error Errors.provider_unavailable
        (codes "Ollama service returned server error (HTTP " ++ (show_nat status ++ codes ")."))
    else error Errors.provider_error
        (codes "Ollama returned HTTP " ++ (show_nat status ++ (codes ": " ++ error_text r)))

-- `data.get("done_reason") or ("stop" if data.get("done") else None)`.
unfoldable pub finish_reason_of : Fields → Option Text
finish_reason_of d =
    let default = if d.is_done then some (codes "stop") else none in
    elim d.done_reason [
      | none ↦ default
      | some reason ↦ if is_empty reason then default else some reason
    ]

-- The total is there where both counts are.
unfoldable pub usage_of : Fields → UsageMetadata
usage_of d = record {
  prompt_tokens = d.prompt_eval_count;
  completion_tokens = d.eval_count;
  total_tokens = elim d.prompt_eval_count [
    | none ↦ none
    | some p ↦ elim d.eval_count [ none ↦ none | some c ↦ some (p + c) ]
  ];
}

module _ (fl : Floats) where
  open fl use {F}

  -- A body of a successful answer that is no JSON raises a `ValueError`.
  unfoldable pub read_answer : ChatCompletionRequest F → Text → F → Response → Reply F
  unfolding or_text finish_reason_of usage_of new_metadata
  read_answer request request_id elapsed r = elim r.json [
    | none ↦ fails (error Errors.value_error r.text)
    | some d ↦ answer record {
      provider = codes "ollama";
      model = or_text request.model d.model;
      choices =
          record { index = 0; content = or_text [] d.content; finish_reason = finish_reason_of d }
          ∷ [];
      usage = usage_of d;
      metadata = new_metadata fl request_id elapsed;
    }
  ]

  -- `chat`; `post` is the call of the client on the payload.
  unfoldable pub chat : (Payload F → Http) → ChatCompletionRequest F → Text → F → Reply F
  unfolding payload read_answer handle_http_error
  chat post request request_id elapsed = elim (post (payload request)) [
    | timed_out ↦ fails (error Errors.provider_timeout (codes "Ollama request timed out."))
    | not_connected ↦ fails (
        error Errors.provider_unavailable
          (codes "Could not connect to Ollama service. Ensure Ollama is running."))
    | unexpected ↦
        fails (error Errors.provider_error (codes "Unexpected error communicating with Ollama."))
    | responded r ↦
        if r.status_code == 200
        then read_answer request request_id elapsed r
        else fails (handle_http_error r request.model)
  ]

-- `health_check`.
unfoldable pub health_check : Http → Bool
health_check (responded r) = r.status_code == 200
health_check _ = false

-- `list_models`: the names that are not empty.
unfoldable pub list_models : Http → Models
unfolding sort_texts
list_models timed_out =
    no_models (error Errors.provider_timeout (codes "Ollama model list request timed out."))
list_models not_connected = no_models (
    error Errors.provider_unavailable
      (codes "Could not connect to Ollama service to fetch models."))
list_models unexpected =
    no_models (error Errors.provider_error (codes "Unexpected error fetching Ollama models."))
list_models (responded r) =
    if r.status_code == 200
    then elim r.json [
      | none ↦ no_models (error Errors.value_error r.text)
      | some d ↦ models (sort_texts (keep (λ name. not (is_empty name)) d.names))
    ]
    else no_models (
        error Errors.provider_unavailable (
          codes "Ollama returned HTTP "
          ++ (show_nat r.status_code ++ codes " while fetching models.")))
