-- ===== src/Adapters/Gemini.antt =====
-- `GeminiProvider` of backend/app/providers/gemini_provider.py. What a call of Google's SDK ends in is
-- an argument: a value, or the exception by the `except` clause that takes it.
pub mod Laws
use cortex_gateway.Prelude.{
  ℕ, zero, suc, ◌+◌, ◌-◌, ◌/◌, Bool, true, false, not, ◌&&◌, ◌||◌, Option, none, some, List, [],
  ◌∷◌, ◌++◌, map, if◌then◌else◌, is_some, length, keep, is_empty, Text, codes, lower, starts_with,
  contains,
}
use mathlib.Core.Option
use cortex_gateway.Chat.{
  Role, system, user, assistant, ChatMessage, ChatCompletionRequest, UsageMetadata,
}
use cortex_gateway.Errors.{Error}
use cortex_gateway.Errors
use cortex_gateway.Executor.{Reply, answer, fails}
use cortex_gateway.Floats.{Floats}
use cortex_gateway.Providers.{sort_texts}
use cortex_gateway.Adapters.{error, no_usage, stop_given, new_metadata, Models, models, no_models}

-- `unauthenticated` stands for `PermissionDenied` too; `api_error` has the text of the exception.
pub data Google (A : Type 0) : Type 0 where
  returned : A → Google A
  deadline_exceeded unauthenticated resource_exhausted service_unavailable unexpected : Google A
  api_error : Text → Google A

-- The roles of Gemini.
pub data Speaker : Type 0 where
  user_turn model_turn : Speaker

-- An entry of the history with its only part.
abbrev pub Turn : Type 0
Turn = Speaker × Text

-- What the loop over the messages collects.
pub record Conversation : Type 0 where
  pub system_instruction : Option Text
  pub history : List Turn
  pub last_user_content : Option Text

unfoldable pub add_message : Conversation → ChatMessage → Conversation
add_message c m = elim m.role [
  | system ↦ record c { system_instruction = some m.content }
  | user ↦ record c {
    last_user_content = some m.content;
    history = c.history ++ (user_turn, m.content) ∷ [];
  }
  | assistant ↦ record c { history = c.history ++ (model_turn, m.content) ∷ [] }
]

unfoldable pub collect : Conversation → List ChatMessage → Conversation
unfolding add_message
collect c [] = c
collect c (m ∷ rest) = collect (add_message c m) rest

unfoldable pub no_conversation : Conversation
no_conversation = record { system_instruction = none; history = []; last_user_content = none }

-- `history[:-1]`.
unfoldable pub drop_last {ℓ} : {A : Type ℓ} → List A → List A
drop_last [] = []
drop_last (a ∷ []) = []
drop_last (a ∷ b ∷ rest) = a ∷ drop_last (b ∷ rest)

-- `if system_instruction`: neither none nor empty.
unfoldable pub instruction_given : Option Text → Option Text
instruction_given none = none
instruction_given (some t) = if is_empty t then none else some t

-- The keyword arguments of `GenerationConfig`.
pub record GenerationConfig (F : Type 0) : Type 0 where
  pub temperature : Option F
  pub max_output_tokens : Option ℕ
  pub top_p : Option F
  pub stop_sequences : Option (List Text)

-- The model that is built, the history of its chat, and the message that is sent.
pub record Session (F : Type 0) : Type 0 where
  pub model_name : Text
  pub system_instruction : Option Text
  pub generation_config : Option (GenerationConfig F)
  pub history : List Turn
  pub message : Text

module _ {F : Type 0} where
  unfoldable pub generation_config_of : ChatCompletionRequest F → Option (GenerationConfig F)
  unfolding stop_given
  generation_config_of r =
      let stop = stop_given r.stop in
      if is_some r.temperature || (is_some r.max_tokens || (is_some r.top_p || is_some stop))
      then some record {
        temperature = r.temperature;
        max_output_tokens = r.max_tokens;
        top_p = r.top_p;
        stop_sequences = stop;
      }
      else none

  -- None without a message of the user.
  unfoldable pub session_of : ChatCompletionRequest F → Option (Session F)
  unfolding collect no_conversation drop_last instruction_given generation_config_of
  session_of r =
      let c = collect no_conversation r.messages in
      elim c.last_user_content [
        | none ↦ none
        | some content ↦ some record {
          model_name = r.model;
          system_instruction = instruction_given c.system_instruction;
          generation_config = generation_config_of r;
          history = drop_last c.history;
          message = content;
        }
      ]

-- A response: `text` is none where it raises, `finish_name` where there is no candidate.
pub record Response : Type 0 where
  pub text : Option Text
  pub usage_metadata : Option UsageMetadata
  pub finish_name : Option Text

-- That the text of an error speaks of a model that is not there.
unfoldable pub is_invalid : Text → Bool
is_invalid t = contains (codes "not found") (lower t) || contains (codes "invalid") (lower t)

unfoldable pub api_error_of : Text → Text → Error
unfolding is_invalid
api_error_of model t =
    if is_invalid t
    then error Errors.invalid_model (codes "Gemini model not found: " ++ model)
    else error Errors.provider_error (codes "Gemini returned an error.")

abbrev pub auth_error : Error
auth_error = error Errors.provider_auth (codes "Gemini authentication failed. Check your API key.")

module _ (fl : Floats) where
  open fl use {F}

  unfoldable pub normalize : ChatCompletionRequest F → Text → F → Response → Reply F
  unfolding no_usage new_metadata
  normalize request request_id elapsed r = answer record {
    provider = codes "gemini";
    model = request.model;
    choices =
        record {
          index = 0;
          content = elim r.text [ none ↦ [] | some t ↦ t ];
          finish_reason = Option.map lower r.finish_name;
        }
        ∷ [];
    usage = elim r.usage_metadata [ none ↦ no_usage | some u ↦ u ];
    metadata = new_metadata fl request_id elapsed;
  }

  -- `chat`; `send` builds the model, starts the chat and sends the message.
  unfoldable pub chat : (Session F → Google Response) → ChatCompletionRequest F → Text → F → Reply F
  unfolding session_of normalize api_error_of
  chat send request request_id elapsed = elim (session_of request) [
    | none ↦
        fails
          (error Errors.provider_error (codes "At least one user message is required for Gemini."))
    | some session ↦ elim (send session) [
      | returned r ↦ normalize request request_id elapsed r
      | deadline_exceeded ↦
          fails (error Errors.provider_timeout (codes "Gemini request timed out."))
      | unauthenticated ↦ fails auth_error
      | resource_exhausted ↦ fails (
          error Errors.provider_rate_limit
            (codes "Gemini rate limit reached. Please try again later."))
      | service_unavailable ↦
          fails (error Errors.provider_unavailable (codes "Gemini is currently unavailable."))
      | api_error t ↦ fails (api_error_of request.model t)
      | unexpected ↦ fails (error Errors.provider_error (codes "Unexpected error from Gemini."))
    ]
  ]

-- `health_check`.
unfoldable pub health_check : {A : Type 0} → Google (List A) → Bool
health_check (returned ms) = not (is_empty ms)
health_check _ = false

-- `t.replace(part, "")`, for a part that is not empty: the characters that are left to skip are
-- counted.
unfoldable pub remove_part : ℕ → Text → Text → Text
remove_part skip part [] = []
remove_part (suc skip) part (c ∷ t) = remove_part skip part t
remove_part zero part (c ∷ t) = elim (starts_with part (c ∷ t)) [
  | true ↦ remove_part (length part - 1) part t
  | false ↦ c ∷ remove_part zero part t
]

-- A model of the list: its name, and whether it has the method `generateContent`.
pub record Listed : Type 0 where
  pub name : Text
  pub generates : Bool

unfoldable pub known_models : List Text
known_models =
    codes "gemini-1.5-pro"
    ∷ codes "gemini-1.5-flash"
    ∷ codes "gemini-1.5-flash-8b"
    ∷ codes "gemini-2.0-flash"
    ∷ codes "gemini-2.0-flash-lite"
    ∷ []

unfoldable pub is_gemini : Listed → Bool
is_gemini m = m.generates && contains (codes "gemini") (lower m.name)

unfoldable pub list_models : Google (List Listed) → Models
unfolding sort_texts remove_part known_models is_gemini
list_models (returned ms) =
    models (
      sort_texts (map (λ (m : Listed). remove_part 0 (codes "models/") m.name) (keep is_gemini ms)))
list_models unauthenticated = no_models auth_error
list_models _ = models known_models
