-- ===== src/Adapters/Tests.antt =====
-- The adapters at concrete answers and conversations.
use cortex_gateway.Prelude.{
  ℕ, ◌≡◌, refl, true, none, some, List, [], ◌∷◌, ◌++◌, Text, codes, lower, starts_with, contains,
  text_leb, char_lower,
}
use cortex_gateway.Errors.{Error}
use cortex_gateway.Executor.{fails}
use cortex_gateway.Floats.Scaled.{scaled}
use cortex_gateway.SemanticCache.Tests.{request}
use cortex_gateway.Adapters.{
  openai, groq, chat, status_error, connection_error, returned, list_models, list_failed, models,
}
use cortex_gateway.Adapters.Groq
use cortex_gateway.Adapters.Gemini
use cortex_gateway.Chat.{Role, user, assistant, system, ChatMessage, ChatCompletionRequest}
use cortex_gateway.Adapters.Gemini.{
  Session, session_of, user_turn, model_turn, collect, no_conversation, add_message, drop_last,
  instruction_given, remove_part, is_gemini,
}
use cortex_gateway.Adapters.Gemini.Laws.{turns, turn_of, last_system, session_of-turns}
use cortex_gateway.Adapters.Ollama
use cortex_gateway.Adapters.Ollama.{Response, responded, names_model, error_text}
use cortex_gateway.Adapters.Laws.{Treated, chat-status}

abbrev refused : Response
refused = record { status_code = 400; text = codes "bad request"; json = none }

chat-status_example :
    ((e : Error) × (chat scaled openai
          (λ p. status_error 400 (codes "bad request"))
          request
          (codes "r")
          1
        ≡ fails e)
      × Treated e true true)
    × ((e : Error) × (Ollama.chat scaled (λ p. responded refused) request (codes "r") 1 ≡ fails e)
        × Treated e true true)
chat-status_example =
    chat-status scaled openai request (codes "r") (codes "bad request") 1 400 refused refl

-- Groq answers a failed list with the models that it knows, OpenAI sorts and filters a list.
groq_offline : Groq.list_models connection_error ≡ list_failed groq
unfolding Groq.list_models list_models
groq_offline = refl

openai_models :
    list_models openai (returned (codes "gpt-b" ∷ codes "dall-e" ∷ codes "GPT-a" ∷ []))
    ≡ models (codes "GPT-a" ∷ codes "gpt-b" ∷ [])
unfolding list_models contains lower starts_with char_lower text_leb
openai_models = refl

-- A conversation with an instruction behind the question.
abbrev says : Role → Text → ChatMessage
says r t = record { role = r; content = t }

abbrev conversation : List ChatMessage
conversation =
    says user (codes "a")
    ∷ says assistant (codes "b")
    ∷ says user (codes "c")
    ∷ says system (codes "d")
    ∷ []

abbrev asked : ChatCompletionRequest ℕ
asked = record request { messages = conversation }

session_of-turns_example :
    (s : Session ℕ) × (session_of asked ≡ some s)
    × (s.history ++ (user_turn, s.message) ∷ []
        ≡ (user_turn, codes "a") ∷ (model_turn, codes "b") ∷ (user_turn, codes "c") ∷ [])
    × (s.system_instruction ≡ some (codes "d"))
unfolding turns turn_of instruction_given last_system
session_of-turns_example =
    session_of-turns asked (says user (codes "a") ∷ says assistant (codes "b") ∷ [])
      (says system (codes "d") ∷ []) (says user (codes "c")) refl refl refl

-- Where the assistant has the last turn, the answer is not sent and the question is sent twice.
answered :
    (s : Session ℕ) × (session_of
        (record request { messages = says user (codes "a") ∷ says assistant (codes "b") ∷ [] })
      ≡ some s)
    × (s.history ++ (user_turn, s.message) ∷ []
        ≡ (user_turn, codes "a") ∷ (user_turn, codes "a") ∷ [])
unfolding session_of collect no_conversation add_message drop_last
answered = (_, refl, refl)

plain_names :
    Gemini.list_models
      (Gemini.returned (record { name = codes "models/gemini-x"; generates = true } ∷ []))
    ≡ models (codes "gemini-x" ∷ [])
unfolding Gemini.list_models remove_part starts_with is_gemini contains lower char_lower
plain_names = refl
