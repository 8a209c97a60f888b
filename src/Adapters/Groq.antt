-- ===== src/Adapters/Groq.antt =====
-- `GroqProvider` of backend/app/providers/groq_provider.py, as an instance of Adapters.
use cortex_gateway.Prelude.{ℕ, Bool, List, Text}
use cortex_gateway.Chat.{ChatCompletionRequest}
use cortex_gateway.Errors.{Error}
use cortex_gateway.Executor.{Reply}
use cortex_gateway.Floats.{Floats}
use cortex_gateway.Adapters
use cortex_gateway.Adapters.{Sdk, Completion, Payload, Models, groq}

unfoldable pub raise_from_status : ℕ → Text → Error
unfolding Adapters.raise_from_status
raise_from_status = Adapters.raise_from_status groq

unfoldable pub chat :
    (fl : Floats)
    → (Payload fl → Sdk Completion)
    → ChatCompletionRequest fl.F
    → Text
    → fl.F
    → Reply fl.F
unfolding Adapters.chat
chat fl = Adapters.chat fl groq

unfoldable pub health_check : {A : Type 0} → Sdk A → Bool
unfolding Adapters.health_check
health_check = Adapters.health_check

unfoldable pub list_models : Sdk (List Text) → Models
unfolding Adapters.list_models
list_models = Adapters.list_models groq
