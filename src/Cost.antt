-- ===== src/Cost.antt =====
-- `CostCalculator` of backend/app/budget/cost.py, over the catalog of `Routing.Metadata`. Costs are
-- floats.
pub mod Laws
pub mod Tests
use cortex_gateway.Prelude.{
  ℕ, ◌+◌, ◌/◌, Bool, not, ◌&&◌, Option, none, some, List, [], ◌∷◌, ◌==◌, if◌then◌else◌, length,
  Text,
}
use cortex_gateway.Chat.{ChatMessage, ChatCompletionRequest, UsageMetadata}
use cortex_gateway.Floats.{Floats}
use cortex_gateway.Routing.Models.{ModelMetadata}
use cortex_gateway.Routing.Metadata
use cortex_gateway.Routing.Metadata.{Catalog}
use Prim.Native.Nat.{max}

abbrev pub default_estimate_output_tokens : ℕ
default_estimate_output_tokens = 500

-- `sum(len(m.content) for m in messages)`.
unfoldable pub total_chars : List ChatMessage → ℕ
total_chars [] = 0
total_chars (m ∷ ms) = length m.content + total_chars ms

-- `max(1, total_chars // 4)`.
unfoldable pub estimated_input_tokens : List ChatMessage → ℕ
unfolding total_chars
estimated_input_tokens messages = max 1 (total_chars messages / 4)

-- `n or default`, where 0 counts as missing.
unfoldable pub or_tokens : Option ℕ → ℕ → ℕ
or_tokens none default = default
or_tokens (some n) default = if n == 0 then default else n

module _ (fl : Floats) (catalog : Catalog fl.F) where
  open fl use {F, lit, add, mul, div, round}

  abbrev pub get_metadata : Text → Text → ModelMetadata F
  get_metadata = Metadata.get fl catalog

  -- The cost of some tokens at a price for a thousand.
  unfoldable pub token_cost : ℕ → F → F
  token_cost tokens price = mul (div (lit tokens 1) (lit 1000 1)) price

  unfoldable pub estimate_cost : Text → Text → ChatCompletionRequest F → F
  unfolding token_cost estimated_input_tokens or_tokens
  estimate_cost provider model request =
      let meta = get_metadata provider model in
      let input_cost =
        token_cost (estimated_input_tokens request.messages) meta.input_cost_per_1k in
      let output_cost =
        token_cost (or_tokens request.max_tokens default_estimate_output_tokens)
          meta.output_cost_per_1k in
      round 8 (mul (add input_cost output_cost) (lit 3 2))

  -- The cost of the reported usage.
  unfoldable pub usage_cost : Text → Text → ℕ → ℕ → F
  unfolding token_cost
  usage_cost provider model prompt_tokens completion_tokens =
      let meta = get_metadata provider model in
      round 8 (
        add (token_cost prompt_tokens meta.input_cost_per_1k)
          (token_cost completion_tokens meta.output_cost_per_1k))

  unfoldable pub calculate_actual_cost : Text → Text → Option UsageMetadata → F → F
  unfolding usage_cost or_tokens
  calculate_actual_cost provider model none estimated = estimated
  calculate_actual_cost provider model (some usage) estimated =
      let prompt_tokens = or_tokens usage.prompt_tokens 0 in
      let completion_tokens = or_tokens usage.completion_tokens 0 in
      if prompt_tokens == 0 && completion_tokens == 0
      then estimated
      else usage_cost provider model prompt_tokens completion_tokens

  -- `would_exceed_budget`.
  unfoldable pub would_exceed_budget : F → F → F → F → Bool
  would_exceed_budget estimated current_usage limit_amount reserved =
      not (fl.le (add (add current_usage reserved) estimated) limit_amount)
