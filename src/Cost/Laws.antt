-- ===== src/Cost/Laws.antt =====
-- Signs and fall-backs of the costs.
use cortex_gateway.Prelude.{ℕ, ◌≤◌, ◌≡◌, inl, inr, true, ◌&&◌, some, arith, ◌==◌, Bool-cases, Text}
use mathlib.Core.Path.{subst}
use cortex_gateway.Chat.{ChatCompletionRequest, UsageMetadata}
use cortex_gateway.Floats.{Floats}
use cortex_gateway.Routing.Metadata.{Catalog}
use cortex_gateway.Cost.{
  default_estimate_output_tokens, estimated_input_tokens, or_tokens, get_metadata, token_cost,
  estimate_cost, usage_cost, calculate_actual_cost,
}

module _ (fl : Floats) (catalog : Catalog fl.F) where
  open fl use {F, lit, le, add, mul, div, round}

  -- The prices of a model are not negative.
  abbrev pub IsPriced : Text → Text → Type 0
  IsPriced provider model =
      (le (lit 0 1) (get_metadata fl catalog provider model).input_cost_per_1k ≡ true)
      × (le (lit 0 1) (get_metadata fl catalog provider model).output_cost_per_1k ≡ true)

  token_cost_nonneg :
      (tokens : ℕ) (price : F)
      → le (lit 0 1) price ≡ true
      → le (lit 0 1) (token_cost fl catalog tokens price) ≡ true
  unfolding token_cost
  token_cost_nonneg tokens price h =
      fl.mul_nonneg _ price
        (fl.div_nonneg (lit tokens 1) (lit 1000 1)
          (fl.lit_mono 0 tokens 1 (omega arith) (omega arith))
          (fl.lit_mono 0 1000 1 (omega arith) (omega arith)))
        h

  sum_nonneg :
      (a b : F) → le (lit 0 1) a ≡ true → le (lit 0 1) b ≡ true → le (lit 0 1) (add a b) ≡ true
  sum_nonneg a b p q = fl.le_trans _ b _ q (fl.add_nonneg a b p)

  round_nonneg : (n : ℕ) (a : F) → le (lit 0 1) a ≡ true → le (lit 0 1) (round n a) ≡ true
  round_nonneg n a h =
      subst (λ z. le z (round n a) ≡ true) (fl.round-zero n) (fl.round_mono n _ _ h)

  estimate_nonneg :
      (provider model : Text) (request : ChatCompletionRequest F)
      → IsPriced provider model
      → le (lit 0 1) (estimate_cost fl catalog provider model request) ≡ true
  unfolding estimate_cost
  estimate_nonneg provider model request (p, q) = round_nonneg 8 _ (
      fl.mul_nonneg _ _ (sum_nonneg _ _ (token_cost_nonneg _ _ p) (token_cost_nonneg _ _ q))
        (fl.le_trans _ _ _ fl.zero-le-one fl.one-le_margin))

  token_cost_mono :
      (m n : ℕ) (price : F)
      → le (lit 0 1) price ≡ true
      → m ≤ n
      → le (token_cost fl catalog m price) (token_cost fl catalog n price) ≡ true
  unfolding token_cost
  token_cost_mono m n price h p = fl.mul_mono _ _ price h (
      fl.div_mono _ _ (lit 1000 1) (fl.lit_mono 0 1000 1 (omega arith) (omega arith))
        (fl.lit_mono m n 1 (omega arith) (omega arith)))

  usage_cost-le :
      (provider model : Text) (request : ChatCompletionRequest F) (prompt completion : ℕ)
      → IsPriced provider model
      → prompt ≤ estimated_input_tokens request.messages
      → completion ≤ or_tokens request.max_tokens default_estimate_output_tokens
      → le
          (usage_cost fl catalog provider model prompt completion)
          (estimate_cost fl catalog provider model request)
        ≡ true
  unfolding usage_cost estimate_cost
  usage_cost-le provider model request prompt completion (p, q) i o =
      let a = token_cost_mono _ _ _ p i in
      let b = token_cost_mono _ _ _ q o in
      let whole = fl.add_mono _ _ _ _ a b in
      let positive = sum_nonneg _ _ (token_cost_nonneg _ _ p) (token_cost_nonneg _ _ q) in
      fl.round_mono 8 _ _ (fl.le_trans _ _ _ whole (fl.mul_grows _ _ positive fl.one-le_margin))

  -- Under prices that are not negative the estimate of a request is not negative, and a request whose reported
  -- tokens are within the estimated ones is charged no more than its estimate, by the provider and
  -- model that it was estimated for.
  pub calculate_actual_cost-le :
      (provider model : Text) (request : ChatCompletionRequest F) (usage : UsageMetadata)
      → IsPriced provider model
      → or_tokens usage.prompt_tokens 0 ≤ estimated_input_tokens request.messages
      → or_tokens usage.completion_tokens 0
        ≤ or_tokens request.max_tokens default_estimate_output_tokens
      → let estimate = estimate_cost fl catalog provider model request in
        (le (lit 0 1) estimate ≡ true)
        × (le (calculate_actual_cost fl catalog provider model (some usage) estimate) estimate
            ≡ true)
  unfolding calculate_actual_cost
  calculate_actual_cost-le provider model request usage h i o =
      let e = estimate_cost fl catalog provider model request in
      let n = or_tokens usage.prompt_tokens 0 in
      let k = or_tokens usage.completion_tokens 0 in
      let within = usage_cost-le provider model request n k h i o in
      (
        estimate_nonneg provider model request h,
        elim (Bool-cases (n == 0 && k == 0)) [ inl z ↦ rw z (fl.le_refl e) | inr z ↦ rw z within ],
      )
