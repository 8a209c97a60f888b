-- ===== src/Routing/Scorer/Order.antt =====
-- The order of the sort keys, and what the sort promises.
use cortex_gateway.Prelude.{
  lex, Bool, not, ◌||◌, arith, text_leb, text_leb_total, text_leb_trans, IsOrder, lex-IsOrder,
}
use cortex_gateway.Floats.{Floats}
use cortex_gateway.Routing.Models.{effective_latency_ms}
use cortex_gateway.Routing.Scorer.{ScoredCandidate, key_le}

module _ (fl : Floats) where
  open fl use {F, le}

  float_order : IsOrder le
  float_order = record { total = fl.le_total; trans = fl.le_trans }

  -- An order of the keys, pulled back to what has them.
  by {κ} :
      {A : Type 0} {K : Type κ} (key : A → K) {r : K → K → Bool}
      → IsOrder r
      → IsOrder (λ a b. r (key a) (key b))
  by key o = record {
    total = λ a b. o.total (key a) (key b);
    trans = λ a b c. o.trans (key a) (key b) (key c);
  }

  down : {A : Type 0} {r : A → A → Bool} → IsOrder r → IsOrder (λ a b. r b a)
  down o = record { total = λ a b. o.total b a; trans = λ a b c h k. o.trans c b a k h }

  healthy_order : IsOrder (λ (a b : Bool). a || not b)
  healthy_order = record { total = λ a b. ground arith; trans = λ a b c h k. ground arith }

  text_order : IsOrder text_leb
  text_order = record { total = text_leb_total; trans = text_leb_trans }

  pub key_le-IsOrder : IsOrder (key_le fl)
  unfolding key_le lex
  key_le-IsOrder = lex-IsOrder (by (λ (a : ScoredCandidate F). a.total_score) (down float_order)) (
      lex-IsOrder (by (λ (a : ScoredCandidate F). a.candidate.is_healthy) healthy_order) (
        lex-IsOrder
          (by (λ (a : ScoredCandidate F). a.candidate.runtime_success_rate) (down float_order))
          (lex-IsOrder
            (by (λ (a : ScoredCandidate F). effective_latency_ms fl a.candidate) float_order)
            (lex-IsOrder
              (by (λ (a : ScoredCandidate F). a.candidate.cost_per_1k_tokens) float_order)
              (lex-IsOrder (by (λ (a : ScoredCandidate F). a.candidate.provider) text_order)
                (by (λ (a : ScoredCandidate F). a.candidate.model) text_order))))))
