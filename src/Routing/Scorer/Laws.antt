-- ===== src/Routing/Scorer/Laws.antt =====
-- What the scorer promises: scores in range, the order of the ranking, and that the winner does
-- not depend on the order in which the candidates come.
use cortex_gateway.Prelude.{
  In-map, then_by, ℕ, ◌≡◌, refl, ◌⊎◌, inl, inr, Bool, true, false, not, ◌||◌, [], ◌∷◌, map, arith,
  All, In, here, there, text_leb, text_leb_antisym,
}
use mathlib.Core.Path.{subst}
use mathlib.Core.List.{Perm}
use mathlib.Core.List.Perm
use cortex_gateway.Floats.{Floats, f0, f1, clamp, clamp_bounds}
use cortex_gateway.Routing.Models.{effective_latency_ms, RoutingCandidate, PolicyWeights}
use cortex_gateway.Routing.Scorer.{
  ScoredCandidate, Bounds, score_one, key_le, sort_scored, score_candidates, normalize_weights,
  bounds_of,
}
use cortex_gateway.Routing.Scorer.Sort.{Sorted, sort_scored-Sorted, In-of_sort, sort_scored-perm}
use cortex_gateway.Prelude.{List}

module _ (fl : Floats) where
  open fl use {F, le, round}

  score_one-candidate :
      (w : PolicyWeights F) (b : Bounds F) (c : RoutingCandidate F)
      → (score_one fl w b c).candidate ≡ c
  unfolding score_one
  score_one-candidate w b c = refl

  round-clamp :
      (n : ℕ) (x : F)
      → (le (f0 fl) (round n (clamp fl x)) ≡ true) × (le (round n (clamp fl x)) (f1 fl) ≡ true)
  round-clamp n x =
      let b = clamp_bounds fl x in
      (
        subst (λ y. le y (round n (clamp fl x)) ≡ true) (fl.round-zero n) (fl.round_mono n _ _ b.0),
        subst (λ y. le (round n (clamp fl x)) y ≡ true) (fl.round-one n) (fl.round_mono n _ _ b.1),
      )

  abbrev pub InRange : ScoredCandidate F → Type 0
  InRange s = (le (f0 fl) s.total_score ≡ true) × (le s.total_score (f1 fl) ≡ true)

  score_one-InRange :
      (w : PolicyWeights F) (b : Bounds F) (c : RoutingCandidate F) → InRange (score_one fl w b c)
  unfolding score_one
  score_one-InRange w b c = round-clamp 4 _

  -- What the best candidate of a ranking satisfies.
  pub record IsBest (cs : List (RoutingCandidate F)) (s : ScoredCandidate F)
      (rest : List (ScoredCandidate F)) : Type 0 where
    pub member : In s.candidate cs
    pub first : All (λ t. key_le fl s t ≡ true) rest
    pub ranged : InRange s

  head_IsBest :
      (cs : List (RoutingCandidate F)) (w : PolicyWeights F) (b : Bounds F) (s : ScoredCandidate F)
      (rest : List (ScoredCandidate F))
      → sort_scored fl (map (score_one fl w b) cs) ≡ s ∷ rest
      → IsBest cs s rest
  head_IsBest cs w b s rest e =
      let m : In s (map (score_one fl w b) cs) = In-of_sort fl _ (rw e here) in
      let (c, k, p) = In-map (score_one fl w b) cs m in
      record {
        member = rw (← p, score_one-candidate) k;
        first = (subst (Sorted fl) e (sort_scored-Sorted fl (map (score_one fl w b) cs))).0;
        ranged = rw (← p) (score_one-InRange w b c);
      }

  map-candidate :
      (w : PolicyWeights F) (b : Bounds F) (cs : List (RoutingCandidate F))
      → map (λ (s : ScoredCandidate F). s.candidate) (map (score_one fl w b) cs) ≡ cs
  map-candidate w b [] = refl
  map-candidate w b (c ∷ cs) = cc (score_one-candidate w b c, map-candidate w b cs)

  All-InRange :
      (w : PolicyWeights F) (b : Bounds F) (cs : List (RoutingCandidate F)) (s : ScoredCandidate F)
      → In s (map (score_one fl w b) cs)
      → InRange s
  All-InRange w b cs s m =
      let (c, k, p) = In-map (score_one fl w b) cs m in rw (← p) (score_one-InRange w b c)

  All-of_In :
      (l : List (ScoredCandidate F))
      → ((s : ScoredCandidate F) → In s l → InRange s)
      → All InRange l
  All-of_In [] h = tt
  All-of_In (s ∷ l) h = (h s here, All-of_In l (λ t m. h t (there m)))

  -- The order of a ranking: the higher total score first, then a healthy candidate, the higher
  -- success rate, the lower latency, the lower cost, and the names in alphabetical order.
  abbrev pub Precedes : ScoredCandidate F → ScoredCandidate F → Type 0
  Precedes a b =
      let c = a.candidate in
      let d = b.candidate in
      (le a.total_score b.total_score ≡ false)
      ⊎ ((a.total_score ≡ b.total_score)
          × (((c.is_healthy ≡ true) × (d.is_healthy ≡ false))
              ⊎ ((c.is_healthy ≡ d.is_healthy)
                  × ((le c.runtime_success_rate d.runtime_success_rate ≡ false)
                      ⊎ ((c.runtime_success_rate ≡ d.runtime_success_rate)
                          × ((le (effective_latency_ms fl d) (effective_latency_ms fl c) ≡ false)
                              ⊎ ((effective_latency_ms fl c ≡ effective_latency_ms fl d)
                                  × ((le d.cost_per_1k_tokens c.cost_per_1k_tokens ≡ false)
                                      ⊎ ((c.cost_per_1k_tokens ≡ d.cost_per_1k_tokens)
                                          × ((text_leb d.provider c.provider ≡ false)
                                              ⊎ ((c.provider ≡ d.provider)
                                                  × (text_leb c.model d.model ≡ true))))))))))))

  then_by-cases :
      (p q r : Bool) → then_by p q r ≡ true → (q ≡ false) ⊎ ((p ≡ true) × (q ≡ true) × (r ≡ true))
  unfolding then_by
  then_by-cases p q r h = ground arith

  key_le-Precedes : (a b : ScoredCandidate F) → key_le fl a b ≡ true → Precedes a b
  unfolding key_le
  key_le-Precedes a b h =
      let c = a.candidate in
      let d = b.candidate in
      elim (then_by-cases _ _ _ h) [
        | inl e ↦ inl e
        | inr (p, q, r) ↦ inr (
          fl.le_antisym _ _ q p,
          elim (then_by-cases _ _ _ r) [
            | inl e ↦ inl (ground (arith, e))
            | inr (p, q, r) ↦ inr (
              same_health c.is_healthy d.is_healthy p q,
              elim (then_by-cases _ _ _ r) [
                | inl e ↦ inl e
                | inr (p, q, r) ↦ inr (
                  fl.le_antisym _ _ q p,
                  elim (then_by-cases _ _ _ r) [
                    | inl e ↦ inl e
                    | inr (p, q, r) ↦ inr (
                      fl.le_antisym _ _ p q,
                      elim (then_by-cases _ _ _ r) [
                        | inl e ↦ inl e
                        | inr (p, q, r) ↦ inr (
                          fl.le_antisym _ _ p q,
                          elim (then_by-cases _ _ _ r) [
                            | inl e ↦ inl e
                            | inr (p, q, r) ↦ inr (text_leb_antisym c.provider d.provider p q, r)
                          ],
                        )
                      ],
                    )
                  ],
                )
              ],
            )
          ],
        )
      ]
    where
      same_health : (x y : Bool) → (x || not y) ≡ true → (y || not x) ≡ true → x ≡ y
      same_health x y p q = ground arith

  -- Each candidate precedes those that follow it.
  abbrev pub Ranked : List (ScoredCandidate F) → Type 0
  Ranked [] = Unit
  Ranked (a ∷ rest) = All (Precedes a) rest × Ranked rest

  All-Precedes :
      (a : ScoredCandidate F) (l : List (ScoredCandidate F))
      → All (λ b. key_le fl a b ≡ true) l
      → All (Precedes a) l
  All-Precedes a [] h = tt
  All-Precedes a (b ∷ l) h = (key_le-Precedes a b h.0, All-Precedes a l h.1)

  Sorted-Ranked : (l : List (ScoredCandidate F)) → Sorted fl l → Ranked l
  Sorted-Ranked [] h = tt
  Sorted-Ranked (a ∷ l) h = (All-Precedes a l h.0, Sorted-Ranked l h.1)

  -- The ranking holds each candidate once, whatever the weights; each precedes those that follow it
  -- (by the total score, health, success rate, latency, cost and names, in that order), and every
  -- total score is between 0 and 1.
  pub score_candidates-Sorted :
      (cs : List (RoutingCandidate F)) (w : PolicyWeights F)
      → Perm (map (λ (s : ScoredCandidate F). s.candidate) (score_candidates fl cs w)) cs
        × Ranked (score_candidates fl cs w)
        × All InRange (score_candidates fl cs w)
  unfolding score_candidates
  score_candidates-Sorted [] w = (Perm.refl [], tt, tt)
  score_candidates-Sorted (c ∷ cs) w =
      let v = normalize_weights fl w in
      let b = bounds_of fl c cs in
      let scored = map (score_one fl v b) (c ∷ cs) in
      (
        subst
            (λ (l : List (RoutingCandidate F)).
              Perm (map (λ (s : ScoredCandidate F). s.candidate) (sort_scored fl scored)) l)
            (map-candidate v b (c ∷ cs))
            (Perm.map (λ (s : ScoredCandidate F). s.candidate) (sort_scored-perm fl scored)),
        Sorted-Ranked _ (sort_scored-Sorted fl scored),
        All-of_In (sort_scored fl scored)
            (λ s m. All-InRange v b (c ∷ cs) s (In-of_sort fl scored m)),
      )
