-- ===== src/Routing/Scorer/Invariance.antt =====
-- The winner of the ranking does not depend on the order in which the candidates come.
use cortex_gateway.Prelude.{
  then_by_both, In-uncons, SameMembers, keep-SameMembers, In-map, map-SameMembers, ◌≡◌, refl, sym,
  ap, ◌∙◌, ◌⊎◌, inl, inr, true, some, [], ◌∷◌, map, arith, head, In, here, there, All-In,
  text_leb_antisym, List,
}
use cortex_gateway.Floats.{Floats, f0, fmin, fmax, list_min, list_max, lt}
use cortex_gateway.Routing.Models.{RoutingCandidate, effective_latency_ms, PolicyWeights}
use cortex_gateway.Routing.Scorer.{
  bounds_of, min_or_zero, ScoredCandidate, key_le, sort_scored, score_candidates, score_one,
  normalize_weights, Bounds,
}
use mathlib.Core.Path.{subst}
use cortex_gateway.Routing.Scorer.Order.{key_le-IsOrder}
use cortex_gateway.Routing.Scorer.Sort.{Sorted, sort_scored-Sorted, In-sort, In-of_sort}

module _ (fl : Floats) where
  open fl use {F, le}

  -- A least member.
  record IsLeast (m : F) (xs : List F) : Type 0 where
    member : In m xs
    below : (x : F) → In x xs → le m x ≡ true

  fmin-below : (a b : F) → (le (fmin fl a b) a ≡ true) × (le (fmin fl a b) b ≡ true)
  unfolding fmin
  fmin-below a b = ground (arith, fl.le_total a b, fl.le_refl a, fl.le_refl b)

  fmin_cases : (a b : F) → (fmin fl a b ≡ a) ⊎ (fmin fl a b ≡ b)
  unfolding fmin
  fmin_cases a b = ground arith

  list_min-IsLeast : (a : F) (bs : List F) → IsLeast (list_min fl a bs) (a ∷ bs)
  unfolding list_min
  list_min-IsLeast a [] = record {
    member = here;
    below = λ x m. elim (In-uncons m) [ inl e ↦ rw e (fl.le_refl x) | inr k ↦ elim k [ ] ];
  }
  list_min-IsLeast a (b ∷ bs) =
      let ih = list_min-IsLeast (fmin fl a b) bs in
      let least = ih.below (fmin fl a b) here in
      let (p, q) = fmin-below a b in
      record {
        member = elim (In-uncons ih.member) [
          | inl e ↦ elim (fmin_cases a b) [
            | inl u ↦ rw (← e, u) here
            | inr u ↦ rw (← e, u) (there here)
          ]
          | inr k ↦ there (there k)
        ];
        below = λ x m. elim (In-uncons m) [
          | inl e ↦ rw (← e) (fl.le_trans _ _ _ least p)
          | inr k ↦ elim (In-uncons k) [
            | inl e ↦ rw (← e) (fl.le_trans _ _ _ least q)
            | inr k' ↦ ih.below x (there k')
          ]
        ];
      }

  IsLeast-unique :
      {m n : F} {xs ys : List F} → IsLeast m xs → IsLeast n ys → SameMembers xs ys → m ≡ n
  IsLeast-unique {m} {n} p q s =
      fl.le_antisym m n (p.below n (s.from n q.member)) (q.below m (s.to m p.member))

  -- A greatest member.
  record IsGreatest (m : F) (xs : List F) : Type 0 where
    member : In m xs
    above : (x : F) → In x xs → le x m ≡ true

  fmax-above : (a b : F) → (le a (fmax fl a b) ≡ true) × (le b (fmax fl a b) ≡ true)
  unfolding fmax
  fmax-above a b = ground (arith, fl.le_total a b, fl.le_refl a, fl.le_refl b)

  fmax_cases : (a b : F) → (fmax fl a b ≡ a) ⊎ (fmax fl a b ≡ b)
  unfolding fmax
  fmax_cases a b = ground arith

  list_max-IsGreatest : (a : F) (bs : List F) → IsGreatest (list_max fl a bs) (a ∷ bs)
  unfolding list_max
  list_max-IsGreatest a [] = record {
    member = here;
    above = λ x m. elim (In-uncons m) [ inl e ↦ rw e (fl.le_refl x) | inr k ↦ elim k [ ] ];
  }
  list_max-IsGreatest a (b ∷ bs) =
      let ih = list_max-IsGreatest (fmax fl a b) bs in
      let most = ih.above (fmax fl a b) here in
      let (p, q) = fmax-above a b in
      record {
        member = elim (In-uncons ih.member) [
          | inl e ↦ elim (fmax_cases a b) [
            | inl u ↦ rw (← e, u) here
            | inr u ↦ rw (← e, u) (there here)
          ]
          | inr k ↦ there (there k)
        ];
        above = λ x m. elim (In-uncons m) [
          | inl e ↦ rw (← e) (fl.le_trans _ _ _ p most)
          | inr k ↦ elim (In-uncons k) [
            | inl e ↦ rw (← e) (fl.le_trans _ _ _ q most)
            | inr k' ↦ ih.above x (there k')
          ]
        ];
      }

  IsGreatest-unique :
      {m n : F} {xs ys : List F} → IsGreatest m xs → IsGreatest n ys → SameMembers xs ys → m ≡ n
  IsGreatest-unique {m} {n} p q s =
      fl.le_antisym m n (q.above m (s.to m p.member)) (p.above n (s.from n q.member))

  min_or_zero-same : (xs ys : List F) → SameMembers xs ys → min_or_zero fl xs ≡ min_or_zero fl ys
  unfolding min_or_zero
  min_or_zero-same [] [] s = refl
  min_or_zero-same [] (y ∷ ys) s = elim (s.from y here) [ ]
  min_or_zero-same (x ∷ xs) [] s = elim (s.to x here) [ ]
  min_or_zero-same (x ∷ xs) (y ∷ ys) s =
      IsLeast-unique (list_min-IsLeast x xs) (list_min-IsLeast y ys) s

  bounds_of-same :
      (c d : RoutingCandidate F) (cs ds : List (RoutingCandidate F))
      → SameMembers (c ∷ cs) (d ∷ ds)
      → bounds_of fl c cs ≡ bounds_of fl d ds
  unfolding bounds_of
  bounds_of-same c d cs ds s =
      let lat = map-SameMembers (effective_latency_ms fl) s in
      let cost = map-SameMembers (λ (x : RoutingCandidate F). x.cost_per_1k_tokens) s in
      let min_l = IsLeast-unique (list_min-IsLeast _ _) (list_min-IsLeast _ _) lat in
      let max_l = IsGreatest-unique (list_max-IsGreatest _ _) (list_max-IsGreatest _ _) lat in
      let min_c = IsLeast-unique (list_min-IsLeast _ _) (list_min-IsLeast _ _) cost in
      let max_c = IsGreatest-unique (list_max-IsGreatest _ _) (list_max-IsGreatest _ _) cost in
      let paid = min_or_zero-same _ _ (keep-SameMembers (lt fl (f0 fl)) cost) in
      λ i. record {
        min_lat = min_l i;
        max_lat = max_l i;
        min_cost = min_c i;
        max_cost = max_c i;
        min_paid_cost = paid i;
      }

  -- Keys that are not above one another in either direction name one provider and model.
  key_le-antisym :
      (a b : ScoredCandidate F)
      → key_le fl a b ≡ true
      → key_le fl b a ≡ true
      → (a.candidate.provider ≡ b.candidate.provider) × (a.candidate.model ≡ b.candidate.model)
  unfolding key_le
  key_le-antisym a b h k =
      let (_, h1, k1) = then_by_both _ _ _ _ h k in
      let (_, h2, k2) = then_by_both _ _ _ _ h1 k1 in
      let (_, h3, k3) = then_by_both _ _ _ _ h2 k2 in
      let (_, h4, k4) = then_by_both _ _ _ _ h3 k3 in
      let (_, h5, k5) = then_by_both _ _ _ _ h4 k4 in
      let (p, h6, k6) = then_by_both _ _ _ _ h5 k5 in
      (text_leb_antisym _ _ p.0 p.1, text_leb_antisym _ _ h6 k6)

  -- No two candidates of the list have the same provider and model.
  abbrev pub IsUnambiguous : List (RoutingCandidate F) → Type 0
  IsUnambiguous cs =
      (c d : RoutingCandidate F)
      → In c cs
      → In d cs
      → c.provider ≡ d.provider
      → c.model ≡ d.model
      → c ≡ d

  key_le_refl : (s : ScoredCandidate F) → key_le fl s s ≡ true
  key_le_refl s = elim ((key_le-IsOrder fl).total s s) [ inl e ↦ e | inr e ↦ e ]

  Sorted-head :
      (s : ScoredCandidate F) (rest : List (ScoredCandidate F)) (t : ScoredCandidate F)
      → Sorted fl (s ∷ rest)
      → In t (s ∷ rest)
      → key_le fl s t ≡ true
  Sorted-head s rest t h m = elim (In-uncons m) [
    | inl e ↦ rw e (key_le_refl t)
    | inr k ↦ All-In (λ u. key_le fl s u ≡ true) h.0 k
  ]

  module _ (f : RoutingCandidate F → ScoredCandidate F)
      (back : (c : RoutingCandidate F) → (f c).candidate ≡ c) where
    across :
        (xs ys : List (RoutingCandidate F)) (ss : List (ScoredCandidate F)) (t : ScoredCandidate F)
        (ts : List (ScoredCandidate F))
        → SameMembers xs ys
        → sort_scored fl (map f xs) ≡ ss
        → sort_scored fl (map f ys) ≡ t ∷ ts
        → In t ss
    across xs ys ss t ts s p q =
        let m : In t (map f ys) = In-of_sort fl _ (rw q here) in
        subst (In t) p (In-sort fl ((map-SameMembers f s).from t m))

    backwards : {xs ys : List (RoutingCandidate F)} → SameMembers xs ys → SameMembers ys xs
    backwards s = record { to = s.from; from = s.to }

    from_candidate :
        (xs : List (RoutingCandidate F)) (s : ScoredCandidate F)
        → In s (map f xs)
        → In s.candidate xs × (f s.candidate ≡ s)
    from_candidate xs s m =
        let (c, k, e) = In-map f xs m in
        let same : s.candidate ≡ c = ap (λ (t : ScoredCandidate F). t.candidate) (sym e) ∙ back c in
        (rw same k, ap f same ∙ e)

    heads_agree :
        (xs ys : List (RoutingCandidate F)) (a b : ScoredCandidate F)
        (as' bs : List (ScoredCandidate F))
        → IsUnambiguous xs
        → SameMembers xs ys
        → sort_scored fl (map f xs) ≡ a ∷ as'
        → sort_scored fl (map f ys) ≡ b ∷ bs
        → a ≡ b
    heads_agree xs ys a b as' bs u s p q =
        let ab =
          Sorted-head a as' b (subst (Sorted fl) p (sort_scored-Sorted fl (map f xs)))
            (across xs ys (a ∷ as') b bs s p q) in
        let ba =
          Sorted-head b bs a (subst (Sorted fl) q (sort_scored-Sorted fl (map f ys)))
            (across ys xs (b ∷ bs) a as' (backwards s) q p) in
        let (k, e) = from_candidate xs a (In-of_sort fl _ (rw p here)) in
        let (l, g) = from_candidate ys b (In-of_sort fl _ (rw q here)) in
        let (pr, mo) = key_le-antisym a b ab ba in
        sym e ∙ ap f (u a.candidate b.candidate k (s.from _ l) pr mo) ∙ g

    same_head :
        (xs ys : List (RoutingCandidate F)) (ss ts : List (ScoredCandidate F))
        → IsUnambiguous xs
        → SameMembers xs ys
        → sort_scored fl (map f xs) ≡ ss
        → sort_scored fl (map f ys) ≡ ts
        → head ss ≡ head ts
    same_head xs ys [] [] u s p q = refl
    same_head xs ys [] (b ∷ bs) u s p q = elim (across xs ys [] b bs s p q) [ ]
    same_head xs ys (a ∷ as') [] u s p q = elim (across ys xs [] a as' (backwards s) q p) [ ]
    same_head xs ys (a ∷ as') (b ∷ bs) u s p q = ap some (heads_agree xs ys a b as' bs u s p q)

  score_one-back :
      (w : PolicyWeights F) (b : Bounds F) (c : RoutingCandidate F)
      → (score_one fl w b c).candidate ≡ c
  unfolding score_one
  score_one-back w b c = refl

  -- The best candidate and its score do not depend on the order in which the candidates come, nor
  -- on how often one comes, if no two different ones have the same provider and model.
  pub score_candidates-head :
      (xs ys : List (RoutingCandidate F)) (w : PolicyWeights F)
      → IsUnambiguous xs
      → SameMembers xs ys
      → head (score_candidates fl xs w) ≡ head (score_candidates fl ys w)
  unfolding score_candidates
  score_candidates-head [] [] w u s = refl
  score_candidates-head [] (d ∷ ds) w u s = elim (s.from d here) [ ]
  score_candidates-head (c ∷ cs) [] w u s = elim (s.to c here) [ ]
  score_candidates-head (c ∷ cs) (d ∷ ds) w u s =
      let v = normalize_weights fl w in
      let best = λ (b : Bounds F) (zs : List (RoutingCandidate F)).
        head (sort_scored fl (map (score_one fl v b) zs)) in
      subst (λ b. best b (c ∷ cs) ≡ best (bounds_of fl d ds) (d ∷ ds))
        (sym (bounds_of-same c d cs ds s))
        (same_head (score_one fl v (bounds_of fl d ds)) (score_one-back v (bounds_of fl d ds))
          (c ∷ cs) (d ∷ ds) _ _ u s refl refl)
