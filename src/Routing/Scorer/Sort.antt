-- ===== src/Routing/Scorer/Sort.antt =====
-- The sort of the scorer: its result is a permutation in the order of the keys.
use cortex_gateway.Prelude.{
  ◌≡◌, inl, inr, true, false, List, [], ◌∷◌, Bool-cases, All, In, here, there,
}
use cortex_gateway.Floats.{Floats}
use cortex_gateway.Routing.Scorer.{ScoredCandidate, key_le, insert_sorted, sort_scored}
use cortex_gateway.Routing.Scorer.Order.{key_le-IsOrder}
use mathlib.Core.List.{Perm}
use mathlib.Core.List.Perm

module _ (fl : Floats) where
  open fl use {F}

  -- Each candidate stands before those that follow it in the order of the keys.
  abbrev pub Sorted : List (ScoredCandidate F) → Type 0
  Sorted [] = Unit
  Sorted (a ∷ as') = All (λ b. key_le fl a b ≡ true) as' × Sorted as'

  insert_sorted-All :
      (P : ScoredCandidate F → Type 0) (a : ScoredCandidate F) (xs : List (ScoredCandidate F))
      → P a
      → All P xs
      → All P (insert_sorted fl a xs)
  unfolding insert_sorted
  insert_sorted-All P a [] p h = (p, tt)
  insert_sorted-All P a (x ∷ xs) p h = elim (Bool-cases (key_le fl a x)) [
    | inl e ↦ rw e (p, h)
    | inr e ↦ rw e (h.0, insert_sorted-All P a xs p h.1)
  ]

  All-weaken :
      (a b : ScoredCandidate F) (xs : List (ScoredCandidate F))
      → key_le fl a b ≡ true
      → All (λ c. key_le fl b c ≡ true) xs
      → All (λ c. key_le fl a c ≡ true) xs
  All-weaken a b [] e h = tt
  All-weaken a b (x ∷ xs) e h = ((key_le-IsOrder fl).trans a b x e h.0, All-weaken a b xs e h.1)

  flip_le : (a b : ScoredCandidate F) → key_le fl a b ≡ false → key_le fl b a ≡ true
  flip_le a b e = elim ((key_le-IsOrder fl).total a b) [ inl p ↦ cc | inr p ↦ p ]

  insert_sorted-Sorted :
      (a : ScoredCandidate F) (xs : List (ScoredCandidate F))
      → Sorted xs
      → Sorted (insert_sorted fl a xs)
  unfolding insert_sorted
  insert_sorted-Sorted a [] h = (tt, tt)
  insert_sorted-Sorted a (x ∷ xs) h = elim (Bool-cases (key_le fl a x)) [
    | inl e ↦ rw e ((e, All-weaken a x xs e h.0), h)
    | inr e ↦ rw e (
      insert_sorted-All (λ b. key_le fl x b ≡ true) a xs (flip_le a x e) h.0,
      insert_sorted-Sorted a xs h.1,
    )
  ]

  pub sort_scored-Sorted : (xs : List (ScoredCandidate F)) → Sorted (sort_scored fl xs)
  unfolding sort_scored
  sort_scored-Sorted [] = tt
  sort_scored-Sorted (x ∷ xs) = insert_sorted-Sorted x _ (sort_scored-Sorted xs)

  insert_sorted-perm :
      (a : ScoredCandidate F) (xs : List (ScoredCandidate F))
      → Perm (insert_sorted fl a xs) (a ∷ xs)
  unfolding insert_sorted
  insert_sorted-perm a [] = Perm.refl _
  insert_sorted-perm a (x ∷ xs) = elim (Bool-cases (key_le fl a x)) [
    | inl e ↦ rw e (Perm.refl _)
    | inr e ↦ rw e (Perm.trans (Perm.cons x (insert_sorted-perm a xs)) (Perm.swap a x xs))
  ]

  pub sort_scored-perm : (xs : List (ScoredCandidate F)) → Perm (sort_scored fl xs) xs
  unfolding sort_scored
  sort_scored-perm [] = Perm.refl _
  sort_scored-perm (x ∷ xs) =
      Perm.trans (insert_sorted-perm x (sort_scored fl xs)) (Perm.cons x (sort_scored-perm xs))

  In-insert_self :
      (a : ScoredCandidate F) (xs : List (ScoredCandidate F)) → In a (insert_sorted fl a xs)
  unfolding insert_sorted
  In-insert_self a [] = here
  In-insert_self a (x ∷ xs) = elim (Bool-cases (key_le fl a x)) [
    | inl e ↦ rw e here
    | inr e ↦ rw e (there (In-insert_self a xs))
  ]

  In-insert_of :
      (a : ScoredCandidate F) {c : ScoredCandidate F} {xs : List (ScoredCandidate F)}
      → In c xs
      → In c (insert_sorted fl a xs)
  unfolding insert_sorted
  In-insert_of a {c} here = elim (Bool-cases (key_le fl a c)) [
    | inl e ↦ rw e (there here)
    | inr e ↦ rw e here
  ]
  In-insert_of a (there {x = x} m) = elim (Bool-cases (key_le fl a x)) [
    | inl e ↦ rw e (there (there m))
    | inr e ↦ rw e (there (In-insert_of a m))
  ]

  In-swap :
      {a c x : ScoredCandidate F} {xs ys : List (ScoredCandidate F)}
      → (In c ys → In c (a ∷ xs))
      → In c (x ∷ ys)
      → In c (a ∷ x ∷ xs)
  In-swap f here = there here
  In-swap f (there m) = behind (f m)
    where
      behind :
          {a c x : ScoredCandidate F} {xs : List (ScoredCandidate F)}
          → In c (a ∷ xs)
          → In c (a ∷ x ∷ xs)
      behind here = here
      behind (there m) = there (there m)

  In-of_insert :
      {c : ScoredCandidate F} (a : ScoredCandidate F) (xs : List (ScoredCandidate F))
      → In c (insert_sorted fl a xs)
      → In c (a ∷ xs)
  unfolding insert_sorted
  In-of_insert a [] m = m
  In-of_insert a (x ∷ xs) m = elim (Bool-cases (key_le fl a x)) [
    | inl e ↦ rw e at m
    | inr e ↦ In-swap (In-of_insert a xs) (rw e at m)
  ]

  pub In-sort :
      {c : ScoredCandidate F} {xs : List (ScoredCandidate F)} → In c xs → In c (sort_scored fl xs)
  unfolding sort_scored
  In-sort {xs = x ∷ xs} here = In-insert_self x (sort_scored fl xs)
  In-sort (there {x = x} m) = In-insert_of x (In-sort m)

  In-under :
      {c x : ScoredCandidate F} {xs ys : List (ScoredCandidate F)}
      → (In c ys → In c xs)
      → In c (x ∷ ys)
      → In c (x ∷ xs)
  In-under f here = here
  In-under f (there m) = there (f m)

  pub In-of_sort :
      {c : ScoredCandidate F} (xs : List (ScoredCandidate F)) → In c (sort_scored fl xs) → In c xs
  unfolding sort_scored
  In-of_sort [] m = m
  In-of_sort (x ∷ xs) m = In-under (In-of_sort xs) (In-of_insert x (sort_scored fl xs) m)
