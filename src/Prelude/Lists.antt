-- ===== src/Prelude/Lists.antt =====
-- Lists measured by native numbers, filters by Boolean tests, and predicates on every member.
use Prim.Native.Nat.{ℕ, zero, suc, ◌+◌, ◌≤◌}
use mathlib.Core.Path.{◌≡◌, refl, subst}
use mathlib.Core.Logic.{inl, inr, ◌⊎◌}
use mathlib.Core.Bool.{Bool, true, false, ◌||◌, ◌&&◌}
use mathlib.Core.Option.{Option, none, some}
use mathlib.Core.List.{List, [], ◌∷◌, ◌++◌, map}
use native.Mathlib.Omega.{arith}
use cortex_gateway.Prelude.Tests.{if◌then◌else◌, Bool-cases}

module _ {ℓ} {A : Type ℓ} where
  abbrev pub length : List A → ℕ
  length [] = 0
  length (x ∷ xs) = suc (length xs)

  abbrev pub replicate : ℕ → A → List A
  replicate zero a = []
  replicate (suc n) a = a ∷ replicate n a

  abbrev pub take : ℕ → List A → List A
  take zero xs = []
  take (suc n) [] = []
  take (suc n) (x ∷ xs) = x ∷ take n xs

  -- Python's `[x for x in xs if test(x)]`.
  abbrev pub keep : (A → Bool) → List A → List A
  keep test [] = []
  keep test (x ∷ xs) = let rest = keep test xs in if test x then x ∷ rest else rest

  abbrev pub any : (A → Bool) → List A → Bool
  any test [] = false
  any test (x ∷ xs) = test x || any test xs

  abbrev pub all : (A → Bool) → List A → Bool
  all test [] = true
  all test (x ∷ xs) = test x && all test xs

  abbrev pub is_empty : List A → Bool
  is_empty [] = true
  is_empty (x ∷ xs) = false

  abbrev pub last_or : A → List A → A
  last_or d [] = d
  last_or d (x ∷ xs) = last_or x xs

  abbrev pub head : List A → Option A
  head [] = none
  head (x ∷ xs) = some x

  -- Each member satisfies `P`.
  abbrev pub All {κ} : (A → Type κ) → List A → Type κ
  All P [] = Unit
  All P (x ∷ xs) = P x × All P xs

  -- Membership with its position; `∈ xs` holds evidence by recursion.
  pub data In (a : A) : List A → Type ℓ where
    here : {xs : List A} → In a (a ∷ xs)
    there : {x : A} {xs : List A} → In a xs → In a (x ∷ xs)

  pub list-cases : (xs : List A) → (xs ≡ []) ⊎ ((y : A) × (ys : List A) × (xs ≡ y ∷ ys))
  list-cases [] = inl refl
  list-cases (y ∷ ys) = inr (y, ys, refl)

  pub length-append : (xs ys : List A) → length (xs ++ ys) ≡ length xs + length ys
  length-append [] ys = omega arith
  length-append (x ∷ xs) ys = omega (arith, length-append xs ys)

  pub length-keep-le : (test : A → Bool) (xs : List A) → length (keep test xs) ≤ length xs
  length-keep-le test [] = omega arith
  length-keep-le test (x ∷ xs) = ground (arith, length-keep-le test xs)

  In-cons :
      (test : A → Bool) {a x : A} {xs ys : List A}
      → test x ≡ true
      → (In a ys → In a xs × (test a ≡ true))
      → In a (x ∷ ys)
      → In a (x ∷ xs) × (test a ≡ true)
  In-cons test e f here = (here, e)
  In-cons test e f (there m) = let rest = f m in (there rest.0, rest.1)

  -- What passes a filter was in the list and passes the test.
  pub In-keep :
      (test : A → Bool) {a : A} (xs : List A) → In a (keep test xs) → In a xs × (test a ≡ true)
  In-keep test {a} [] m = elim m [ ]
  In-keep test {a} (x ∷ xs) m = elim (Bool-cases (test x)) [
    | inl e ↦ In-cons test e (In-keep test xs) (rw e at m)
    | inr e ↦ let rest = In-keep test xs (rw e at m) in (there rest.0, rest.1)
  ]

  pub keep-In :
      (test : A → Bool) {a : A} {xs : List A} → In a xs → test a ≡ true → In a (keep test xs)
  keep-In test {a} {xs} here e = rw e here
  keep-In test {a} (there {x = x} m) e = elim (Bool-cases (test x)) [
    | inl yes_x ↦ rw yes_x (there (keep-In test m e))
    | inr no_x ↦ rw no_x (keep-In test m e)
  ]

  pub All-In {κ} : (P : A → Type κ) {a : A} {xs : List A} → All P xs → In a xs → P a
  All-In P h here = h.0
  All-In P h (there m) = All-In P h.1 m

  -- Two lists with the same members, in whatever order and number.
  pub record SameMembers (xs ys : List A) : Type ℓ where
    pub to : (a : A) → In a xs → In a ys
    pub from : (a : A) → In a ys → In a xs

  pub keep-SameMembers :
      (test : A → Bool) {xs ys : List A}
      → SameMembers xs ys
      → SameMembers (keep test xs) (keep test ys)
  keep-SameMembers test {xs} {ys} s = record {
    to = λ a m. let p = In-keep test xs m in keep-In test (s.to a p.0) p.1;
    from = λ a m. let p = In-keep test ys m in keep-In test (s.from a p.0) p.1;
  }

  pub In-uncons : {a x : A} {xs : List A} → In a (x ∷ xs) → (x ≡ a) ⊎ In a xs
  In-uncons here = inl refl
  In-uncons (there m) = inr m

module _ {ℓ κ} {A : Type ℓ} {B : Type κ} where
  pub map-In : (f : A → B) {a : A} {xs : List A} → In a xs → In (f a) (map f xs)
  map-In f here = here
  map-In f (there m) = there (map-In f m)

  -- What a mapped list holds is the image of a member.
  pub In-map : (f : A → B) {b : B} (xs : List A) → In b (map f xs) → (a : A) × In a xs × (f a ≡ b)
  In-map f [] m = elim m [ ]
  In-map f (x ∷ xs) m = elim (In-uncons m) [
    | inl e ↦ (x, here, e)
    | inr k ↦ let (a, k', e) = In-map f xs k in (a, there k', e)
  ]

  pub map-SameMembers :
      (f : A → B) {xs ys : List A} → SameMembers xs ys → SameMembers (map f xs) (map f ys)
  map-SameMembers f {xs} {ys} s = record {
    to = λ b m.
        let (a, k, e) = In-map f xs m in subst (λ x. In x (map f ys)) e (map-In f (s.to a k));
    from = λ b m.
        let (a, k, e) = In-map f ys m in subst (λ x. In x (map f xs)) e (map-In f (s.from a k));
  }
