-- ===== src/Auth/Tables.antt =====
-- Tables as lists of rows: rows with unique identifiers, and what a new row at the end changes.
use cortex_gateway.Prelude.{
  list-cases, ◌≡◌, refl, ◌∙◌, ◌⊎◌, inl, inr, Bool, true, false, ◌||◌, [], ◌∷◌, ◌++◌, map, arith,
  if◌then◌else◌, Bool-cases, keep, any, is_empty, All, In, here, there, In-keep, Text, text_eq,
  text_eq_iff, text_eq_refl, text_eq_sym, List,
}

module _ {ℓ} {A : Type ℓ} where
  -- No two rows have the same value of a column.
  abbrev pub Unique : (A → Text) → List A → Type 0
  Unique column [] = Unit
  Unique column (x ∷ xs) =
      (any (λ (y : A). text_eq (column y) (column x)) xs ≡ false) × Unique column xs

  pub any-append :
      (test : A → Bool) (xs ys : List A) → any test (xs ++ ys) ≡ any test xs || any test ys
  any-append test [] ys = refl
  any-append test (x ∷ xs) ys = ground (arith, any-append test xs ys)

  pub keep-append :
      (test : A → Bool) (xs ys : List A) → keep test (xs ++ ys) ≡ keep test xs ++ keep test ys
  keep-append test [] ys = refl
  keep-append test (x ∷ xs) ys = ground (arith, keep-append test xs ys)

  pub is_empty-append : (xs ys : List A) → is_empty xs ≡ false → is_empty (xs ++ ys) ≡ false
  is_empty-append [] ys h = ground arith
  is_empty-append (x ∷ xs) ys h = refl

  pub All-append {κ} :
      (P : A → Type κ) (xs : List A) {y : A} → All P xs → P y → All P (xs ++ y ∷ [])
  All-append P [] h p = (p, tt)
  All-append P (x ∷ xs) h p = (h.0, All-append P xs h.1 p)

  pub All-map {κ μ} :
      (P : A → Type κ) (Q : A → Type μ) (xs : List A) → ((x : A) → P x → Q x) → All P xs → All Q xs
  All-map P Q [] f h = tt
  All-map P Q (x ∷ xs) f h = (f x h.0, All-map P Q xs f h.1)

  pub All-image {κ} :
      (P : A → Type κ) (g : A → A) (xs : List A)
      → ((x : A) → P x → P (g x))
      → All P xs
      → All P (map g xs)
  All-image P g [] f h = tt
  All-image P g (x ∷ xs) f h = (f x h.0, All-image P g xs f h.1)

  pub In-append : {a : A} {xs : List A} (ys : List A) → In a xs → In a (xs ++ ys)
  In-append ys here = here
  In-append ys (there m) = there (In-append ys m)

  pub In-last : (a : A) (xs : List A) → In a (xs ++ a ∷ [])
  In-last a [] = here
  In-last a (x ∷ xs) = there (In-last a xs)

  pub Unique-append :
      (column : A → Text) (xs : List A) (a : A)
      → any (λ (y : A). text_eq (column y) (column a)) xs ≡ false
      → Unique column xs
      → Unique column (xs ++ a ∷ [])
  Unique-append column [] a e u = (refl, tt)
  Unique-append column (x ∷ xs) a e u = (
    ground (
      arith,
      any-append (λ (y : A). text_eq (column y) (column x)) xs (a ∷ []),
      text_eq_sym (column x) (column a),
    ),
    Unique-append column xs a (ground arith) u.1,
  )

  any-map :
      (column : A → Text) (g : A → A) (i : Text) (xs : List A)
      → ((x : A) → column (g x) ≡ column x)
      → any (λ (y : A). text_eq (column y) i) (map g xs) ≡ any (λ (y : A). text_eq (column y) i) xs
  any-map column g i [] same = refl
  any-map column g i (x ∷ xs) same = rw (same x, any-map column g i xs same)

  pub Unique-map :
      (column : A → Text) (g : A → A) (xs : List A)
      → ((x : A) → column (g x) ≡ column x)
      → Unique column xs
      → Unique column (map g xs)
  Unique-map column g [] same u = tt
  Unique-map column g (x ∷ xs) same u =
      (rw (same x, any-map column g (column x) xs same) u.0, Unique-map column g xs same u.1)

  pub keep-none : (test : A → Bool) (xs : List A) → any test xs ≡ false → keep test xs ≡ []
  keep-none test [] h = refl
  keep-none test (x ∷ xs) h = ground (arith, keep-none test xs)

  pub any-In :
      (test : A → Bool) {a : A} {xs : List A} → In a xs → test a ≡ true → any test xs ≡ true
  any-In test here e = rw e
  any-In test (there {x = x} m) e = ground (arith, any-In test m e)

  -- By a unique column one row is found.
  pub keep-one :
      (column : A → Text) {a : A} {xs : List A}
      → Unique column xs
      → In a xs
      → keep (λ (y : A). text_eq (column y) (column a)) xs ≡ a ∷ []
  keep-one column {a} u (here {xs = xs}) =
      rw (text_eq_refl (column a), keep-none (λ (y : A). text_eq (column y) (column a)) xs u.0)
  keep-one column {a} u (there {x = x} {xs = xs} m) =
      elim (Bool-cases (text_eq (column x) (column a))) [
        | inl e ↦ absurd (twice e)
        | inr e ↦ rw e (keep-one column u.1 m)
      ]
    where
      twice : text_eq (column x) (column a) ≡ true → ⊥
      twice e = ground (
        arith,
        u.0,
        any-In (λ (y : A). text_eq (column y) (column x)) m (text_eq_sym (column a) (column x) ∙ e),
      )

  pub keep-found :
      (column : A → Text) (i : Text) (xs : List A)
      → Unique column xs
      → is_empty (keep (λ (y : A). text_eq (column y) i) xs) ≡ false
      → (a : A) × In a xs × (column a ≡ i) × (keep (λ (y : A). text_eq (column y) i) xs ≡ a ∷ [])
  keep-found column i xs u h = elim (list-cases (keep (λ (y : A). text_eq (column y) i) xs)) [
    | inl e ↦ absurd (ground (arith, e))
    | inr (a, rest, e) ↦
        let m = In-keep (λ (y : A). text_eq (column y) i) xs (rw e here) in
        let same = (text_eq_iff (column a) i).0 m.1 in
        (a, m.0, same, rw (← same) (keep-one column u m.0))
  ]

  pub any-cases :
      (test : A → Bool) (xs : List A)
      → ((a : A) × In a xs × (test a ≡ true)) ⊎ (any test xs ≡ false)
  any-cases test [] = inr refl
  any-cases test (x ∷ xs) = elim (Bool-cases (test x)) [
    | inl e ↦ inl (x, here, e)
    | inr e ↦ elim (any-cases test xs) [
      | inl (a, m, t) ↦ inl (a, there m, t)
      | inr none_of ↦ inr (rw e none_of)
    ]
  ]

  pub map-none :
      (test : A → Bool) (f : A → A) (xs : List A)
      → any test xs ≡ false
      → map (λ (x : A). if test x then f x else x) xs ≡ xs
  map-none test f [] e = refl
  map-none test f (x ∷ xs) e = ground (arith, map-none test f xs)
