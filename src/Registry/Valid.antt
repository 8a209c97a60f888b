-- ===== src/Registry/Valid.antt =====
-- The rows of the model registry behind the operations of Registry.
use cortex_gateway.Prelude.{
  In-uncons, In-map, some-injective, ◌≡◌, refl, sym, ◌∙◌, ◌≢◌, ◌⊎◌, inl, inr, Bool, true, false,
  not, none, some, [], ◌∷◌, ◌++◌, map, arith, if◌then◌else◌, Bool-cases, Option-cases, keep, any,
  is_empty, head, In, here, there, In-keep, keep-In, Text, lower, strip, text_eq, text_eq_iff,
  strip_idem, ap, List,
}
use cortex_gateway.Floats.{Floats}
use cortex_gateway.Registry.{
  Entry, Create, Update, Result, ok, raises, known_providers, is_in, validate_create,
  validate_provider, validate_model_name, validate_capabilities, same_model, get_by_provider_model,
  new_entry, create_model, order_rows, insert_row, row_le, list_models, get_all_for_catalog,
  get_model, apply_update, update_model, delete_model, of_provider, has_null, validate_update,
  in_bounds,
}
use mathlib.Core.Path.{subst}
use cortex_gateway.Registry.Endpoints.{Request, post, patch, remove_model, changed}

module _ {F : Type 0} where
  -- The names of a row: a known provider, and a model without blanks around it.
  abbrev pub IsNamed : Entry F → Type 0
  IsNamed e = (is_in e.provider known_providers ≡ true) × (strip e.model_name ≡ e.model_name)

  abbrev pub SameNames : Entry F → Entry F → Type 0
  SameNames a b = (a.provider ≡ b.provider) × (a.model_name ≡ b.model_name)

  -- Every row is named, and no two rows have the same names.
  abbrev pub IsValid : List (Entry F) → Type 0
  IsValid rows =
      ((a : Entry F) → In a rows → IsNamed a)
      × ((a b : Entry F) → In a rows → In b rows → SameNames a b → a ≡ b)

  In-append : (xs : List (Entry F)) {a y : Entry F} → In a (xs ++ y ∷ []) → In a xs ⊎ (a ≡ y)
  In-append [] m = elim (In-uncons m) [ inl e ↦ inr (sym e) | inr k ↦ elim k [ ] ]
  In-append (x ∷ xs) m = elim (In-uncons m) [
    | inl e ↦ inl (rw e here)
    | inr k ↦ elim (In-append xs k) [ inl j ↦ inl (there j) | inr e ↦ inr e ]
  ]

  In-insert_row :
      (x : Entry F) (ys : List (Entry F)) {a : Entry F}
      → (In a (insert_row x ys) → In a (x ∷ ys)) × (In a (x ∷ ys) → In a (insert_row x ys))
  unfolding insert_row
  In-insert_row x [] = (λ m. m, λ m. m)
  In-insert_row x (y ∷ ys) {a} = elim (Bool-cases (row_le x y)) [
    | inl e ↦ rw e (λ m. m, λ m. m)
    | inr e ↦ rw e (
      λ m. elim (In-uncons m) [
        | inl q ↦ there (rw q here)
        | inr k ↦ elim (In-uncons ((In-insert_row x ys).0 k)) [
          | inl q ↦ rw q here
          | inr j ↦ there (there j)
        ]
      ],
      λ m. elim (In-uncons m) [
        | inl q ↦ there ((In-insert_row x ys).1 (rw q here))
        | inr k ↦ elim (In-uncons k) [
          | inl q ↦ rw q here
          | inr j ↦ there ((In-insert_row x ys).1 (there j))
        ]
      ],
    )
  ]

  In-order_rows :
      (xs : List (Entry F)) {a : Entry F}
      → (In a (order_rows xs) → In a xs) × (In a xs → In a (order_rows xs))
  unfolding order_rows
  In-order_rows [] = (λ m. m, λ m. m)
  In-order_rows (x ∷ xs) {a} = (
    λ m. elim (In-uncons ((In-insert_row x (order_rows xs)).0 m)) [
      | inl q ↦ rw q here
      | inr k ↦ there ((In-order_rows xs).0 k)
    ],
    λ m. elim (In-uncons m) [
      | inl q ↦ (In-insert_row x (order_rows xs)).1 (rw q here)
      | inr k ↦ (In-insert_row x (order_rows xs)).1 (there ((In-order_rows xs).1 k))
    ],
  )

  -- The catalog is loaded from the rows that are enabled.
  pub In-get_all_for_catalog :
      (rows : List (Entry F)) {a : Entry F}
      → (In a (get_all_for_catalog rows) → In a rows)
        × (In a rows → a.enabled ≡ true → In a (get_all_for_catalog rows))
  unfolding get_all_for_catalog list_models of_provider
  In-get_all_for_catalog rows = (
    λ m. (In-keep _ rows ((In-order_rows _).0 m)).0,
    λ m e. (In-order_rows _).1 (keep-In _ m (ground (arith, e))),
  )

  head-some : (xs : List (Entry F)) {a : Entry F} → In a xs → head xs ≢ none
  head-some [] m = elim m [ ]
  head-some (x ∷ xs) m = λ e. ground arith

  -- No row has the names of the new one where the query finds none.
  get_by_provider_model-none :
      (provider name : Text) (rows : List (Entry F)) (a : Entry F)
      → get_by_provider_model provider name rows ≡ none
      → In a rows
      → same_model provider name a ≡ false
  unfolding get_by_provider_model
  get_by_provider_model-none provider name rows a e m =
      elim (Bool-cases (same_model provider name a)) [
        | inl same ↦ absurd (head-some _ (keep-In (same_model provider name) m same) e)
        | inr other ↦ other
      ]

  -- A new row keeps the table valid.
  added-IsValid :
      (rows : List (Entry F)) (e : Entry F)
      → IsValid rows
      → IsNamed e
      → get_by_provider_model e.provider e.model_name rows ≡ none
      → IsValid (rows ++ e ∷ [])
  added-IsValid rows e (named, unique) n none_there = (
    λ a m. elim (In-append rows m) [ inl k ↦ named a k | inr q ↦ rw q n ],
    λ a b m k s. elim (In-append rows m) [
      | inl m' ↦ elim (In-append rows k) [
        | inl k' ↦ unique a b m' k' s
        | inr q ↦ absurd (apart a m' (rw q at s))
      ]
      | inr p ↦ elim (In-append rows k) [
        | inl k' ↦ absurd (apart b k' (sym (rw p at s).0, sym (rw p at s).1))
        | inr q ↦ p ∙ sym q
      ]
    ],
  )
    where
      apart : (a : Entry F) → In a rows → SameNames a e → ⊥
      apart a m (p, q) = ground (
        arith,
        get_by_provider_model-none e.provider e.model_name rows a none_there m,
        (text_eq_iff a.provider e.provider).1 p,
        (text_eq_iff a.model_name e.model_name).1 q,
      )

  IsNamed-same : (a b : Entry F) → SameNames a b → IsNamed b → IsNamed a
  IsNamed-same a b (p, q) (n, m) =
      (ap (λ v. is_in v known_providers) p ∙ n, ap strip q ∙ (m ∙ sym q))

  -- A change that leaves the names keeps the table valid.
  map-IsValid :
      (f : Entry F → Entry F) (rows : List (Entry F))
      → ((e : Entry F) → SameNames (f e) e)
      → IsValid rows
      → IsValid (map f rows)
  map-IsValid f rows same (named, unique) = (
    λ a m.
        let (x, k, e) = In-map f rows m in
        IsNamed-same a x
          (
            ap (λ (v : Entry F). v.provider) (sym e) ∙ (same x).0,
            ap (λ (v : Entry F). v.model_name) (sym e) ∙ (same x).1,
          )
          (named x k),
    λ a b m k s.
        let (x, i, p) = In-map f rows m in
        let (y, j, q) = In-map f rows k in
        sym p
        ∙ (ap f (
              unique x y i j (
                sym (same x).0
                    ∙ (ap (λ (v : Entry F). v.provider) p
                        ∙ (s.0 ∙ (sym (ap (λ (v : Entry F). v.provider) q) ∙ (same y).0))),
                sym (same x).1
                    ∙ (ap (λ (v : Entry F). v.model_name) p
                        ∙ (s.1 ∙ (sym (ap (λ (v : Entry F). v.model_name) q) ∙ (same y).1))),
              ))
            ∙ q),
  )

  keep-IsValid :
      (test : Entry F → Bool) (rows : List (Entry F)) → IsValid rows → IsValid (keep test rows)
  keep-IsValid test rows (named, unique) = (
    λ a m. named a (In-keep test rows m).0,
    λ a b m k s. unique a b (In-keep test rows m).0 (In-keep test rows k).0 s,
  )

validate_provider-known :
    (v p : Text) → validate_provider v ≡ some p → is_in p known_providers ≡ true
unfolding validate_provider
validate_provider-known v p e = elim (Bool-cases (is_in (lower (strip v)) known_providers)) [
  | inl h ↦
      (let q : some (lower (strip v)) ≡ some p = rw (h, validate_provider) at e in
        ap (λ x. is_in x known_providers) (sym (some-injective _ _ q)) ∙ h)
  | inr h ↦ absurd (ground (arith, rw (h, validate_provider) at e))
]

validate_model_name-strip : (v n : Text) → validate_model_name v ≡ some n → strip n ≡ n
unfolding validate_model_name
validate_model_name-strip v n e = elim (Bool-cases (is_empty (strip v))) [
  | inl h ↦ absurd (ground (arith, rw (h, validate_model_name) at e))
  | inr h ↦
      let given : some (strip v) ≡ some n = rw (h, validate_model_name) at e in
      let q = some-injective _ _ given in ap strip (sym q) ∙ (strip_idem v ∙ q)
]

module _ (fl : Floats) where
  open fl use {F}

  -- The names of a body that its schema accepts.
  validate_create-named :
      (body c : Create F)
      → validate_create fl body ≡ some c
      → (is_in c.provider known_providers ≡ true) × (strip c.model_name ≡ c.model_name)
  unfolding validate_create
  validate_create-named body c e = elim (Option-cases (validate_provider body.provider)) [
    | inl p ↦ absurd (ground (arith, rw (p, validate_create) at e))
    | inr (provider, p) ↦ elim (Option-cases (validate_model_name body.model_name)) [
      | inl n ↦ absurd (ground (arith, rw (p, n, validate_create) at e))
      | inr (name, n) ↦ elim (Option-cases (validate_capabilities body.capabilities)) [
        | inl k ↦ absurd (ground (arith, rw (p, n, k, validate_create) at e))
        | inr (caps, k) ↦ elim (Bool-cases (in_bounds fl body)) [
          | inl b ↦
              let given : some
                    (record body { provider = provider; model_name = name; capabilities = caps })
                  ≡ some c =
                rw (p, n, k, b, validate_create) at e in
              let same = some-injective _ _ given in
              let same_provider = ap (λ (x : Create F). x.provider) same in
              let same_name = ap (λ (x : Create F). x.model_name) same in
              (
                ap (λ v. is_in v known_providers) (sym same_provider)
                    ∙ validate_provider-known body.provider provider p,
                ap strip (sym same_name)
                    ∙ (validate_model_name-strip body.model_name name n ∙ same_name),
              )
          | inr b ↦ absurd (ground (arith, rw (p, n, k, b, validate_create) at e))
        ]
      ]
    ]
  ]

  ok-injective : {a b : List (Entry F)} → ok a ≡ ok b → a ≡ b
  ok-injective = ap (λ (x : Result (List (Entry F))). elim x [ ok v ↦ v | raises f ↦ [] ])

  update-same :
      (u : Update F) (here_too : Bool) (e : Entry F)
      → SameNames (if here_too then apply_update u e else e) e
  unfolding apply_update
  update-same u true e = (refl, refl)
  update-same u false e = (refl, refl)

  pub changed-IsValid :
      (r : Request fl) (rows new : List (Entry F))
      → IsValid rows
      → changed fl r rows ≡ ok new
      → IsValid new
  unfolding changed create_model update_model delete_model get_model
  changed-IsValid (post id now body) rows new v e = elim (Option-cases (validate_create fl body)) [
    | inl q ↦ absurd (ground (arith, rw (q, changed) at e))
    | inr (c, q) ↦ elim (Option-cases (get_by_provider_model c.provider c.model_name rows)) [
      | inr (old, g) ↦ absurd (ground (arith, rw (q, g, changed, create_model) at e))
      | inl g ↦ elim (Bool-cases (any (λ (x : Entry F). text_eq x.id id) rows)) [
        | inl i ↦ absurd (ground (arith, rw (q, g, i, changed, create_model) at e))
        | inr i ↦
            subst IsValid (ok-injective (rw (q, g, i, changed, create_model) at e))
              (added-IsValid rows (new_entry id now c) v (validate_create-named body c q) g)
      ]
    ]
  ]
  changed-IsValid (patch id body) rows new v e = elim (Option-cases (validate_update fl body)) [
    | inl q ↦ absurd (ground (arith, rw (q, changed) at e))
    | inr (u, q) ↦ elim (Option-cases (head (keep (λ (x : Entry F). text_eq x.id id) rows))) [
      | inl g ↦ absurd (ground (arith, rw (q, g, changed, update_model, get_model) at e))
      | inr (entry, g) ↦ elim (Bool-cases (has_null u)) [
        | inl n ↦ absurd (ground (arith, rw (q, g, n, changed, update_model, get_model) at e))
        | inr n ↦
            let change : Entry F → Entry F =
              λ (x : Entry F). if text_eq x.id entry.id then apply_update u x else x in
            subst IsValid (ok-injective (rw (q, g, n, changed, update_model, get_model) at e))
              (map-IsValid change rows (λ x. update-same u (text_eq x.id entry.id) x) v)
      ]
    ]
  ]
  changed-IsValid (remove_model id) rows new v e =
      elim (Option-cases (head (keep (λ (x : Entry F). text_eq x.id id) rows))) [
        | inl g ↦ absurd (ground (arith, rw (g, changed, delete_model, get_model) at e))
        | inr (entry, g) ↦
            subst IsValid (ok-injective (rw (g, changed, delete_model, get_model) at e))
              (keep-IsValid (λ (x : Entry F). not (text_eq x.id entry.id)) rows v)
      ]
