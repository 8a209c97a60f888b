-- ===== src/Registry/Keys.antt =====
-- The keys of the catalog: what a loaded catalog answers for a row.
use cortex_gateway.Prelude.{
  lookup-insert, In-uncons, ◌≡◌, refl, sym, ap, ◌∙◌, ◌⊎◌, inl, inr, true, some, List, [], ◌∷◌,
  arith, ◌==◌, if◌then◌else◌, Bool-cases, In, here, there, Dict, lookup, insert, lookup-insert_self,
  Text, codes, lower, before_colon, text_eq, text_eq_iff, char_lower,
}
use cortex_gateway.Floats.{Floats}
use cortex_gateway.Routing.Models.{ModelMetadata}
use cortex_gateway.Routing.Metadata.{catalog_key, load_entries}
use cortex_gateway.Registry.{known_providers, is_in}

-- A provider that is known is one of four names.
pub known-cases :
    (p : Text)
    → is_in p known_providers ≡ true
    → (p ≡ codes "gemini") ⊎ ((p ≡ codes "groq") ⊎ ((p ≡ codes "ollama") ⊎ (p ≡ codes "openai")))
unfolding is_in known_providers
known-cases p h = elim (Bool-cases (text_eq p (codes "gemini"))) [
  | inl e ↦ inl ((text_eq_iff p (codes "gemini")).0 e)
  | inr a ↦ elim (Bool-cases (text_eq p (codes "groq"))) [
    | inl e ↦ inr (inl ((text_eq_iff p (codes "groq")).0 e))
    | inr b ↦ elim (Bool-cases (text_eq p (codes "ollama"))) [
      | inl e ↦ inr (inr (inl ((text_eq_iff p (codes "ollama")).0 e)))
      | inr c ↦ elim (Bool-cases (text_eq p (codes "openai"))) [
        | inl e ↦ inr (inr (inr ((text_eq_iff p (codes "openai")).0 e)))
        | inr d ↦ absurd (ground (arith, a, b, c, d, h))
      ]
    ]
  ]
]

pub lower-known : (p : Text) → is_in p known_providers ≡ true → lower p ≡ p
unfolding lower char_lower
lower-known p h = elim (known-cases p h) [
  | inl e ↦ rw e refl
  | inr (inl e) ↦ rw e refl
  | inr (inr (inl e)) ↦ rw e refl
  | inr (inr (inr e)) ↦ rw e refl
]

-- The provider is what stands before the first colon of a key.
before_colon-key :
    (p m : Text) → is_in p known_providers ≡ true → before_colon (catalog_key p m) ≡ p
unfolding before_colon catalog_key
before_colon-key p m h = elim (known-cases p h) [
  | inl e ↦ rw e refl
  | inr (inl e) ↦ rw e refl
  | inr (inr (inl e)) ↦ rw e refl
  | inr (inr (inr e)) ↦ rw e refl
]

-- What follows the first colon.
behind_colon : Text → Text
behind_colon [] = []
behind_colon (c ∷ s) = if c == b':' then s else behind_colon s

behind_colon-key :
    (p m : Text) → is_in p known_providers ≡ true → behind_colon (catalog_key p m) ≡ m
unfolding behind_colon catalog_key
behind_colon-key p m h = elim (known-cases p h) [
  | inl e ↦ rw e refl
  | inr (inl e) ↦ rw e refl
  | inr (inr (inl e)) ↦ rw e refl
  | inr (inr (inr e)) ↦ rw e refl
]

pub catalog_key-injective :
    (p q m n : Text)
    → is_in p known_providers ≡ true
    → is_in q known_providers ≡ true
    → catalog_key p m ≡ catalog_key q n
    → (p ≡ q) × (m ≡ n)
catalog_key-injective p q m n hp hq e = (
  sym (before_colon-key p m hp) ∙ (ap before_colon e ∙ before_colon-key q n hq),
  sym (behind_colon-key p m hp) ∙ (ap behind_colon e ∙ behind_colon-key q n hq),
)

module _ (fl : Floats) where
  open fl use {F}

  abbrev pub key_of : ModelMetadata F → Text
  key_of x = catalog_key x.provider x.model

  -- An entry stays in the dictionary unless a later one has its key.
  load_entries-keeps :
      (a : ModelMetadata F) (xs : List (ModelMetadata F)) (d : Dict (ModelMetadata F))
      → ((x : ModelMetadata F) → In x xs → key_of x ≡ key_of a → x ≡ a)
      → lookup (key_of a) d ≡ some a
      → lookup (key_of a) (load_entries fl xs d) ≡ some a
  unfolding load_entries
  load_entries-keeps a [] d unique e = e
  load_entries-keeps a (x ∷ xs) d unique e =
      load_entries-keeps a xs (insert (key_of x) x d) (λ y m. unique y (there m))
        (lookup-insert (key_of x) (key_of a) x d
          ∙ elim (Bool-cases (text_eq (key_of x) (key_of a))) [
            | inl same ↦
                rw same (ap some (unique x here ((text_eq_iff (key_of x) (key_of a)).0 same)))
            | inr other ↦ rw other e
          ])

  pub load_entries-In :
      (a : ModelMetadata F) (xs : List (ModelMetadata F)) (d : Dict (ModelMetadata F))
      → In a xs
      → ((x : ModelMetadata F) → In x xs → key_of x ≡ key_of a → x ≡ a)
      → lookup (key_of a) (load_entries fl xs d) ≡ some a
  unfolding load_entries
  load_entries-In a (x ∷ xs) d m unique = elim (In-uncons m) [
    | inl e ↦
        load_entries-keeps a xs (insert (key_of x) x d) (λ y k. unique y (there k))
          (rw (← e) (lookup-insert_self (key_of x) x d))
    | inr k ↦ load_entries-In a xs (insert (key_of x) x d) k (λ y j. unique y (there j))
  ]
  load_entries-In a [] d m unique = elim m [ ]
