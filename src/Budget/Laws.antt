-- ===== src/Budget/Laws.antt =====
-- What the policies promise of one call.
use cortex_gateway.Prelude.{
  ℕ, ◌≡◌, ◌⊎◌, inl, inr, true, some, arith, lookup, insert, lookup-insert_self, Text, codes, upper,
}
use cortex_gateway.Budget.{Budget, Table, get_enabled, reserve_within, enforce}
use cortex_gateway.Floats.{Floats}

-- The policies that reject: BLOCK and DOWNGRADE.
abbrev pub IsStrict : {F : Type 0} → Budget F → Type 0
IsStrict b = (upper b.policy ≡ codes "BLOCK") ⊎ (upper b.policy ≡ codes "DOWNGRADE")

pub enforce-strict :
    (fl : Floats) (b : Budget fl.F) (cost : fl.F) (percent : ℕ)
    → IsStrict b
    → enforce fl b cost percent ≡ reserve_within fl b cost
unfolding enforce
enforce-strict fl b cost percent (inl p) = rw p
enforce-strict fl b cost percent (inr p) = rw p

module _ {F : Type 0} (db : Table F) (team : Text) (b : Budget F) where
  pub get_enabled-lookup :
      get_enabled db team ≡ some b → (lookup team db ≡ some b) × (b.enabled ≡ true)
  unfolding get_enabled
  get_enabled-lookup h = ground arith

  pub lookup-get_enabled : lookup team db ≡ some b → b.enabled ≡ true → get_enabled db team ≡ some b
  unfolding get_enabled
  lookup-get_enabled h e = ground arith

pub get_enabled-insert :
    {F : Type 0} (db : Table F) (team : Text) (b : Budget F)
    → b.enabled ≡ true
    → get_enabled (insert team b db) team ≡ some b
get_enabled-insert db team b e = lookup-get_enabled _ team b (lookup-insert_self team b db) e
