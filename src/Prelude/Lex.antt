-- ===== src/Prelude/Lex.antt =====
-- Orders as Boolean tests, and their lexicographic composition.
use cortex_gateway.Prelude.Tests.{if◌then◌else◌}
use mathlib.Core.Path.{◌≡◌}
use mathlib.Core.Logic.{◌⊎◌}
use mathlib.Core.Bool.{Bool, true, false}
use native.Mathlib.Omega.{arith}

-- A comparison of keys: the first component that differs decides.
unfoldable pub then_by : Bool → Bool → Bool → Bool
then_by le ge rest = if le then (if ge then rest else true) else false

pub record IsOrder {ℓ} {A : Type ℓ} (le : A → A → Bool) : Type ℓ where
  pub total : (a b : A) → (le a b ≡ true) ⊎ (le b a ≡ true)
  pub trans : (a b c : A) → le a b ≡ true → le b c ≡ true → le a c ≡ true

unfoldable pub lex {ℓ} : {A : Type ℓ} → (A → A → Bool) → (A → A → Bool) → A → A → Bool
lex le₁ le₂ a b = then_by (le₁ a b) (le₁ b a) (le₂ a b)

pub lex-IsOrder {ℓ} :
    {A : Type ℓ} {le₁ le₂ : A → A → Bool} → IsOrder le₁ → IsOrder le₂ → IsOrder (lex le₁ le₂)
unfolding lex then_by
lex-IsOrder {le₁ = le₁} {le₂ = le₂} p q = record {
  total = λ a b. ground (arith, p.total a b, q.total a b);
  trans = λ a b c h k. ground (arith, p.trans a b c, p.trans b c a, p.trans c a b, q.trans a b c);
}

-- A comparison that holds both ways holds both ways at the first component and at the rest.
pub then_by_both :
    (le ge rest back : Bool)
    → then_by le ge rest ≡ true
    → then_by ge le back ≡ true
    → ((le ≡ true) × (ge ≡ true)) × (rest ≡ true) × (back ≡ true)
unfolding then_by
then_by_both le ge rest back h k = ground arith
