-- ===== src/Floats.antt =====
-- Python's floats as an interface: the operations that the program uses, with the laws of their
-- order that it relies on. Arithmetic and `round` are correctly rounded functions whose values are
-- not computed here; no value is NaN, and a quotient by zero, which the program does not form, is
-- some value that its laws allow. `lit n d` is the float nearest to n / d, and `ceil` is exact on the
-- whole numbers up to 2 ^ 53.
pub mod Scaled
use Prim.Native.Nat.{min}
use cortex_gateway.Prelude.{
  list-cases, lookup-insert, then_by_both, In-uncons, SameMembers, keep-SameMembers, map-In, In-map,
  map-SameMembers, then_by, lex, IsOrder, lex-IsOrder, some-injective, remove, lookup-remove_self,
  take, ℕ, zero, suc, ◌+◌, ◌-◌, ◌*◌, ◌/◌, ◌%◌, ◌≤◌, ◌<◌, ◌≡◌, refl, sym, ap, ◌∙◌, ◌≢◌, ◌↔◌, ◌⊎◌,
  inl, inr, Bool, true, false, not, ◌&&◌, ◌||◌, Option, none, some, List, [], ◌∷◌, ◌++◌, map, arith,
  ltb, leb, ◌==◌, if◌then◌else◌, is_some, ltb→lt, lt→ltb, leb→le, le→leb, ltb-false, leb-false,
  ==_iff, ==_refl, tests, Bool-cases, Option-cases, and_true, length, replicate, keep, any, all,
  is_empty, last_or, head, All, In, here, there, length-append, length-keep-le, In-keep, keep-In,
  All-In, Dict, lookup, insert, map_values, dict_keys, lookup-insert_self, lookup-insert_ne,
  lookup-map_values, Text, codes, lower, upper, strip, before_colon, starts_with, contains,
  show_nat, text_leb, normalize, text_eq, text_eq_iff, text_eq_refl, text_eq_sym, text_eq-false,
  lower_idem, strip_idem, lower-strip, normalize_idem, text_leb_total, text_leb_trans,
  text_leb_antisym,
}

pub record Floats : Type 1 where
  pub F : Type 0
  pub lit : ℕ → ℕ → F
  pub add : F → F → F
  pub sub : F → F → F
  pub mul : F → F → F
  pub div : F → F → F
  pub round : ℕ → F → F
  pub sum : List F → F
  pub ceil : F → ℕ
  pub le : F → F → Bool
  pub le_refl : (a : F) → le a a ≡ true
  pub le_trans : (a b c : F) → le a b ≡ true → le b c ≡ true → le a c ≡ true
  pub le_total : (a b : F) → (le a b ≡ true) ⊎ (le b a ≡ true)
  pub le_antisym : (a b : F) → le a b ≡ true → le b a ≡ true → a ≡ b
  pub lit_mono : (n m d : ℕ) → 0 < d → n ≤ m * d → le (lit n d) (lit m 1) ≡ true
  pub lit_nonneg : (n d : ℕ) → 0 < d → le (lit 0 1) (lit n d) ≡ true
  pub sub_nonneg : (a b : F) → le a b ≡ true → le (lit 0 1) (sub b a) ≡ true
  pub mul_nonneg :
      (a b : F) → le (lit 0 1) a ≡ true → le (lit 0 1) b ≡ true → le (lit 0 1) (mul a b) ≡ true
  pub add_nonneg : (a b : F) → le (lit 0 1) a ≡ true → le b (add a b) ≡ true
  pub add_mono : (a b c d : F) → le a b ≡ true → le c d ≡ true → le (add a c) (add b d) ≡ true
  pub mul_mono : (a b c : F) → le (lit 0 1) c ≡ true → le a b ≡ true → le (mul a c) (mul b c) ≡ true
  pub mul_grows : (a b : F) → le (lit 0 1) a ≡ true → le (lit 1 1) b ≡ true → le a (mul a b) ≡ true
  pub div_mono : (a b c : F) → le (lit 0 1) c ≡ true → le a b ≡ true → le (div a c) (div b c) ≡ true
  pub one-le_margin : le (lit 1 1) (lit 3 2) ≡ true
  pub div_nonneg :
      (a b : F) → le (lit 0 1) a ≡ true → le (lit 0 1) b ≡ true → le (lit 0 1) (div a b) ≡ true
  pub div_unit : (a b : F) → le (lit 0 1) a ≡ true → le a b ≡ true → le (div a b) (lit 1 1) ≡ true
  pub ceil_lower : (n : ℕ) (a : F) → le (lit n 1) a ≡ true → min n 9007199254740992 ≤ ceil a
  pub zero-add : (a : F) → add (lit 0 1) a ≡ a
  pub zero-le-one : le (lit 0 1) (lit 1 1) ≡ true
  pub round_mono : (n : ℕ) (a b : F) → le a b ≡ true → le (round n a) (round n b) ≡ true
  pub round-zero : (n : ℕ) → round n (lit 0 1) ≡ lit 0 1
  pub round-one : (n : ℕ) → round n (lit 1 1) ≡ lit 1 1

module _ (fl : Floats) where
  open fl use {F, lit, le, le_refl, le_trans, le_total}

  abbrev pub f0 : F
  f0 = lit 0 1

  abbrev pub f1 : F
  f1 = lit 1 1

  -- `a < b`.
  abbrev pub lt : F → F → Bool
  lt a b = not (le b a)

  -- `a == b`.
  abbrev pub feq : F → F → Bool
  feq a b = le a b && le b a

  -- Python's `max(a, b)` and `min(a, b)`: the first, unless the second is past it.
  unfoldable pub fmax : F → F → F
  fmax a b = if lt a b then b else a

  unfoldable pub fmin : F → F → F
  fmin a b = if lt b a then b else a

  -- `min` and `max` of a list that is not empty: its first element and the others.
  unfoldable pub list_min : F → List F → F
  list_min a [] = a
  list_min a (b ∷ bs) = list_min (fmin a b) bs

  unfoldable pub list_max : F → List F → F
  list_max a [] = a
  list_max a (b ∷ bs) = list_max (fmax a b) bs

  -- `max(0.0, min(1.0, x))`.
  unfoldable pub clamp : F → F
  unfolding fmax fmin
  clamp x = fmax f0 (fmin f1 x)

  pub clamp_bounds : (x : F) → (le f0 (clamp x) ≡ true) × (le (clamp x) f1 ≡ true)
  unfolding clamp
  clamp_bounds x =
      ground (
        arith,
        le_total f0 x,
        le_total f1 x,
        le_refl f0,
        le_refl f1,
        fl.zero-le-one,
        le_total f0 f1,
      )
