-- ===== src/Floats/Scaled.antt =====
-- An instance of the float interface: fixed-point numbers with four decimals, which cut what does
-- not fit and whose rounding to four or more decimals changes nothing.
use cortex_gateway.Prelude.{
  ℕ, zero, suc, ◌+◌, ◌-◌, ◌*◌, ◌/◌, ◌≤◌, ◌<◌, ◌≡◌, refl, ◌⊎◌, true, List, [], ◌∷◌, arith, leb,
  leb→le, le→leb,
}
use cortex_gateway.Floats.{Floats}
use Prim.Native.Nat.{min}
use native.Mathlib.Nat.{
  mul-le-mul_right, mul-le-mul_left, div-mul-le_self, div-zero, le-div_iff_mul-le, div-le_of_le-mul,
  div-one, mul_assoc, mul_comm,
}

abbrev scale : ℕ
scale = 10000

abbrev sum_of : List ℕ → ℕ
sum_of [] = 0
sum_of (a ∷ as') = a + sum_of as'

pub leb_refl : (a : ℕ) → leb a a ≡ true
leb_refl a = ground arith

pub leb_trans : (a b c : ℕ) → leb a b ≡ true → leb b c ≡ true → leb a c ≡ true
leb_trans a b c p q = ground arith

pub leb_total : (a b : ℕ) → (leb a b ≡ true) ⊎ (leb b a ≡ true)
leb_total a b = ground arith

pub leb_antisym : (a b : ℕ) → leb a b ≡ true → leb b a ≡ true → a ≡ b
leb_antisym a b p q = ground arith

pub lit_mono : (n m d : ℕ) → 0 < d → n ≤ m * d → leb (n * scale / d) (m * scale / 1) ≡ true
lit_mono n m d p h =
    rw (div-one (m * scale))
      (le→leb _ _ (div-le_of_le-mul d (rw (← mul_assoc d m scale, mul_comm d m) (omega arith))))

pub lit_nonneg : (n d : ℕ) → leb (0 * scale / 1) (n * scale / d) ≡ true
lit_nonneg n d = ground arith

pub sub_nonneg : (a b : ℕ) → leb a b ≡ true → leb (0 * scale / 1) (b - a) ≡ true
sub_nonneg a b h = ground arith

pub mul_nonneg : (a b : ℕ) → leb (0 * scale / 1) (a * b / scale) ≡ true
mul_nonneg a b = ground arith

pub add_nonneg : (a b : ℕ) → leb b (a + b) ≡ true
add_nonneg a b = ground arith

pub add_mono : (a b c d : ℕ) → leb a b ≡ true → leb c d ≡ true → leb (a + c) (b + d) ≡ true
add_mono a b c d p q = ground arith

div-le_div : {a b : ℕ} (k : ℕ) → a ≤ b → a / k ≤ b / k
div-le_div {a} {b} zero h = rw (div-zero a, div-zero b) (omega arith)
div-le_div {a} {b} (suc k) h =
    (le-div_iff_mul-le {k = suc k} (omega arith)).1 (omega (arith, div-mul-le_self a (suc k), h))

pub mul_mono : (a b c : ℕ) → leb a b ≡ true → leb (a * c / scale) (b * c / scale) ≡ true
mul_mono a b c h = le→leb _ _ (div-le_div scale (mul-le-mul_right c (leb→le a b h)))

pub mul_grows : (a b : ℕ) → leb (1 * scale / 1) b ≡ true → leb a (a * b / scale) ≡ true
mul_grows a b h =
    le→leb _ _
      ((le-div_iff_mul-le {k = scale} (omega arith)).1 (mul-le-mul_left a (leb→le scale b h)))

pub div_mono : (a b c : ℕ) → leb a b ≡ true → leb (a * scale / c) (b * scale / c) ≡ true
div_mono a b c h = le→leb _ _ (div-le_div c (mul-le-mul_right scale (leb→le a b h)))

pub div_nonneg : (a b : ℕ) → leb (0 * scale / 1) (a * scale / b) ≡ true
div_nonneg a b = ground arith

pub div_unit : (a b : ℕ) → leb a b ≡ true → leb (a * scale / b) (1 * scale / 1) ≡ true
div_unit a b h = le→leb _ _ (div-le_of_le-mul b (ground arith))

pub ceil_lower :
    (n a : ℕ) → leb (n * scale / 1) a ≡ true → min n 9007199254740992 ≤ (a + 9999) / scale
ceil_lower n a h = ground arith

pub zero-add : (a : ℕ) → 0 * scale / 1 + a ≡ a
zero-add a = ground arith

abbrev pub scaled : Floats
scaled = record {
  F = ℕ;
  lit = λ n d. n * scale / d;
  add = λ a b. a + b;
  sub = λ a b. a - b;
  mul = λ a b. a * b / scale;
  div = λ a b. a * scale / b;
  round = λ n a. a;
  sum = sum_of;
  ceil = λ a. (a + 9999) / scale;
  le = leb;
  le_refl = leb_refl;
  le_trans = leb_trans;
  le_total = leb_total;
  le_antisym = leb_antisym;
  lit_mono = lit_mono;
  lit_nonneg = λ n d p. lit_nonneg n d;
  sub_nonneg = sub_nonneg;
  mul_nonneg = λ a b p q. mul_nonneg a b;
  add_nonneg = λ a b p. add_nonneg a b;
  add_mono = add_mono;
  mul_mono = λ a b c p h. mul_mono a b c h;
  mul_grows = λ a b p h. mul_grows a b h;
  div_mono = λ a b c p h. div_mono a b c h;
  one-le_margin = refl;
  div_nonneg = λ a b p q. div_nonneg a b;
  div_unit = λ a b p h. div_unit a b h;
  ceil_lower = ceil_lower;
  zero-add = zero-add;
  zero-le-one = refl;
  round_mono = λ n a b h. h;
  round-zero = λ n. refl;
  round-one = λ n. refl;
}
