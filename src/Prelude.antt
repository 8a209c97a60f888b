-- ===== src/Prelude.antt =====
-- The names that every component shares: those of the libraries, passed on, and those of the
-- children: Boolean tests, lists over the native numbers, Python's text, and its dictionaries.
mod Tests
mod Lists
mod Str
mod Dicts
mod Lex
pub use Tests.*
pub use Lists.*
unfoldable pub use Lex.{then_by, lex}
pub use Lex.{IsOrder, lex-IsOrder, then_by_both}
unfoldable pub use Dicts.{Dict, lookup, insert, map_values, dict_keys, remove}
pub use Dicts.{
  lookup-insert, lookup-insert_self, lookup-insert_ne, lookup-map_values, lookup-remove_self,
}
unfoldable pub use Str.{
  Text, codes, char_lower, char_upper, is_space, lower, upper, lstrip, rstrip, strip, before_colon,
  starts_with, contains, show_nat, text_leb, normalize,
}
pub use Str.{
  text_eq, text_eq_iff, text_eq_refl, text_eq_sym, text_eq-false, lower_idem, strip_idem,
  lower-strip, normalize_idem, text_leb_total, text_leb_trans, text_leb_antisym,
}
pub use Prim.Native.Nat.{ℕ, zero, suc, ◌+◌, ◌-◌, ◌*◌, ◌/◌, ◌%◌, ◌^◌, ◌≤◌, ◌<◌}
pub use mathlib.Core.Path.{◌≡◌, refl, sym, ap, ◌∙◌}
pub use mathlib.Core.Logic.{◌≢◌, ◌↔◌, ◌⊎◌, inl, inr}
pub use mathlib.Core.Bool.{Bool, true, false, not, ◌&&◌, ◌||◌}
pub use mathlib.Core.Option.{Option, none, some, some-injective}
pub use mathlib.Core.List.{List, [], ◌∷◌, ◌++◌, map}
pub use native.Mathlib.Omega.{arith}
