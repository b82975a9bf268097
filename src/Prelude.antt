-- ===== src/Prelude.antt =====
-- The names that the other modules share: the libraries', passed on, and those of the children.
mod Tests
mod Lists
mod Maps
mod Texts
mod Decimal
mod Panics
mod Int
pub use Tests.*
pub use Panics.*
pub use Texts.{Text, codes, before_word, split, eqb_text_refl}
unfoldable pub use Texts.{text_discrete, join, eqb_text}
unfoldable pub use Decimal.{format_uint, parse_uint}
pub use Decimal.{parse_uint-format_uint, format_uint_inj, format_uint-digits}
pub use Lists.*
pub use Int.{
  ℤ, pos, negsuc, pos_part, neg_part, sub_ℕ, ◌≤ℤ◌, ltb_ℤ, eqb_ℤ, IsInt64, to_int64, to_uint64,
  wrap_int64_lem, eqb_ℤ_refl,
}
unfoldable pub use Int.{◌+ℤ◌, ◌-ℤ◌, wrap_int64}
unfoldable pub use Maps.{lookup, insert, delete}
pub use Maps.{Map, lookup-insert, lookup-delete}
pub use Prim.Native.Nat.{ℕ, zero, suc, ◌+◌, ◌-◌, ◌*◌, ◌/◌, ◌%◌, ◌^◌, ◌≤◌, ◌<◌}
pub use mathlib.Core.Path.{◌≡◌, refl, sym, ap, ◌∙◌, subst}
pub use mathlib.Core.Logic.{◌≢◌, ◌↔◌, ◌⊎◌, inl, inr, ite, dite, if_pos, if_neg}
pub use mathlib.Core.Bool.{Bool, true, false, ◌&&◌, ◌||◌, not}
pub use mathlib.Core.Option.{Option, none, some}
pub use mathlib.Core.List.{List, [], ◌∷◌, ◌++◌, map, append-nil, append_assoc}
pub use native.Mathlib.Omega.{arith}
unfoldable pub use native.Mathlib.Decide.{dec_lt, dec_le, ℕ_discrete}
