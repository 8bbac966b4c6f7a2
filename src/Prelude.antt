-- ===== src/Prelude.antt =====
-- The names that the other modules share: the libraries', passed on, and those of the children.
pub mod Tests
pub mod Int
pub mod Lists
pub mod Text
pub mod Parse
pub mod Errors
pub mod Format
pub mod Sorting
pub mod Maps
pub use Tests.*
unfoldable pub use Format.{itoa, decimal}
pub use Format.{join, join_with}
pub use Int.{
  ℤ, pos, negsuc, pos_part, neg_part, ◌≤ℤ◌, ◌<ℤ◌, lt_ℤ, le_ℤ, eq_ℤ, eq_ℤ_sound, suc_ℤ_parts,
}
unfoldable pub use Int.{suc_ℤ}
pub use Lists.{length, take, skip, take-append, length-append, length-take, is_nil, All, All-append}
unfoldable pub use Lists.{find, any, keep}
pub use Text.{is_empty, text_lt, Unicode, ascii}
unfoldable pub use Text.{trim_space, to_lower}
unfoldable pub use Parse.{atoi, contains, split_comma}
pub use Parse.{int_max}
pub use Errors.*
pub use Maps.{
  Map, Keyed, lookup-put, lookup-put_ne, lookup-drop, lookup-drop_ne, put-Keyed, drop-Keyed,
}
unfoldable pub use Maps.{lookup, put, drop}
pub use Prim.Native.Nat.{ℕ, zero, suc, ◌+◌, ◌-◌, ◌*◌, ◌/◌, ◌%◌, ◌≤◌, ◌<◌}
pub use Prim.Native.String.{String}
pub use mathlib.Core.Path.{◌≡◌, refl, sym, ap, ◌∙◌}
pub use mathlib.Core.Logic.{◌≢◌, ◌↔◌, ◌⊎◌, inl, inr}
pub use mathlib.Core.Bool.{Bool, true, false, not, ◌&&◌, ◌||◌}
pub use mathlib.Core.Option.{Option, none, some}
pub use mathlib.Core.List.{List, [], ◌∷◌, ◌++◌, map}
pub use native.Mathlib.Omega.{arith}
pub use text.Mathlib.Text.{◌==◌}
pub use text.Mathlib.TextEquality.{eq_iff}
pub use text.Mathlib.TextPositions.{eq_refl}
