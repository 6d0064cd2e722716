-- ===== src/Prelude.antt =====
-- Names that every module shares: the libraries', passed on, and those of the children.
mod Tests
mod Lists
mod Outcome
mod Int
mod Rounding
mod Tables
pub mod Blob
mod Bytes
pub use Tests.*
pub use Lists.*
pub use Outcome.*
pub use Int.*
pub use Bytes.{codes, same, same_refl, same→≡, is_ascii, is_digit, is_space, split, to_int}
unfoldable pub use Bytes.{split_from, digits_value, lines_from}
pub use Rounding.*
unfoldable pub use Tables.{passes_below}
pub use Tables.{table_entry}
pub use Prim.Native.Nat.{ℕ, zero, suc, ◌+◌, ◌-◌, ◌*◌, ◌/◌, ◌%◌, ◌^◌, ◌≤◌, ◌<◌, min, max}
pub use Prim.Native.String.{String}
pub use mathlib.Core.Path.{◌≡◌, refl, sym, ap, ◌∙◌, ◌≡⟨◌⟩◌, ◌∎}
pub use mathlib.Core.Logic.{◌≢◌, ◌↔◌, ◌⊎◌, inl, inr}
pub use mathlib.Core.Bool.{Bool, true, false, not, ◌&&◌, ◌||◌}
pub use mathlib.Core.Option.{Option, none, some}
pub use mathlib.Core.List.{List, [], ◌∷◌, ◌++◌, map, append-nil, append_assoc}
pub use native.Mathlib.Omega.{arith}
