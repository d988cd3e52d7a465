-- ===== src/Common.antt =====
-- The names that the other modules share: the libraries', passed on, and those of the modules below.
mod Tests
mod Lists
mod Dicts
pub mod Int
pub mod Text
pub mod Prefix
pub use Tests.*
pub use Lists.{
  length, length-append, count-append, contains-count, count-contains, length-le_of_count-le,
  count-eq_of_length-eq, All, All-map, All-zip, All-forall, split_at, distinct, distinct→count-le,
  onto, onto-onto, All-onto, map-onto, onto_cancel,
}
unfoldable pub use Lists.{contains, count}
pub use Dicts.{Dict, get-put, has_key-put, contains-keys, get-eq-none, get-eq-some}
unfoldable pub use Dicts.{get, has_key, put, keys}
pub use Prim.Native.Nat.{ℕ, zero, suc, ◌+◌, ◌-◌, ◌*◌, ◌≤◌, ◌<◌}
pub use Prim.Native.String.{String}
pub use mathlib.Core.Path.{◌≡◌, refl, sym, ap, ◌∙◌}
pub use mathlib.Core.Logic.{◌≢◌, ◌↔◌, ◌⊎◌, inl, inr}
pub use mathlib.Core.Bool.{Bool, true, false, not, ◌&&◌, ◌||◌}
pub use mathlib.Core.Option.{Option, none, some}
pub use mathlib.Core.List.{List, [], ◌∷◌, ◌++◌, map, append_assoc, append-nil}
pub use native.Mathlib.Omega.{arith}
pub use text.Mathlib.Text.{◌==◌}
pub use text.Mathlib.TextEquality.{eq_iff}
