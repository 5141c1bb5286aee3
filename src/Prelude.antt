-- ===== src/Prelude.antt =====
-- The names that the other modules share: the libraries', passed on, and those of the children.
-- Prelude/Alloc models src/memory.c; the other children model the C library that the code calls.
pub mod Tests
pub mod Lists
pub mod Int
pub mod CString
pub mod Alloc
pub mod Decimal
pub mod Run
pub mod Granted
pub use Tests.*
pub use Lists.*
pub use Int.*
unfoldable pub use CString.{str_eq, starts_with}
pub use CString.{
  Text, codes, str_eq→eq, str_eq_refl, str_eq_iff, is_lower, is_upper, is_digit, to_upper, to_lower,
  str_case_eq,
}
unfoldable pub use Decimal.{decimal}
pub use Decimal.{decimal-head, decimal-fold}
pub use Alloc.{Memory, generous}
unfoldable pub use Alloc.{
  memory_create, memory_strdup, memory_asprintf, memory_resize, memory_destroy,
}
pub use Prim.Native.Nat.{ℕ, zero, suc, ◌+◌, ◌-◌, ◌*◌, ◌/◌, ◌%◌, ◌^◌, ◌≤◌, ◌<◌, min}
pub use mathlib.Core.Path.{◌≡◌, refl, sym, ap, ◌∙◌}
pub use mathlib.Core.Logic.{◌≢◌, ◌↔◌, ◌⊎◌, inl, inr}
pub use mathlib.Core.Bool.{Bool, true, false, not, ◌&&◌, ◌||◌}
pub use mathlib.Core.Option.{Option, none, some}
pub use mathlib.Core.List.{List, [], ◌∷◌, ◌++◌, map, append-nil, append_assoc}
pub use native.Mathlib.Omega.{arith}
