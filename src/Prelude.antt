-- ===== src/Prelude.antt =====
-- Names, notation and lemmas that the components share: the libraries' names passed on, and the
-- Boolean tests, list functions and byte encodings of the modules below.
mod Tests
mod Lists
mod Chunks
mod Words
mod Text
mod Decimal
pub mod Io
pub use Tests.*
pub use Lists.*
pub use Chunks.*
unfoldable pub use Chunks.{chunks_loop, chunks}
pub use Words.*
pub use Text.*
unfoldable pub use Text.{
  split_once, split_lines, starts_with, eq_ignore_ascii_case, trim, is_utf8_after, is_utf8,
}
pub use Decimal.*
unfoldable pub use Decimal.{to_decimal_loop, to_decimal, parse_digits, parse_unsigned}
unfoldable pub use Words.{same_bytes}
pub use Prim.Native.Nat.{ℕ, zero, suc, ◌+◌, ◌-◌, ◌*◌, ◌/◌, ◌%◌, ◌^◌, ◌≤◌, ◌<◌, min, max}
pub use mathlib.Core.Path.{◌≡◌, refl, sym, ap, subst, ◌∙◌, ◌≡⟨◌⟩◌, ◌∎}
pub use mathlib.Core.Logic.{◌≢◌, ◌↔◌, ◌⊎◌, inl, inr}
pub use mathlib.Core.Bool.{Bool, true, false, not, ◌&&◌, ◌||◌}
pub use mathlib.Core.Option.{Option, none, some}
pub use mathlib.Core.List.{List, [], ◌∷◌, ◌++◌, map, append-nil, append_assoc}
pub use native.Mathlib.Omega.{arith}
