-- ===== src/Prelude/Decimal.antt =====
-- Rust's decimal `Display` of an unsigned integer, and `str::parse::<usize>`.
use Prim.Native.Nat.{ℕ, zero, suc, ◌+◌, ◌-◌, ◌*◌, ◌/◌, ◌%◌, ◌^◌, ◌≤◌, ◌<◌}
use mathlib.Core.Path.{◌≡◌, refl, ◌∙◌}
use mathlib.Core.Bool.{◌&&◌}
use mathlib.Core.Logic.{◌≢◌, inl, inr}
use mathlib.Core.Option.{Option, none, some}
use mathlib.Core.List.{[], ◌∷◌}
use native.Mathlib.Omega.{arith}
use openairplay.Prelude.Tests.{ltb, leb, ◌==◌, if◌then◌else◌, Bool-cases}
use openairplay.Prelude.Lists.{All}
use openairplay.Prelude.Words.{Bytes}

abbrev pub max_usize : ℕ
max_usize = 2 ^ 64 - 1

-- The digits of `n` in front of `out`; each round of the fuel divides by ten.
unfoldable pub to_decimal_loop : ℕ → ℕ → Bytes → Bytes
to_decimal_loop zero n out = out
to_decimal_loop (suc fuel) n out =
    let longer = to_decimal_loop fuel (n / 10) ((48 + n % 10) ∷ out) in
    if ltb n 10 then (48 + n) ∷ out else longer

unfoldable pub to_decimal : ℕ → Bytes
unfolding to_decimal_loop
to_decimal n = to_decimal_loop (suc n) n []

-- Checked multiplication and addition: a value above `limit` is refused.
unfoldable pub parse_digits : ℕ → ℕ → Bytes → Option ℕ
parse_digits limit n [] = some n
parse_digits limit n (c ∷ s) =
    if leb 48 c && leb c 57 && leb (n * 10 + (c - 48)) limit
    then parse_digits limit (n * 10 + (c - 48)) s
    else none

-- `str::parse` to an unsigned integer. A leading `+` is allowed, in front of digits.
unfoldable pub parse_unsigned : ℕ → Bytes → Option ℕ
unfolding parse_digits
parse_unsigned limit [] = none
parse_unsigned limit (c ∷ []) = parse_digits limit 0 (c ∷ [])
parse_unsigned limit (c ∷ d ∷ s) =
    if c == 43 then parse_digits limit 0 (d ∷ s) else parse_digits limit 0 (c ∷ d ∷ s)

abbrev pub parse_usize : Bytes → Option ℕ
parse_usize s = parse_unsigned max_usize s

abbrev pub parse_u32 : Bytes → Option ℕ
parse_u32 s = parse_unsigned (2 ^ 32 - 1) s

abbrev pub IsDigit : ℕ → Type 0
IsDigit c = (48 ≤ c) × (c ≤ 57)

parse_digits-to_decimal_loop :
    (fuel n : ℕ) (out : Bytes)
    → n < fuel
    → n ≤ max_usize
    → parse_digits max_usize 0 (to_decimal_loop fuel n out) ≡ parse_digits max_usize n out
unfolding parse_digits to_decimal_loop
parse_digits-to_decimal_loop zero n out h fits = absurd (omega arith)
parse_digits-to_decimal_loop (suc fuel) n out h fits = elim (Bool-cases (ltb n 10)) [
  | inl one ↦ rw one (ground arith)
  | inr more ↦ rw more (
      parse_digits-to_decimal_loop fuel (n / 10) ((48 + n % 10) ∷ out) (ground arith) (omega arith)
      ∙ ground arith)
]

to_decimal_loop-IsDigit :
    (fuel n : ℕ) (out : Bytes) → All IsDigit out → All IsDigit (to_decimal_loop fuel n out)
unfolding to_decimal_loop
to_decimal_loop-IsDigit zero n out h = h
to_decimal_loop-IsDigit (suc fuel) n out h = elim (Bool-cases (ltb n 10)) [
  | inl one ↦ rw one ((omega arith, ground arith), h)
  | inr more ↦ rw more (to_decimal_loop-IsDigit fuel (n / 10) _ ((omega arith, omega arith), h))
]

pub to_decimal-IsDigit : (n : ℕ) → All IsDigit (to_decimal n)
unfolding to_decimal
to_decimal-IsDigit n = to_decimal_loop-IsDigit (suc n) n [] tt

to_decimal_loop-ne-nil : (fuel n : ℕ) (c : ℕ) (out : Bytes) → to_decimal_loop fuel n (c ∷ out) ≢ []
unfolding to_decimal_loop
to_decimal_loop-ne-nil zero n c out = cc
to_decimal_loop-ne-nil (suc fuel) n c out =
    ground (arith, to_decimal_loop-ne-nil fuel (n / 10) (48 + n % 10) (c ∷ out))

to_decimal-ne-nil : (n : ℕ) → to_decimal n ≢ []
unfolding to_decimal to_decimal_loop
to_decimal-ne-nil n = ground (arith, to_decimal_loop-ne-nil n (n / 10) (48 + n % 10) [])

parse_usize_of_digits :
    (s : Bytes) → s ≢ [] → All IsDigit s → parse_usize s ≡ parse_digits max_usize 0 s
unfolding parse_unsigned
parse_usize_of_digits [] h d = absurd (h refl)
parse_usize_of_digits (c ∷ []) h d = refl
parse_usize_of_digits (c ∷ e ∷ s) h d = ground arith

-- Every usize is read back from its decimal print.
pub parse_usize-to_decimal : (n : ℕ) → n ≤ max_usize → parse_usize (to_decimal n) ≡ some n
unfolding to_decimal parse_digits
parse_usize-to_decimal n h =
    parse_usize_of_digits (to_decimal n) (to_decimal-ne-nil n) (to_decimal-IsDigit n)
    ∙ parse_digits-to_decimal_loop (suc n) n [] (omega arith) h
