-- ===== src/Prelude/Text.antt =====
-- Rust's `str` as its UTF-8 bytes: what the program uses of `str::split`, `split_once`, `trim`,
-- `eq_ignore_ascii_case`, `starts_with` and `str::from_utf8`.
use Prim.Native.Nat.{ℕ, zero, suc, ◌+◌, ◌<◌}
use Prim.Native.Char.{code}
use Prim.Native.String.{String}
use mathlib.Core.Path.{◌≡◌, refl, sym, ap, subst, ◌∙◌}
use mathlib.Core.Bool.{Bool, true, false, ◌&&◌, ◌||◌}
use mathlib.Core.Option.{Option, none, some}
use mathlib.Core.List.{List, [], ◌∷◌, ◌++◌, map, reverse, reverse-cons, reverse-reverse}
use native.Mathlib.Omega.{arith}
use openairplay.Prelude.Tests.{ltb, leb, ◌==◌, if◌then◌else◌}
use openairplay.Prelude.Lists.{length, drop, All, All-append}
use openairplay.Prelude.Words.{Bytes, same_bytes}

-- The bytes of an ASCII text.
abbrev pub ascii : String → Bytes
ascii String.[] = []
ascii (String.◌∷◌ c s) = code c ∷ ascii s

abbrev pub cr : ℕ
cr = 13

abbrev pub lf : ℕ
lf = 10

abbrev pub prepend_left : Bytes → Option (Bytes × Bytes) → Option (Bytes × Bytes)
prepend_left p none = none
prepend_left p (some (a, b)) = some (p ++ a, b)

-- `split_once` at an ASCII character.
unfoldable pub split_once : ℕ → Bytes → Option (Bytes × Bytes)
split_once sep [] = none
split_once sep (c ∷ s) = if c == sep then some ([], s) else prepend_left (c ∷ []) (split_once sep s)

abbrev pub extend_first : ℕ → List Bytes → List Bytes
extend_first c [] = (c ∷ []) ∷ []
extend_first c (line ∷ lines) = (c ∷ line) ∷ lines

-- `split("\r\n")`
unfoldable pub split_lines : Bytes → List Bytes
split_lines [] = [] ∷ []
split_lines (c ∷ []) = (c ∷ []) ∷ []
split_lines (c ∷ d ∷ s) =
    let line_ends = [] ∷ split_lines s in
    let line_goes_on = extend_first c (split_lines (d ∷ s)) in
    if c == cr && d == lf then line_ends else line_goes_on

unfoldable pub starts_with : Bytes → Bytes → Bool
starts_with s [] = true
starts_with [] (p ∷ ps) = false
starts_with (c ∷ s) (p ∷ ps) = if c == p then starts_with s ps else false

abbrev pub to_ascii_lowercase : ℕ → ℕ
to_ascii_lowercase c = if leb 65 c && leb c 90 then c + 32 else c

unfoldable pub eq_ignore_ascii_case : Bytes → Bytes → Bool
unfolding same_bytes
eq_ignore_ascii_case a b = same_bytes (map to_ascii_lowercase a) (map to_ascii_lowercase b)

-- The characters of the property White_Space, by the length of their encoding.
abbrev pub is_white_one : ℕ → Bool
is_white_one a = (leb 9 a && leb a 13) || a == 32

abbrev is_white_two : ℕ → ℕ → Bool
is_white_two a b = a == 0xC2 && (b == 0x85 || b == 0xA0)

abbrev is_white_three : ℕ → ℕ → ℕ → Bool
is_white_three a b c =
    (a == 0xE1 && b == 0x9A && c == 0x80)
    || (a == 0xE2 && b == 0x80 && (leb 0x80 c && leb c 0x8A || c == 0xA8 || c == 0xA9 || c == 0xAF))
    || (a == 0xE2 && b == 0x81 && c == 0x9F)
    || (a == 0xE3 && b == 0x80 && c == 0x80)

-- The number of bytes of a white character at the front, or 0. From the back a text is read
-- reversed, with the tests' arguments reversed.
abbrev white_len : (ℕ → ℕ → Bool) → (ℕ → ℕ → ℕ → Bool) → Bytes → ℕ
white_len two three [] = 0
white_len two three (a ∷ []) = if is_white_one a then 1 else 0
white_len two three (a ∷ b ∷ []) = if is_white_one a then 1 else if two a b then 2 else 0
white_len two three (a ∷ b ∷ c ∷ s) =
    if is_white_one a then 1 else if two a b then 2 else if three a b c then 3 else 0

abbrev drop_white : (ℕ → ℕ → Bool) → (ℕ → ℕ → ℕ → Bool) → ℕ → Bytes → Bytes
drop_white two three zero s = s
drop_white two three (suc fuel) s =
    let n = white_len two three s in
    let shorter = drop_white two three fuel (drop n s) in if n == 0 then s else shorter

abbrev pub trim_start : Bytes → Bytes
trim_start s = drop_white is_white_two is_white_three (length s) s

abbrev pub trim_end : Bytes → Bytes
trim_end s =
    reverse
      (drop_white (λ b a. is_white_two a b) (λ c b a. is_white_three a b c) (length s) (reverse s))

unfoldable pub trim : Bytes → Bytes
trim s = trim_end (trim_start s)

-- What a lead byte asks of those behind it: how many, and the range of the first.
abbrev utf8_lead : ℕ → Option (ℕ × ℕ × ℕ)
utf8_lead b =
    if ltb b 0x80
    then some (0, 0x80, 0xBF)
    else if ltb b 0xC2
    then none
    else if ltb b 0xE0
    then some (1, 0x80, 0xBF)
    else if b == 0xE0
    then some (2, 0xA0, 0xBF)
    else if b == 0xED
    then some (2, 0x80, 0x9F)
    else if ltb b 0xF0
    then some (2, 0x80, 0xBF)
    else if b == 0xF0
    then some (3, 0x90, 0xBF)
    else if ltb b 0xF4
    then some (3, 0x80, 0xBF)
    else if b == 0xF4
    then some (3, 0x80, 0x8F)
    else none

-- With the number of continuation bytes that are due, and the range of the next.
unfoldable pub is_utf8_after : ℕ → ℕ → ℕ → Bytes → Bool
is_utf8_after due lo hi [] = due == 0
is_utf8_after zero lo hi (b ∷ s) = elim (utf8_lead b) [
  | none ↦ false
  | some (due, lo', hi') ↦ is_utf8_after due lo' hi' s
]
is_utf8_after (suc due) lo hi (b ∷ s) =
    if leb lo b && leb b hi then is_utf8_after due 0x80 0xBF s else false

-- `str::from_utf8(bytes).is_ok()`
unfoldable pub is_utf8 : Bytes → Bool
unfolding is_utf8_after
is_utf8 s = is_utf8_after 0 0x80 0xBF s

-- An ASCII text is UTF-8.
pub is_utf8_of_ascii : (s : Bytes) → All (λ b. ltb b 0x80 ≡ true) s → is_utf8 s ≡ true
unfolding is_utf8
is_utf8_of_ascii [] h = refl
is_utf8_of_ascii (b ∷ s) (h, hs) = ground (arith, is_utf8_of_ascii s hs)

-- An ASCII character that is not white.
abbrev pub IsSolid : ℕ → Type 0
IsSolid b = (is_white_one b ≡ false) × (b < 128)

white_len_start : (s : Bytes) → All IsSolid s → white_len is_white_two is_white_three s ≡ 0
white_len_start [] h = refl
white_len_start (a ∷ []) (h, _) = rw h.0
white_len_start (a ∷ b ∷ []) (h, _) = ground arith
white_len_start (a ∷ b ∷ c ∷ s) (h, _) = ground arith

white_len_end :
    (s : Bytes)
    → All IsSolid s
    → white_len (λ b a. is_white_two a b) (λ c b a. is_white_three a b c) s ≡ 0
white_len_end [] h = refl
white_len_end (a ∷ []) (h, _) = rw h.0
white_len_end (a ∷ b ∷ []) (h, _) = ground arith
white_len_end (a ∷ b ∷ c ∷ s) (h, _) = ground arith

drop_white_none :
    (two : ℕ → ℕ → Bool) (three : ℕ → ℕ → ℕ → Bool) (fuel : ℕ) (s : Bytes)
    → white_len two three s ≡ 0
    → drop_white two three fuel s ≡ s
drop_white_none two three zero s h = refl
drop_white_none two three (suc fuel) s h = rw h

All-reverse : (s : Bytes) → All IsSolid s → All IsSolid (reverse s)
All-reverse [] h = tt
All-reverse (b ∷ s) (h, hs) =
    subst (λ (r : Bytes). All IsSolid r) (sym (reverse-cons b s))
      (All-append IsSolid (reverse s) (b ∷ []) (All-reverse s hs) (h, tt))

trim_end_solid : (s : Bytes) → All IsSolid s → trim_end s ≡ s
trim_end_solid s h =
    ap (λ (r : Bytes). reverse r)
      (drop_white_none _ _ (length s) (reverse s) (white_len_end (reverse s) (All-reverse s h)))
    ∙ reverse-reverse s

-- Nothing is trimmed where nothing is white.
pub trim_solid : (s : Bytes) → All IsSolid s → trim s ≡ s
unfolding trim
trim_solid s h =
    ap trim_end (drop_white_none _ _ (length s) s (white_len_start s h)) ∙ trim_end_solid s h

trim_test : trim (ascii "  a b\t ") ≡ ascii "a b"
unfolding trim
trim_test = refl

trim_test_wide : trim (0xE3 ∷ 0x80 ∷ 0x80 ∷ 0x61 ∷ 0xC2 ∷ 0xA0 ∷ []) ≡ ascii "a"
unfolding trim
trim_test_wide = refl
