-- ===== src/Prelude/Words.antt =====
-- Machine words as bytes: `to_be_bytes`, `to_le_bytes` and the readers, for u16 and u32.
use Prim.Native.Nat.{ℕ, ◌+◌, ◌*◌, ◌/◌, ◌%◌, ◌^◌, ◌<◌}
use mathlib.Core.Path.{◌≡◌, refl, sym, ap, ◌∙◌}
use mathlib.Core.Bool.{Bool, true, false}
use mathlib.Core.Logic.{◌↔◌}
use openairplay.Prelude.Tests.{◌==◌, if◌then◌else◌}
use mathlib.Core.List.{List, [], ◌∷◌}
use native.Mathlib.Omega.{arith}

-- A byte is a number below 256, and a byte string a list of them.
abbrev pub Bytes : Type 0
Bytes = List ℕ

abbrev pub IsByte : ℕ → Type 0
IsByte b = b < 256

-- `==` on byte slices.
unfoldable pub same_bytes : Bytes → Bytes → Bool
same_bytes (b ∷ bs) (c ∷ cs) = if b == c then same_bytes bs cs else false
same_bytes [] [] = true
same_bytes bs cs = false

same_bytes→eq : (bs cs : Bytes) → same_bytes bs cs ≡ true → bs ≡ cs
unfolding same_bytes
same_bytes→eq (b ∷ bs) (c ∷ cs) h = ground (arith, same_bytes→eq bs cs)
same_bytes→eq (b ∷ bs) [] h = cc
same_bytes→eq [] (c ∷ cs) h = cc
same_bytes→eq [] [] h = refl

same_bytes_refl : (bs : Bytes) → same_bytes bs bs ≡ true
unfolding same_bytes
same_bytes_refl [] = refl
same_bytes_refl (b ∷ bs) = ground (arith, same_bytes_refl bs)

pub same_bytes_iff : (bs cs : Bytes) → (same_bytes bs cs ≡ true) ↔ (bs ≡ cs)
same_bytes_iff bs cs =
    (same_bytes→eq bs cs, λ e. ap (λ (x : Bytes). same_bytes bs x) (sym e) ∙ same_bytes_refl bs)

abbrev pub from_be16 : ℕ → ℕ → ℕ
from_be16 a b = a * 256 + b

abbrev pub from_le16 : ℕ → ℕ → ℕ
from_le16 a b = a + b * 256

abbrev pub to_be16 : ℕ → Bytes
to_be16 n = (n / 256 % 256) ∷ (n % 256) ∷ []

abbrev pub to_le16 : ℕ → Bytes
to_le16 n = (n % 256) ∷ (n / 256 % 256) ∷ []

abbrev pub from_be32 : ℕ → ℕ → ℕ → ℕ → ℕ
from_be32 a b c d = ((a * 256 + b) * 256 + c) * 256 + d

abbrev pub to_be32 : ℕ → Bytes
to_be32 n = (n / 16777216 % 256) ∷ (n / 65536 % 256) ∷ (n / 256 % 256) ∷ (n % 256) ∷ []

pub from_be32-to_be32 :
    (n : ℕ)
    → n < 2 ^ 32
    → from_be32 (n / 16777216 % 256) (n / 65536 % 256) (n / 256 % 256) (n % 256) ≡ n
from_be32-to_be32 n h = omega arith

pub from_le16-to_le16 : (n : ℕ) → n < 65536 → from_le16 (n % 256) (n / 256 % 256) ≡ n
from_le16-to_le16 n h = omega arith

pub from_be16-to_be16 : (n : ℕ) → n < 65536 → from_be16 (n / 256 % 256) (n % 256) ≡ n
from_be16-to_be16 n h = omega arith
