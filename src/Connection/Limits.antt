-- ===== src/Connection/Limits.antt =====
-- How much a request can hold, whatever arrives, also where the ciphertext does not decrypt.
use openairplay.Prelude.{ℕ, ◌+◌, ◌≤◌, Option, none, some, length, Bytes}
use openairplay.Prelude.Io.{IoResult, ok, err}
use openairplay.Aead.{Aead}
use openairplay.Http.{Request}
use openairplay.Connection.{max_head, max_body}

-- What a successful read gives satisfies a predicate.
abbrev pub Gives : {A : Type 0} → (A → Type 0) → IoResult A → Type 0
Gives P (ok a) = P a
Gives P (err e) = Unit

abbrev pub IsShort : ℕ → Bytes → Type 0
IsShort n bytes = length bytes ≤ n

-- A head that was read, if the stream was not at its end.
abbrev pub IsShortHead : Option Bytes → Type 0
IsShortHead none = Unit
IsShortHead (some head) = length head ≤ max_head + 1

abbrev pub HasShortBody : Option Request → Type 0
HasShortBody none = Unit
HasShortBody (some request) = length request.body ≤ max_body
