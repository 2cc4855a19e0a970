-- ===== src/Connection.antt =====
-- openairplay2/src/crypto_stream.rs: the control connection, first in the clear and then encrypted.
-- The transport is the list of the pieces in which its bytes arrive; a read that finds none left is
-- at the end of the stream. A failing transport is left out, as are the texts of the errors.
pub mod Transport
pub mod Upcoming
pub mod Stream
pub mod Refines
pub mod Body
pub mod Blank
pub mod Requests
pub mod Sent
pub mod Bounds
pub mod Limits
pub mod Kept
mod Runs
use openairplay.Prelude.{
  ℕ, zero, suc, ◌+◌, ◌-◌, ◌*◌, Bool, true, false, not, ltb, leb, if◌then◌else◌, Option, none, some,
  List, [], ◌∷◌, ◌++◌, length, take, drop, flatten, is_empty, Bytes, cr, lf, starts_with, is_utf8,
}
use mathlib.Core.List.{reverse}
use openairplay.Prelude.Io.{IoResult, ok, err, invalid_data, unexpected_eof, out_of_fuel, ◌>>=◌}
use openairplay.Aead.{Aead}
use openairplay.Cipher.{Encryptor, Decryptor, encrypt, decrypt_available}
use openairplay.Http.{Head, Request, Response, parse_head, content_length, from_parts, to_bytes}

abbrev pub max_head : ℕ
max_head = 16 * 1024

abbrev pub max_body : ℕ
max_body = 8 * 1024 * 1024

abbrev pub read_chunk : ℕ
read_chunk = 8 * 1024

-- `reader`, and all that `writer` was given.
pub record ControlConnection : Type 0 where
  pub reader : List Bytes
  pub written : Bytes
  pub enc : Option Encryptor
  pub dec : Option Decryptor
  pub plain : Bytes
  pub cipher_pending : Bytes

-- `ControlConnection::new`
abbrev pub new : List Bytes → ControlConnection
new reader = record {
  reader = reader;
  written = [];
  enc = none;
  dec = none;
  plain = [];
  cipher_pending = [];
}

abbrev pub enable_encryption : Encryptor → Decryptor → ControlConnection → ControlConnection
enable_encryption enc dec c = record c { enc = some enc; dec = some dec }

abbrev pub is_set : Option Encryptor → Bool
is_set none = false
is_set (some e) = true

abbrev pub is_encrypted : ControlConnection → Bool
is_encrypted c = is_set c.enc

-- `reader.read(&mut buf)` with a buffer of `n` bytes.
unfoldable pub read : ℕ → List Bytes → Bytes × List Bytes
read n [] = ([], [])
read n ([] ∷ pieces) = read n pieces
read n ((b ∷ piece) ∷ pieces) = (take n (b ∷ piece), drop n (b ∷ piece) ∷ pieces)

-- `head.ends_with(b"\r\n\r\n")`
unfoldable pub ends_blank : Bytes → Bool
unfolding starts_with
ends_blank head = starts_with (reverse head) (lf ∷ cr ∷ lf ∷ cr ∷ [])

abbrev pub Reading : Type 0 → Type 0
Reading A = IoResult A × ControlConnection

-- What is done with a successful read.
abbrev pub and_then : {A B : Type 0} → Reading A → (A → ControlConnection → Reading B) → Reading B
and_then (ok a, c) f = f a c
and_then (err e, c) f = (err e, c)

-- How the loop of `read_request` over the head ends, if it does.
abbrev pub head_ended : Option ℕ → Bytes → Option (IoResult (Option Bytes))
head_ended none [] = some (ok none)
head_ended none (h ∷ head) = some (err unexpected_eof)
head_ended (some b) head =
    let head' = head ++ b ∷ [] in
    if ends_blank head'
    then some (ok (some head'))
    else if ltb max_head (length head')
    then some (err invalid_data)
    else none

abbrev pub unless_ended :
    (ControlConnection → Reading (Option Bytes))
    → Option (IoResult (Option Bytes))
    → ControlConnection
    → Reading (Option Bytes)
unless_ended again (some result) c = (result, c)
unless_ended again none c = again c

abbrev pub extended : Bytes → Option ℕ → Bytes
extended head none = head
extended head (some b) = head ++ b ∷ []

-- What the head says, and how long a body it declares.
abbrev pub checked_length : Head → ℕ → IoResult (Head × ℕ)
checked_length head len = if ltb max_body len then err invalid_data else ok (head, len)

unfoldable pub request_head : Bytes → IoResult (Head × ℕ)
unfolding is_utf8 parse_head content_length
request_head head =
    let text = take (length head - 4) head in
    let parsed = parse_head text >>= (λ h. content_length h.3 >>= checked_length h) in
    if is_utf8 text then parsed else err invalid_data

module _ (aead : Aead) where
  -- After a read of the transport: at its end, or with more ciphertext.
  abbrev pub refilled :
      (ControlConnection → Reading Bool) → Bytes × List Bytes → ControlConnection → Reading Bool
  refilled again ([], reader) c = (ok false, record c { reader = reader })
  refilled again (b ∷ bytes, reader) c =
      again (record c { reader = reader; cipher_pending = c.cipher_pending ++ b ∷ bytes })

  -- After `decrypt_available`.
  abbrev pub decrypted :
      (ControlConnection → Reading Bool)
      → Option (Bytes × ℕ) × Decryptor
      → ControlConnection
      → Reading Bool
  decrypted again (none, d) c = (err invalid_data, record c { dec = some d })
  decrypted again (some ([], used), d) c =
      refilled again (read read_chunk c.reader)
        (record c { dec = some d; cipher_pending = drop used c.cipher_pending })
  decrypted again (some (b ∷ plaintext, used), d) c = (
    ok true,
    record c {
      dec = some d;
      cipher_pending = drop used c.cipher_pending;
      plain = c.plain ++ b ∷ plaintext;
    },
  )

  -- The loop of `fill_encrypted`; each round but the last reads a byte at least. `expect` has the
  -- decryptor, since only an encrypted connection comes here.
  unfoldable pub fill_loop : ℕ → Option Decryptor → ControlConnection → Reading Bool
  unfolding read
  fill_loop zero dec c = (err out_of_fuel, c)
  fill_loop (suc fuel) none c = (err out_of_fuel, c)
  fill_loop (suc fuel) (some d) c =
      decrypted (λ (c' : ControlConnection). fill_loop fuel c'.dec c')
        (decrypt_available aead d c.cipher_pending) c

  unfoldable pub fill_encrypted : ControlConnection → Reading Bool
  unfolding fill_loop
  fill_encrypted c = fill_loop (suc (length (flatten c.reader))) c.dec c

  -- The one byte that a read in the clear asks for.
  abbrev pub one_byte : Bytes × List Bytes → ControlConnection → Reading (Option ℕ)
  one_byte ([], reader) c = (ok none, record c { reader = reader })
  one_byte (b ∷ bytes, reader) c = (ok (some b), record c { reader = reader })

  -- The loop of `read_byte`, with the decryptor and the plaintext that are there.
  unfoldable pub read_byte_loop :
      ℕ → Option Decryptor → Bytes → ControlConnection → Reading (Option ℕ)
  unfolding read fill_encrypted
  read_byte_loop zero dec plain c = (err out_of_fuel, c)
  read_byte_loop (suc fuel) dec (b ∷ plain) c = (ok (some b), record c { plain = plain })
  read_byte_loop (suc fuel) none [] c = one_byte (read 1 c.reader) c
  read_byte_loop (suc fuel) (some d) [] c = and_then (fill_encrypted c) λ more c'.
      let again = read_byte_loop fuel c'.dec c'.plain c' in if more then again else (ok none, c')

  -- A byte is there when `fill_encrypted` says so: two rounds.
  unfoldable pub read_byte : ControlConnection → Reading (Option ℕ)
  unfolding read_byte_loop
  read_byte c = read_byte_loop 2 c.dec c.plain c

  -- The bytes that a read in the clear brought to the body.
  abbrev pub some_bytes :
      (Bytes → ControlConnection → Reading Bytes)
      → Bytes × List Bytes
      → ControlConnection
      → Reading Bytes
  some_bytes again ([], reader) c = (err unexpected_eof, record c { reader = reader })
  some_bytes again (b ∷ bytes, reader) c = again (b ∷ bytes) (record c { reader = reader })

  -- The loop of `read_exact_n`; `n` is the number of bytes that are missing.
  unfoldable pub read_exact_loop :
      ℕ → ℕ → Option Decryptor → Bytes → Bytes → ControlConnection → Reading Bytes
  unfolding read fill_encrypted
  read_exact_loop zero n dec plain out c = (err out_of_fuel, c)
  read_exact_loop (suc fuel) zero dec plain out c = (ok out, c)
  read_exact_loop (suc fuel) (suc n) dec (b ∷ plain) out c =
      read_exact_loop fuel n dec plain (out ++ b ∷ []) (record c { plain = plain })
  read_exact_loop (suc fuel) (suc n) none [] out c =
      some_bytes
        (λ bytes (c' : ControlConnection).
          read_exact_loop fuel (suc n - length bytes) c'.dec c'.plain (out ++ bytes) c')
        (read (suc n) c.reader) c
  read_exact_loop (suc fuel) (suc n) (some d) [] out c = and_then (fill_encrypted c) λ more c'.
      let again = read_exact_loop fuel (suc n) c'.dec c'.plain out c' in
      if more then again else (err unexpected_eof, c')

  -- A round brings a byte, or plaintext that the next round takes a byte of.
  unfoldable pub read_exact_n : ℕ → ControlConnection → Reading Bytes
  unfolding read_exact_loop
  read_exact_n n c = read_exact_loop (suc (n + n)) n c.dec c.plain [] c

  unfoldable pub read_head_loop : ℕ → Bytes → ControlConnection → Reading (Option Bytes)
  unfolding read_byte ends_blank
  read_head_loop zero head c = (err out_of_fuel, c)
  read_head_loop (suc fuel) head c = and_then (read_byte c) λ byte c'.
      unless_ended (λ (c'' : ControlConnection). read_head_loop fuel (extended head byte) c'')
        (head_ended byte head) c'

  unfoldable pub read_head : ControlConnection → Reading (Option Bytes)
  unfolding read_head_loop
  read_head c = read_head_loop (max_head + 2) [] c

  abbrev pub body_of : IoResult (Head × ℕ) → ControlConnection → Reading (Option Request)
  body_of (err e) c = (err e, c)
  body_of (ok (head, len)) c =
      and_then (read_exact_n len c) λ body c'. (ok (some (from_parts head body)), c')

  abbrev pub request_of : Option Bytes → ControlConnection → Reading (Option Request)
  request_of none c = (ok none, c)
  request_of (some head) c = body_of (request_head head) c

  unfoldable pub read_request : ControlConnection → Reading (Option Request)
  unfolding read_head request_head read_exact_n
  read_request c = and_then (read_head c) request_of

  -- `write_response`
  abbrev pub framed : Option Encryptor → Bytes → Bytes × Option Encryptor
  framed none bytes = (bytes, none)
  framed (some e) bytes = let (out, e') = encrypt aead e bytes in (out, some e')

  unfoldable pub write_response : Response → ControlConnection → ControlConnection
  unfolding encrypt to_bytes
  write_response response c =
      let (out, enc) = framed c.enc (to_bytes response) in
      record c { written = c.written ++ out; enc = enc }
