-- ===== src/Connection/Kept.antt =====
-- Reading a request and writing a response leave the cipher in place.
use openairplay.Prelude.{
  ℕ, zero, suc, ◌+◌, ◌-◌, ◌≡◌, refl, ap, ◌∙◌, Bool, true, false, if◌then◌else◌, Option, none, some,
  List, [], ◌∷◌, ◌++◌, length, flatten, Bytes,
}
use openairplay.Prelude.Io.{IoResult, ok, err}
use openairplay.Aead.{Aead}
use openairplay.Cipher.{Encryptor, Decryptor, decrypt_available}
use openairplay.Http.{Head, Response, to_bytes}
use openairplay.Connection.{
  ControlConnection, Reading, and_then, read, read_chunk, refilled, decrypted, fill_loop,
  fill_encrypted, one_byte, read_byte_loop, read_byte, some_bytes, read_exact_loop, read_exact_n,
  unless_ended, head_ended, extended, read_head_loop, read_head, body_of, request_of, request_head,
  read_request, framed, write_response, is_encrypted, is_set, max_head,
}

-- The encryptor that a read leaves.
abbrev pub Keeps : {A : Type 0} → ControlConnection → Reading A → Type 0
Keeps c r = r.1.enc ≡ c.enc

Keeps-and_then :
    {A B : Type 0} (c : ControlConnection) (r : Reading A) (f : A → ControlConnection → Reading B)
    → Keeps c r
    → ((a : A) (c' : ControlConnection) → Keeps c' (f a c'))
    → Keeps c (and_then r f)
Keeps-and_then c (ok a, c') f h k = k a c' ∙ h
Keeps-and_then c (err e, c') f h k = h

Keeps-if :
    {A : Type 0} (b : Bool) (c : ControlConnection) (r q : Reading A)
    → Keeps c r
    → Keeps c q
    → Keeps c (if b then r else q)
Keeps-if true c r q h k = h
Keeps-if false c r q h k = k

module _ (aead : Aead) where
  refilled-Keeps :
      (again : ControlConnection → Reading Bool) (r : Bytes × List Bytes) (c : ControlConnection)
      → ((c' : ControlConnection) → Keeps c' (again c'))
      → Keeps c (refilled aead again r c)
  refilled-Keeps again ([], reader) c h = refl
  refilled-Keeps again (b ∷ bytes, reader) c h = h _

  decrypted-Keeps :
      (again : ControlConnection → Reading Bool) (a : Option (Bytes × ℕ) × Decryptor)
      (c : ControlConnection)
      → ((c' : ControlConnection) → Keeps c' (again c'))
      → Keeps c (decrypted aead again a c)
  decrypted-Keeps again (none, d) c h = refl
  decrypted-Keeps again (some ([], used), d) c h =
      refilled-Keeps again (read read_chunk c.reader) _ h
  decrypted-Keeps again (some (b ∷ plaintext, used), d) c h = refl

  fill_loop-Keeps :
      (fuel : ℕ) (dec : Option Decryptor) (c : ControlConnection)
      → Keeps c (fill_loop aead fuel dec c)
  unfolding fill_loop
  fill_loop-Keeps zero dec c = refl
  fill_loop-Keeps (suc fuel) none c = refl
  fill_loop-Keeps (suc fuel) (some d) c =
      decrypted-Keeps (λ c'. fill_loop aead fuel c'.dec c')
        (decrypt_available aead d c.cipher_pending) c (λ c'. fill_loop-Keeps fuel c'.dec c')

  fill_encrypted-Keeps : (c : ControlConnection) → Keeps c (fill_encrypted aead c)
  unfolding fill_encrypted
  fill_encrypted-Keeps c = fill_loop-Keeps (suc (length (flatten c.reader))) c.dec c

  one_byte-Keeps : (r : Bytes × List Bytes) (c : ControlConnection) → Keeps c (one_byte aead r c)
  one_byte-Keeps ([], reader) c = refl
  one_byte-Keeps (b ∷ bytes, reader) c = refl

  read_byte_loop-Keeps :
      (fuel : ℕ) (dec : Option Decryptor) (plain : Bytes) (c : ControlConnection)
      → Keeps c (read_byte_loop aead fuel dec plain c)
  unfolding read_byte_loop
  read_byte_loop-Keeps zero dec plain c = refl
  read_byte_loop-Keeps (suc fuel) dec (b ∷ plain) c = refl
  read_byte_loop-Keeps (suc fuel) none [] c = one_byte-Keeps (read 1 c.reader) c
  read_byte_loop-Keeps (suc fuel) (some d) [] c =
      Keeps-and_then c (fill_encrypted aead c) _ (fill_encrypted-Keeps c)
        (λ more c'. Keeps-if more c' _ _ (read_byte_loop-Keeps fuel c'.dec c'.plain c') refl)

  some_bytes-Keeps :
      (again : Bytes → ControlConnection → Reading Bytes) (r : Bytes × List Bytes)
      (c : ControlConnection)
      → ((bytes : Bytes) (c' : ControlConnection) → Keeps c' (again bytes c'))
      → Keeps c (some_bytes aead again r c)
  some_bytes-Keeps again ([], reader) c h = refl
  some_bytes-Keeps again (b ∷ bytes, reader) c h = h _ _

  read_exact_loop-Keeps :
      (fuel n : ℕ) (dec : Option Decryptor) (plain out : Bytes) (c : ControlConnection)
      → Keeps c (read_exact_loop aead fuel n dec plain out c)
  unfolding read_exact_loop
  read_exact_loop-Keeps zero n dec plain out c = refl
  read_exact_loop-Keeps (suc fuel) zero dec plain out c = refl
  read_exact_loop-Keeps (suc fuel) (suc n) dec (b ∷ plain) out c =
      read_exact_loop-Keeps fuel n dec plain (out ++ b ∷ []) (record c { plain = plain })
  read_exact_loop-Keeps (suc fuel) (suc n) none [] out c =
      some_bytes-Keeps
        (λ bytes (c' : ControlConnection).
          read_exact_loop aead fuel (suc n - length bytes) c'.dec c'.plain (out ++ bytes) c')
        (read (suc n) c.reader) c
        (λ bytes c'.
          read_exact_loop-Keeps fuel (suc n - length bytes) c'.dec c'.plain (out ++ bytes) c')
  read_exact_loop-Keeps (suc fuel) (suc n) (some d) [] out c =
      Keeps-and_then c (fill_encrypted aead c) _ (fill_encrypted-Keeps c) (λ more c'.
        Keeps-if more c' _ _ (read_exact_loop-Keeps fuel (suc n) c'.dec c'.plain out c') refl)

  unless_ended-Keeps :
      (again : ControlConnection → Reading (Option Bytes)) (o : Option (IoResult (Option Bytes)))
      (c : ControlConnection)
      → ((c' : ControlConnection) → Keeps c' (again c'))
      → Keeps c (unless_ended again o c)
  unless_ended-Keeps again (some result) c h = refl
  unless_ended-Keeps again none c h = h c

  read_head_loop-Keeps :
      (fuel : ℕ) (head : Bytes) (c : ControlConnection) → Keeps c (read_head_loop aead fuel head c)
  unfolding read_head_loop read_byte
  read_head_loop-Keeps zero head c = refl
  read_head_loop-Keeps (suc fuel) head c =
      Keeps-and_then c (read_byte aead c) _ (read_byte_loop-Keeps 2 c.dec c.plain c) (λ byte c'.
        unless_ended-Keeps _ (head_ended byte head) c'
          (λ c''. read_head_loop-Keeps fuel (extended head byte) c''))

  body_of-Keeps :
      (parsed : IoResult (Head × ℕ)) (c : ControlConnection) → Keeps c (body_of aead parsed c)
  unfolding read_exact_n
  body_of-Keeps (err e) c = refl
  body_of-Keeps (ok (head, len)) c =
      Keeps-and_then c (read_exact_n aead len c) _
        (read_exact_loop-Keeps (suc (len + len)) len c.dec c.plain [] c) (λ body c'. refl)

  request_of-Keeps :
      (head : Option Bytes) (c : ControlConnection) → Keeps c (request_of aead head c)
  request_of-Keeps none c = refl
  request_of-Keeps (some head) c = body_of-Keeps (request_head head) c

  pub read_request-enc : (c : ControlConnection) → (read_request aead c).1.enc ≡ c.enc
  unfolding read_request read_head
  read_request-enc c =
      Keeps-and_then c (read_head aead c) _ (read_head_loop-Keeps (max_head + 2) [] c)
        (λ head c'. request_of-Keeps head c')

  framed_set :
      (enc : Option Encryptor) (bytes : Bytes) → is_set (framed aead enc bytes).1 ≡ is_set enc
  framed_set none bytes = refl
  framed_set (some e) bytes = refl

  pub is_encrypted-read_request :
      (c : ControlConnection) → is_encrypted (read_request aead c).1 ≡ is_encrypted c
  is_encrypted-read_request c = ap (λ (o : Option Encryptor). is_set o) (read_request-enc c)

  pub is_encrypted-write_response :
      (response : Response) (c : ControlConnection)
      → is_encrypted (write_response aead response c) ≡ is_encrypted c
  unfolding write_response
  is_encrypted-write_response response c = framed_set c.enc (to_bytes response)
