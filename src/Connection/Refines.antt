-- ===== src/Connection/Refines.antt =====
-- The reads of a connection are those of the stream of its plaintext, in the clear and encrypted,
-- however the bytes arrive.
use openairplay.Prelude.{
  ℕ, suc, ◌≡◌, refl, sym, ap, subst, ◌∙◌, Bool, true, false, if◌then◌else◌, Option, none, some,
  List, [], ◌∷◌, ◌++◌, flatten, Bytes, arith,
}
use openairplay.Prelude.Io.{ok}
use openairplay.Aead.{Aead}
use openairplay.Cipher.{Decryptor}
use openairplay.Connection.{
  ControlConnection, Reading, read, one_byte, read_byte_loop, read_byte, fill_encrypted, and_then,
}
use openairplay.Connection.Transport.{ReadResult, ended, came, read_lem}
use openairplay.Connection.Upcoming.{
  Upcoming, in_clear, encrypted, Decrypts, Filled, no_more, filled, fill_encrypted-Filled,
}
use openairplay.Connection.Stream.{Outcome, stream_byte}

module _ (aead : Aead) (m : Bool) where
  -- The result, and that the rest of the stream is upcoming.
  pub record Reads {A : Type 0} (r : Reading A) (o : Outcome A) : Type 0 where
    pub result : r.0 ≡ o.0
    pub rest : Upcoming aead m r.1 o.1

  one_byte-Reads :
      (c : ControlConnection) (s : Bytes) (r : Bytes × List Bytes)
      → m ≡ false
      → c.dec ≡ none
      → c.plain ≡ []
      → c.cipher_pending ≡ []
      → ReadResult 1 s r
      → Reads (one_byte aead r c) (stream_byte s)
  one_byte-Reads c s _ clear hd hp hc (ended {reader} e e') =
      subst (λ (x : Bytes). Reads (one_byte aead ([], reader) c) (stream_byte x)) (sym e)
        (record { result = refl; rest = in_clear clear hd hp hc e' })
  one_byte-Reads c s _ clear hd hp hc (came {reader} b [] e le) =
      subst (λ (x : Bytes). Reads (one_byte aead (b ∷ [], reader) c) (stream_byte x)) (sym e)
        (record { result = refl; rest = in_clear clear hd hp hc refl })
  one_byte-Reads c s _ clear hd hp hc (came {reader} b (_ ∷ _) e le) = absurd (omega arith)

  -- A byte of the plaintext that is there.
  plain_byte-Reads :
      (fuel : ℕ) (dec : Option Decryptor) (d : Decryptor) (c : ControlConnection) (b : ℕ)
      (plain q s : Bytes)
      → m ≡ true
      → c.dec ≡ some d
      → Decrypts aead d (c.cipher_pending ++ flatten c.reader) q
      → (b ∷ plain) ++ q ≡ s
      → Reads (read_byte_loop aead (suc fuel) dec (b ∷ plain) c) (stream_byte s)
  unfolding read_byte_loop
  plain_byte-Reads fuel dec d c b plain q s secret hd h e =
      subst
        (λ (x : Bytes). Reads (read_byte_loop aead (suc fuel) dec (b ∷ plain) c) (stream_byte x)) e
        (record { result = refl; rest = encrypted d q secret hd h refl })

  byte_there-Reads :
      (fuel : ℕ) (dec : Option Decryptor) (c : ControlConnection) (b : ℕ) (plain s : Bytes)
      → c.plain ≡ b ∷ plain
      → Upcoming aead m c s
      → Reads (read_byte_loop aead (suc fuel) dec (b ∷ plain) c) (stream_byte s)
  byte_there-Reads fuel dec c b plain s hp (in_clear clear hd hp' hc e) = cc
  byte_there-Reads fuel dec c b plain s hp (encrypted d q secret hd h e) =
      plain_byte-Reads fuel dec d c b plain q s secret hd h
        (ap (λ (p : Bytes). p ++ q) (sym hp) ∙ e)

  -- What the second round of `read_byte` makes of what `fill_encrypted` tells.
  abbrev after_fill : Bool → ControlConnection → Reading (Option ℕ)
  after_fill more c =
      let again = read_byte_loop aead 1 c.dec c.plain c in if more then again else (ok none, c)

  after_fill-Reads :
      (s : Bytes) (r : Reading Bool)
      → Filled aead m s r
      → Reads (and_then r after_fill) (stream_byte s)
  after_fill-Reads s _ (no_more {c} e up) =
      subst (λ (x : Bytes). Reads (and_then (ok false, c) after_fill) (stream_byte x)) (sym e)
        (record { result = refl; rest = up })
  after_fill-Reads s _ (filled {c} d b plain hp hd up) =
      subst (λ (x : Bytes). Reads (read_byte_loop aead 1 c.dec x c) (stream_byte s)) (sym hp)
        (byte_there-Reads 0 c.dec c b plain s hp up)

  byte_loop-Reads :
      (dec : Option Decryptor) (plain : Bytes) (c : ControlConnection) (s : Bytes)
      → c.dec ≡ dec
      → c.plain ≡ plain
      → Upcoming aead m c s
      → Reads (read_byte_loop aead 2 dec plain c) (stream_byte s)
  unfolding read_byte_loop
  byte_loop-Reads dec (b ∷ plain) c s hd hp up = byte_there-Reads 1 dec c b plain s hp up
  byte_loop-Reads none [] c s hd hp (in_clear clear hd' hp' hc e) =
      one_byte-Reads c s (read 1 c.reader) clear hd' hp' hc
        (subst (λ (x : Bytes). ReadResult 1 x (read 1 c.reader)) e (read_lem 0 c.reader))
  byte_loop-Reads none [] c s hd hp (encrypted d q secret hd' h e) = cc
  byte_loop-Reads (some d) [] c s hd hp (in_clear clear hd' hp' hc e) = cc
  byte_loop-Reads (some d) [] c s hd hp (encrypted d' q secret hd' h e) =
      after_fill-Reads s (fill_encrypted aead c) (
        fill_encrypted-Filled aead m secret d' c s hd' hp (
          subst (λ (x : Bytes). Decrypts aead d' (c.cipher_pending ++ flatten c.reader) x)
            (ap (λ (p : Bytes). p ++ q) (sym hp) ∙ e) h))

  -- `read_byte` takes the next byte of the stream, and tells where it ends.
  pub read_byte-Reads :
      (c : ControlConnection) (s : Bytes)
      → Upcoming aead m c s
      → Reads (read_byte aead c) (stream_byte s)
  unfolding read_byte
  read_byte-Reads c s up = byte_loop-Reads c.dec c.plain c s refl refl up
