-- ===== src/Connection/Body.antt =====
-- `read_exact_n` takes as many bytes of the stream as it is asked for, or tells that they end.
use openairplay.Prelude.{
  ℕ, zero, suc, ◌+◌, ◌-◌, ◌≡◌, ◌≤◌, ◌<◌, refl, sym, ap, subst, ◌∙◌, Bool, false, leb, if◌then◌else◌,
  Option, none, some, List, [], ◌∷◌, ◌++◌, append_assoc, append-nil, length, take, drop, flatten,
  Bytes, arith,
}
use openairplay.Prelude.Io.{ok, err, unexpected_eof}
use openairplay.Aead.{Aead}
use openairplay.Cipher.{Decryptor}
use openairplay.Connection.{
  ControlConnection, Reading, read, some_bytes, read_exact_loop, read_exact_n, fill_encrypted,
  and_then,
}
use openairplay.Connection.Transport.{ReadResult, ended, came, read_lem}
use openairplay.Connection.Upcoming.{
  Upcoming, in_clear, encrypted, Decrypts, Filled, no_more, filled, fill_encrypted-Filled,
}
use openairplay.Connection.Stream.{Outcome, stream_exact}
use openairplay.Connection.Refines.{Reads}

-- The rest of a body of which `out` was read.
abbrev exact_after : ℕ → Bytes → Bytes → Outcome Bytes
exact_after n out s =
    (if leb n (length s) then ok (out ++ take n s) else err unexpected_eof, drop n s)

exact_after-cons :
    (n : ℕ) (out : Bytes) (b : ℕ) (s : Bytes)
    → exact_after n (out ++ b ∷ []) s ≡ exact_after (suc n) out (b ∷ s)
exact_after-cons n out b s = ground (arith, append_assoc out (b ∷ []) (take n s))

exact_after-append :
    (bytes : Bytes) (n : ℕ) (out s : Bytes)
    → length bytes ≤ n
    → exact_after (n - length bytes) (out ++ bytes) s ≡ exact_after n out (bytes ++ s)
exact_after-append [] n out s h = rw append-nil (ap (λ (k : ℕ). exact_after k out s) (omega arith))
exact_after-append (b ∷ bytes) zero out s h = absurd (omega arith)
exact_after-append (b ∷ bytes) (suc n) out s h =
    ap (λ (o : Bytes). exact_after (suc n - suc (length bytes)) o s)
      (sym (append_assoc out (b ∷ []) bytes))
    ∙ ap (λ (k : ℕ). exact_after k ((out ++ b ∷ []) ++ bytes) s) (omega arith)
    ∙ exact_after-append bytes n (out ++ b ∷ []) s (omega arith)
    ∙ exact_after-cons n out b (bytes ++ s)

-- Two rounds for each byte, and one more when no plaintext is there.
abbrev Enough : ℕ → ℕ → Bytes → Type 0
Enough fuel n [] = n + n < fuel
Enough fuel n (b ∷ plain) = (n + n ≤ fuel) × (0 < fuel)

Enough-of_lt : (fuel n : ℕ) (plain : Bytes) → n + n < fuel → Enough fuel n plain
Enough-of_lt fuel n [] h = h
Enough-of_lt fuel n (b ∷ plain) h = (omega arith, omega arith)

Enough-pos : (fuel n : ℕ) (plain : Bytes) → Enough fuel n plain → 0 < fuel
Enough-pos fuel n [] h = omega arith
Enough-pos fuel n (b ∷ plain) h = h.1

module _ (aead : Aead) (m : Bool) where
  -- The later rounds, with fuel for every number of bytes below a bound.
  abbrev Goes : ℕ → Type 0
  Goes fuel =
      (n : ℕ) (dec : Option Decryptor) (plain out : Bytes) (c : ControlConnection) (s : Bytes)
      → c.dec ≡ dec
      → c.plain ≡ plain
      → Upcoming aead m c s
      → Enough fuel n plain
      → Reads aead m (read_exact_loop aead fuel n dec plain out c) (exact_after n out s)

  done-Reads :
      (fuel : ℕ) (dec : Option Decryptor) (plain out : Bytes) (c : ControlConnection) (s : Bytes)
      → Upcoming aead m c s
      → Reads aead m (read_exact_loop aead (suc fuel) 0 dec plain out c) (exact_after 0 out s)
  unfolding read_exact_loop
  done-Reads fuel dec plain out c s up = record {
    result = ground (arith, append-nil out);
    rest = up;
  }

  plain-Reads :
      (fuel n : ℕ) (dec : Option Decryptor) (b : ℕ) (plain out : Bytes) (c : ControlConnection)
      (s : Bytes)
      → Goes fuel
      → c.dec ≡ dec
      → c.plain ≡ b ∷ plain
      → Upcoming aead m c s
      → n + n < fuel
      → Reads aead m
          (read_exact_loop aead (suc fuel) (suc n) dec (b ∷ plain) out c)
          (exact_after (suc n) out s)
  unfolding read_exact_loop
  plain-Reads fuel n dec b plain out c s ih hd hp (in_clear clear hd' hp' hc e) h = cc
  plain-Reads fuel n dec b plain out c s ih hd hp (encrypted d q secret hd' dq e) h =
      let split : b ∷ (plain ++ q) ≡ s = ap (λ (p : Bytes). p ++ q) (sym hp) ∙ e in
      subst
        (λ (o : Outcome Bytes).
          Reads aead m
            (read_exact_loop aead fuel n dec plain (out ++ b ∷ []) (record c { plain = plain })) o)
        (exact_after-cons n out b (plain ++ q) ∙ ap (exact_after (suc n) out) split)
        (ih n dec plain (out ++ b ∷ []) (record c { plain = plain }) (plain ++ q) hd refl
          (encrypted d q secret hd' dq refl) (Enough-of_lt fuel n plain h))

  abbrev again_clear : ℕ → ℕ → Bytes → Bytes → ControlConnection → Reading Bytes
  again_clear fuel n out bytes c =
      read_exact_loop aead fuel (suc n - length bytes) c.dec c.plain (out ++ bytes) c

  clear-Reads :
      (fuel n : ℕ) (out : Bytes) (c : ControlConnection) (s : Bytes) (r : Bytes × List Bytes)
      → Goes fuel
      → m ≡ false
      → c.dec ≡ none
      → c.plain ≡ []
      → c.cipher_pending ≡ []
      → ReadResult (suc n) s r
      → n + n < fuel
      → Reads aead m (some_bytes aead (again_clear fuel n out) r c) (exact_after (suc n) out s)
  clear-Reads fuel n out c s _ ih clear hd hp hc (ended {reader} e e') h =
      subst
        (λ (x : Bytes).
          Reads aead m (some_bytes aead (again_clear fuel n out) ([], reader) c)
            (exact_after (suc n) out x))
        (sym e) (record { result = ground arith; rest = in_clear clear hd hp hc e' })
  clear-Reads fuel n out c s _ ih clear hd hp hc (came {reader} b bytes e le) h =
      let c' : ControlConnection = record c { reader = reader } in
      subst (λ (o : Outcome Bytes). Reads aead m (again_clear fuel n out (b ∷ bytes) c') o)
        (exact_after-append (b ∷ bytes) (suc n) out (flatten reader) le
          ∙ ap (exact_after (suc n) out) (sym e))
        (ih (suc n - length (b ∷ bytes)) c.dec c.plain (out ++ b ∷ bytes) c' (flatten reader) refl
          refl (in_clear clear hd hp hc refl) (Enough-of_lt fuel _ c.plain (omega arith)))

  abbrev again_filled : ℕ → ℕ → Bytes → Bool → ControlConnection → Reading Bytes
  again_filled fuel n out more c =
      let again = read_exact_loop aead fuel (suc n) c.dec c.plain out c in
      if more then again else (err unexpected_eof, c)

  again_filled-Reads :
      (fuel n : ℕ) (out s : Bytes) (r : Reading Bool)
      → Goes fuel
      → Filled aead m s r
      → suc n + suc n ≤ fuel
      → Reads aead m (and_then r (again_filled fuel n out)) (exact_after (suc n) out s)
  again_filled-Reads fuel n out s _ ih (no_more {c} e up) h =
      subst
        (λ (x : Bytes).
          Reads aead m (and_then (ok false, c) (again_filled fuel n out))
            (exact_after (suc n) out x))
        (sym e) (record { result = ground arith; rest = up })
  again_filled-Reads fuel n out s _ ih (filled {c} d b plain hp hd up) h =
      ih (suc n) c.dec c.plain out c s refl refl up
        (subst (λ (p : Bytes). Enough fuel (suc n) p) (sym hp) (h, omega arith))

  read_exact_loop-Reads : (fuel : ℕ) → Goes fuel
  unfolding read_exact_loop
  read_exact_loop-Reads zero n dec plain out c s hd hp up h =
      absurd (omega (arith, Enough-pos 0 n plain h))
  read_exact_loop-Reads (suc fuel) zero dec plain out c s hd hp up h =
      done-Reads fuel dec plain out c s up
  read_exact_loop-Reads (suc fuel) (suc n) dec (b ∷ plain) out c s hd hp up h =
      plain-Reads fuel n dec b plain out c s (read_exact_loop-Reads fuel) hd hp up (omega arith)
  read_exact_loop-Reads (suc fuel) (suc n) none [] out c s hd hp (in_clear clear hd' hp' hc e) h =
      clear-Reads fuel n out c s (read (suc n) c.reader) (read_exact_loop-Reads fuel) clear hd' hp'
        hc
        (subst (λ (x : Bytes). ReadResult (suc n) x (read (suc n) c.reader)) e
          (read_lem n c.reader))
        (omega arith)
  read_exact_loop-Reads (suc fuel) (suc n) none [] out c s hd hp (encrypted d q secret hd' dq e) h =
      cc
  read_exact_loop-Reads (suc fuel) (suc n) (some d) [] out c s hd hp (in_clear clear hd' hp' hc e)
        h =
      cc
  read_exact_loop-Reads (suc fuel) (suc n) (some d) [] out c s hd hp
        (encrypted d' q secret hd' dq e) h =
      again_filled-Reads fuel n out s (fill_encrypted aead c) (read_exact_loop-Reads fuel)
        (fill_encrypted-Filled aead m secret d' c s hd' hp (
          subst (λ (x : Bytes). Decrypts aead d' (c.cipher_pending ++ flatten c.reader) x)
            (ap (λ (p : Bytes). p ++ q) (sym hp) ∙ e) dq))
        (omega arith)

  -- `read_exact_n` gives exactly the next `n` bytes of the stream and leaves what follows them, or it
  -- fails at the end of the stream; the fuel is enough.
  pub read_exact_n-Reads :
      (n : ℕ) (c : ControlConnection) (s : Bytes)
      → Upcoming aead m c s
      → Reads aead m (read_exact_n aead n c) (stream_exact n s)
  unfolding read_exact_n
  read_exact_n-Reads n c s up =
      read_exact_loop-Reads (suc (n + n)) n c.dec c.plain [] c s refl refl up
        (Enough-of_lt (suc (n + n)) n c.plain (omega arith))
