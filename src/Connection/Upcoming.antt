-- ===== src/Connection/Upcoming.antt =====
-- The plaintext that a connection is going to deliver, and the reads that leave a rest of it.
use openairplay.Prelude.{
  ℕ, zero, suc, ◌≡◌, ◌≤◌, ◌<◌, refl, sym, ap, subst, ◌∙◌, Bool, true, false, Option, none, some,
  List, [], ◌∷◌, ◌++◌, append_assoc, append-nil, length, drop, length-append, flatten, Bytes, arith,
}
use openairplay.Prelude.Io.{ok}
use openairplay.Aead.{Aead}
use openairplay.Cipher.{Decryptor, decrypt_available}
use openairplay.Cipher.Frames.{Answer, IsPartial, after, available_partial}
use openairplay.Cipher.Pieces.{
  continue, decrypt_available-append, Settled, decrypt_available-Settled,
}
use openairplay.Connection.{
  ControlConnection, Reading, read, read_chunk, refilled, decrypted, fill_loop, fill_encrypted,
}
use openairplay.Connection.Transport.{ReadResult, ended, came, read_lem}

module _ (aead : Aead) where
  -- All the ciphertext that is there or arrives decrypts to `q`.
  pub record Decrypts (d : Decryptor) (ciphertext q : Bytes) : Type 0 where
    pub used : ℕ
    pub final : Decryptor
    pub decrypts : decrypt_available aead d ciphertext ≡ (some (q, used), final)

  -- In the clear (`m` is false) the bytes that arrive are the plaintext. Encrypted, it is what is decrypted
  -- already, and what the ciphertext decrypts to.
  pub data Upcoming (m : Bool) (c : ControlConnection) (s : Bytes) : Type 0 where
    in_clear :
        m ≡ false
        → c.dec ≡ none
        → c.plain ≡ []
        → c.cipher_pending ≡ []
        → flatten c.reader ≡ s
        → Upcoming m c s
    encrypted :
        (d : Decryptor) (q : Bytes)
        → m ≡ true
        → c.dec ≡ some d
        → Decrypts d (c.cipher_pending ++ flatten c.reader) q
        → c.plain ++ q ≡ s
        → Upcoming m c s

  -- What an answer for the first bytes says of one for all of them.
  data Cut (q : Bytes) (first more : Bytes) : Answer → Type 0 where
    cut :
        {n : ℕ} {d : Decryptor} (p q' : Bytes)
        → Decrypts d (drop n first ++ more) q'
        → q ≡ p ++ q'
        → IsPartial (drop n first)
        → Cut q first more (some (p, n), d)

  after_inv :
      (p q : Bytes) (n used : ℕ) (d : Decryptor) (a : Answer)
      → after p n a ≡ (some (q, used), d)
      → (q' : Bytes) × (m : ℕ) × (a ≡ (some (q', m), d)) × (q ≡ p ++ q')
  after_inv p q n used d (none, e) h = cc
  after_inv p q n used d (some (q', m), e) h = (q', m, cc, cc)

  Cut-continue :
      (q first more : Bytes) (a : Answer) (used : ℕ) (final : Decryptor)
      → continue aead a first more ≡ (some (q, used), final)
      → Settled aead a first
      → Cut q first more a
  unfolding continue
  Cut-continue q first more (none, d) used final h s = cc
  Cut-continue q first more (some (p, n), d) used final h s =
      let (q', m, e, split) =
        after_inv p q n used final (decrypt_available aead d (drop n first ++ more)) h in
      cut p q' (record { used = m; final = final; decrypts = e }) split s.0

  Cut-decrypt_available :
      (d : Decryptor) (q first more : Bytes)
      → Decrypts d (first ++ more) q
      → Cut q first more (decrypt_available aead d first)
  Cut-decrypt_available d q first more h =
      Cut-continue q first more (decrypt_available aead d first) h.used h.final
        (sym (decrypt_available-append aead d first more) ∙ h.decrypts)
        (decrypt_available-Settled aead d first)

  -- What `fill_encrypted` brings when no plaintext is left.
  pub data Filled (m : Bool) (s : Bytes) : Reading Bool → Type 0 where
    no_more : {c : ControlConnection} → s ≡ [] → Upcoming m c [] → Filled m s (ok false, c)
    filled :
        {c : ControlConnection} (d : Decryptor) (b : ℕ) (plain : Bytes)
        → c.plain ≡ b ∷ plain
        → c.dec ≡ some d
        → Upcoming m c s
        → Filled m s (ok true, c)

  nothing_left :
      (d : Decryptor) (pending q : Bytes)
      → IsPartial pending
      → Decrypts d (pending ++ []) q
      → q ≡ []
  nothing_left d pending q h e =
      let here = sym (ap (decrypt_available aead d) (append-nil pending)) ∙ e.decrypts in
      cc (available_partial aead d pending h, here)

module _ (aead : Aead) (m : Bool) (secret : m ≡ true) where
  -- The rounds behind a round that decrypts nothing.
  abbrev Refills : (ControlConnection → Reading Bool) → ℕ → Type 0
  Refills again fuel =
      (d : Decryptor) (c : ControlConnection) (q : Bytes)
      → c.dec ≡ some d
      → c.plain ≡ []
      → Decrypts aead d (c.cipher_pending ++ flatten c.reader) q
      → length (flatten c.reader) < fuel
      → Filled aead m q (again c)

  refilled-Filled :
      (again : ControlConnection → Reading Bool) (fuel : ℕ)
      → Refills again fuel
      → (d : Decryptor) (c : ControlConnection) (q more : Bytes) (r : Bytes × List Bytes)
      → ReadResult read_chunk more r
      → c.dec ≡ some d
      → c.plain ≡ []
      → IsPartial c.cipher_pending
      → Decrypts aead d (c.cipher_pending ++ more) q
      → length more ≤ fuel
      → Filled aead m q (refilled aead again r c)
  refilled-Filled again fuel ih d c q more _ (ended {reader} e e') hd hp part h fits =
      let none_there = subst (λ (m : Bytes). Decrypts aead d (c.cipher_pending ++ m) q) e h in
      let q_nil = nothing_left aead d c.cipher_pending q part none_there in
      let still =
        subst (λ (x : Bytes). Decrypts aead d (c.cipher_pending ++ []) x) q_nil none_there in
      no_more q_nil (
        encrypted d [] secret hd
          (subst (λ (m : Bytes). Decrypts aead d (c.cipher_pending ++ m) []) (sym e') still)
          (rw hp))
  refilled-Filled again fuel ih d c q more _ (came {reader} b bytes e le) hd hp part h fits =
      ih d (record c { reader = reader; cipher_pending = c.cipher_pending ++ b ∷ bytes }) q hd hp
        (subst (λ (m : Bytes). Decrypts aead d m q)
          (ap (λ (m : Bytes). c.cipher_pending ++ m) e
            ∙ sym (append_assoc c.cipher_pending (b ∷ bytes) (flatten reader)))
          h)
        (omega (arith, ap (λ (m : Bytes). length m) e, length-append (b ∷ bytes) (flatten reader)))

  decrypted-Filled :
      (again : ControlConnection → Reading Bool) (fuel : ℕ)
      → Refills again fuel
      → (c : ControlConnection) (q : Bytes) (a : Answer)
      → Cut aead q c.cipher_pending (flatten c.reader) a
      → c.plain ≡ []
      → length (flatten c.reader) ≤ fuel
      → Filled aead m q (decrypted aead again a c)
  decrypted-Filled again fuel ih c q _ (cut {n} {d} [] q' h e part) hp fits =
      refilled-Filled again fuel ih d
        (record c { dec = some d; cipher_pending = drop n c.cipher_pending }) q (flatten c.reader)
        (read read_chunk c.reader) (read_lem 8191 c.reader) refl hp part
        (subst (λ (x : Bytes). Decrypts aead d (drop n c.cipher_pending ++ flatten c.reader) x)
          (sym e) h)
        fits
  decrypted-Filled again fuel ih c q _ (cut {n} {d} (b ∷ p) q' h e part) hp fits =
      filled d b p (rw hp) refl (encrypted d q' secret refl h (rw (hp, e)))

  fill_loop-Filled : (fuel : ℕ) → Refills (λ c. fill_loop aead fuel c.dec c) fuel
  unfolding fill_loop
  fill_loop-Filled zero d c q hd hp h fits = absurd (omega arith)
  fill_loop-Filled (suc fuel) d c q hd hp h fits =
      subst (λ (o : Option Decryptor). Filled aead m q (fill_loop aead (suc fuel) o c)) (sym hd)
        (decrypted-Filled (λ c'. fill_loop aead fuel c'.dec c') fuel (fill_loop-Filled fuel) c q
          (decrypt_available aead d c.cipher_pending)
          (Cut-decrypt_available aead d q c.cipher_pending (flatten c.reader) h) hp (omega arith))

  -- With no plaintext left, `fill_encrypted` decrypts some of what is upcoming, or tells that there
  -- is none; the fuel is enough.
  pub fill_encrypted-Filled :
      (d : Decryptor) (c : ControlConnection) (q : Bytes)
      → c.dec ≡ some d
      → c.plain ≡ []
      → Decrypts aead d (c.cipher_pending ++ flatten c.reader) q
      → Filled aead m q (fill_encrypted aead c)
  unfolding fill_encrypted
  fill_encrypted-Filled d c q hd hp h =
      fill_loop-Filled (suc (length (flatten c.reader))) d c q hd hp h (omega arith)
