-- ===== src/Cipher/Pieces.antt =====
-- `decrypt_available` on a stream that arrives in pieces.
use openairplay.Prelude.{
  ℕ, zero, suc, ◌+◌, ◌≤◌, ◌≡◌, refl, sym, ap, ◌∙◌, some, none, [], ◌∷◌, ◌++◌, length, drop,
  length-append, take-append_le, drop-append_le, drop-add, length-drop, Bytes, from_le16, arith,
}
use openairplay.Aead.{Aead}
use openairplay.Cipher.{Decryptor, tag_len, nonce_for, decrypt_available}
use openairplay.Cipher.Frames.{
  IsPartial, Answer, after, next, after-after, after_nothing, View, partial, refused, opens, view,
  available_partial, available_refused, available_opened,
}

module _ (aead : Aead) where
  -- More bytes behind those that an answer is about.
  unfoldable pub continue : Answer → Bytes → Bytes → Answer
  continue (none, d) a b = (none, d)
  continue (some (p, n), d) a b = after p n (decrypt_available aead d (drop n a ++ b))

  continue-after :
      (plain : Bytes) (pos : ℕ) (r : Answer) (a b : Bytes)
      → continue (after plain pos r) a b ≡ after plain pos (continue r (drop pos a) b)
  unfolding continue
  continue-after plain pos (none, d) a b = refl
  continue-after plain pos (some (p, n), d) a b =
      rw (drop-add pos n a)
        (sym (after-after plain p pos n (decrypt_available aead d (drop n (drop pos a) ++ b))))

  drop_block : (n b0 b1 : ℕ) (rest : Bytes) → drop (2 + n) (b0 ∷ b1 ∷ rest) ≡ drop n rest
  drop_block n b0 b1 rest =
      let two : 2 + n ≡ suc (suc n) = omega arith in ap (λ (k : ℕ). drop k (b0 ∷ b1 ∷ rest)) two

  append-continue :
      (fuel : ℕ) (d : Decryptor) (a b : Bytes)
      → View aead d a
      → length a ≤ fuel
      → decrypt_available aead d (a ++ b) ≡ continue (decrypt_available aead d a) a b
  append-continue fuel d a b (partial h) hf = sym (
      ap (λ (r : Answer). continue r a b) (available_partial aead d a h)
      ∙ unfold continue in after_nothing (decrypt_available aead d (a ++ b)))
  append-continue fuel d _ b (refused {b0} {b1} {rest} h e) hf =
      let len = from_le16 b0 b1 + tag_len in
      available_refused aead d b0 b1 (rest ++ b) (omega (arith, length-append rest b)) (
        ap (λ (c : Bytes). aead.decrypt d.key (nonce_for d.counter) (b0 ∷ b1 ∷ []) c)
          (take-append_le len rest b h)
        ∙ e)
      ∙ sym (
          ap (λ (r : Answer). continue r (b0 ∷ b1 ∷ rest) b)
            (available_refused aead d b0 b1 rest h e)
          ∙ unfold continue in refl)
  append-continue zero d _ b (opens {b0} {b1} {rest} pt h e) hf = absurd (omega arith)
  append-continue (suc fuel) d _ b (opens {b0} {b1} {rest} pt h e) hf =
      let len = from_le16 b0 b1 + tag_len in
      let n = 2 + from_le16 b0 b1 + tag_len in
      let tail = drop len rest in
      let later = decrypt_available aead (next d) tail in
      let skip : drop n (b0 ∷ b1 ∷ rest) ≡ tail =
        ap (λ (k : ℕ). drop k (b0 ∷ b1 ∷ rest)) (omega arith) ∙ drop_block len b0 b1 rest in
      available_opened aead d b0 b1 (rest ++ b) pt (omega (arith, length-append rest b)) (
        ap (λ (c : Bytes). aead.decrypt d.key (nonce_for d.counter) (b0 ∷ b1 ∷ []) c)
          (take-append_le len rest b h)
        ∙ e)
      ∙ ap (λ (r : Bytes). after pt n (decrypt_available aead (next d) r))
          (drop-append_le len rest b h)
      ∙ ap (after pt n) (
          append-continue fuel (next d) tail b (view aead (next d) tail)
            (omega (arith, length-drop len rest)))
      ∙ ap (λ (r : Bytes). after pt n (continue later r b)) (sym skip)
      ∙ sym (continue-after pt n later (b0 ∷ b1 ∷ rest) b)
      ∙ ap (λ (r : Answer). continue r (b0 ∷ b1 ∷ rest) b)
          (sym (available_opened aead d b0 b1 rest pt h e))

  -- Where a stream is cut does not matter: to decrypt `a`, keep the bytes that are not used, and go
  -- on with them and `b`, is to decrypt `a ++ b`, in success and in failure.
  pub decrypt_available-append :
      (d : Decryptor) (a b : Bytes)
      → decrypt_available aead d (a ++ b) ≡ continue (decrypt_available aead d a) a b
  decrypt_available-append d a b = append-continue (length a) d a b (view aead d a) (omega arith)

  -- What an answer leaves of its input.
  abbrev pub Settled : Answer → Bytes → Type 0
  Settled (none, d) a = Unit
  Settled (some (p, n), d) a = IsPartial (drop n a) × (n ≤ length a)

  Settled-after :
      (plain : Bytes) (pos : ℕ) (r : Answer) (a : Bytes)
      → pos ≤ length a
      → Settled r (drop pos a)
      → Settled (after plain pos r) a
  Settled-after plain pos (none, d) a h s = tt
  Settled-after plain pos (some (p, n), d) a h s =
      (rw (drop-add pos n a) s.0, omega (arith, length-drop pos a, s.1))

  Settled-fuel :
      (fuel : ℕ) (d : Decryptor) (a : Bytes)
      → View aead d a
      → length a ≤ fuel
      → Settled (decrypt_available aead d a) a
  Settled-fuel fuel d a (partial h) hf = rw (available_partial aead d a h) (h, omega arith)
  Settled-fuel fuel d _ (refused {b0} {b1} {rest} h e) hf =
      rw (available_refused aead d b0 b1 rest h e) tt
  Settled-fuel zero d _ (opens {b0} {b1} {rest} pt h e) hf = absurd (omega arith)
  Settled-fuel (suc fuel) d _ (opens {b0} {b1} {rest} pt h e) hf =
      let len = from_le16 b0 b1 + tag_len in
      let n = 2 + from_le16 b0 b1 + tag_len in
      let tail = drop len rest in
      let skip : drop n (b0 ∷ b1 ∷ rest) ≡ tail =
        ap (λ (k : ℕ). drop k (b0 ∷ b1 ∷ rest)) (omega arith) ∙ drop_block len b0 b1 rest in
      rw (available_opened aead d b0 b1 rest pt h e) (
        Settled-after pt n (decrypt_available aead (next d) tail) (b0 ∷ b1 ∷ rest) (omega arith) (
          rw skip (
            Settled-fuel fuel (next d) tail (view aead (next d) tail)
              (omega (arith, length-drop len rest)))))

  -- A successful answer has used whole blocks, and every one there is: what is left is the beginning
  -- of a block.
  pub decrypt_available-Settled :
      (d : Decryptor) (a : Bytes) → Settled (decrypt_available aead d a) a
  decrypt_available-Settled d a = Settled-fuel (length a) d a (view aead d a) (omega arith)
