-- ===== src/Cipher/Authentic.antt =====
-- What `decrypt_available` accepts was encrypted by the holder of the key, in this order.
use openairplay.Prelude.{
  ℕ, zero, suc, ◌+◌, ◌/◌, ◌%◌, ◌≤◌, ◌≡◌, refl, sym, ap, ◌∙◌, some, none, List, [], ◌∷◌, ◌++◌,
  append_assoc, length, take, drop, All, All-drop, drop-add, take-append-drop, length-take,
  length-drop, flatten, Bytes, IsByte, from_le16, arith,
}
use openairplay.Aead.{Aead, AeadLaws}
use openairplay.Cipher.{
  Encryptor, Decryptor, nonce_for, tag_len, encrypt_block, encrypt_blocks, decrypt_available,
}
use openairplay.Cipher.Frames.{
  Answer, after, next, opened, View, partial, refused, opens, view, available_partial,
  available_refused, available_opened,
}
use openairplay.Cipher.Stream.{peer}

abbrev mirror : Decryptor → Encryptor
mirror d = record { key = d.key; counter = d.counter }

module _ (aead : Aead) where
  -- The bytes used are the blocks of some plaintexts, encrypted from this counter on, with no gap.
  pub record Sent (d : Decryptor) (input plain : Bytes) (used : ℕ) (d' : Decryptor) : Type 0 where
    pub blocks : List Bytes
    pub frames : input ≡ (encrypt_blocks aead (mirror d) blocks).0 ++ drop used input
    pub plaintext : plain ≡ flatten blocks
    pub state : d' ≡ peer (encrypt_blocks aead (mirror d) blocks).1

  abbrev pub IsAuthentic : Decryptor → Bytes → Answer → Type 0
  IsAuthentic d input (none, d') = Unit
  IsAuthentic d input (some (plain, used), d') = Sent d input plain used d'

  module _ (laws : AeadLaws aead) where
    opened-encrypt_block :
        (d : Decryptor) (b0 b1 : ℕ) (rest pt : Bytes)
        → IsByte b0
        → IsByte b1
        → from_le16 b0 b1 + tag_len ≤ length rest
        → opened aead d b0 b1 rest ≡ some pt
        → b0 ∷ b1 ∷ take (from_le16 b0 b1 + tag_len) rest ≡ encrypt_block aead (mirror d) pt
    unfolding encrypt_block
    opened-encrypt_block d b0 b1 rest pt h0 h1 h e =
        let n = from_le16 b0 b1 + tag_len in
        let ct =
          laws.encrypt-decrypt d.key (nonce_for d.counter) (b0 ∷ b1 ∷ []) (take n rest) pt e in
        let size : length pt ≡ from_le16 b0 b1 = omega (
          arith,
          ap (λ (c : Bytes). length c) ct,
          length-take n rest,
          laws.length-encrypt d.key (nonce_for d.counter) (b0 ∷ b1 ∷ []) pt,
        ) in
        let lo : length pt % 256 ≡ b0 = omega (arith, size) in
        let hi : length pt / 256 % 256 ≡ b1 = omega (arith, size) in
        rw (lo, hi) (ap (λ (c : Bytes). b0 ∷ b1 ∷ c) ct)

    Sent-cons :
        (d : Decryptor) (b0 b1 : ℕ) (rest pt plain : Bytes) (used : ℕ) (d' : Decryptor)
        → b0 ∷ b1 ∷ take (from_le16 b0 b1 + tag_len) rest ≡ encrypt_block aead (mirror d) pt
        → Sent (next d) (drop (from_le16 b0 b1 + tag_len) rest) plain used d'
        → Sent d (b0 ∷ b1 ∷ rest) (pt ++ plain) (2 + from_le16 b0 b1 + tag_len + used) d'
    unfolding encrypt_blocks
    Sent-cons d b0 b1 rest pt plain used d' block s = record {
      blocks = pt ∷ s.blocks;
      frames =
          ap (λ (r : Bytes). b0 ∷ b1 ∷ r) (sym (take-append-drop n rest))
          ∙ ap (λ (r : Bytes). r ++ tail) block
          ∙ ap (λ (r : Bytes). encrypt_block aead (mirror d) pt ++ r) s.frames
          ∙ sym (append_assoc (encrypt_block aead (mirror d) pt) out (drop used tail))
          ∙ ap (λ (r : Bytes). (encrypt_block aead (mirror d) pt ++ out) ++ r) (sym skip);
      plaintext = ap (λ (r : Bytes). pt ++ r) s.plaintext;
      state = s.state;
    }
      where
        n : ℕ
        n = from_le16 b0 b1 + tag_len

        tail : Bytes
        tail = drop n rest

        out : Bytes
        out = (encrypt_blocks aead (mirror (next d)) s.blocks).0

        sum : 2 + from_le16 b0 b1 + tag_len + used ≡ suc (suc (n + used))
        sum = omega arith

        skip : drop (2 + from_le16 b0 b1 + tag_len + used) (b0 ∷ b1 ∷ rest) ≡ drop used tail
        skip = ap (λ (k : ℕ). drop k (b0 ∷ b1 ∷ rest)) sum ∙ drop-add n used rest

    IsAuthentic-after :
        (d : Decryptor) (b0 b1 : ℕ) (rest pt : Bytes) (r : Answer)
        → b0 ∷ b1 ∷ take (from_le16 b0 b1 + tag_len) rest ≡ encrypt_block aead (mirror d) pt
        → IsAuthentic (next d) (drop (from_le16 b0 b1 + tag_len) rest) r
        → IsAuthentic d (b0 ∷ b1 ∷ rest) (after pt (2 + from_le16 b0 b1 + tag_len) r)
    IsAuthentic-after d b0 b1 rest pt (none, d') block s = tt
    IsAuthentic-after d b0 b1 rest pt (some (plain, used), d') block s =
        Sent-cons d b0 b1 rest pt plain used d' block s

    available-IsAuthentic :
        (fuel : ℕ) (d : Decryptor) (input : Bytes)
        → View aead d input
        → All IsByte input
        → length input ≤ fuel
        → IsAuthentic d input (decrypt_available aead d input)
    unfolding encrypt_blocks
    available-IsAuthentic fuel d input (partial h) hb hf =
        rw (available_partial aead d input h)
          (record { blocks = []; frames = refl; plaintext = refl; state = refl })
    available-IsAuthentic fuel d _ (refused {b0} {b1} {rest} h e) hb hf =
        rw (available_refused aead d b0 b1 rest h e) tt
    available-IsAuthentic zero d _ (opens {b0} {b1} {rest} pt h e) hb hf = absurd (omega arith)
    available-IsAuthentic (suc fuel) d _ (opens {b0} {b1} {rest} pt h e) hb hf =
        let n = from_le16 b0 b1 + tag_len in
        let tail = drop n rest in
        rw (available_opened aead d b0 b1 rest pt h e) (
          IsAuthentic-after d b0 b1 rest pt (decrypt_available aead (next d) tail)
            (opened-encrypt_block d b0 b1 rest pt hb.0 hb.1.0 h e)
            (available-IsAuthentic fuel (next d) tail (view aead (next d) tail)
              (All-drop IsByte n rest hb.1.1) (omega (arith, length-drop n rest))))

    -- Whatever `decrypt_available` accepts is what an encryptor with the same key and counter makes
    -- of some blocks in this order: nothing is injected, replayed, dropped or reordered. The
    -- plaintext is those blocks, and the counter has moved past them.
    pub decrypt_available-IsAuthentic :
        (d : Decryptor) (input : Bytes)
        → All IsByte input
        → IsAuthentic d input (decrypt_available aead d input)
    decrypt_available-IsAuthentic d input hb =
        available-IsAuthentic (length input) d input (view aead d input) hb (omega arith)
