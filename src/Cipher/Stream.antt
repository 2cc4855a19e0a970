-- ===== src/Cipher/Stream.antt =====
-- The two ends of the channel, and a stream that arrives in pieces.
use openairplay.Prelude.{
  ℕ, ◌+◌, ◌/◌, ◌%◌, ◌<◌, ◌≡◌, refl, sym, ap, ◌∙◌, some, List, [], ◌∷◌, ◌++◌, append-nil,
  append_assoc, length, take, drop, All, length-append, take-append, drop-append, Bytes, from_le16,
  to_le16, from_le16-to_le16, flatten, chunks, flatten-chunks, chunks-IsPiece, IsPiece, arith,
}
use openairplay.Aead.{Aead, AeadLaws, Hkdf}
use openairplay.Cipher.{
  Encryptor, Decryptor, succ_u64, nonce_for, tag_len, block_max, encrypt_block, encrypt_blocks,
  encrypt, decrypt_available, control_channel, sender_control_channel,
}
use openairplay.Cipher.Frames.{
  IsPartial, after, next, after-after, after_nothing, available_partial, available_opened,
}

-- The two ends at the same place of the stream.
abbrev pub IsPaired : Encryptor → Decryptor → Type 0
IsPaired e d = (e.key ≡ d.key) × (e.counter ≡ d.counter)

abbrev FitsBlock : Bytes → Type 0
FitsBlock block = length block < 65536

abbrev pub peer : Encryptor → Decryptor
peer e = record { key = e.key; counter = e.counter }

module _ (aead : Aead) (laws : AeadLaws aead) where
  -- One block at the front, whatever follows it.
  available_block :
      (e : Encryptor) (block rest : Bytes)
      → FitsBlock block
      → decrypt_available aead (peer e) (encrypt_block aead e block ++ rest)
        ≡ after block
            (length (encrypt_block aead e block))
            (decrypt_available aead (next (peer e)) rest)
  unfolding encrypt_block
  available_block e block rest h =
      let lo = length block % 256 in
      let hi = length block / 256 % 256 in
      let ct = aead.encrypt e.key (nonce_for e.counter) (to_le16 (length block)) block in
      let size : from_le16 lo hi + tag_len ≡ length ct = omega (
        arith,
        from_le16-to_le16 (length block) h,
        laws.length-encrypt e.key (nonce_for e.counter) (to_le16 (length block)) block,
      ) in
      available_opened aead (peer e) lo hi (ct ++ rest) block
        (omega (arith, size, length-append ct rest))
        (ap (λ (c : Bytes). aead.decrypt e.key (nonce_for e.counter) (to_le16 (length block)) c)
            (ap (λ (n : ℕ). take n (ct ++ rest)) size ∙ take-append ct rest)
          ∙ laws.decrypt-encrypt e.key (nonce_for e.counter) (to_le16 (length block)) block)
      ∙ ap
          (λ (r : Bytes).
            after block (2 + from_le16 lo hi + tag_len) (decrypt_available aead (next (peer e)) r))
          (ap (λ (n : ℕ). drop n (ct ++ rest)) size ∙ drop-append ct rest)
      ∙ ap (λ (n : ℕ). after block n (decrypt_available aead (next (peer e)) rest))
          (omega (arith, size))

  available_blocks :
      (e : Encryptor) (blocks : List Bytes) (rest : Bytes)
      → All FitsBlock blocks
      → decrypt_available aead (peer e) ((encrypt_blocks aead e blocks).0 ++ rest)
        ≡ after
            (flatten blocks)
            (length (encrypt_blocks aead e blocks).0)
            (decrypt_available aead (peer (encrypt_blocks aead e blocks).1) rest)
  unfolding encrypt_blocks
  available_blocks e [] rest h = sym (after_nothing (decrypt_available aead (peer e) rest))
  available_blocks e (block ∷ blocks) rest (h, hs) =
      let e' = record e { counter = succ_u64 e.counter } in
      let (out, e'') = encrypt_blocks aead e' blocks in
      rw (append_assoc (encrypt_block aead e block) out rest) (
        available_block e block (out ++ rest) h
        ∙ ap (after block (length (encrypt_block aead e block)))
            (available_blocks e' blocks rest hs)
        ∙ after-after block (flatten blocks) _ _ (decrypt_available aead (peer e'') rest)
        ∙ ap (λ (n : ℕ). after (block ++ flatten blocks) n (decrypt_available aead (peer e'') rest))
            (sym (length-append (encrypt_block aead e block) out)))

  FitsBlock-chunks : (cs : List Bytes) → All (IsPiece block_max) cs → All FitsBlock cs
  FitsBlock-chunks [] h = tt
  FitsBlock-chunks (c ∷ cs) (h, hs) = (omega arith, FitsBlock-chunks cs hs)

  -- What one end encrypts the other decrypts, whole, and waits for the block that follows: the
  -- plaintext, the number of bytes used, and the two counters in step again.
  pub decrypt_available-encrypt :
      (e : Encryptor) (plaintext rest : Bytes)
      → IsPartial rest
      → decrypt_available aead (peer e) ((encrypt aead e plaintext).0 ++ rest)
        ≡ (some (plaintext, length (encrypt aead e plaintext).0), peer (encrypt aead e plaintext).1)
  unfolding encrypt
  decrypt_available-encrypt e plaintext rest h =
      let blocks = chunks block_max plaintext in
      let (out, e') = encrypt_blocks aead e blocks in
      available_blocks e blocks rest
        (FitsBlock-chunks blocks (chunks-IsPiece block_max plaintext (omega arith)))
      ∙ ap (after (flatten blocks) (length out)) (available_partial aead (peer e') rest h)
      ∙ rw (append-nil, flatten-chunks block_max plaintext (omega arith))
          (ap (λ (n : ℕ). (some (plaintext, n), peer e')) (omega arith))

  module _ (hkdf : Hkdf) where
    -- Keys: each end's encryptor is paired with the other end's decryptor.
    pub channels-IsPaired :
        (secret : Bytes)
        → (peer (sender_control_channel hkdf secret).0 ≡ (control_channel hkdf secret).1)
          × (peer (control_channel hkdf secret).0 ≡ (sender_control_channel hkdf secret).1)
    unfolding control_channel sender_control_channel
    channels-IsPaired secret = (refl, refl)
