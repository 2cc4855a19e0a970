-- ===== src/Buffered/Packet.antt =====
-- `decrypt` against the packet that a sender builds.
use openairplay.Prelude.{
  ℕ, suc, ◌-◌, ◌%◌, ◌^◌, ◌≤◌, ◌<◌, ◌≡◌, ◌∙◌, ltb, none, some, [], ◌∷◌, ◌++◌, length, length-append,
  take-append, drop-append, Bytes, to_be32, from_be32, false, from_be32-to_be32, le→ltb, arith,
}
use openairplay.Aead.{Aead, AeadLaws}
use openairplay.Buffered.{AudioDecryptor, decrypt}

-- The header: sequence number, timestamp and source, each a big-endian u32.
abbrev pub header : ℕ → ℕ → ℕ → Bytes
header seq timestamp ssrc = to_be32 seq ++ (to_be32 timestamp ++ to_be32 ssrc)

abbrev pub make_packet : Aead → Bytes → ℕ → ℕ → ℕ → Bytes → Bytes → Bytes
make_packet aead key seq timestamp ssrc payload nonce8 =
    let ct =
      aead.encrypt key (0 ∷ 0 ∷ 0 ∷ 0 ∷ nonce8) (to_be32 timestamp ++ to_be32 ssrc) payload in
    header seq timestamp ssrc ++ (ct ++ nonce8)

-- Twelve more, in the form that `drop` computes with.
abbrev twelve : ℕ → ℕ
twelve n = suc (suc (suc (suc (suc (suc (suc (suc (suc (suc (suc (suc n)))))))))))

module _ (aead : Aead) where
  -- A packet with its header written out, its ciphertext and its nonce.
  decrypt_parts :
      (d : AudioDecryptor) (h0 h1 h2 h3 h4 h5 h6 h7 h8 h9 h10 h11 : ℕ) (ct nonce8 : Bytes)
      → 16 ≤ length ct
      → length nonce8 ≡ 8
      → decrypt aead d
          (h0 ∷ h1 ∷ h2 ∷ h3 ∷ h4 ∷ h5 ∷ h6 ∷ h7 ∷ h8 ∷ h9 ∷ h10 ∷ h11 ∷ (ct ++ nonce8))
        ≡ elim (aead.decrypt d.key
            (0 ∷ 0 ∷ 0 ∷ 0 ∷ nonce8)
            (h4 ∷ h5 ∷ h6 ∷ h7 ∷ h8 ∷ h9 ∷ h10 ∷ h11 ∷ [])
            ct) [
              | none ↦ none
              | some payload ↦ some (record {
                seq = from_be32 h0 h1 h2 h3 % 2 ^ 24;
                timestamp = from_be32 h4 h5 h6 h7;
                ssrc = from_be32 h8 h9 h10 h11;
                payload = payload;
              })
            ]
  unfolding decrypt
  decrypt_parts d h0 h1 h2 h3 h4 h5 h6 h7 h8 h9 h10 h11 ct nonce8 hc hn =
      let long : ltb (twelve (length (ct ++ nonce8))) 36 ≡ false =
        le→ltb _ 36 (omega (arith, length-append ct nonce8)) in
      let start : twelve (length (ct ++ nonce8)) - 8 ≡ twelve (length ct) =
        omega (arith, length-append ct nonce8) in
      let size : twelve (length ct) - 12 ≡ length ct = omega arith in
      rw (long, start, size, take-append ct nonce8, drop-append ct nonce8)

module _ (aead : Aead) (laws : AeadLaws aead) where
  -- A packet made under the same key decrypts to its fields, the sequence number modulo 2 ^ 24, and
  -- to its payload.
  pub decrypt-make_packet :
      (d : AudioDecryptor) (seq timestamp ssrc : ℕ) (payload nonce8 : Bytes)
      → seq < 2 ^ 32
      → timestamp < 2 ^ 32
      → ssrc < 2 ^ 32
      → length nonce8 ≡ 8
      → decrypt aead d (make_packet aead d.key seq timestamp ssrc payload nonce8)
        ≡ some
            (record { seq = seq % 2 ^ 24; timestamp = timestamp; ssrc = ssrc; payload = payload })
  decrypt-make_packet d seq timestamp ssrc payload nonce8 hq ht hs hn =
      let nonce = 0 ∷ 0 ∷ 0 ∷ 0 ∷ nonce8 in
      let aad = to_be32 timestamp ++ to_be32 ssrc in
      let ct = aead.encrypt d.key nonce aad payload in
      decrypt_parts aead d _ _ _ _ _ _ _ _ _ _ _ _ ct nonce8
        (omega (arith, laws.length-encrypt d.key nonce aad payload)) hn
      ∙ rw (
        laws.decrypt-encrypt d.key nonce aad payload,
        from_be32-to_be32 seq hq,
        from_be32-to_be32 timestamp ht,
        from_be32-to_be32 ssrc hs,
      )
