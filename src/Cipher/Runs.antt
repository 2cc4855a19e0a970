-- ===== src/Cipher/Runs.antt =====
-- Concrete runs of the channel cipher over the toy cipher, and its theorems at concrete inputs.
use openairplay.Prelude.{◌≡◌, refl, some, [], ◌∷◌, ◌++◌, length, replicate, chunks, Bytes, arith}
use openairplay.Aead.Toy.{toy_aead, toy_laws, tag, toy_decrypt}
use openairplay.Cipher.{Encryptor, nonce_for, encrypt, decrypt_available}
use openairplay.Cipher.Stream.{peer, decrypt_available-encrypt}
use openairplay.Cipher.Pieces.{
  continue, decrypt_available-append, Settled, decrypt_available-Settled,
}
use openairplay.Cipher.Authentic.{IsAuthentic, decrypt_available-IsAuthentic}

abbrev encryptor : Encryptor
encryptor = record { key = 1 ∷ []; counter = 0 }

abbrev message : Bytes
message = 97 ∷ 98 ∷ 99 ∷ []

abbrev framed : Bytes
framed = 3 ∷ 0 ∷ (replicate 12 0 ++ (3 ∷ 0 ∷ 1 ∷ 0 ∷ message))

encrypt_run : (encrypt toy_aead encryptor message).0 ≡ framed
unfolding encrypt tag chunks nonce_for
encrypt_run = refl

-- Two blocks, the second not complete.
decrypt_run :
    decrypt_available toy_aead (peer encryptor) (framed ++ 5 ∷ 0 ∷ 1 ∷ [])
    ≡ (some (message, 21), record { key = 1 ∷ []; counter = 1 })
unfolding decrypt_available tag toy_decrypt nonce_for
decrypt_run = refl

decrypt_available-encrypt_example :
    decrypt_available toy_aead
      (peer encryptor)
      ((encrypt toy_aead encryptor message).0 ++ 5 ∷ 0 ∷ 1 ∷ [])
    ≡ (
      some (message, length (encrypt toy_aead encryptor message).0),
      peer (encrypt toy_aead encryptor message).1,
    )
decrypt_available-encrypt_example =
    decrypt_available-encrypt toy_aead toy_laws encryptor message (5 ∷ 0 ∷ 1 ∷ []) (omega arith)

decrypt_available-append_example :
    decrypt_available toy_aead (peer encryptor) (framed ++ framed)
    ≡ continue toy_aead (decrypt_available toy_aead (peer encryptor) framed) framed framed
decrypt_available-append_example = decrypt_available-append toy_aead (peer encryptor) framed framed

decrypt_available-Settled_example :
    Settled toy_aead (decrypt_available toy_aead (peer encryptor) framed) framed
decrypt_available-Settled_example = decrypt_available-Settled toy_aead (peer encryptor) framed

decrypt_available-IsAuthentic_example :
    IsAuthentic toy_aead
      (peer encryptor)
      framed
      (decrypt_available toy_aead (peer encryptor) framed)
decrypt_available-IsAuthentic_example =
    decrypt_available-IsAuthentic toy_aead toy_laws (peer encryptor) framed (omega arith)
