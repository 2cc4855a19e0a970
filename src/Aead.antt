-- ===== src/Aead.antt =====
-- ChaCha20-Poly1305 and HKDF-SHA512 are crates that the program calls. They are parameters of the
-- model: the operations, and what their documentation promises of them.
pub mod Toy
use openairplay.Prelude.{ℕ, ◌+◌, ◌≡◌, Option, some, List, length, Bytes}

-- Key, nonce, associated data and message, in this order.
pub record Aead : Type 0 where
  pub encrypt : Bytes → Bytes → Bytes → Bytes → Bytes
  pub decrypt : Bytes → Bytes → Bytes → Bytes → Option Bytes

pub record AeadLaws (aead : Aead) : Type 0 where
  -- What was encrypted decrypts under the same key, nonce and associated data.
  pub decrypt-encrypt :
      (key nonce aad msg : Bytes)
      → aead.decrypt key nonce aad (aead.encrypt key nonce aad msg) ≡ some msg
  -- The tag has sixteen bytes.
  pub length-encrypt :
      (key nonce aad msg : Bytes) → length (aead.encrypt key nonce aad msg) ≡ length msg + 16
  -- The cipher is deterministic, and its tag covers all of the ciphertext: nothing else decrypts.
  pub encrypt-decrypt :
      (key nonce aad ct msg : Bytes)
      → aead.decrypt key nonce aad ct ≡ some msg
      → ct ≡ aead.encrypt key nonce aad msg

-- `Hkdf::<Sha512>::new(Some(salt), secret).expand(info)` to 32 bytes: secret, salt and info.
abbrev pub Hkdf : Type 0
Hkdf = Bytes → Bytes → Bytes → Bytes
