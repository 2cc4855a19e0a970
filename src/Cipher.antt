-- ===== src/Cipher.antt =====
-- openairplay2/src/cipher.rs: the key derivation of the encrypted control channel and its framing in
-- blocks `[u16 length][ciphertext][tag]`.
pub mod Frames
pub mod Stream
pub mod Pieces
pub mod Authentic
mod Runs
use openairplay.Prelude.{
  ℕ, zero, suc, ◌+◌, ◌/◌, ◌%◌, ◌^◌, Bool, ltb, if◌then◌else◌, Option, none, some, List, [], ◌∷◌,
  ◌++◌, ascii, length, take, drop, replicate, chunks, Bytes, to_le16, from_le16,
}
use openairplay.Aead.{Aead, Hkdf}

abbrev pub block_max : ℕ
block_max = 1024

abbrev pub tag_len : ℕ
tag_len = 16

abbrev pub control_salt : Bytes
control_salt = ascii "Control-Salt"

abbrev pub control_write_info : Bytes
control_write_info = ascii "Control-Write-Encryption-Key"

abbrev pub control_read_info : Bytes
control_read_info = ascii "Control-Read-Encryption-Key"

-- `counter.to_le_bytes()`
unfoldable pub to_le_bytes : ℕ → ℕ → Bytes
to_le_bytes zero n = []
to_le_bytes (suc k) n = (n % 256) ∷ to_le_bytes k (n / 256)

-- Four zero bytes and the block counter.
unfoldable pub nonce_for : ℕ → Bytes
unfolding to_le_bytes
nonce_for counter = 0 ∷ 0 ∷ 0 ∷ 0 ∷ to_le_bytes 8 counter

pub record Encryptor : Type 0 where
  pub key : Bytes
  pub counter : ℕ

pub record Decryptor : Type 0 where
  pub key : Bytes
  pub counter : ℕ

-- `counter += 1` on a u64.
abbrev pub succ_u64 : ℕ → ℕ
succ_u64 n = (n + 1) % 2 ^ 64

module _ (hkdf : Hkdf) where
  unfoldable pub derive_key : Bytes → Bytes → Bytes → Bytes
  derive_key shared_secret salt info = hkdf shared_secret salt info

  -- The receiver encrypts what the sender reads, and decrypts what it wrote.
  unfoldable pub control_channel : Bytes → Encryptor × Decryptor
  unfolding derive_key
  control_channel shared_secret = (
    record { key = derive_key shared_secret control_salt control_read_info; counter = 0 },
    record { key = derive_key shared_secret control_salt control_write_info; counter = 0 },
  )

  unfoldable pub sender_control_channel : Bytes → Encryptor × Decryptor
  unfolding derive_key
  sender_control_channel shared_secret = (
    record { key = derive_key shared_secret control_salt control_write_info; counter = 0 },
    record { key = derive_key shared_secret control_salt control_read_info; counter = 0 },
  )

module _ (aead : Aead) where
  -- The block of one chunk: its length, which is the associated data, and the ciphertext.
  unfoldable pub encrypt_block : Encryptor → Bytes → Bytes
  encrypt_block e block =
      let aad = to_le16 (length block) in aad ++ aead.encrypt e.key (nonce_for e.counter) aad block

  unfoldable pub encrypt_blocks : Encryptor → List Bytes → Bytes × Encryptor
  unfolding encrypt_block
  encrypt_blocks e [] = ([], e)
  encrypt_blocks e (block ∷ rest) =
      let (out, e') = encrypt_blocks (record e { counter = succ_u64 e.counter }) rest in
      (encrypt_block e block ++ out, e')

  unfoldable pub encrypt : Encryptor → Bytes → Bytes × Encryptor
  unfolding encrypt_blocks
  encrypt e plaintext = encrypt_blocks e (chunks block_max plaintext)

  -- The loop of `decrypt_available` over the bytes from `pos` on. The counter is kept beside a
  -- failure too. The fuel bounds the rounds: each takes two bytes at least.
  unfoldable pub decrypt_loop : ℕ → Decryptor → Bytes → Bytes → ℕ → Option (Bytes × ℕ) × Decryptor
  decrypt_loop zero d input plaintext pos = (some (plaintext, pos), d)
  decrypt_loop (suc fuel) d [] plaintext pos = (some (plaintext, pos), d)
  decrypt_loop (suc fuel) d (b0 ∷ []) plaintext pos = (some (plaintext, pos), d)
  decrypt_loop (suc fuel) d (b0 ∷ b1 ∷ rest) plaintext pos =
      let len = from_le16 b0 b1 in
      let opened =
        aead.decrypt d.key (nonce_for d.counter) (b0 ∷ b1 ∷ []) (take (len + tag_len) rest) in
      let more = λ (pt : Bytes).
        decrypt_loop fuel (record d { counter = succ_u64 d.counter }) (drop (len + tag_len) rest)
          (plaintext ++ pt) (pos + (2 + len + tag_len)) in
      let attempt : Option (Bytes × ℕ) × Decryptor = elim opened [
        | none ↦ (none, d)
        | some pt ↦ more pt
      ] in
      if ltb (length rest) (len + tag_len) then (some (plaintext, pos), d) else attempt

  unfoldable pub decrypt_available : Decryptor → Bytes → Option (Bytes × ℕ) × Decryptor
  unfolding decrypt_loop
  decrypt_available d input = decrypt_loop (length input) d input [] 0
