-- ===== src/Buffered.antt =====
-- openairplay2/src/buffered.rs: the framing of the buffered-audio channel and the decryption of its
-- packets.
pub mod Blocks
pub mod Packet
mod Runs
use openairplay.Prelude.{
  ℕ, zero, suc, ◌+◌, ◌-◌, ◌%◌, ◌^◌, ◌||◌, Bool, ltb, ◌==◌, if◌then◌else◌, Option, none, some, List,
  [], ◌∷◌, ◌++◌, length, take, drop, Bytes, from_be16, from_be32,
}
use openairplay.Aead.{Aead}

abbrev pub header_len : ℕ
header_len = 12

abbrev pub nonce_suffix_len : ℕ
nonce_suffix_len = 8

abbrev pub tag_len : ℕ
tag_len = 16

pub record AudioPacket : Type 0 where
  pub seq : ℕ
  pub timestamp : ℕ
  pub ssrc : ℕ
  pub payload : Bytes

pub record AudioDecryptor : Type 0 where
  pub key : Bytes

-- `AudioDecryptor::new`
unfoldable pub audio_decryptor : Bytes → Option AudioDecryptor
audio_decryptor shk = if length shk == 32 then some (record { key = shk }) else none

-- `u32::from_be_bytes` of the first four bytes. Every call stands behind a test of the length.
unfoldable pub be32 : Bytes → ℕ
be32 (a ∷ b ∷ c ∷ d ∷ rest) = from_be32 a b c d
be32 _ = 0

-- The mask `0xFF_FFFF` keeps the low 24 bits.
unfoldable pub packet_seq : Bytes → Option ℕ
unfolding be32
packet_seq packet = if ltb (length packet) 4 then none else some (be32 packet % 2 ^ 24)

-- `packet[a..b]`
abbrev pub slice : ℕ → ℕ → Bytes → Bytes
slice a b xs = take (b - a) (drop a xs)

module _ (aead : Aead) where
  unfoldable pub decrypt : AudioDecryptor → Bytes → Option AudioPacket
  unfolding be32
  decrypt d packet =
      let nonce_start = length packet - nonce_suffix_len in
      let nonce = 0 ∷ 0 ∷ 0 ∷ 0 ∷ drop nonce_start packet in
      let aad = slice 4 12 packet in
      let ciphertext = slice header_len nonce_start packet in
      let opened : Option AudioPacket = elim (aead.decrypt d.key nonce aad ciphertext) [
        | none ↦ none
        | some payload ↦ some (record {
          seq = be32 packet % 2 ^ 24;
          timestamp = be32 (drop 4 packet);
          ssrc = be32 (drop 8 packet);
          payload = payload;
        })
      ] in
      if ltb (length packet) (header_len + nonce_suffix_len + tag_len) then none else opened

-- The loop of `split_blocks`, over the bytes from `pos` on: the packets, and the bytes consumed. The
-- fuel bounds the rounds: a block has two bytes at least.
unfoldable pub split_loop : ℕ → Bytes → List Bytes × ℕ
split_loop zero input = ([], 0)
split_loop (suc fuel) [] = ([], 0)
split_loop (suc fuel) (b0 ∷ []) = ([], 0)
split_loop (suc fuel) (b0 ∷ b1 ∷ rest) =
    let len = from_be16 b0 b1 in
    let more = split_loop fuel (drop (len - 2) rest) in
    if ltb len 2 || ltb (2 + length rest) len
    then ([], 0)
    else (take (len - 2) rest ∷ more.0, len + more.1)

unfoldable pub split_blocks : Bytes → List Bytes × ℕ
unfolding split_loop
split_blocks input = split_loop (length input) input
