-- ===== src/Buffered/Runs.antt =====
-- Concrete runs of the buffered-audio framing, and its theorems at concrete inputs.
use openairplay.Prelude.{◌+◌, ◌≡◌, refl, none, some, [], ◌∷◌, ◌++◌, drop, replicate, Bytes, arith}
use openairplay.Aead.Toy.{toy_aead, toy_laws}
use openairplay.Buffered.{AudioDecryptor, audio_decryptor, decrypt, split_blocks}
use openairplay.Buffered.Blocks.{
  blocks, Splits, split_blocks-Splits, split_blocks-append, split_blocks_stalls,
}
use openairplay.Buffered.Packet.{make_packet, decrypt-make_packet}

-- split_blocks_frames_and_leaves_partial
abbrev two_and_a_bit : Bytes
two_and_a_bit = 0 ∷ 5 ∷ 0xaa ∷ 0xaa ∷ 0xaa ∷ 0 ∷ 3 ∷ 0xbb ∷ 0 ∷ 9 ∷ 0xcc ∷ 0xcc ∷ []

split_run : split_blocks two_and_a_bit ≡ ((0xaa ∷ 0xaa ∷ 0xaa ∷ []) ∷ (0xbb ∷ []) ∷ [], 8)
unfolding split_blocks
split_run = refl

short_packet : decrypt toy_aead (record { key = [] }) (replicate 20 0) ≡ none
unfolding decrypt
short_packet = refl

bad_key_len : audio_decryptor (replicate 16 0) ≡ none
unfolding audio_decryptor
bad_key_len = refl

split_blocks-Splits_example : Splits two_and_a_bit (split_blocks two_and_a_bit)
split_blocks-Splits_example = split_blocks-Splits two_and_a_bit (omega arith)

split_blocks-append_example : split_blocks (two_and_a_bit ++ 1 ∷ []) ≡ (
  (split_blocks two_and_a_bit).0
      ++ (split_blocks (drop (split_blocks two_and_a_bit).1 two_and_a_bit ++ 1 ∷ [])).0,
  (split_blocks two_and_a_bit).1
      + (split_blocks (drop (split_blocks two_and_a_bit).1 two_and_a_bit ++ 1 ∷ [])).1,
)
split_blocks-append_example = split_blocks-append two_and_a_bit (1 ∷ []) (omega arith)

split_blocks_stalls_example :
    split_blocks (blocks ((7 ∷ []) ∷ []) ++ (0 ∷ 1 ∷ ([] ++ two_and_a_bit))) ≡ ((7 ∷ []) ∷ [], 3)
split_blocks_stalls_example =
    split_blocks_stalls ((7 ∷ []) ∷ []) 0 1 [] two_and_a_bit (omega arith) (omega arith)

abbrev audio_key : AudioDecryptor
audio_key = record { key = replicate 32 1 }

decrypt-make_packet_example :
    decrypt toy_aead audio_key (
      make_packet toy_aead audio_key.key 0xff00_1234 44100 0xaabb_ccdd (9 ∷ 8 ∷ []) (replicate 8 5))
    ≡ some (record { seq = 0x1234; timestamp = 44100; ssrc = 0xaabb_ccdd; payload = 9 ∷ 8 ∷ [] })
decrypt-make_packet_example =
    decrypt-make_packet toy_aead toy_laws audio_key 0xff00_1234 44100 0xaabb_ccdd (9 ∷ 8 ∷ [])
      (replicate 8 5) (omega arith) (omega arith) (omega arith) refl
