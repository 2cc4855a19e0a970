-- ===== src/Pipeline/Delivery.antt =====
-- Which packets of the audio stream are delivered (openairplay2/src/session.rs).
use openairplay.Prelude.{
  ℕ, suc, ◌≡◌, refl, ap, subst, ◌∙◌, inl, inr, Bool, Bool-cases, true, false, ◌||◌, leb, ltb, ◌==◌,
  if◌then◌else◌, Option, none, some, List, [], ◌∷◌, ◌++◌, Bytes, arith,
}
use openairplay.Aead.{Aead}
use openairplay.Buffered.{AudioPacket, AudioDecryptor, decrypt, packet_seq}
use openairplay.Player.{Packet, Samples}
use openairplay.Pipeline.{
  skip_before_boundary, Decoder, Reader, deliver, opened, with_seq, handle_packet, handle_packets,
}

-- What a flush boundary leaves of the packets that arrive: those in front of the first packet that
-- reaches it are dropped where their number can be read, and from there on everything stays.
abbrev pub reaches : ℕ → ℕ → Bool
reaches boundary seq = boundary == 0 || leb boundary seq

abbrev pub cut_at : ℕ → Option ℕ → Bytes → List Bytes → List Bytes → List Bytes
cut_at boundary none packet packets rest = packet ∷ rest
cut_at boundary (some seq) packet packets rest =
    if reaches boundary seq then packet ∷ packets else rest

abbrev pub from_boundary : ℕ → List Bytes → List Bytes
from_boundary boundary [] = []
from_boundary boundary (packet ∷ packets) =
    cut_at boundary (packet_seq packet) packet packets (from_boundary boundary packets)

abbrev pub concat : List Bytes → Bytes
concat [] = []
concat (chunk ∷ chunks) = chunk ++ concat chunks

cut_at_zero :
    (seq : Option ℕ) (packet : Bytes) (packets rest : List Bytes)
    → rest ≡ packets
    → cut_at 0 seq packet packets rest ≡ packet ∷ packets
cut_at_zero none packet packets rest e = ap (λ (l : List Bytes). packet ∷ l) e
cut_at_zero (some seq) packet packets rest e = refl

from_boundary_zero : (packets : List Bytes) → from_boundary 0 packets ≡ packets
from_boundary_zero [] = refl
from_boundary_zero (packet ∷ packets) =
    cut_at_zero (packet_seq packet) packet packets (from_boundary 0 packets)
      (from_boundary_zero packets)

equal_of : (a b : ℕ) → (a == b) ≡ true → a ≡ b
equal_of a b h = ground arith

equal_self : (a : ℕ) → (a == a) ≡ true
equal_self a = ground arith

module _ (aead : Aead) (decoder : Decoder) (decryptor : AudioDecryptor) where
  -- Decrypt, decode and play all of these packets.
  abbrev pub deliver_all :
      List Bytes → Reader aead decoder decryptor → Reader aead decoder decryptor
  deliver_all [] r = r
  deliver_all (packet ∷ packets) r =
      deliver_all packets (opened aead decoder decryptor (decrypt aead decryptor packet) r)

  -- The same packets were delivered, with the same failures, and the decoder is in the same state.
  pub record Same (r r' : Reader aead decoder decryptor) : Type 0 where
    pub played : r.played ≡ r'.played
    pub codec : r.codec ≡ r'.codec
    pub decrypt_failures : r.decrypt_failures ≡ r'.decrypt_failures

  opened-Same :
      (audio : Option AudioPacket) (r r' : Reader aead decoder decryptor)
      → Same r r'
      → Same (opened aead decoder decryptor audio r) (opened aead decoder decryptor audio r')
  opened-Same none r r' h = record {
    played = h.played;
    codec = h.codec;
    decrypt_failures = ap suc h.decrypt_failures;
  }
  opened-Same (some audio) r r' h =
      subst
        (λ (s : decoder.State).
          Same (deliver aead decoder decryptor audio (decoder.decode audio.payload r.codec) r)
            (deliver aead decoder decryptor audio (decoder.decode audio.payload s) r'))
        h.codec (go (decoder.decode audio.payload r.codec))
    where
      go :
          (d : Option Samples × decoder.State)
          → Same
              (deliver aead decoder decryptor audio d r)
              (deliver aead decoder decryptor audio d r')
      go (none, codec) = record {
        played = h.played;
        codec = refl;
        decrypt_failures = h.decrypt_failures;
      }
      go (some [], codec) = record {
        played = h.played;
        codec = refl;
        decrypt_failures = h.decrypt_failures;
      }
      go (some (x ∷ xs), codec) = record {
        played =
            ap
              (λ (l : List Packet).
                l ++ record { seq = audio.seq; ts = audio.timestamp; pcm = x ∷ xs } ∷ [])
              h.played;
        codec = refl;
        decrypt_failures = h.decrypt_failures;
      }

  opened_boundary :
      (audio : Option AudioPacket) (r : Reader aead decoder decryptor)
      → (opened aead decoder decryptor audio r).flush_until_seq ≡ r.flush_until_seq
  opened_boundary none r = refl
  opened_boundary (some audio) r = go (decoder.decode audio.payload r.codec)
    where
      go :
          (d : Option Samples × decoder.State)
          → (deliver aead decoder decryptor audio d r).flush_until_seq ≡ r.flush_until_seq
      go (none, codec) = refl
      go (some [], codec) = refl
      go (some (x ∷ xs), codec) = refl

  -- What holds of the rest of the packets.
  abbrev Rest : List Bytes → Type 0
  Rest packets =
      (r r' : Reader aead decoder decryptor)
      → Same r r'
      → Same (handle_packets aead decoder decryptor packets r)
          (deliver_all (from_boundary r.flush_until_seq packets) r')

  -- A packet that is not skipped, when the boundary is then `b`.
  delivered-Same :
      (b : ℕ) (packet : Bytes) (packets : List Bytes) (r r' : Reader aead decoder decryptor)
      → Rest packets
      → r.flush_until_seq ≡ b
      → Same r r'
      → Same
          (handle_packets aead decoder decryptor packets
            (opened aead decoder decryptor (decrypt aead decryptor packet) r))
          (deliver_all (packet ∷ from_boundary b packets) r')
  delivered-Same b packet packets r r' rec e h =
      let audio = decrypt aead decryptor packet in
      let o = opened aead decoder decryptor audio r in
      let o' = opened aead decoder decryptor audio r' in
      subst
        (λ (b' : ℕ).
          Same (handle_packets aead decoder decryptor packets o)
            (deliver_all (from_boundary b' packets) o'))
        (opened_boundary audio r ∙ e) (rec o o' (opened-Same audio r r' h))

  all_delivered-Same :
      (packet : Bytes) (packets : List Bytes) (r r' : Reader aead decoder decryptor)
      → Rest packets
      → r.flush_until_seq ≡ 0
      → Same r r'
      → Same
          (handle_packets aead decoder decryptor packets
            (opened aead decoder decryptor (decrypt aead decryptor packet) r))
          (deliver_all (packet ∷ packets) r')
  all_delivered-Same packet packets r r' rec e h =
      subst
        (λ (l : List Bytes).
          Same
            (handle_packets aead decoder decryptor packets
              (opened aead decoder decryptor (decrypt aead decryptor packet) r))
            (deliver_all (packet ∷ l) r'))
        (from_boundary_zero packets) (delivered-Same 0 packet packets r r' rec e h)

  handled-Same :
      (seq : Option ℕ) (packet : Bytes) (packets : List Bytes)
      (r r' : Reader aead decoder decryptor)
      → Rest packets
      → Same r r'
      → Same
          (handle_packets aead decoder decryptor packets
            (with_seq aead decoder decryptor seq packet r))
          (deliver_all
            (cut_at r.flush_until_seq seq packet packets (from_boundary r.flush_until_seq packets))
            r')
  unfolding skip_before_boundary
  handled-Same none packet packets r r' rec h =
      delivered-Same r.flush_until_seq packet packets r r' rec refl h
  handled-Same (some seq) packet packets r r' rec h = elim (Bool-cases (r.flush_until_seq == 0)) [
    | inl none_set ↦
        rw none_set
          (all_delivered-Same packet packets r r' rec (equal_of r.flush_until_seq 0 none_set) h)
    | inr is_set ↦ elim (Bool-cases (ltb seq r.flush_until_seq)) [
      | inl below ↦
          let short : leb r.flush_until_seq seq ≡ false = ground arith in
          rw (is_set, below, short)
            (rec (record r { skipped = suc r.skipped }) r'
              (record {
                played = h.played;
                codec = h.codec;
                decrypt_failures = h.decrypt_failures;
              }))
      | inr reached ↦
          let enough : leb r.flush_until_seq seq ≡ true = ground arith in
          rw (is_set, reached, enough, equal_self r.flush_until_seq)
            (all_delivered-Same packet packets (record r { flush_until_seq = 0 }) r' rec refl
              (record {
                played = h.played;
                codec = h.codec;
                decrypt_failures = h.decrypt_failures;
              }))
    ]
  ]

  -- Whatever packets arrive, the reader delivers exactly those that the flush boundary leaves, in
  -- their order: a packet in front of the first one at or after the boundary is dropped without
  -- touching the decoder, and the boundary does not outlive its flush.
  pub handle_packets-Same :
      (packets : List Bytes) (r r' : Reader aead decoder decryptor)
      → Same r r'
      → Same
          (handle_packets aead decoder decryptor packets r)
          (deliver_all (from_boundary r.flush_until_seq packets) r')
  unfolding handle_packets handle_packet
  handle_packets-Same [] r r' h = h
  handle_packets-Same (packet ∷ packets) r r' h =
      handled-Same (packet_seq packet) packet packets r r' (handle_packets-Same packets) h
