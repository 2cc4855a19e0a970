-- ===== src/Pipeline.antt =====
-- openairplay2/src/session.rs: `buffered_audio`, the way from the sender's TCP stream to the playback
-- queue, and the flush boundary that it shares with the RTSP task.
pub mod Delivery
pub mod Stream
mod Runs
use mathlib.Core.Option
use openairplay.Prelude.{
  ℕ, zero, suc, ◌+◌, ◌≡◌, Bool, true, false, not, ◌&&◌, ◌||◌, ltb, ◌==◌, if◌then◌else◌, Option,
  none, some, List, [], ◌∷◌, ◌++◌, drop, Bytes,
}
use openairplay.Aead.{Aead}
use openairplay.Buffered.{AudioPacket, AudioDecryptor, decrypt, packet_seq, split_blocks}
use openairplay.Player.{Packet, Samples}

-- `AtomicU64::compare_exchange`: what is stored afterwards.
abbrev pub compare_exchange : ℕ → ℕ → ℕ → ℕ
compare_exchange expected new current = if current == expected then new else current

-- `skip_before_boundary`, with the boundary that it loads and the one that is stored when it comes to
-- the exchange: whether to skip, and what is stored then.
unfoldable pub skip_before_boundary : ℕ → ℕ → ℕ → Bool × ℕ
skip_before_boundary boundary current seq =
    if boundary == 0
    then (false, current)
    else if ltb seq boundary
    then (true, current)
    else (false, compare_exchange boundary 0 current)

-- `AacDecoder`: its state, and one frame; no samples where it fails.
pub record Decoder : Type 1 where
  pub State : Type 0
  pub decode : Bytes → State → Option Samples × State

module _ (aead : Aead) (decoder : Decoder) (decryptor : AudioDecryptor) where
  -- The locals of the task, the boundary, and the packets given to `PlayerSender::play` so far.
  pub record Reader : Type 0 where
    pub buf : Bytes
    pub flush_until_seq : ℕ
    pub decrypt_failures : ℕ
    pub skipped : ℕ
    pub codec : decoder.State
    pub played : List Packet

  -- `match decoder.decode(..)`
  abbrev pub deliver : AudioPacket → Option Samples × decoder.State → Reader → Reader
  deliver audio (none, codec) r = record r { codec = codec }
  deliver audio (some [], codec) r = record r { codec = codec }
  deliver audio (some (x ∷ pcm), codec) r = record r {
    codec = codec;
    played = r.played ++ record { seq = audio.seq; ts = audio.timestamp; pcm = x ∷ pcm } ∷ [];
  }

  abbrev pub opened : Option AudioPacket → Reader → Reader
  opened none r = record r { decrypt_failures = suc r.decrypt_failures }
  opened (some audio) r = deliver audio (decoder.decode audio.payload r.codec) r

  abbrev pub unless_skipped : Bool × ℕ → Bytes → Reader → Reader
  unless_skipped (true, boundary) packet r = record r {
    flush_until_seq = boundary;
    skipped = suc r.skipped;
  }
  unless_skipped (false, boundary) packet r =
      opened (decrypt aead decryptor packet) (record r { flush_until_seq = boundary })

  abbrev pub with_seq : Option ℕ → Bytes → Reader → Reader
  with_seq none packet r = opened (decrypt aead decryptor packet) r
  with_seq (some seq) packet r =
      unless_skipped (skip_before_boundary r.flush_until_seq r.flush_until_seq seq) packet r

  -- The body of `for packet in owned`, with no flush between its load and its exchange.
  unfoldable pub handle_packet : Bytes → Reader → Reader
  unfolding skip_before_boundary
  handle_packet packet r = with_seq (packet_seq packet) packet r

  unfoldable pub handle_packets : List Bytes → Reader → Reader
  unfolding handle_packet
  handle_packets [] r = r
  handle_packets (packet ∷ packets) r = handle_packets packets (handle_packet packet r)

  -- `Ok(n)` of the read.
  unfoldable pub receive : Bytes → Reader → Reader
  unfolding handle_packets
  receive chunk r =
      let buf = r.buf ++ chunk in
      let (packets, used) = split_blocks buf in
      handle_packets packets (record r { buf = drop used buf })

  unfoldable pub receive_all : List Bytes → Reader → Reader
  unfolding receive
  receive_all [] r = r
  receive_all (chunk ∷ chunks) r = receive_all chunks (receive chunk r)
