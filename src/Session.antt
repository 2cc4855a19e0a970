-- ===== src/Session.antt =====
-- openairplay2/src/session.rs: what the control verbs do to the session of a connection, and the
-- milestones that it reports to the host (openairplay2/src/events.rs).
pub mod Orderly
pub mod Milestones
pub mod Host
pub mod Latch
pub mod Volume
pub mod Parameters
pub mod Setup
mod Runs
use openairplay.Prelude.{
  ℕ, zero, suc, ◌+◌, ◌-◌, ◌/◌, ◌%◌, ◌^◌, ltb, ◌≡◌, Bool, true, false, not, ◌&&◌, ◌||◌, ◌==◌,
  if◌then◌else◌, Option, none, some, List, [], ◌∷◌, ◌++◌, Bytes,
}
use openairplay.Dmap.{TrackMetadata, parse}
use openairplay.Player.{World, spawn, set_paused, request_flush}
use openairplay.Player.Timeline.{Track, Position, new as new_position, frames_to_duration}

-- The milestones; a string has type `S`. A volume, an f32, is the number that its bits are.
pub data Event (S : Type 0) : Type 0 where
  session_started : ℕ → ℕ → ℕ → Event S
  volume : ℕ → Event S
  metadata : TrackMetadata S → Event S
  artwork : S → Bytes → Event S
  progress : ℕ → ℕ → Event S
  paused : Bool → Event S
  flushed session_ended : Event S

-- Decode parameters of the buffered stream.
abbrev pub aac_params : ℕ × ℕ
aac_params = (44_100, 2)

-- The bits of -144.0 and of 0.0.
abbrev pub mute_db : ℕ
mute_db = 0xC3100000

abbrev pub full_db : ℕ
full_db = 0

-- `is_finite`: the exponent is not all ones. The sign is the highest bit.
abbrev pub is_finite : ℕ → Bool
is_finite bits = not (bits / 2 ^ 23 % 256 == 255)

-- `db.clamp(MUTE_DB, FULL_DB)` of a finite number. The floats of one sign are in the order of their
-- bits; -0.0 is not below 0.0.
abbrev pub clamp_db : ℕ → ℕ
clamp_db bits = if ltb bits (2 ^ 31) then full_db else if ltb mute_db bits then mute_db else bits

unfoldable pub sanitize_volume : ℕ → Option ℕ
sanitize_volume bits = if is_finite bits then some (clamp_db bits) else none

module _ {S : Type 0} (from_utf8_lossy : Bytes → S) where
  -- `events` is what the control task has sent to the host. The playback thread sends its positions on
  -- the same channel; here they are those of the player's `position`, and Session.Host has the channel.
  pub record Session : Type 0 where
    pub peer_ip : ℕ
    pub stream_key : Option Bytes
    pub audio_format : Option ℕ
    pub stream_type : Option ℕ
    pub volume_db : ℕ
    pub session_active : Bool
    pub pending_metadata : Option (Event S)
    pub pending_artwork : Option (Event S)
    pub player : Option World
    pub flush_until_seq : ℕ
    pub track : Option Track
    pub events : List (Event S)

  -- `Session::new`; an address is a number.
  abbrev pub new : ℕ → Session
  new peer_ip = record {
    peer_ip = peer_ip;
    stream_key = none;
    audio_format = none;
    stream_type = none;
    volume_db = full_db;
    session_active = false;
    pending_metadata = none;
    pending_artwork = none;
    player = none;
    flush_until_seq = 0;
    track = none;
    events = [];
  }

  abbrev pub send_event : Event S → Session → Session
  send_event event s = record s { events = s.events ++ event ∷ [] }

  -- One entry of `latched.into_iter().flatten()`.
  abbrev pub send_latched : Option (Event S) → Session → Session
  send_latched none s = s
  send_latched (some event) s = send_event event s

  -- `match event`: cover art and metadata are latched apart.
  abbrev pub latch : Event S → Session → Session
  latch (artwork content_type bytes) s = record s {
    pending_artwork = some (artwork content_type bytes);
  }
  latch event s = record s { pending_metadata = some event }

  unfoldable pub send_session_event : Event S → Session → Session
  send_session_event event s = if s.session_active then send_event event s else latch event s

  -- The arm of `start_buffered_audio` that starts a stream.
  abbrev pub start_session : Session → Session
  start_session s =
      let (rate, channels) = aac_params in
      let started =
        send_event (session_started rate channels s.peer_ip) (record s { session_active = true }) in
      let latched = send_latched s.pending_artwork (send_latched s.pending_metadata started) in
      record latched {
        pending_metadata = none;
        pending_artwork = none;
        track = none;
        player = some (spawn (some (new_position rate)));
      }

  -- `start_buffered_audio`, with whether there is a decryptor and a decoder.
  unfoldable pub start_buffered_audio : Bool → Bool → Session → Session
  start_buffered_audio decryptor decoder s =
      let s' = record s { flush_until_seq = 0 } in
      if decryptor && decoder then start_session s' else s'

  -- `if let Some(ctrl) = &self.player_control`
  abbrev pub with_player : (World → World) → Option World → Option World
  with_player f none = none
  with_player f (some w) = some (f w)

  -- `set_rate_anchor`, with what the parsed body says.
  unfoldable pub set_rate_anchor : Option (ℕ × ℕ) → Session → Session
  set_rate_anchor none s = s
  set_rate_anchor (some (rate, rtp)) s =
      send_event (paused (rate == 0))
        (record s { player = with_player (set_paused (rate == 0)) s.player })

  abbrev pub store_boundary : Option ℕ → ℕ → ℕ
  store_boundary none current = current
  store_boundary (some seq) current = seq

  -- `flush`, with the boundary that the parsed body names.
  unfoldable pub flush : Option ℕ → Session → Session
  flush boundary s = send_event flushed (record s {
    flush_until_seq = store_boundary boundary s.flush_until_seq;
    player = with_player (request_flush boundary) s.player;
  })

  -- The playback thread reads the anchor that the session writes.
  abbrev pub store_track : Track → Session → Session
  store_track t s = record s {
    track = some t;
    player = with_player (λ (w : World). record w { track = some t }) s.player;
  }

  -- `set_progress`, with the three timestamps. Subtraction stops at 0.
  unfoldable pub set_progress : Option (ℕ × ℕ × ℕ) → Session → Session
  set_progress none s = s
  set_progress (some (start, current, end)) s =
      let s' = store_track (record { start = start; end = end }) s in
      let elapsed = frames_to_duration (current - start) aac_params.0 in
      let duration = frames_to_duration (end - start) aac_params.0 in
      if s.session_active then send_event (progress elapsed duration) s' else s'

  -- What `set_text_parameters` does with a volume, if the text was a number.
  abbrev pub store_volume : Option ℕ → Session → Session
  store_volume none s = s
  store_volume (some db) s = send_event (volume db) (record s { volume_db = db })

  abbrev pub sanitized : Option ℕ → Option ℕ
  sanitized none = none
  sanitized (some db) = sanitize_volume db

  unfoldable pub set_volume : Option ℕ → Session → Session
  unfolding sanitize_volume
  set_volume parsed s = store_volume (sanitized parsed) s

  abbrev pub report_metadata : Option (TrackMetadata S) → Session → Session
  report_metadata none s = s
  report_metadata (some m) s = send_session_event (metadata m) s

  unfoldable pub set_metadata : Bytes → Session → Session
  unfolding send_session_event
  set_metadata body s = report_metadata (parse from_utf8_lossy body) s

  unfoldable pub set_artwork : S → Bytes → Session → Session
  unfolding send_session_event
  set_artwork content_type body s = send_session_event (artwork content_type body) s

  unfoldable pub end_session : Session → Session
  end_session s =
      if s.session_active then send_event session_ended (record s { session_active = false }) else s

  -- `teardown`
  unfoldable pub teardown : Session → Session
  unfolding end_session
  teardown s = end_session s

  -- `Drop for Session`, without the tasks and the guard of the slot.
  unfoldable pub drop_session : Session → Session
  unfolding end_session
  drop_session s = record (end_session s) { player = none }

  -- The verbs that reach a session.
  pub data Verb : Type 0 where
    sets_up : Bool → Bool → Verb
    sets_rate : Option (ℕ × ℕ) → Verb
    flushes : Option ℕ → Verb
    sets_progress : Option (ℕ × ℕ × ℕ) → Verb
    sets_volume : Option ℕ → Verb
    sets_metadata : Bytes → Verb
    sets_artwork : S → Bytes → Verb
    tears_down : Verb

  unfoldable pub apply : Verb → Session → Session
  unfolding start_buffered_audio set_rate_anchor flush set_progress set_volume set_metadata
      set_artwork teardown
  apply (sets_up decryptor decoder) s = start_buffered_audio decryptor decoder s
  apply (sets_rate parsed) s = set_rate_anchor parsed s
  apply (flushes boundary) s = flush boundary s
  apply (sets_progress parsed) s = set_progress parsed s
  apply (sets_volume parsed) s = set_volume parsed s
  apply (sets_metadata body) s = set_metadata body s
  apply (sets_artwork content_type body) s = set_artwork content_type body s
  apply tears_down s = teardown s

  unfoldable pub apply_all : List Verb → Session → Session
  unfolding apply
  apply_all [] s = s
  apply_all (verb ∷ verbs) s = apply_all verbs (apply verb s)
