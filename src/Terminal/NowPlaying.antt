-- ===== src/Terminal/NowPlaying.antt =====
-- openairplay2-tui/src/tui.rs: `NowPlaying`, what the screen shows, and openairplay2-tui/src/client.rs:
-- the updates that change it. A string is its bytes; a Duration is a number of milliseconds; `F`
-- stands for the `f32` of a volume. base64's `STANDARD.decode` is a parameter.
use openairplay.Prelude.{
  ℕ, suc, ◌+◌, ◌-◌, min, Bool, true, false, if◌then◌else◌, Option, none, some, List, [], ◌∷◌,
  length, Bytes, same_bytes,
}
use openairplay.Terminal.{Graphics, draws}
use openairplay.Terminal.Artwork.{Artwork}
use openairplay.Terminal.Updates.{
  Receiver, Discovery, receivers, unavailable, Endpoint, endpoint_parse, Update, is_connected,
  message, disconnected, is_unauthorized, no_local_receiver, discovery, ℤ, pos, negsuc, map_option,
  and_then, unwrap_or, get_elem?,
}
use openairplay.Display
use openairplay.Display.{
  SessionInfo, Track, Message, Snapshot, snapshot, session_started, metadata, cover, volume,
  position, paused, flushed, session_ended,
}

pub record Session : Type 0 where
  pub rate : ℕ
  pub channels : ℕ
  pub peer : Bytes

pub data Connection : Type 0 where
  connecting connected lost unauthorized : Connection

pub record Progress : Type 0 where
  pub elapsed : ℕ
  pub duration : ℕ

pub record Picker : Type 0 where
  pub cursor : ℕ

pub record NowPlaying (F : Type 0) : Type 0 where
  pub endpoint : Bytes
  pub images : Graphics
  pub connection : Connection
  pub name : Bytes
  pub session : Option Session
  pub title : Option Bytes
  pub artist : Option Bytes
  pub album : Option Bytes
  pub volume_db : Option F
  pub progress : Option Progress
  pub artwork : Option Artwork
  pub is_paused : Bool
  pub picker : Option Picker
  pub discovered : List Receiver
  pub discovery_error : Option Bytes
  pub is_chosen : Bool
  pub forced_discovery : Bool

unfoldable pub new : {F : Type 0} → Bytes → Graphics → NowPlaying F
new endpoint images = record {
  endpoint = endpoint;
  images = images;
  connection = connecting;
  name = [];
  session = none;
  title = none;
  artist = none;
  album = none;
  volume_db = none;
  progress = none;
  artwork = none;
  is_paused = false;
  picker = none;
  discovered = [];
  discovery_error = none;
  is_chosen = false;
  forced_discovery = false;
}

-- `receivers.iter().position(|r| r.name == name)`
unfoldable pub position_of : Bytes → List Receiver → Option ℕ
unfolding same_bytes
position_of name [] = none
position_of name (r ∷ rs) =
    let later = map_option suc (position_of name rs) in
    if same_bytes r.name name then some 0 else later

abbrev pub find_again : List Receiver → Option Receiver → Option ℕ
find_again rs none = none
find_again rs (some current) = position_of current.name rs

unfoldable pub kept_cursor : List Receiver → List Receiver → ℕ → ℕ
unfolding get_elem? position_of
kept_cursor discovered rs cursor =
    min (unwrap_or 0 (find_again rs (get_elem? discovered cursor))) (length rs - 1)

abbrev pub kept_picker : List Receiver → List Receiver → Picker → Picker
kept_picker discovered rs p = record { cursor = kept_cursor discovered rs p.cursor }

abbrev pub apply_discovery : {F : Type 0} → Discovery → NowPlaying F → NowPlaying F
apply_discovery (receivers rs) s = record s {
  picker = map_option (kept_picker s.discovered rs) s.picker;
  discovered = rs;
}
apply_discovery (unavailable text) s = record s { discovery_error = some text }

-- `(cursor + delta).clamp(0, last)`
abbrev pub moved_cursor : ℕ → ℤ → ℕ → ℕ
moved_cursor cursor (pos n) last = min (cursor + n) last
moved_cursor cursor (negsuc n) last = min (cursor - suc n) last

abbrev pub move_in : List Receiver → ℤ → Picker → Picker
move_in [] delta p = p
move_in (r ∷ rs) delta p = record { cursor = moved_cursor p.cursor delta (length rs) }

abbrev pub picker_move : {F : Type 0} → ℤ → NowPlaying F → NowPlaying F
picker_move delta s = record s { picker = map_option (move_in s.discovered delta) s.picker }

abbrev pub highlighted : {F : Type 0} → NowPlaying F → Option Receiver
highlighted s = and_then (λ (p : Picker). get_elem? s.discovered p.cursor) s.picker

abbrev pub choose_from :
    {F : Type 0} → Option Receiver → NowPlaying F → Option Endpoint × NowPlaying F
choose_from none s = (none, s)
choose_from (some receiver) s = (
  some (endpoint_parse receiver.url),
  record s { endpoint = receiver.url; connection = connecting; is_chosen = true; picker = none },
)

abbrev pub choose : {F : Type 0} → NowPlaying F → Option Endpoint × NowPlaying F
choose s = choose_from (highlighted s) s

abbrev pub force_discovery : {F : Type 0} → NowPlaying F → NowPlaying F
force_discovery s = record s { picker = some (record { cursor = 0 }); forced_discovery = true }

abbrev pub shows_artwork : {F : Type 0} → NowPlaying F → Bool
shows_artwork s = elim s.artwork [ none ↦ false | some _ ↦ draws s.images ]

-- `get_or_insert_with(Picker::default)`
abbrev pub picker_or_default : Option Picker → Option Picker
picker_or_default none = some (record { cursor = 0 })
picker_or_default (some p) = some p

abbrev pub session_of : SessionInfo Bytes → Session
session_of i = record { rate = i.rate; channels = i.channels; peer = i.peer }

abbrev pub track_or_default : Option (Track Bytes) → Track Bytes
track_or_default none = record { title = none; artist = none; album = none }
track_or_default (some t) = t

abbrev pub progress_of : Display.Progress → Progress
progress_of p = record { elapsed = p.elapsed_ms; duration = p.duration_ms }

module _ (decode_base64 : Bytes → Option Bytes) where
  unfoldable pub decode_artwork : Bytes → Bytes → Option Artwork
  decode_artwork content_type [] = none
  decode_artwork content_type (b ∷ bs) =
      map_option (λ image. record { content_type = content_type; data_bytes = image })
        (decode_base64 (b ∷ bs))

  module _ {F : Type 0} where
    abbrev pub apply_snapshot : Snapshot Bytes F → NowPlaying F → NowPlaying F
    apply_snapshot other s =
        let track = track_or_default other.track in
        record s {
          name = other.receiver.name;
          session = map_option session_of other.session;
          title = track.title;
          artist = track.artist;
          album = track.album;
          volume_db = other.volume_db;
          progress = map_option progress_of other.progress;
          artwork = and_then (λ a. decode_artwork a.content_type a.data_base64) other.artwork;
          is_paused = other.is_paused;
        }

    unfoldable pub apply_message : Message Bytes F → NowPlaying F → NowPlaying F
    unfolding decode_artwork
    apply_message (snapshot other) s = apply_snapshot other s
    apply_message (session_started rate channels peer) s = record s {
      session = some (record { rate = rate; channels = channels; peer = peer });
      is_paused = false;
    }
    apply_message (metadata title artist album) s = record s {
      title = title;
      artist = artist;
      album = album;
    }
    apply_message (cover content_type data_base64) s = record s {
      artwork = decode_artwork content_type data_base64;
    }
    apply_message (volume db) s = record s { volume_db = some db }
    apply_message (paused b) s = record s { is_paused = b }
    apply_message (position elapsed_ms duration_ms) s = record s {
      progress = some (record { elapsed = elapsed_ms; duration = duration_ms });
    }
    apply_message flushed s = s
    apply_message session_ended s = record s {
      session = none;
      title = none;
      artist = none;
      album = none;
      progress = none;
      artwork = none;
      is_paused = false;
    }

    unfoldable pub apply : Update F → NowPlaying F → NowPlaying F
    unfolding apply_message kept_cursor
    apply (is_connected endpoint) s = record s {
      connection = connected;
      endpoint = endpoint;
      picker = none;
    }
    apply disconnected s = record s { connection = lost }
    apply is_unauthorized s = record s { connection = unauthorized }
    apply (message m) s = apply_message m s
    apply no_local_receiver s =
        if s.is_chosen then s else record s { picker = picker_or_default s.picker }
    apply (discovery d) s = apply_discovery d s
