-- ===== src/Display.antt =====
-- openairplay2-tui-protocol/src/lib.rs: the state that a display shows, and the messages that change
-- it. `S` stands for `String`, with its `is_empty`; `F` for the `f32` of a volume.
pub mod Fields
mod Runs
use openairplay.Prelude.{
  ℕ, ◌≡◌, Bool, true, false, if◌then◌else◌, Option, none, some, List, [], ◌∷◌,
}

pub record ReceiverInfo (S : Type 0) : Type 0 where
  pub name : S
  pub version : S

pub record SessionInfo (S : Type 0) : Type 0 where
  pub rate : ℕ
  pub channels : ℕ
  pub peer : S

pub record Track (S : Type 0) : Type 0 where
  pub title : Option S
  pub artist : Option S
  pub album : Option S

pub record Progress : Type 0 where
  pub elapsed_ms : ℕ
  pub duration_ms : ℕ

pub record Artwork (S : Type 0) : Type 0 where
  pub content_type : S
  pub data_base64 : S

pub record Snapshot (S F : Type 0) : Type 0 where
  pub receiver : ReceiverInfo S
  pub session : Option (SessionInfo S)
  pub track : Option (Track S)
  pub volume_db : Option F
  pub progress : Option Progress
  pub artwork : Option (Artwork S)
  pub is_paused : Bool

pub data Message (S F : Type 0) : Type 0 where
  snapshot : Snapshot S F → Message S F
  session_started : ℕ → ℕ → S → Message S F
  metadata : Option S → Option S → Option S → Message S F
  cover : S → S → Message S F
  volume : F → Message S F
  position : ℕ → ℕ → Message S F
  paused : Bool → Message S F
  flushed session_ended : Message S F

-- `Snapshot { receiver, ..Snapshot::default() }`
abbrev pub cleared : {S F : Type 0} → ReceiverInfo S → Snapshot S F
cleared receiver = record {
  receiver = receiver;
  session = none;
  track = none;
  volume_db = none;
  progress = none;
  artwork = none;
  is_paused = false;
}

-- `(!data_base64.is_empty()).then(..)`
abbrev pub artwork_of : {S : Type 0} → (S → Bool) → S → S → Option (Artwork S)
artwork_of is_empty content_type data_base64 =
    if is_empty data_base64
    then none
    else some (record { content_type = content_type; data_base64 = data_base64 })

module _ {S F : Type 0} (is_empty : S → Bool) where
  -- `Snapshot::apply`
  unfoldable pub apply : Message S F → Snapshot S F → Snapshot S F
  apply (snapshot other) s = other
  apply (session_started rate channels peer) s = record s {
    session = some (record { rate = rate; channels = channels; peer = peer });
    is_paused = false;
  }
  apply (metadata title artist album) s = record s {
    track = some (record { title = title; artist = artist; album = album });
  }
  apply (cover content_type data_base64) s = record s {
    artwork = artwork_of is_empty content_type data_base64;
  }
  apply (volume db) s = record s { volume_db = some db }
  apply (position elapsed_ms duration_ms) s = record s {
    progress = some (record { elapsed_ms = elapsed_ms; duration_ms = duration_ms });
  }
  apply (paused b) s = record s { is_paused = b }
  apply flushed s = s
  apply session_ended s = cleared s.receiver

  unfoldable pub apply_all : List (Message S F) → Snapshot S F → Snapshot S F
  unfolding apply
  apply_all [] s = s
  apply_all (message ∷ messages) s = apply_all messages (apply message s)
