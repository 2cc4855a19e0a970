-- ===== src/Display/Runs.antt =====
-- Concrete runs of a display's state, and its theorems at concrete inputs. A string is its bytes.
use openairplay.Prelude.{ℕ, ◌≡◌, refl, true, none, some, List, [], ◌∷◌, ◌++◌, Bytes, is_empty}
use openairplay.Display.{
  Snapshot, Message, session_started, metadata, cover, volume, position, paused, flushed,
  session_ended, cleared, apply_all,
}
use openairplay.Display.Fields.{
  latest, about_session, about_track, about_volume, about_progress, about_artwork, about_paused,
  about_receiver, apply_all-latest,
}

abbrev start : Snapshot Bytes ℕ
start = cleared (record { name = b'L' ∷ []; version = b'1' ∷ [] })

abbrev messages : List (Message Bytes ℕ)
messages =
    session_started 44_100 2 (b'p' ∷ [])
    ∷ metadata (some (b'A' ∷ [])) none none
    ∷ cover (b'j' ∷ []) (b'x' ∷ [])
    ∷ volume 12
    ∷ position 1000 2000
    ∷ paused true
    ∷ flushed
    ∷ cover (b'n' ∷ []) []
    ∷ []

-- folding_messages_builds_the_current_state
folded : apply_all is_empty messages start ≡ record start {
  session = some (record { rate = 44_100; channels = 2; peer = b'p' ∷ [] });
  track = some (record { title = some (b'A' ∷ []); artist = none; album = none });
  volume_db = some 12;
  progress = some (record { elapsed_ms = 1000; duration_ms = 2000 });
  is_paused = true;
}
unfolding apply_all
folded = refl

-- The end of a session clears everything but the receiver.
ended : apply_all is_empty (messages ++ session_ended ∷ []) start ≡ start
unfolding apply_all
ended = refl

apply_all-latest_example : apply_all is_empty messages start ≡ record {
  receiver = latest (about_receiver is_empty) messages start.receiver;
  session = latest (about_session is_empty) messages start.session;
  track = latest (about_track is_empty) messages start.track;
  volume_db = latest (about_volume is_empty) messages start.volume_db;
  progress = latest (about_progress is_empty) messages start.progress;
  artwork = latest (about_artwork is_empty) messages start.artwork;
  is_paused = latest (about_paused is_empty) messages start.is_paused;
}
apply_all-latest_example = apply_all-latest is_empty messages start
