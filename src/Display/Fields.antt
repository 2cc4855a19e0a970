-- ===== src/Display/Fields.antt =====
-- What a display shows, field by field (openairplay2-tui-protocol/src/lib.rs).
use openairplay.Prelude.{◌≡◌, refl, sym, Bool, false, Option, none, some, List, [], ◌∷◌, ◌++◌}
use openairplay.Display.{
  ReceiverInfo, SessionInfo, Track, Progress, Artwork, Snapshot, Message, snapshot, session_started,
  metadata, cover, volume, position, paused, flushed, session_ended, cleared, artwork_of, apply,
  apply_all,
}

-- The value of the last message that says something about a field, or the one before them all.
abbrev pub latest : {M A : Type 0} → (M → Option A) → List M → A → A
latest says [] a = a
latest says (m ∷ ms) a = elim (says m) [ none ↦ latest says ms a | some b ↦ latest says ms b ]

module _ {S F : Type 0} (is_empty : S → Bool) where
  -- What each message says about each field; the end of a session says something about all of them.
  abbrev pub about_session : Message S F → Option (Option (SessionInfo S))
  about_session (snapshot other) = some other.session
  about_session (session_started rate channels peer) =
      some (some (record { rate = rate; channels = channels; peer = peer }))
  about_session session_ended = some none
  about_session _ = none

  abbrev pub about_track : Message S F → Option (Option (Track S))
  about_track (snapshot other) = some other.track
  about_track (metadata title artist album) =
      some (some (record { title = title; artist = artist; album = album }))
  about_track session_ended = some none
  about_track _ = none

  abbrev pub about_volume : Message S F → Option (Option F)
  about_volume (snapshot other) = some other.volume_db
  about_volume (volume db) = some (some db)
  about_volume session_ended = some none
  about_volume _ = none

  abbrev pub about_progress : Message S F → Option (Option Progress)
  about_progress (snapshot other) = some other.progress
  about_progress (position elapsed_ms duration_ms) =
      some (some (record { elapsed_ms = elapsed_ms; duration_ms = duration_ms }))
  about_progress session_ended = some none
  about_progress _ = none

  abbrev pub about_artwork : Message S F → Option (Option (Artwork S))
  about_artwork (snapshot other) = some other.artwork
  about_artwork (cover content_type data_base64) =
      some (artwork_of is_empty content_type data_base64)
  about_artwork session_ended = some none
  about_artwork _ = none

  abbrev pub about_paused : Message S F → Option Bool
  about_paused (snapshot other) = some other.is_paused
  about_paused (session_started rate channels peer) = some false
  about_paused (paused b) = some b
  about_paused session_ended = some false
  about_paused _ = none

  abbrev pub about_receiver : Message S F → Option (ReceiverInfo S)
  about_receiver (snapshot other) = some other.receiver
  about_receiver _ = none

  -- Whatever messages come, each field shows what the last message about it said.
  pub apply_all-latest :
      (messages : List (Message S F)) (s : Snapshot S F)
      → apply_all is_empty messages s ≡ record {
        receiver = latest about_receiver messages s.receiver;
        session = latest about_session messages s.session;
        track = latest about_track messages s.track;
        volume_db = latest about_volume messages s.volume_db;
        progress = latest about_progress messages s.progress;
        artwork = latest about_artwork messages s.artwork;
        is_paused = latest about_paused messages s.is_paused;
      }
  unfolding apply_all apply
  apply_all-latest [] s = refl
  apply_all-latest (snapshot other ∷ messages) s = apply_all-latest messages other
  apply_all-latest (session_started rate channels peer ∷ messages) s =
      apply_all-latest messages (apply is_empty (session_started rate channels peer) s)
  apply_all-latest (metadata title artist album ∷ messages) s =
      apply_all-latest messages (apply is_empty (metadata title artist album) s)
  apply_all-latest (cover content_type data_base64 ∷ messages) s =
      apply_all-latest messages (apply is_empty (cover content_type data_base64) s)
  apply_all-latest (volume db ∷ messages) s =
      apply_all-latest messages (apply is_empty (volume db) s)
  apply_all-latest (position elapsed_ms duration_ms ∷ messages) s =
      apply_all-latest messages (apply is_empty (position elapsed_ms duration_ms) s)
  apply_all-latest (paused b ∷ messages) s = apply_all-latest messages (apply is_empty (paused b) s)
  apply_all-latest (flushed ∷ messages) s = apply_all-latest messages s
  apply_all-latest (session_ended ∷ messages) s = apply_all-latest messages (cleared s.receiver)

  apply_all-append :
      (earlier later : List (Message S F)) (s : Snapshot S F)
      → apply_all is_empty (earlier ++ later) s
        ≡ apply_all is_empty later (apply_all is_empty earlier s)
  unfolding apply_all
  apply_all-append [] later s = refl
  apply_all-append (m ∷ earlier) later s = apply_all-append earlier later (apply is_empty m s)

  -- A client that connects late, or lost any messages, shows what the receiver does once it gets the
  -- snapshot and the messages behind it, whatever it showed before.
  pub snapshot_resyncs :
      (earlier later : List (Message S F)) (start shown : Snapshot S F)
      → apply_all is_empty (snapshot (apply_all is_empty earlier start) ∷ later) shown
        ≡ apply_all is_empty (earlier ++ later) start
  unfolding apply_all apply
  snapshot_resyncs earlier later start shown = sym (apply_all-append earlier later start)
