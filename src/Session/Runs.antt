-- ===== src/Session/Runs.antt =====
-- Concrete runs of a session, and its theorems at concrete inputs. A string is the bytes it was read
-- from.
use openairplay.Prelude.{◌≡◌, refl, true, false, none, some, List, [], ◌∷◌, ◌++◌, Bytes}
use openairplay.Dmap.{parse}
use openairplay.Session.{
  session_started, metadata, progress, paused, flushed, session_ended, new, start_buffered_audio,
  drop_session, set_metadata, Verb, sets_up, sets_rate, flushes, sets_progress, sets_metadata,
  sets_artwork, tears_down, apply_all,
}
use openairplay.Session.Latch.{to_list, last_metadata, last_artwork, start-latched}

abbrev text : Bytes → Bytes
text bytes = bytes

-- A track with the title "A".
abbrev song : Bytes
song =
    b'm' ∷ b'l' ∷ b'i' ∷ b't' ∷ 0 ∷ 0 ∷ 0 ∷ 9 ∷ b'm' ∷ b'i' ∷ b'n' ∷ b'm' ∷ 0 ∷ 0 ∷ 0 ∷ 1 ∷ b'A'
    ∷ []

abbrev verbs : List (Verb text)
verbs =
    sets_metadata song
    ∷ sets_up true true
    ∷ sets_rate (some (1, 0))
    ∷ sets_progress (some (0, 44_100, 88_200))
    ∷ flushes (some 9)
    ∷ tears_down
    ∷ sets_metadata song
    ∷ []

a_session :
    (drop_session text (apply_all text verbs (new text 7))).events
    ≡ session_started 44_100 2 7
      ∷ metadata (record { title = some (b'A' ∷ []); artist = none; album = none })
      ∷ paused false
      ∷ progress 1_000_000_000 2_000_000_000
      ∷ flushed
      ∷ session_ended
      ∷ []
unfolding drop_session apply_all parse set_metadata
a_session = refl

-- A second stream on one connection starts a session again, and one end is reported for both.
restarted :
    (drop_session text
      (apply_all text (sets_up true true ∷ sets_up true true ∷ []) (new text 7))).events
    ≡ session_started 44_100 2 7 ∷ session_started 44_100 2 7 ∷ session_ended ∷ []
unfolding drop_session apply_all
restarted = refl

abbrev early_verbs : List (Verb text)
early_verbs = sets_artwork (1 ∷ []) (2 ∷ []) ∷ sets_metadata song ∷ sets_artwork (3 ∷ []) [] ∷ []

start-latched_example :
    (start_buffered_audio text true true (apply_all text early_verbs (new text 7))).events
    ≡ session_started 44_100 2 7
      ∷ (to_list (last_metadata text none early_verbs)
          ++ to_list (last_artwork text none early_verbs))
start-latched_example = start-latched text 7 early_verbs tt
