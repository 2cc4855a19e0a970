-- ===== src/Session/Milestones.antt =====
-- The milestones that the host sees are in order (openairplay2/src/session.rs).
use openairplay.Prelude.{
  ℕ, ◌-◌, ◌==◌, ◌≡◌, refl, ap, ◌∙◌, inl, inr, Bool, Bool-cases, true, false, ◌&&◌, if◌then◌else◌,
  Option, none, some, List, [], ◌∷◌, Bytes,
}
use openairplay.Dmap.{TrackMetadata, parse}
use openairplay.Player.{set_paused, request_flush}
use openairplay.Player.Timeline.{frames_to_duration}
use openairplay.Session.{
  Event, volume, sets_volume, store_volume, sanitized, set_volume, metadata, artwork, progress,
  paused, flushed, session_ended, Session, new, send_event, latch, send_session_event,
  start_session, start_buffered_audio, set_rate_anchor, flush, set_progress, report_metadata,
  set_metadata, set_artwork, end_session, teardown, drop_session, Verb, sets_up, sets_rate, flushes,
  sets_progress, sets_metadata, sets_artwork, tears_down, apply, apply_all, store_track,
  store_boundary, with_player,
}
use openairplay.Session.Orderly.{
  behind, behind_all, behind_all-append, IsDecoration, IsOrderly, new-IsOrderly,
  start_session-IsOrderly, sent-IsOrderly,
}

module _ {S : Type 0} (from_utf8_lossy : Bytes → S) where
  abbrev Sn : Type 0
  Sn = Session from_utf8_lossy

  pub end_session-IsOrderly :
      (s : Sn)
      → IsOrderly from_utf8_lossy s
      → IsOrderly from_utf8_lossy (end_session from_utf8_lossy s)
  unfolding end_session
  end_session-IsOrderly s q = elim (Bool-cases s.session_active) [
    | inl active ↦ rw active (record {
      in_order =
          behind_all-append (some false) s.events session_ended true false
            (q.in_order ∙ ap some active) refl;
      metadata_latched = q.metadata_latched;
      artwork_latched = q.artwork_latched;
    })
    | inr idle ↦ rw idle (record {
      in_order = q.in_order ∙ ap some idle;
      metadata_latched = q.metadata_latched;
      artwork_latched = q.artwork_latched;
    })
  ]

  pub ended : (s : Sn) → (end_session from_utf8_lossy s).session_active ≡ false
  unfolding end_session
  ended s = go s.session_active refl
    where
      go :
          (b : Bool)
          → s.session_active ≡ b
          → (if b
              then send_event from_utf8_lossy session_ended (record s { session_active = false })
              else s).session_active
            ≡ false
      go true active = refl
      go false idle = idle

  -- A decoration is sent inside a session and latched outside.
  decorated-IsOrderly :
      (event : Event S) (s : Sn)
      → IsDecoration (some event)
      → behind true event ≡ some true
      → IsOrderly from_utf8_lossy (latch from_utf8_lossy event s)
      → IsOrderly from_utf8_lossy s
      → IsOrderly from_utf8_lossy (send_session_event from_utf8_lossy event s)
  unfolding send_session_event
  decorated-IsOrderly event s d k l q = go s.session_active refl
    where
      go :
          (b : Bool)
          → s.session_active ≡ b
          → IsOrderly from_utf8_lossy
              (if b then send_event from_utf8_lossy event s else latch from_utf8_lossy event s)
      go true active = sent-IsOrderly from_utf8_lossy event s (rw active k) q
      go false idle = l

  set_metadata-IsOrderly :
      (body : Bytes) (s : Sn)
      → IsOrderly from_utf8_lossy s
      → IsOrderly from_utf8_lossy (set_metadata from_utf8_lossy body s)
  unfolding set_metadata
  set_metadata-IsOrderly body s q = go (parse from_utf8_lossy body)
    where
      go :
          (m : Option (TrackMetadata S))
          → IsOrderly from_utf8_lossy (report_metadata from_utf8_lossy m s)
      go none = q
      go (some m) =
          decorated-IsOrderly (metadata m) s tt refl
            (record {
              in_order = q.in_order;
              metadata_latched = tt;
              artwork_latched = q.artwork_latched;
            })
            q

  set_artwork-IsOrderly :
      (content_type : S) (bytes : Bytes) (s : Sn)
      → IsOrderly from_utf8_lossy s
      → IsOrderly from_utf8_lossy (set_artwork from_utf8_lossy content_type bytes s)
  unfolding set_artwork
  set_artwork-IsOrderly content_type bytes s q =
      decorated-IsOrderly (artwork content_type bytes) s tt refl
        (record {
          in_order = q.in_order;
          metadata_latched = q.metadata_latched;
          artwork_latched = tt;
        })
        q

  set_progress-IsOrderly :
      (parsed : Option (ℕ × ℕ × ℕ)) (s : Sn)
      → IsOrderly from_utf8_lossy s
      → IsOrderly from_utf8_lossy (set_progress from_utf8_lossy parsed s)
  unfolding set_progress
  set_progress-IsOrderly none s q = q
  set_progress-IsOrderly (some (start, current, end)) s q = go s.session_active refl
    where
      s' : Sn
      s' = store_track from_utf8_lossy (record { start = start; end = end }) s

      q' : IsOrderly from_utf8_lossy s'
      q' = record {
        in_order = q.in_order;
        metadata_latched = q.metadata_latched;
        artwork_latched = q.artwork_latched;
      }

      event : Event S
      event =
          progress (frames_to_duration (current - start) 44_100)
            (frames_to_duration (end - start) 44_100)

      go :
          (b : Bool)
          → s.session_active ≡ b
          → IsOrderly from_utf8_lossy (if b then send_event from_utf8_lossy event s' else s')
      go true active = sent-IsOrderly from_utf8_lossy event s' (rw active refl) q'
      go false idle = q'

  store_volume-IsOrderly :
      (parsed : Option ℕ) (s : Sn)
      → IsOrderly from_utf8_lossy s
      → IsOrderly from_utf8_lossy (store_volume from_utf8_lossy parsed s)
  store_volume-IsOrderly none s q = q
  store_volume-IsOrderly (some db) s q =
      sent-IsOrderly from_utf8_lossy (volume db) (record s { volume_db = db }) refl
        (record {
          in_order = q.in_order;
          metadata_latched = q.metadata_latched;
          artwork_latched = q.artwork_latched;
        })

  start_buffered_audio-IsOrderly :
      (decryptor decoder : Bool) (s : Sn)
      → IsOrderly from_utf8_lossy s
      → IsOrderly from_utf8_lossy (start_buffered_audio from_utf8_lossy decryptor decoder s)
  unfolding start_buffered_audio
  start_buffered_audio-IsOrderly decryptor decoder s q = go (decryptor && decoder)
    where
      s' : Sn
      s' = record s { flush_until_seq = 0 }

      q' : IsOrderly from_utf8_lossy s'
      q' = record {
        in_order = q.in_order;
        metadata_latched = q.metadata_latched;
        artwork_latched = q.artwork_latched;
      }

      go :
          (b : Bool)
          → IsOrderly from_utf8_lossy (if b then start_session from_utf8_lossy s' else s')
      go true = start_session-IsOrderly from_utf8_lossy s' q'
      go false = q'

  pub apply-IsOrderly :
      (verb : Verb from_utf8_lossy) (s : Sn)
      → IsOrderly from_utf8_lossy s
      → IsOrderly from_utf8_lossy (apply from_utf8_lossy verb s)
  unfolding apply set_rate_anchor flush set_volume teardown
  apply-IsOrderly (sets_up decryptor decoder) s q =
      start_buffered_audio-IsOrderly decryptor decoder s q
  apply-IsOrderly (sets_rate none) s q = q
  apply-IsOrderly (sets_rate (some (rate, rtp))) s q =
      let s' : Sn = record s {
        player = with_player from_utf8_lossy (set_paused (rate == 0)) s.player;
      } in
      sent-IsOrderly from_utf8_lossy (paused (rate == 0)) s' refl (record {
        in_order = q.in_order;
        metadata_latched = q.metadata_latched;
        artwork_latched = q.artwork_latched;
      })
  apply-IsOrderly (flushes boundary) s q =
      let s' : Sn = record s {
        flush_until_seq = store_boundary from_utf8_lossy boundary s.flush_until_seq;
        player = with_player from_utf8_lossy (request_flush boundary) s.player;
      } in
      sent-IsOrderly from_utf8_lossy flushed s' refl (record {
        in_order = q.in_order;
        metadata_latched = q.metadata_latched;
        artwork_latched = q.artwork_latched;
      })
  apply-IsOrderly (sets_progress parsed) s q = set_progress-IsOrderly parsed s q
  apply-IsOrderly (sets_volume parsed) s q =
      store_volume-IsOrderly (sanitized from_utf8_lossy parsed) s q
  apply-IsOrderly (sets_metadata body) s q = set_metadata-IsOrderly body s q
  apply-IsOrderly (sets_artwork content_type bytes) s q =
      set_artwork-IsOrderly content_type bytes s q
  apply-IsOrderly tears_down s q = end_session-IsOrderly s q

  all-IsOrderly :
      (verbs : List (Verb from_utf8_lossy)) (s : Sn)
      → IsOrderly from_utf8_lossy s
      → IsOrderly from_utf8_lossy (apply_all from_utf8_lossy verbs s)
  unfolding apply_all
  all-IsOrderly [] s q = q
  all-IsOrderly (verb ∷ verbs) s q =
      all-IsOrderly verbs (apply from_utf8_lossy verb s) (apply-IsOrderly verb s q)

  -- Whatever verbs a sender uses, in whatever order, the host gets metadata, cover art and positions
  -- only inside a session, a session ends only where one runs, and when the connection is gone none
  -- is left running.
  pub drop_session-behind_all :
      (peer : ℕ) (verbs : List (Verb from_utf8_lossy))
      → behind_all
          (some false)
          (drop_session from_utf8_lossy
            (apply_all from_utf8_lossy verbs (new from_utf8_lossy peer))).events
        ≡ some false
  unfolding drop_session
  drop_session-behind_all peer verbs =
      let s = apply_all from_utf8_lossy verbs (new from_utf8_lossy peer) in
      let q =
        end_session-IsOrderly s
          (all-IsOrderly verbs (new from_utf8_lossy peer) (new-IsOrderly from_utf8_lossy peer)) in
      q.in_order ∙ ap some (ended s)
