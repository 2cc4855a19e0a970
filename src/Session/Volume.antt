-- ===== src/Session/Volume.antt =====
-- The volumes that the host is told of (`sanitize_volume` in openairplay2/src/session.rs, `Volume` in
-- openairplay2/src/events.rs).
use openairplay.Prelude.{
  ℕ, ◌-◌, ◌==◌, ◌≡◌, ◌≤◌, ◌⊎◌, refl, inl, Bool, true, false, ◌&&◌, if◌then◌else◌, Option, none,
  some, List, [], ◌∷◌, ◌++◌, All, All-append, Bytes, arith,
}
use openairplay.Dmap.{TrackMetadata, parse}
use openairplay.Player.{set_paused, request_flush}
use openairplay.Player.Timeline.{frames_to_duration}
use openairplay.Session.{
  store_track, store_boundary, with_player, Event, session_started, volume, metadata, artwork,
  progress, paused, flushed, session_ended, Session, new, mute_db, full_db, sanitize_volume,
  store_volume, send_event, send_latched, latch, send_session_event, start_session,
  start_buffered_audio, set_rate_anchor, flush, set_progress, set_volume, report_metadata,
  set_metadata, set_artwork, end_session, teardown, Verb, sets_up, sets_rate, flushes,
  sets_progress, sets_volume, sets_metadata, sets_artwork, tears_down, apply, apply_all,
}

-- The bits of a number from -144.0 to 0.0.
abbrev pub IsUsable : ℕ → Type 0
IsUsable db = (db ≡ full_db) ⊎ ((0x80000000 ≤ db) × (db ≤ mute_db))

-- An event that tells of no volume but a usable one.
abbrev pub TellsUsable : {S : Type 0} → Event S → Type 0
TellsUsable (volume db) = IsUsable db
TellsUsable _ = Unit

abbrev pub LatchesUsable : {S : Type 0} → Option (Event S) → Type 0
LatchesUsable none = Unit
LatchesUsable (some event) = TellsUsable event

-- What is not finite is refused, and what is accepted is in the range.
pub sanitize_volume-IsUsable : (bits : ℕ) {db : ℕ} → sanitize_volume bits ≡ some db → IsUsable db
unfolding sanitize_volume
sanitize_volume-IsUsable bits e = ground arith

module _ {S : Type 0} (from_utf8_lossy : Bytes → S) where
  abbrev Sn : Type 0
  Sn = Session from_utf8_lossy

  pub record HasUsable (s : Sn) : Type 0 where
    pub told : All TellsUsable s.events
    pub kept : IsUsable s.volume_db
    pub metadata_latched : LatchesUsable s.pending_metadata
    pub artwork_latched : LatchesUsable s.pending_artwork

  if-HasUsable : (b : Bool) (x y : Sn) → HasUsable x → HasUsable y → HasUsable (if b then x else y)
  if-HasUsable true x y h k = h
  if-HasUsable false x y h k = k

  -- What does not touch the events, the volume and what is latched.
  pub same-HasUsable :
      (s t : Sn)
      → t.events ≡ s.events
      → t.volume_db ≡ s.volume_db
      → t.pending_metadata ≡ s.pending_metadata
      → t.pending_artwork ≡ s.pending_artwork
      → HasUsable s
      → HasUsable t
  same-HasUsable s t e v m a h = record {
    told = rw e h.told;
    kept = rw v h.kept;
    metadata_latched = rw m h.metadata_latched;
    artwork_latched = rw a h.artwork_latched;
  }

  told-append :
      (events : List (Event S)) (event : Event S)
      → All TellsUsable events
      → TellsUsable event
      → All TellsUsable (events ++ event ∷ [])
  told-append events event h k = All-append TellsUsable events (event ∷ []) h (k, tt)

  send_event-HasUsable :
      (event : Event S) (s : Sn)
      → TellsUsable event
      → HasUsable s
      → HasUsable (send_event from_utf8_lossy event s)
  send_event-HasUsable event s k h = record {
    told = told-append s.events event h.told k;
    kept = h.kept;
    metadata_latched = h.metadata_latched;
    artwork_latched = h.artwork_latched;
  }

  send_latched-HasUsable :
      (latched : Option (Event S)) (s : Sn)
      → LatchesUsable latched
      → HasUsable s
      → HasUsable (send_latched from_utf8_lossy latched s)
  send_latched-HasUsable none s k h = h
  send_latched-HasUsable (some event) s k h = send_event-HasUsable event s k h

  start_session-HasUsable : (s : Sn) → HasUsable s → HasUsable (start_session from_utf8_lossy s)
  start_session-HasUsable s h =
      let begun : Sn = record s { session_active = true } in
      let started = send_event from_utf8_lossy (session_started 44_100 2 s.peer_ip) begun in
      let h0 : HasUsable begun = record {
        told = h.told;
        kept = h.kept;
        metadata_latched = h.metadata_latched;
        artwork_latched = h.artwork_latched;
      } in
      let h1 = send_event-HasUsable (session_started 44_100 2 s.peer_ip) begun tt h0 in
      let h2 = send_latched-HasUsable s.pending_metadata started h.metadata_latched h1 in
      let h3 =
        send_latched-HasUsable s.pending_artwork
          (send_latched from_utf8_lossy s.pending_metadata started) h.artwork_latched h2 in
      record { told = h3.told; kept = h3.kept; metadata_latched = tt; artwork_latched = tt }

  -- Metadata and cover art, sent or latched.
  decorated-HasUsable :
      (event : Event S) (s : Sn)
      → TellsUsable event
      → HasUsable (latch from_utf8_lossy event s)
      → HasUsable s
      → HasUsable (send_session_event from_utf8_lossy event s)
  unfolding send_session_event
  decorated-HasUsable event s k l h =
      if-HasUsable s.session_active (send_event from_utf8_lossy event s)
        (latch from_utf8_lossy event s) (send_event-HasUsable event s k h) l

  report_metadata-HasUsable :
      (m : Option (TrackMetadata S)) (s : Sn)
      → HasUsable s
      → HasUsable (report_metadata from_utf8_lossy m s)
  report_metadata-HasUsable none s h = h
  report_metadata-HasUsable (some m) s h =
      decorated-HasUsable (metadata m) s tt
        (record {
          told = h.told;
          kept = h.kept;
          metadata_latched = tt;
          artwork_latched = h.artwork_latched;
        })
        h

  store_volume-HasUsable :
      (bits : Option ℕ) (s : Sn) → HasUsable s → HasUsable (set_volume from_utf8_lossy bits s)
  unfolding set_volume
  store_volume-HasUsable none s h = h
  store_volume-HasUsable (some bits) s h = go (sanitize_volume bits) refl
    where
      go : (o : Option ℕ) → sanitize_volume bits ≡ o → HasUsable (store_volume from_utf8_lossy o s)
      go none e = h
      go (some db) e =
          let usable = sanitize_volume-IsUsable bits e in
          record {
            told = told-append s.events (volume db) h.told usable;
            kept = usable;
            metadata_latched = h.metadata_latched;
            artwork_latched = h.artwork_latched;
          }

  pub end_session-HasUsable : (s : Sn) → HasUsable s → HasUsable (end_session from_utf8_lossy s)
  unfolding end_session
  end_session-HasUsable s h =
      let over : Sn = record s { session_active = false } in
      if-HasUsable s.session_active (send_event from_utf8_lossy session_ended over) s
        (send_event-HasUsable session_ended over tt (same-HasUsable s over refl refl refl refl h)) h

  set_progress-HasUsable :
      (parsed : Option (ℕ × ℕ × ℕ)) (s : Sn)
      → HasUsable s
      → HasUsable (set_progress from_utf8_lossy parsed s)
  unfolding set_progress
  set_progress-HasUsable none s h = h
  set_progress-HasUsable (some (start, current, end)) s h =
      let s' = store_track from_utf8_lossy (record { start = start; end = end }) s in
      let h' = same-HasUsable s s' refl refl refl refl h in
      let event =
        progress (frames_to_duration (current - start) 44_100)
          (frames_to_duration (end - start) 44_100) in
      if-HasUsable s.session_active (send_event from_utf8_lossy event s') s'
        (send_event-HasUsable event s' tt h') h'

  pub apply-HasUsable :
      (verb : Verb from_utf8_lossy) (s : Sn)
      → HasUsable s
      → HasUsable (apply from_utf8_lossy verb s)
  unfolding apply start_buffered_audio set_rate_anchor flush set_metadata set_artwork teardown
  apply-HasUsable (sets_up decryptor decoder) s h =
      let s' : Sn = record s { flush_until_seq = 0 } in
      let h' = same-HasUsable s s' refl refl refl refl h in
      if-HasUsable (decryptor && decoder) (start_session from_utf8_lossy s') s'
        (start_session-HasUsable s' h') h'
  apply-HasUsable (sets_rate none) s h = h
  apply-HasUsable (sets_rate (some (rate, rtp))) s h =
      let s' : Sn = record s {
        player = with_player from_utf8_lossy (set_paused (rate == 0)) s.player;
      } in
      send_event-HasUsable (paused (rate == 0)) s' tt (same-HasUsable s s' refl refl refl refl h)
  apply-HasUsable (flushes boundary) s h =
      let s' : Sn = record s {
        flush_until_seq = store_boundary from_utf8_lossy boundary s.flush_until_seq;
        player = with_player from_utf8_lossy (request_flush boundary) s.player;
      } in
      send_event-HasUsable flushed s' tt (same-HasUsable s s' refl refl refl refl h)
  apply-HasUsable (sets_progress parsed) s h = set_progress-HasUsable parsed s h
  apply-HasUsable (sets_volume parsed) s h = store_volume-HasUsable parsed s h
  apply-HasUsable (sets_metadata body) s h =
      report_metadata-HasUsable (parse from_utf8_lossy body) s h
  apply-HasUsable (sets_artwork content_type bytes) s h =
      decorated-HasUsable (artwork content_type bytes) s tt
        (record {
          told = h.told;
          kept = h.kept;
          metadata_latched = h.metadata_latched;
          artwork_latched = tt;
        })
        h
  apply-HasUsable tears_down s h = end_session-HasUsable s h

  all-HasUsable :
      (verbs : List (Verb from_utf8_lossy)) (s : Sn)
      → HasUsable s
      → HasUsable (apply_all from_utf8_lossy verbs s)
  unfolding apply_all
  all-HasUsable [] s h = h
  all-HasUsable (verb ∷ verbs) s h =
      all-HasUsable verbs (apply from_utf8_lossy verb s) (apply-HasUsable verb s h)

  -- Whatever verbs a sender uses, each volume that the host is told of, and the one that answers a
  -- sender's query, is a number from -144.0 to 0.0.
  pub apply_all-HasUsable :
      (peer : ℕ) (verbs : List (Verb from_utf8_lossy))
      → HasUsable (apply_all from_utf8_lossy verbs (new from_utf8_lossy peer))
  apply_all-HasUsable peer verbs =
      all-HasUsable verbs (new from_utf8_lossy peer)
        (record { told = tt; kept = inl refl; metadata_latched = tt; artwork_latched = tt })
