-- ===== src/Session/Latch.antt =====
-- What a sender pushes before the stream is set up (openairplay2/src/session.rs).
use openairplay.Prelude.{
  ℕ, ◌≡◌, refl, sym, ap, ◌∙◌, true, Option, none, some, List, [], ◌∷◌, ◌++◌, append-nil, Bytes,
}
use openairplay.Dmap.{TrackMetadata, parse}
use openairplay.Session.{
  Event, session_started, metadata, artwork, Session, new, send_event, send_latched,
  send_session_event, start_buffered_audio, report_metadata, set_metadata, set_artwork, Verb,
  sets_metadata, sets_artwork, apply, apply_all,
}

abbrev pub to_list : {A : Type 0} → Option A → List A
to_list none = []
to_list (some x) = x ∷ []

module _ {S : Type 0} (from_utf8_lossy : Bytes → S) where
  abbrev Sn : Type 0
  Sn = Session from_utf8_lossy

  -- Only metadata and cover art.
  abbrev pub IsEarly : List (Verb from_utf8_lossy) → Type 0
  IsEarly [] = Unit
  IsEarly (sets_metadata body ∷ verbs) = IsEarly verbs
  IsEarly (sets_artwork content_type bytes ∷ verbs) = IsEarly verbs
  IsEarly (_ ∷ verbs) = ⊥

  abbrev pub newer : Option (TrackMetadata S) → Option (Event S) → Option (Event S)
  newer none latest = latest
  newer (some m) latest = some (metadata m)

  -- The last metadata and the last cover art that the verbs carry, after these.
  abbrev pub last_metadata : Option (Event S) → List (Verb from_utf8_lossy) → Option (Event S)
  last_metadata latest [] = latest
  last_metadata latest (sets_metadata body ∷ verbs) =
      last_metadata (newer (parse from_utf8_lossy body) latest) verbs
  last_metadata latest (_ ∷ verbs) = last_metadata latest verbs

  abbrev pub last_artwork : Option (Event S) → List (Verb from_utf8_lossy) → Option (Event S)
  last_artwork latest [] = latest
  last_artwork latest (sets_artwork content_type bytes ∷ verbs) =
      last_artwork (some (artwork content_type bytes)) verbs
  last_artwork latest (_ ∷ verbs) = last_artwork latest verbs

  -- A session that was never started, with what is latched.
  abbrev early : ℕ → Option (Event S) → Option (Event S) → Sn
  early peer m a = record (new from_utf8_lossy peer) { pending_metadata = m; pending_artwork = a }

  set_metadata-early :
      (peer : ℕ) (body : Bytes) (m a : Option (Event S))
      → set_metadata from_utf8_lossy body (early peer m a)
        ≡ early peer (newer (parse from_utf8_lossy body) m) a
  unfolding set_metadata send_session_event
  set_metadata-early peer body m a = go (parse from_utf8_lossy body)
    where
      go :
          (parsed : Option (TrackMetadata S))
          → report_metadata from_utf8_lossy parsed (early peer m a) ≡ early peer (newer parsed m) a
      go none = refl
      go (some t) = refl

  all-early :
      (peer : ℕ) (verbs : List (Verb from_utf8_lossy)) (m a : Option (Event S))
      → IsEarly verbs
      → apply_all from_utf8_lossy verbs (early peer m a)
        ≡ early peer (last_metadata m verbs) (last_artwork a verbs)
  unfolding apply_all apply set_artwork send_session_event
  all-early peer [] m a h = refl
  all-early peer (sets_metadata body ∷ verbs) m a h =
      ap (apply_all from_utf8_lossy verbs) (set_metadata-early peer body m a)
      ∙ all-early peer verbs (newer (parse from_utf8_lossy body) m) a h
  all-early peer (sets_artwork content_type bytes ∷ verbs) m a h =
      all-early peer verbs m (some (artwork content_type bytes)) h
  all-early peer (_ ∷ verbs) m a h = absurd h

  send_latched-events :
      (latched : Option (Event S)) (s : Sn)
      → (send_latched from_utf8_lossy latched s).events ≡ s.events ++ to_list latched
  send_latched-events none s = sym (append-nil s.events)
  send_latched-events (some event) s = refl

  -- What a sender pushes before the stream is set up reaches the host when it is: right behind
  -- `SessionStarted` come the last metadata that could be parsed and the last cover art, once each.
  pub start-latched :
      (peer : ℕ) (verbs : List (Verb from_utf8_lossy))
      → IsEarly verbs
      → (start_buffered_audio from_utf8_lossy true true
          (apply_all from_utf8_lossy verbs (new from_utf8_lossy peer))).events
        ≡ session_started 44_100 2 peer
          ∷ (to_list (last_metadata none verbs) ++ to_list (last_artwork none verbs))
  unfolding start_buffered_audio
  start-latched peer verbs h =
      let m = last_metadata none verbs in
      let a = last_artwork none verbs in
      let started =
        send_event from_utf8_lossy (session_started 44_100 2 peer)
          (record (early peer m a) { session_active = true }) in
      ap (λ (s : Sn). (start_buffered_audio from_utf8_lossy true true s).events)
        (all-early peer verbs none none h)
      ∙ send_latched-events a (send_latched from_utf8_lossy m started)
      ∙ ap (λ (l : List (Event S)). l ++ to_list a) (send_latched-events m started)
