-- ===== src/Session/Orderly.antt =====
-- When the milestones so far are in order (openairplay2/src/session.rs).
use openairplay.Prelude.{
  ℕ, ◌≡◌, refl, sym, ap, ◌∙◌, Bool, true, false, if◌then◌else◌, Option, none, some, List, [], ◌∷◌,
  ◌++◌, Bytes,
}
use openairplay.Session.{
  Event, session_started, volume, metadata, artwork, progress, paused, flushed, session_ended,
  Session, new, send_event, send_latched, start_session,
}

-- Whether a session is running behind this event, if it may come where one runs or not.
abbrev pub behind : {S : Type 0} → Bool → Event S → Option Bool
behind inside (session_started rate channels peer) = some true
behind inside (metadata m) = if inside then some true else none
behind inside (artwork content_type bytes) = if inside then some true else none
behind inside (progress elapsed duration) = if inside then some true else none
behind inside (volume db) = some inside
behind inside (paused b) = some inside
behind inside flushed = some inside
behind inside session_ended = if inside then some false else none

-- The same behind a list of events: nothing, where one of them was out of place.
abbrev pub behind_all : {S : Type 0} → Option Bool → List (Event S) → Option Bool
behind_all none events = none
behind_all (some inside) [] = some inside
behind_all (some inside) (event ∷ events) = behind_all (behind inside event) events

pub behind_all-append :
    {S : Type 0}
    → (inside : Option Bool) (events : List (Event S)) (event : Event S) (b b' : Bool)
    → behind_all inside events ≡ some b
    → behind b event ≡ some b'
    → behind_all inside (events ++ event ∷ []) ≡ some b'
behind_all-append none events event b b' h k = cc
behind_all-append {S} (some inside) [] event b b' h k =
    let same : inside ≡ b = cc in
    ap (λ (o : Option Bool). behind_all {S = S} o []) (ap (λ (b : Bool). behind b event) same ∙ k)
behind_all-append (some inside) (e ∷ events) event b b' h k =
    behind_all-append (behind inside e) events event b b' h k

abbrev pub IsDecoration : {S : Type 0} → Option (Event S) → Type 0
IsDecoration none = Unit
IsDecoration (some (metadata m)) = Unit
IsDecoration (some (artwork content_type bytes)) = Unit
IsDecoration (some event) = ⊥

module _ {S : Type 0} (from_utf8_lossy : Bytes → S) where
  abbrev Sn : Type 0
  Sn = Session from_utf8_lossy

  -- The events are in order, a session runs behind them exactly if one is active, and what is latched
  -- is metadata and cover art.
  pub record IsOrderly (s : Sn) : Type 0 where
    pub in_order : behind_all (some false) s.events ≡ some s.session_active
    pub metadata_latched : IsDecoration s.pending_metadata
    pub artwork_latched : IsDecoration s.pending_artwork

  pub new-IsOrderly : (peer : ℕ) → IsOrderly (new from_utf8_lossy peer)
  new-IsOrderly peer = record { in_order = refl; metadata_latched = tt; artwork_latched = tt }

  -- A session that is running takes what is latched.
  latched_in_order :
      (latched : Option (Event S)) (s : Sn)
      → IsDecoration latched
      → behind_all (some false) s.events ≡ some true
      → behind_all (some false) (send_latched from_utf8_lossy latched s).events ≡ some true
  latched_in_order none s d h = h
  latched_in_order (some (metadata m)) s d h =
      behind_all-append (some false) s.events (metadata m) true true h refl
  latched_in_order (some (artwork c x)) s d h =
      behind_all-append (some false) s.events (artwork c x) true true h refl
  latched_in_order (some (session_started r c p)) s d h = absurd d
  latched_in_order (some (volume db)) s d h = absurd d
  latched_in_order (some (progress e t)) s d h = absurd d
  latched_in_order (some (paused b)) s d h = absurd d
  latched_in_order (some flushed) s d h = absurd d
  latched_in_order (some session_ended) s d h = absurd d

  send_latched-active :
      (latched : Option (Event S)) (s : Sn)
      → (send_latched from_utf8_lossy latched s).session_active ≡ s.session_active
  send_latched-active none s = refl
  send_latched-active (some event) s = refl

  pub start_session-IsOrderly : (s : Sn) → IsOrderly s → IsOrderly (start_session from_utf8_lossy s)
  start_session-IsOrderly s q =
      let started =
        send_event from_utf8_lossy (session_started 44_100 2 s.peer_ip)
          (record s { session_active = true }) in
      let first = send_latched from_utf8_lossy s.pending_metadata started in
      record {
        in_order =
            latched_in_order s.pending_artwork first q.artwork_latched (
              latched_in_order s.pending_metadata started q.metadata_latched (
                behind_all-append (some false) s.events (session_started 44_100 2 s.peer_ip)
                  s.session_active true q.in_order refl))
            ∙ ap some (
                sym (
                  send_latched-active s.pending_artwork first
                  ∙ send_latched-active s.pending_metadata started));
        metadata_latched = tt;
        artwork_latched = tt;
      }

  -- An event that changes nothing about the session.
  pub sent-IsOrderly :
      (event : Event S) (s : Sn)
      → behind s.session_active event ≡ some s.session_active
      → IsOrderly s
      → IsOrderly (send_event from_utf8_lossy event s)
  sent-IsOrderly event s k q = record {
    in_order =
        behind_all-append (some false) s.events event s.session_active s.session_active q.in_order
          k;
    metadata_latched = q.metadata_latched;
    artwork_latched = q.artwork_latched;
  }
