-- ===== src/Session/Host.antt =====
-- The channel to the host (openairplay2/src/events.rs). The control task of a connection sends its
-- milestones on it, and the playback thread its positions (`Position::new` in
-- openairplay2/src/session.rs, `Position::played` in openairplay2/src/player.rs).
use openairplay.Prelude.{
  ℕ, ◌≡◌, refl, sym, subst, Bool, true, false, Option, none, some, List, [], ◌∷◌,
}
use openairplay.Session.{
  Event, session_started, volume, metadata, artwork, progress, paused, flushed, session_ended,
}
use openairplay.Session.Orderly.{behind, behind_all}

abbrev pub started_by : {S : Type 0} → Event S → Bool → Bool
started_by (session_started rate channels peer) started = true
started_by event started = started

-- What the host gets of what the control task sends, in any interleaving with the reports of the
-- playback threads. A thread is spawned behind `SessionStarted`, and joined when the session is
-- dropped, which is behind `SessionEnded`.
pub data Merged {S : Type 0} : Bool → List (Event S) → List (Event S) → Type 0 where
  finished : {started : Bool} → Merged started [] []
  sent :
      {started : Bool} {control host : List (Event S)} (event : Event S)
      → Merged (started_by event started) control host
      → Merged started (event ∷ control) (event ∷ host)
  reported :
      {control host : List (Event S)} (elapsed duration : ℕ)
      → Merged true control host
      → Merged true control (progress elapsed duration ∷ host)

-- Before the first session, inside one, and behind one.
pub data Phase : Type 0 where
  fresh inside over : Phase

abbrev only_inside : Phase → Option Phase
only_inside inside = some inside
only_inside _ = none

abbrev not_fresh : Phase → Option Phase
not_fresh fresh = none
not_fresh phase = some phase

abbrev ends : Phase → Option Phase
ends inside = some over
ends _ = none

-- The phase behind an event, if it may come in this one: a position may come once there was a
-- session, and cover art and metadata only inside one.
abbrev pub follows : {S : Type 0} → Phase → Event S → Option Phase
follows phase (session_started rate channels peer) = some inside
follows phase (metadata m) = only_inside phase
follows phase (artwork content_type bytes) = only_inside phase
follows phase (progress elapsed duration) = not_fresh phase
follows phase session_ended = ends phase
follows phase (volume db) = some phase
follows phase (paused b) = some phase
follows phase flushed = some phase

unfoldable pub follows_all : {S : Type 0} → Option Phase → List (Event S) → Option Phase
follows_all none events = none
follows_all (some phase) [] = some phase
follows_all (some phase) (event ∷ events) = follows_all (follows phase event) events

-- No event was out of place, and no session is left running.
abbrev pub HasStopped : Option Phase → Type 0
HasStopped none = ⊥
HasStopped (some inside) = ⊥
HasStopped (some _) = Unit

-- Whether a session runs, and whether one was started, in a phase.
data Stands : Phase → Bool → Bool → Type 0 where
  at_fresh : Stands fresh false false
  at_inside : Stands inside true true
  at_over : Stands over false true

with_runs :
    {phase : Phase} {runs runs' started : Bool}
    → some runs ≡ some runs'
    → Stands phase runs started
    → Stands phase runs' started
with_runs {phase} {runs} {runs'} {started} e st =
    let same : runs ≡ runs' = cc in subst (λ (b : Bool). Stands phase b started) same st

Stands-follows :
    {S : Type 0} {phase : Phase} {runs started : Bool}
    → (event : Event S) (runs' : Bool) → Stands phase runs started
    → behind runs event ≡ some runs'
    → (phase' : Phase) × (follows phase event ≡ some phase')
      × Stands phase' runs' (started_by event started)
Stands-follows (session_started rate channels peer) runs' st h =
    (inside, refl, with_runs h at_inside)
Stands-follows (metadata m) runs' at_fresh h = absurd cc
Stands-follows (metadata m) runs' at_inside h = (inside, refl, with_runs h at_inside)
Stands-follows (metadata m) runs' at_over h = absurd cc
Stands-follows (artwork content_type bytes) runs' at_fresh h = absurd cc
Stands-follows (artwork content_type bytes) runs' at_inside h =
    (inside, refl, with_runs h at_inside)
Stands-follows (artwork content_type bytes) runs' at_over h = absurd cc
Stands-follows (progress elapsed duration) runs' at_fresh h = absurd cc
Stands-follows (progress elapsed duration) runs' at_inside h = (inside, refl, with_runs h at_inside)
Stands-follows (progress elapsed duration) runs' at_over h = absurd cc
Stands-follows session_ended runs' at_fresh h = absurd cc
Stands-follows session_ended runs' at_inside h = (over, refl, with_runs h at_over)
Stands-follows session_ended runs' at_over h = absurd cc
Stands-follows (volume db) runs' st h = (_, refl, with_runs h st)
Stands-follows (paused b) runs' st h = (_, refl, with_runs h st)
Stands-follows flushed runs' st h = (_, refl, with_runs h st)

-- In order so far, and the rest is in order too.
behind_all_inv :
    {S : Type 0}
    → (o : Option Bool) (events : List (Event S)) (b : Bool) → behind_all o events ≡ some b
    → (runs : Bool) × (o ≡ some runs) × (behind_all (some runs) events ≡ some b)
behind_all_inv none events b h = absurd cc
behind_all_inv (some runs) events b h = (runs, refl, h)

Merged-HasStopped :
    {S : Type 0} {started : Bool} {control host : List (Event S)}
    → Merged started control host
    → (phase : Phase) (runs : Bool) → Stands phase runs started
    → behind_all (some runs) control ≡ some false
    → HasStopped (follows_all (some phase) host)
unfolding follows_all
Merged-HasStopped finished _ _ at_fresh h = tt
Merged-HasStopped finished _ _ at_inside h = absurd cc
Merged-HasStopped finished _ _ at_over h = tt
Merged-HasStopped (reported elapsed duration m) _ _ at_inside h =
    Merged-HasStopped m inside true at_inside h
Merged-HasStopped (reported elapsed duration m) _ _ at_over h =
    Merged-HasStopped m over false at_over h
Merged-HasStopped (sent {started} {control} {host} event m) phase runs st h =
    let (runs', is_behind, later) = behind_all_inv (behind runs event) control false h in
    let (phase', is_next, st') = Stands-follows event runs' st is_behind in
    subst (λ (o : Option Phase). HasStopped (follows_all o host)) (sym is_next)
      (Merged-HasStopped m phase' runs' st' later)

-- What is in order on its own stays in order with the reports of the playback threads among it.
pub behind_all-HasStopped :
    {S : Type 0}
    → (control host : List (Event S)) → behind_all (some false) control ≡ some false
    → Merged false control host
    → HasStopped (follows_all (some fresh) host)
behind_all-HasStopped control host h m = Merged-HasStopped m fresh false at_fresh h

abbrev late : List (Event Unit)
late = session_started 44_100 2 7 ∷ progress 0 0 ∷ artwork tt [] ∷ session_ended ∷ progress 1 0 ∷ []

-- A report may come behind the end of the session.
late_merged : Merged false (session_started 44_100 2 7 ∷ artwork tt [] ∷ session_ended ∷ []) late
late_merged =
    sent (session_started 44_100 2 7)
      (reported 0 0 (sent (artwork tt []) (sent session_ended (reported 1 0 finished))))

late_ends : follows_all (some fresh) late ≡ some over
unfolding follows_all
late_ends = refl
