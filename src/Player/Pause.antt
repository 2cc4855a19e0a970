-- ===== src/Player/Pause.antt =====
-- How soon a pause is heard (openairplay2/src/player.rs).

use openairplay.Prelude.{
  ℕ, ◌+◌, ◌≤◌, ◌≡◌, refl, sym, ◌∙◌, inl, inr, Bool, true, false, if◌then◌else◌, Option, List, [],
  ◌∷◌, ◌++◌, append-nil, length, length-append, chunks as pieces, chunks-IsPiece, arith,
}
use openairplay.Player.{
  Samples, write, Call, write_chunk, encode_flush, Packet, Command, pcm, wake, stop, Phase,
  receiving, delivering, done, writing, World, spawn, send, play, set_paused, request_flush,
  drop_player, add_usize, receive_step, sub_usize, after_write, thread_phase, thread_step, Action,
  thread, plays, pauses, flushes, drops, sets_track, step, run,
}
use openairplay.Player.Timeline.{Position}
use openairplay.Player.Order.{written, written-append}
use openairplay.Player.Pieces.{HasPieces, Unmoved, send-Unmoved, run-HasPieces}
use openairplay.Player.Waits.{Waits, receive_step-Waits, after_write-Waits}

-- What the thread may still write while the player is paused.
allowance : Phase → ℕ
allowance (writing ts cs) = write_chunk
allowance delivering = write_chunk
allowance receiving = 0
allowance done = 0

-- The thread writes whole chunks of at most `write_chunk` samples.
record IsQuiet (limit : ℕ) (w : World) : Type 0 where
  paused : w.paused ≡ true
  has_pieces : HasPieces w.phase
  bounded : length (written w.sink) + allowance w.phase ≤ limit

Waits-IsQuiet :
    (limit : ℕ) (w w' : World) → Waits w w' → length (written w.sink) ≤ limit → IsQuiet limit w'
unfolding allowance
Waits-IsQuiet limit w w' (p, same, inl r) h = record {
  paused = p;
  has_pieces = rw r tt;
  bounded = rw (r, same) (omega arith);
}
Waits-IsQuiet limit w w' (p, same, inr r) h = record {
  paused = p;
  has_pieces = rw r tt;
  bounded = rw (r, same) (omega arith);
}

length-written_write :
    (calls : List Call) (c : Samples)
    → length (written (calls ++ write c ∷ [])) ≡ length (written calls) + length c
length-written_write calls c =
    rw (written-append calls (write c ∷ []), append-nil c) (length-append (written calls) c)

chunk_written :
    (ts : ℕ) (c : Samples) (cs : List Samples) (limit : ℕ) (w w' : World)
    → length c ≤ write_chunk
    → length (written w.sink) + write_chunk ≤ limit
    → Waits (record w { sink = w.sink ++ write c ∷ [] }) w'
    → IsQuiet limit w'
chunk_written ts c cs limit w w' short h waits =
    Waits-IsQuiet limit (record w { sink = w.sink ++ write c ∷ [] }) w' waits
      (rw (length-written_write w.sink c) (omega arith))

quiet_at :
    (phase : Phase) (limit : ℕ) (w : World)
    → w.phase ≡ phase
    → IsQuiet limit w
    → (length (written w.sink) + allowance phase ≤ limit) × HasPieces phase
quiet_at phase limit w e q = rw (sym e) (q.bounded, q.has_pieces)

thread_phase-IsQuiet :
    (phase : Phase) (limit : ℕ) (w : World)
    → w.phase ≡ phase
    → IsQuiet limit w
    → IsQuiet limit (thread_phase phase w)
unfolding thread_phase allowance
thread_phase-IsQuiet receiving limit w e q = go w.queue w.connected
  where
    short : length (written w.sink) ≤ limit
    short = omega arith

    go :
        (queue : List Command) (b : Bool)
        → IsQuiet limit (elim queue [
          | [] ↦ if b then w else record w { phase = done }
          | c ∷ rest ↦ receive_step c (record w { queue = rest })
        ])
    go [] true = q
    go [] false = record { paused = q.paused; has_pieces = tt; bounded = omega arith }
    go (c ∷ rest) b =
        Waits-IsQuiet limit (record w { queue = rest }) (receive_step c (record w { queue = rest }))
          (receive_step-Waits c (record w { queue = rest }) q.paused) short
thread_phase-IsQuiet delivering limit w e q = go w.held
  where
    short : length (written w.sink) + write_chunk ≤ limit
    short = (quiet_at delivering limit w e q).0

    go :
        (held : List Packet)
        → IsQuiet limit (elim held [
          | [] ↦ record w { phase = receiving }
          | p ∷ rest ↦ record w {
            held = rest;
            pending = sub_usize w.pending (length p.pcm);
            phase = writing p.ts (pieces write_chunk p.pcm);
          }
        ])
    go [] = record { paused = q.paused; has_pieces = tt; bounded = omega arith }
    go (p ∷ rest) = record {
      paused = q.paused;
      has_pieces = chunks-IsPiece write_chunk p.pcm (omega arith);
      bounded = short;
    }
thread_phase-IsQuiet (writing ts []) limit w e q = record {
  paused = q.paused;
  has_pieces = tt;
  bounded = (quiet_at (writing ts []) limit w e q).0;
}
thread_phase-IsQuiet (writing ts (c ∷ rest)) limit w e q =
    let (h, (piece, _)) = quiet_at (writing ts (c ∷ rest)) limit w e q in
    chunk_written ts c rest limit w
      (after_write ts rest (record w { sink = w.sink ++ write c ∷ [] })) piece.1 h
      (after_write-Waits ts rest (record w { sink = w.sink ++ write c ∷ [] }) q.paused)
thread_phase-IsQuiet done limit w e q = q

abbrev is_resume : Action → Bool
is_resume (pauses false) = true
is_resume _ = false

abbrev pub HasNoResume : List Action → Type 0
HasNoResume [] = Unit
HasNoResume (a ∷ actions) = (is_resume a ≡ false) × HasNoResume actions

Unmoved-IsQuiet : (limit : ℕ) (w w' : World) → Unmoved w w' → IsQuiet limit w → IsQuiet limit w'
Unmoved-IsQuiet limit w w' (p, phase, sink) q = record {
  paused = p ∙ q.paused;
  has_pieces = rw phase q.has_pieces;
  bounded = rw (phase, sink) q.bounded;
}

step-IsQuiet :
    (limit : ℕ) (a : Action) (w : World)
    → is_resume a ≡ false
    → IsQuiet limit w
    → IsQuiet limit (step a w)
unfolding step play set_paused request_flush drop_player thread_step
step-IsQuiet limit thread w h q = thread_phase-IsQuiet w.phase limit w refl q
step-IsQuiet limit (plays p) w h q =
    let w' : World = record w { pending = add_usize w.pending (length p.pcm) } in
    Unmoved-IsQuiet limit w (send (pcm p) w') (send-Unmoved (pcm p) w') q
step-IsQuiet limit (pauses true) w h q =
    let w' : World = record w { paused = true } in
    Unmoved-IsQuiet limit w' (send wake w') (send-Unmoved wake w')
      (record { paused = refl; has_pieces = q.has_pieces; bounded = q.bounded })
step-IsQuiet limit (pauses false) w h q = cc
step-IsQuiet limit (flushes below) w h q =
    let w' : World = record w { flush_request = encode_flush below } in
    Unmoved-IsQuiet limit w (send wake w') (send-Unmoved wake w') q
step-IsQuiet limit drops w h q =
    let w' : World = record w { stopping = true } in
    Unmoved-IsQuiet limit w (record (send stop w') { connected = false }) (send-Unmoved stop w') q
step-IsQuiet limit (sets_track t) w h q = record {
  paused = q.paused;
  has_pieces = q.has_pieces;
  bounded = q.bounded;
}

run-IsQuiet :
    (limit : ℕ) (actions : List Action) (w : World)
    → HasNoResume actions
    → IsQuiet limit w
    → IsQuiet limit (run actions w)
unfolding run
run-IsQuiet limit [] w h q = q
run-IsQuiet limit (a ∷ actions) w (h, hs) q =
    run-IsQuiet limit actions (step a w) hs (step-IsQuiet limit a w h q)

allowance_bound : (phase : Phase) → allowance phase ≤ write_chunk
unfolding allowance
allowance_bound receiving = omega arith
allowance_bound delivering = omega arith
allowance_bound (writing ts cs) = omega arith
allowance_bound done = omega arith

paused-IsQuiet :
    (w : World)
    → HasPieces w.phase
    → IsQuiet (length (written w.sink) + write_chunk) (set_paused true w)
unfolding set_paused
paused-IsQuiet w h =
    let w' : World = record w { paused = true } in
    Unmoved-IsQuiet (length (written w.sink) + write_chunk) w' (send wake w') (send-Unmoved wake w')
      (record { paused = refl; has_pieces = h; bounded = omega (arith, allowance_bound w.phase) })

-- On every schedule, after a pause the sink gets at most one chunk of 256 samples more, for as long
-- as nothing resumes: whatever the thread was doing, and whatever is queued or flushed meanwhile.
pub pause_bound :
    (position : Option Position) (before after : List Action)
    → HasNoResume after
    → let w = run before (spawn position) in
      length (written (run after (set_paused true w)).sink) ≤ length (written w.sink) + write_chunk
pause_bound position before after h =
    let w = run before (spawn position) in
    let limit = length (written w.sink) + write_chunk in
    let q =
      run-IsQuiet limit after (set_paused true w) h
        (paused-IsQuiet w (run-HasPieces before (spawn position) tt)) in
    omega (arith, q.bounded)
