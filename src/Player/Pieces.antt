-- ===== src/Player/Pieces.antt =====
-- What the thread has still to write of a packet is in pieces of at most `WRITE_CHUNK` samples
-- (openairplay2/src/player.rs).
use openairplay.Prelude.{
  ℕ, ◌≡◌, refl, inl, inr, Bool, true, false, Bool-cases, ◌==◌, if◌then◌else◌, List, [], ◌∷◌, ◌++◌,
  length, chunks as pieces, All, IsPiece, chunks-IsPiece, arith,
}
use openairplay.Player.{
  Samples, write, write_chunk, encode_flush, flush_none, Packet, Command, pcm, wake, stop, Phase,
  receiving, delivering, done, writing, World, send, play, set_paused, request_flush, drop_player,
  retain, discard, drain, after_control, flushed, flush_step, command_step, add_usize, receive_step,
  sub_usize, after_control, flushed, flush_step, command_step, retain, discard, drain, interrupted,
  after_write, thread_phase, thread_step, Action, thread, plays, pauses, flushes, drops, sets_track,
  step, run,
}

abbrev pub HasPieces : Phase → Type 0
HasPieces (writing ts cs) = All (IsPiece write_chunk) cs
HasPieces _ = Unit

-- A method leaves the thread, the sink and the pause gate alone.
abbrev pub Unmoved : World → World → Type 0
Unmoved w w' = (w'.paused ≡ w.paused) × (w'.phase ≡ w.phase) × (w'.sink ≡ w.sink)

pub send-Unmoved : (c : Command) (w : World) → Unmoved w (send c w)
send-Unmoved c w = go w.phase
  where
    go :
        (phase : Phase)
        → Unmoved w (elim phase [ done ↦ w | _ ↦ record w { queue = w.queue ++ c ∷ [] } ])
    go receiving = (refl, refl, refl)
    go delivering = (refl, refl, refl)
    go (writing ts cs) = (refl, refl, refl)
    go done = (refl, refl, refl)

-- What the thread has still to write of a packet is in pieces, on any schedule.
after_control-HasPieces : (w : World) → HasPieces (after_control w).phase
after_control-HasPieces w = go w.paused
  where
    go : (b : Bool) → HasPieces (if b then receiving else delivering)
    go true = tt
    go false = tt

flush_step-HasPieces : (request : ℕ) (w : World) → HasPieces (flush_step request w).phase
unfolding flush_step
flush_step-HasPieces request w = elim (Bool-cases (request == flush_none)) [
  | inl e ↦ rw e (after_control-HasPieces w)
  | inr e ↦ rw e (go (drain w.queue w.held))
]
  where
    go : (r : Bool × List Packet × List Command) → HasPieces (flushed request r w).phase
    go (true, held, queue) = tt
    go (false, held, queue) = after_control-HasPieces (record w {
      held = retain request held;
      queue = queue;
      pending = discard request held w.pending;
    })

command_step-HasPieces :
    (request : ℕ) (c : Command) (w : World) → HasPieces (command_step request c w).phase
unfolding command_step
command_step-HasPieces request stop w = tt
command_step-HasPieces request wake w = flush_step-HasPieces request w
command_step-HasPieces request (pcm p) w =
    flush_step-HasPieces request (record w { held = w.held ++ p ∷ [] })

receive_step-HasPieces : (c : Command) (w : World) → HasPieces (receive_step c w).phase
unfolding receive_step
receive_step-HasPieces c w = elim (Bool-cases w.stopping) [
  | inl e ↦ rw e tt
  | inr e ↦ rw e (command_step-HasPieces w.flush_request c _)
]

after_write-HasPieces :
    (ts : ℕ) (cs : List Samples) (w : World)
    → All (IsPiece write_chunk) cs
    → HasPieces (after_write ts cs w).phase
unfolding after_write
after_write-HasPieces ts cs w h = elim (Bool-cases w.stopping) [
  | inl e ↦ rw e tt
  | inr e ↦ elim (Bool-cases (interrupted w)) [ inl f ↦ rw (e, f) tt | inr f ↦ rw (e, f) h ]
]

thread_phase-HasPieces :
    (phase : Phase) (w : World)
    → w.phase ≡ phase
    → HasPieces phase
    → HasPieces (thread_phase phase w).phase
unfolding thread_phase
thread_phase-HasPieces receiving w e h = go w.queue w.connected
  where
    go :
        (queue : List Command) (b : Bool)
        → let w' : World = (elim queue [
          | [] ↦ if b then w else record w { phase = done }
          | c ∷ rest ↦ receive_step c (record w { queue = rest })
        ]) in
          HasPieces w'.phase
    go [] true = rw e tt
    go [] false = tt
    go (c ∷ rest) b = receive_step-HasPieces c (record w { queue = rest })
thread_phase-HasPieces delivering w e h = go w.held
  where
    go :
        (held : List Packet)
        → let w' : World = (elim held [
          | [] ↦ record w { phase = receiving }
          | p ∷ rest ↦ record w {
            held = rest;
            pending = sub_usize w.pending (length p.pcm);
            phase = writing p.ts (pieces write_chunk p.pcm);
          }
        ]) in
          HasPieces w'.phase
    go [] = tt
    go (p ∷ rest) = chunks-IsPiece write_chunk p.pcm (omega arith)
thread_phase-HasPieces (writing ts []) w e h = tt
thread_phase-HasPieces (writing ts (c ∷ cs)) w e (_, h) =
    after_write-HasPieces ts cs (record w { sink = w.sink ++ write c ∷ [] }) h
thread_phase-HasPieces done w e h = rw e tt

sent-HasPieces : (c : Command) (w : World) → HasPieces w.phase → HasPieces (send c w).phase
sent-HasPieces c w h = rw ((send-Unmoved c w).1) h

step-HasPieces : (a : Action) (w : World) → HasPieces w.phase → HasPieces (step a w).phase
unfolding step play set_paused request_flush drop_player thread_step
step-HasPieces thread w h = thread_phase-HasPieces w.phase w refl h
step-HasPieces (plays p) w h =
    sent-HasPieces (pcm p) (record w { pending = add_usize w.pending (length p.pcm) }) h
step-HasPieces (pauses b) w h = sent-HasPieces wake (record w { paused = b }) h
step-HasPieces (flushes below) w h =
    sent-HasPieces wake (record w { flush_request = encode_flush below }) h
step-HasPieces drops w h = sent-HasPieces stop (record w { stopping = true }) h
step-HasPieces (sets_track t) w h = h

pub run-HasPieces :
    (actions : List Action) (w : World) → HasPieces w.phase → HasPieces (run actions w).phase
unfolding run
run-HasPieces [] w h = h
run-HasPieces (a ∷ actions) w h = run-HasPieces actions (step a w) (step-HasPieces a w h)
