-- ===== src/Player/Pending.antt =====
-- The backpressure count: `pending` is the number of samples that are queued or held.

use openairplay.Prelude.{
  ℕ, ◌+◌, ◌%◌, ◌^◌, ◌≡◌, ◌≢◌, refl, ap, ◌∙◌, ◌⊎◌, inl, inr, Bool, true, false, Bool-cases, not,
  ◌||◌, ◌==◌, if◌then◌else◌, Option, List, [], ◌∷◌, ◌++◌, length, chunks as pieces, arith,
}
use openairplay.Player.{
  Samples, write, write_chunk, encode_flush, flush_none, keeps, add_usize, sub_usize, Packet,
  Command, pcm, wake, stop, Phase, receiving, delivering, done, writing, World, spawn, send, retain,
  discard, drain, flushed, flush_step, command_step, receive_step, after_write, thread_phase,
  Action, thread, plays, pauses, flushes, drops, sets_track, step, run,
}
use openairplay.Player.Timeline.{Position}

abbrev pub total : List Packet → ℕ
total [] = 0
total (p ∷ held) = length p.pcm + total held

abbrev pub queued : List Command → ℕ
queued [] = 0
queued (pcm p ∷ queue) = length p.pcm + queued queue
queued (c ∷ queue) = queued queue

abbrev pub Balanced : World → Type 0
Balanced w = w.pending ≡ (queued w.queue + total w.held) % 2 ^ 64

-- While the thread runs, `pending` counts what is queued and held, modulo the width of a usize.
abbrev pub IsCounted : World → Type 0
IsCounted w = (w.phase ≡ done) ⊎ Balanced w

total-append : (xs ys : List Packet) → total (xs ++ ys) ≡ total xs + total ys
total-append [] ys = omega arith
total-append (p ∷ xs) ys = omega (arith, total-append xs ys)

queued-append : (xs ys : List Command) → queued (xs ++ ys) ≡ queued xs + queued ys
queued-append [] ys = omega arith
queued-append (pcm p ∷ xs) ys = omega (arith, queued-append xs ys)
queued-append (wake ∷ xs) ys = queued-append xs ys
queued-append (stop ∷ xs) ys = queued-append xs ys

sub_usize_add : (b c pending : ℕ) → pending ≡ (b + c) % 2 ^ 64 → sub_usize pending b ≡ c % 2 ^ 64
sub_usize_add b c pending h = omega arith

-- What a flush discards, it takes off the count.
discard-retain :
    (request : ℕ) (held : List Packet) (k pending : ℕ)
    → pending ≡ (k + total held) % 2 ^ 64
    → discard request held pending ≡ (k + total (retain request held)) % 2 ^ 64
unfolding discard retain
discard-retain request [] k pending h = h
discard-retain request (p ∷ held) k pending h = elim (Bool-cases (keeps request p)) [
  | inl kept ↦
      rw kept
        (discard-retain request held (k + length p.pcm) pending (h ∙ omega arith) ∙ omega arith)
  | inr dropped ↦ rw dropped (
      discard-retain request held k (sub_usize pending (length p.pcm))
        (sub_usize_add (length p.pcm) (k + total held) pending (h ∙ omega arith)))
]

pub drain-total :
    (queue : List Command) (held : List Packet)
    → (drain queue held).0 ≡ false
    → (total (drain queue held).1 ≡ total held + queued queue) × ((drain queue held).2 ≡ [])
unfolding drain
drain-total [] held h = (omega arith, refl)
drain-total (pcm p ∷ queue) held h =
    let (t, e) = drain-total queue (held ++ p ∷ []) h in
    (omega (arith, t, total-append held (p ∷ [])), e)
drain-total (wake ∷ queue) held h = drain-total queue held h
drain-total (stop ∷ queue) held h = cc

flushed-IsCounted :
    (request : ℕ) (r : Bool × List Packet × List Command) (w : World)
    → (r.0 ≡ false → (total r.1 ≡ total w.held + queued w.queue) × (r.2 ≡ []))
    → Balanced w
    → IsCounted (flushed request r w)
flushed-IsCounted request (true, held, queue) w t b = inl refl
flushed-IsCounted request (false, held, queue) w t b =
    let (sum, empty) = t refl in
    inr (
      rw empty (
        discard-retain request held 0 w.pending
          (b ∙ ap (λ (n : ℕ). n % 2 ^ 64) (omega (arith, sum)))))

flush_step-IsCounted : (request : ℕ) (w : World) → Balanced w → IsCounted (flush_step request w)
unfolding flush_step
flush_step-IsCounted request w b = elim (Bool-cases (request == flush_none)) [
  | inl no_flush ↦ rw no_flush (inr b)
  | inr flush ↦
      rw flush (flushed-IsCounted request (drain w.queue w.held) w (drain-total w.queue w.held) b)
]

command_step-IsCounted :
    (request : ℕ) (c : Command) (w : World)
    → w.pending ≡ (queued (c ∷ w.queue) + total w.held) % 2 ^ 64
    → IsCounted (command_step request c w)
unfolding command_step
command_step-IsCounted request stop w b = inl refl
command_step-IsCounted request wake w b = flush_step-IsCounted request w b
command_step-IsCounted request (pcm p) w b =
    flush_step-IsCounted request (record w { held = w.held ++ p ∷ [] })
      (b ∙ ap (λ (n : ℕ). n % 2 ^ 64) (omega (arith, total-append w.held (p ∷ []))))

receive_step-IsCounted :
    (c : Command) (w : World)
    → w.pending ≡ (queued (c ∷ w.queue) + total w.held) % 2 ^ 64
    → IsCounted (receive_step c w)
unfolding receive_step
receive_step-IsCounted c w b = elim (Bool-cases w.stopping) [
  | inl stops ↦ rw stops (inl refl)
  | inr goes ↦ rw goes (command_step-IsCounted w.flush_request c _ b)
]

after_write-IsCounted :
    (ts : ℕ) (chunks : List Samples) (w : World) → Balanced w → IsCounted (after_write ts chunks w)
unfolding after_write
after_write-IsCounted ts chunks w b = elim (Bool-cases w.stopping) [
  | inl stops ↦ rw stops (inl refl)
  | inr goes ↦ elim (Bool-cases (w.paused || not (w.flush_request == flush_none))) [
    | inl breaks ↦ rw (goes, breaks) (inr b)
    | inr on ↦ rw (goes, on) (inr b)
  ]
]

Balanced-unless_done : (w : World) → w.phase ≢ done → IsCounted w → Balanced w
Balanced-unless_done w live (inl e) = absurd (live e)
Balanced-unless_done w live (inr b) = b

thread_phase-IsCounted :
    (phase : Phase) (w : World) → w.phase ≡ phase → IsCounted w → IsCounted (thread_phase phase w)
unfolding thread_phase
thread_phase-IsCounted receiving w e h = go w.queue w.connected refl
  where
    go :
        (queue : List Command) (connected : Bool)
        → w.queue ≡ queue
        → IsCounted (elim queue [
          | [] ↦ if connected then w else record w { phase = done }
          | c ∷ rest ↦ receive_step c (record w { queue = rest })
        ])
    go [] true q = h
    go [] false q = inl refl
    go (c ∷ rest) connected q =
        receive_step-IsCounted c (record w { queue = rest })
          (rw q at (Balanced-unless_done w (λ d. cc) h))
thread_phase-IsCounted delivering w e h = go w.held refl
  where
    go :
        (held : List Packet)
        → w.held ≡ held
        → IsCounted (elim held [
          | [] ↦ record w { phase = receiving }
          | p ∷ rest ↦ record w {
            held = rest;
            pending = sub_usize w.pending (length p.pcm);
            phase = writing p.ts (pieces write_chunk p.pcm);
          }
        ])
    go [] q = inr (Balanced-unless_done w (λ d. cc) h)
    go (p ∷ rest) q = inr (
        sub_usize_add (length p.pcm) (queued w.queue + total rest) w.pending
          (rw q at (Balanced-unless_done w (λ d. cc) h) ∙ ap (λ (n : ℕ). n % 2 ^ 64) (omega arith)))
thread_phase-IsCounted (writing ts []) w e h = inr (Balanced-unless_done w (λ d. cc) h)
thread_phase-IsCounted (writing ts (c ∷ rest)) w e h =
    after_write-IsCounted ts rest (record w { sink = w.sink ++ write c ∷ [] })
      (Balanced-unless_done w (λ d. cc) h)
thread_phase-IsCounted done w e h = h

-- A command that a method sends leaves the count right, if the method counted it.
send-IsCounted :
    (c : Command) (w : World) (pending : ℕ)
    → (Balanced w → pending ≡ (queued (w.queue ++ c ∷ []) + total w.held) % 2 ^ 64)
    → IsCounted w
    → IsCounted (send c (record w { pending = pending }))
send-IsCounted c w pending b h = go w.phase refl
  where
    go :
        (phase : Phase)
        → w.phase ≡ phase
        → IsCounted (elim phase [
          | done ↦ record w { pending = pending }
          | _ ↦ record w { pending = pending; queue = w.queue ++ c ∷ [] }
        ])
    go done e = inl e
    go receiving e = inr (b (Balanced-unless_done w (λ d. cc) h))
    go delivering e = inr (b (Balanced-unless_done w (λ d. cc) h))
    go (writing ts chunks) e = inr (b (Balanced-unless_done w (λ d. cc) h))

send_uncounted :
    (c : Command) (w : World)
    → queued (c ∷ []) ≡ 0
    → Balanced w
    → w.pending ≡ (queued (w.queue ++ c ∷ []) + total w.held) % 2 ^ 64
send_uncounted c w z b =
    b ∙ ap (λ (n : ℕ). n % 2 ^ 64) (omega (arith, queued-append w.queue (c ∷ []), z))

step-IsCounted : (a : Action) (w : World) → IsCounted w → IsCounted (step a w)
unfolding step
step-IsCounted thread w h = thread_phase-IsCounted w.phase w refl h
step-IsCounted (plays p) w h =
    send-IsCounted (pcm p) w (add_usize w.pending (length p.pcm))
      (λ b. omega (arith, b, queued-append w.queue (pcm p ∷ []))) h
step-IsCounted (pauses b) w h =
    let w' = record w { paused = b } in
    send-IsCounted wake w' w.pending (send_uncounted wake w' refl) h
step-IsCounted (flushes below) w h =
    let w' = record w { flush_request = encode_flush below } in
    send-IsCounted wake w' w.pending (send_uncounted wake w' refl) h
step-IsCounted drops w h =
    let w' = record w { stopping = true } in
    send-IsCounted stop w' w.pending (send_uncounted stop w' refl) h
step-IsCounted (sets_track t) w h = h

run_from-IsCounted : (actions : List Action) (w : World) → IsCounted w → IsCounted (run actions w)
unfolding run
run_from-IsCounted [] w h = h
run_from-IsCounted (a ∷ actions) w h = run_from-IsCounted actions (step a w) (step-IsCounted a w h)

-- On every schedule of the thread and its callers, while the thread runs, the backpressure count is
-- the number of samples queued or held, modulo 2 ^ 64: packets parked by a pause stay counted, and
-- what a flush discards or the delivery takes is counted off exactly once.
pub run-IsCounted :
    (actions : List Action) (position : Option Position) → IsCounted (run actions (spawn position))
run-IsCounted actions position = run_from-IsCounted actions (spawn position) (inr refl)
