-- ===== src/Player/Drain.antt =====
-- Delivery ends: an undisturbed player is idle after finitely many turns, and all was written.

use openairplay.Prelude.{
  ℕ, zero, suc, ◌+◌, ◌≤◌, ◌<◌, ◌≡◌, refl, sym, ◌∙◌, ◌⊎◌, inl, inr, Option, List, [], ◌∷◌, ◌++◌,
  append-nil, length, chunks, replicate, arith,
}
use openairplay.Player.{
  Samples, write_chunk, Packet, Command, pcm, Phase, receiving, delivering, done, writing, Call,
  World, spawn, thread_step, Action, thread, step, run,
}
use openairplay.Player.Timeline.{Position, Track}
use openairplay.Player.Order.{
  written, sent, IsUndisturbed, IsLive, IdleAt, calm, IsCalm, step_thread-IsCalm, run-IsCalm,
  spawn-IsCalm, accounts_of,
}

-- A bound on the turns that are left.
phase_cost : Phase → ℕ
phase_cost receiving = 0
phase_cost delivering = 1
phase_cost (writing ts cs) = length cs + 2
phase_cost done = 0

held_cost : List Packet → ℕ
held_cost [] = 0
held_cost (p ∷ held) = length (chunks write_chunk p.pcm) + 2 + held_cost held

queue_cost : List Command → ℕ
queue_cost [] = 0
queue_cost (pcm p ∷ queue) = length (chunks write_chunk p.pcm) + 4 + queue_cost queue
queue_cost (c ∷ queue) = queue_cost queue

cost : World → ℕ
unfolding phase_cost held_cost queue_cost
cost w = phase_cost w.phase + held_cost w.held + queue_cost w.queue

abbrev pub IsIdle : World → Type 0
IsIdle w = (w.phase ≡ receiving) × (w.held ≡ []) × (w.queue ≡ [])

held_cost-append :
    (xs : List Packet) (p : Packet)
    → held_cost (xs ++ p ∷ []) ≡ held_cost xs + (length (chunks write_chunk p.pcm) + 2)
unfolding held_cost
held_cost-append [] p = omega arith
held_cost-append (x ∷ xs) p = omega (arith, held_cost-append xs p)

-- A turn that does not find the player idle lowers the bound.
calm-cost :
    (queue : List Packet) (pending : ℕ) (track : Option Track) (held : List Packet) (phase : Phase)
    (position : Option Position) (sink : List Call)
    → IsLive phase
    → IdleAt phase held
    → let w = calm queue pending track held phase position sink in
      IsIdle w ⊎ (cost (thread_step w) < cost w)
unfolding thread_step cost
calm-cost [] n track held receiving position sink l i = inl (refl, i, refl)
calm-cost (p ∷ queue) n track held receiving position sink l i =
    inr (omega (arith, held_cost-append held p))
calm-cost queue n track [] delivering position sink l i = inr (omega arith)
calm-cost queue n track (p ∷ held) delivering position sink l i = inr (omega arith)
calm-cost queue n track held (writing ts []) position sink l i = inr (omega arith)
calm-cost queue n track held (writing ts (c ∷ cs)) position sink l i = inr (omega arith)
calm-cost queue n track held done position sink l i = absurd l

cost_falls : (all : Samples) (w : World) → IsCalm all w → IsIdle w ⊎ (cost (thread_step w) < cost w)
cost_falls all w c =
    rw c.is_calm
      (calm-cost c.queue c.pending c.track c.held c.phase c.position c.sink c.live c.idle)

abbrev pub turns : ℕ → World → World
turns n w = run (replicate n thread) w

settles :
    (fuel : ℕ) (all : Samples) (w : World)
    → IsCalm all w
    → cost w ≤ fuel
    → (n : ℕ) × IsIdle (turns n w) × IsCalm all (turns n w)
unfolding run step
settles zero all w c h = elim (cost_falls all w c) [
  | inl idle ↦ (0, idle, c)
  | inr falls ↦ absurd (omega arith)
]
settles (suc fuel) all w c h = elim (cost_falls all w c) [
  | inl idle ↦ (0, idle, c)
  | inr falls ↦
      let (n, idle, c') =
        settles fuel all (thread_step w) (step_thread-IsCalm all w c) (omega arith) in
      (suc n, idle, c')
]

all_written : (all : Samples) (w : World) → IsCalm all w → IsIdle w → written w.sink ≡ all
all_written all w c idle = sym (accounts_of all w c ∙ rw (idle.0, idle.1, idle.2, append-nil))

-- After any undisturbed schedule there is a number of turns of the thread after which it waits at
-- `recv` with nothing held or queued, and the sink has got exactly what was played.
pub turns_deliver :
    (actions : List Action) (position : Option Position)
    → IsUndisturbed actions
    → (n : ℕ) × IsIdle (turns n (run actions (spawn position)))
      × (written (turns n (run actions (spawn position))).sink ≡ sent actions)
turns_deliver actions position u =
    let w = run actions (spawn position) in
    let (n, idle, c) =
      settles (cost w) (sent actions) w
        (run-IsCalm actions [] (spawn position) u (spawn-IsCalm position)) (omega arith) in
    (n, idle, all_written (sent actions) (turns n w) c idle)
