-- ===== src/Player/Waits.antt =====
-- A turn of the thread at `recv` or after a write, while the player is paused
-- (openairplay2/src/player.rs).
use openairplay.Prelude.{
  ℕ, ◌≡◌, refl, ◌∙◌, ◌⊎◌, inl, inr, Bool, true, false, Bool-cases, not, ◌&&◌, ◌||◌, ◌==◌,
  if◌then◌else◌, List, [], ◌∷◌, ◌++◌, append-nil,
}
use openairplay.Player.{
  Samples, flush, Call, flush_none, Packet, Command, pcm, wake, stop, receiving, done, World, drain,
  flushed, flush_step, command_step, receive_step, flushed, flush_step, command_step, drain,
  after_write,
}
use openairplay.Player.Order.{written, written-append}

-- A pause holds: this turn writes nothing and leaves the thread at `recv`, or returned.
abbrev pub Waits : World → World → Type 0
Waits w w' =
    (w'.paused ≡ true)
    × (written w'.sink ≡ written w.sink)
    × ((w'.phase ≡ receiving) ⊎ (w'.phase ≡ done))

flushed-Waits :
    (request : ℕ) (r : Bool × List Packet × List Command) (w : World)
    → w.paused ≡ true
    → Waits w (flushed request r w)
flushed-Waits request (true, held, queue) w p = (p, refl, inr refl)
flushed-Waits request (false, held, queue) w p = (p, refl, inl (rw p))

flush_step-Waits : (request : ℕ) (w : World) → w.paused ≡ true → Waits w (flush_step request w)
unfolding flush_step
flush_step-Waits request w p = elim (Bool-cases (request == flush_none)) [
  | inl e ↦ rw e (p, refl, inl (rw p))
  | inr e ↦ rw e (flushed-Waits request (drain w.queue w.held) w p)
]

command_step-Waits :
    (request : ℕ) (c : Command) (w : World) → w.paused ≡ true → Waits w (command_step request c w)
unfolding command_step
command_step-Waits request stop w p = (p, refl, inr refl)
command_step-Waits request wake w p = flush_step-Waits request w p
command_step-Waits request (pcm x) w p =
    flush_step-Waits request (record w { held = w.held ++ x ∷ [] }) p

written_silence :
    (b : Bool) (calls : List Call)
    → written (if b then calls ++ flush ∷ [] else calls) ≡ written calls
written_silence true calls = written-append calls (flush ∷ []) ∙ append-nil (written calls)
written_silence false calls = refl

pub receive_step-Waits : (c : Command) (w : World) → w.paused ≡ true → Waits w (receive_step c w)
unfolding receive_step
receive_step-Waits c w p = go w.stopping
  where
    silence : Bool
    silence = not (w.flush_request == flush_none) || w.paused && not w.was_paused

    w' : World
    w' = record w {
      flush_request = flush_none;
      was_paused = w.paused;
      sink = if silence then w.sink ++ flush ∷ [] else w.sink;
    }

    go :
        (b : Bool)
        → Waits w (if b then record w { phase = done } else command_step w.flush_request c w')
    go true = (p, refl, inr refl)
    go false =
        let (paused, same, waits) = command_step-Waits w.flush_request c w' p in
        (paused, same ∙ written_silence silence w.sink, waits)

pub after_write-Waits :
    (ts : ℕ) (cs : List Samples) (w : World) → w.paused ≡ true → Waits w (after_write ts cs w)
unfolding after_write
after_write-Waits ts cs w p = elim (Bool-cases w.stopping) [
  | inl s ↦ rw s (p, refl, inr refl)
  | inr s ↦ rw (s, p) (refl, refl, inl refl)
]
