-- ===== src/Player/Runs.antt =====
-- Concrete runs of the playback queue, and its theorems at concrete inputs.
use openairplay.Prelude.{
  ℕ, ◌+◌, ◌-◌, ◌*◌, ◌^◌, ◌≤◌, ◌≡◌, refl, true, none, some, List, [], ◌∷◌, ◌++◌, length, replicate,
  arith,
}
use openairplay.Player.{
  Samples, Packet, pcm, wake, World, write_chunk, spawn, encode_flush, set_paused, thread_step,
  Action, thread, plays, pauses, flushes, run,
}
use openairplay.Player.Timeline.{Track, extent}
use openairplay.Player.Pending.{IsCounted, run-IsCounted}
use openairplay.Player.Order.{written, unwritten, samples, waiting, sent, run_delivers}
use openairplay.Player.Drain.{turns, IsIdle, turns_deliver}
use openairplay.Player.Flush.{AfterFlush, flush_exact}
use openairplay.Player.Pause.{pause_bound}

abbrev packet : ℕ → Samples → Packet
packet seq samples = record { seq = seq; ts = 1024 * seq; pcm = samples }

abbrev first : Packet
first = packet 1 (replicate 300 7)

abbrev second : Packet
second = packet 2 (8 ∷ 9 ∷ [])

-- Two packets, and enough turns to write the first chunk of the first.
abbrev started : List Action
started = plays first ∷ plays second ∷ thread ∷ thread ∷ thread ∷ []

written-run : written (run started (spawn none)).sink ≡ replicate 256 7
unfolding run
written-run = refl

-- The pause comes between two chunks: the thread writes one more, and the next turn finds `Wake`.
paused_run :
    written (run (started ++ pauses true ∷ replicate 20 thread) (spawn none)).sink ≡ replicate 300 7
unfolding run
paused_run = refl

-- A flush request keeps the packets at the boundary.
flush_run :
    written
      (run (plays first ∷ plays second ∷ flushes (some 2) ∷ replicate 20 thread) (spawn none)).sink
    ≡ 8 ∷ 9 ∷ []
unfolding run
flush_run = refl

-- a_position_across_the_timestamp_wrap
wrap_run :
    extent (record { start = 2 ^ 32 - 44_100; end = 44_100 }) 0 44_100
    ≡ some (1_000_000_000, 2_000_000_000)
unfolding extent
wrap_run = refl

abbrev the_track : Track
the_track = record { start = 0; end = 441_000 }

run-IsCounted_example : IsCounted (run started (spawn none))
run-IsCounted_example = run-IsCounted started none

run_delivers_example :
    sent started
    ≡ written (run started (spawn none)).sink
      ++ (unwritten (run started (spawn none)).phase
          ++ (samples (run started (spawn none)).held ++ waiting (run started (spawn none)).queue))
run_delivers_example = run_delivers started none tt

turns_deliver_example :
    (n : ℕ) × IsIdle (turns n (run started (spawn none)))
    × (written (turns n (run started (spawn none))).sink ≡ sent started)
turns_deliver_example = turns_deliver started none tt

abbrev requested : World
requested = record (spawn none) {
  queue = wake ∷ pcm second ∷ [];
  held = first ∷ [];
  pending = 302;
  flush_request = encode_flush (some 2);
}

flush_exact_example : AfterFlush (some 2) (first ∷ second ∷ []) requested (thread_step requested)
flush_exact_example =
    flush_exact (some 2) wake (pcm second ∷ []) requested refl refl refl refl tt
      (omega arith, (omega arith, tt))

pause_bound_example :
    length
      (written (run (plays second ∷ thread ∷ []) (set_paused true (run started (spawn none)))).sink)
    ≤ length (written (run started (spawn none)).sink) + write_chunk
pause_bound_example = pause_bound none started (plays second ∷ thread ∷ []) (refl, (refl, tt))
