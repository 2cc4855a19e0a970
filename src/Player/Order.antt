-- ===== src/Player/Order.antt =====
-- Delivery when nobody pauses, flushes or drops the player: every sample, once, in order.
use mathlib.Core.Option
use openairplay.Prelude.{
  ℕ, ◌≡◌, refl, ap, ◌∙◌, true, false, Option, none, List, [], ◌∷◌, ◌++◌, map, append-nil,
  append_assoc, length, flatten, chunks, flatten-chunks, arith,
}
use openairplay.Player.{
  Samples, write_chunk, flush_none, add_usize, sub_usize, Packet, Command, pcm, Phase, receiving,
  delivering, done, writing, Call, write, flush, World, spawn, play, thread_step, Action, thread,
  plays, pauses, flushes, drops, sets_track, step, run,
}
use openairplay.Player.Timeline.{Position, Track, played}

-- The samples written to the sink, those of the packet at hand, and those of waiting packets.
abbrev pub written : List Call → Samples
written [] = []
written (write c ∷ calls) = c ++ written calls
written (flush ∷ calls) = written calls

abbrev pub unwritten : Phase → Samples
unwritten (writing ts cs) = flatten cs
unwritten _ = []

abbrev pub samples : List Packet → Samples
samples [] = []
samples (p ∷ ps) = p.pcm ++ samples ps

abbrev pub waiting : List Command → Samples
waiting [] = []
waiting (pcm p ∷ queue) = p.pcm ++ waiting queue
waiting (c ∷ queue) = waiting queue

-- All samples that a schedule hands to `play`.
abbrev pub sent : List Action → Samples
sent [] = []
sent (plays p ∷ actions) = p.pcm ++ sent actions
sent (a ∷ actions) = sent actions

-- Only turns of the thread, `play` and the sender's track reports.
abbrev pub IsUndisturbed : List Action → Type 0
IsUndisturbed [] = Unit
IsUndisturbed (thread ∷ actions) = IsUndisturbed actions
IsUndisturbed (plays p ∷ actions) = IsUndisturbed actions
IsUndisturbed (sets_track t ∷ actions) = IsUndisturbed actions
IsUndisturbed (_ ∷ actions) = ⊥

abbrev pub IsLive : Phase → Type 0
IsLive done = ⊥
IsLive _ = Unit

-- A world that was never disturbed.
abbrev pub calm :
    List Packet → ℕ → Option Track → List Packet → Phase → Option Position → List Call → World
calm queue pending track held phase position sink = record {
  queue = map pcm queue;
  connected = true;
  pending = pending;
  flush_request = flush_none;
  paused = false;
  stopping = false;
  track = track;
  held = held;
  was_paused = false;
  phase = phase;
  position = position;
  sink = sink;
}

-- At `recv` nothing is held.
abbrev pub IdleAt : Phase → List Packet → Type 0
IdleAt receiving held = held ≡ []
IdleAt _ held = Unit

pub record IsCalm (all : Samples) (w : World) : Type 0 where
  pub queue : List Packet
  pub pending : ℕ
  pub track : Option Track
  pub held : List Packet
  pub phase : Phase
  pub position : Option Position
  pub sink : List Call
  pub is_calm : w ≡ calm queue pending track held phase position sink
  pub live : IsLive phase
  pub idle : IdleAt phase held
  pub accounts : all ≡ written sink ++ (unwritten phase ++ (samples held ++ samples queue))

samples-append : (xs ys : List Packet) → samples (xs ++ ys) ≡ samples xs ++ samples ys
samples-append [] ys = refl
samples-append (p ∷ xs) ys = simp (samples-append xs ys, append_assoc)

pub written-append : (xs ys : List Call) → written (xs ++ ys) ≡ written xs ++ written ys
written-append [] ys = refl
written-append (write c ∷ xs) ys = simp (written-append xs ys, append_assoc)
written-append (flush ∷ xs) ys = written-append xs ys

map-append_one : (xs : List Packet) (p : Packet) → map pcm (xs ++ p ∷ []) ≡ map pcm xs ++ pcm p ∷ []
map-append_one [] p = refl
map-append_one (x ∷ xs) p = ap (λ (r : List Command). pcm x ∷ r) (map-append_one xs p)

waiting-map : (queue : List Packet) → waiting (map pcm queue) ≡ samples queue
waiting-map [] = refl
waiting-map (p ∷ queue) = ap (λ (r : Samples). p.pcm ++ r) (waiting-map queue)

calm-IsCalm :
    (all : Samples) (queue : List Packet) (pending : ℕ) (track : Option Track) (held : List Packet)
    (phase : Phase) (position : Option Position) (sink : List Call)
    → IsLive phase
    → IdleAt phase held
    → all ≡ written sink ++ (unwritten phase ++ (samples held ++ samples queue))
    → IsCalm all (calm queue pending track held phase position sink)
calm-IsCalm all queue pending track held phase position sink live idle accounts = record {
  queue = queue;
  pending = pending;
  track = track;
  held = held;
  phase = phase;
  position = position;
  sink = sink;
  is_calm = refl;
  live = live;
  idle = idle;
  accounts = accounts;
}

-- One turn of the thread in a calm world.
calm_turn :
    (all : Samples) (queue : List Packet) (pending : ℕ) (track : Option Track) (held : List Packet)
    (phase : Phase) (position : Option Position) (sink : List Call)
    → IsLive phase
    → IdleAt phase held
    → all ≡ written sink ++ (unwritten phase ++ (samples held ++ samples queue))
    → IsCalm all (thread_step (calm queue pending track held phase position sink))
unfolding thread_step
calm_turn all [] n track held receiving position sink l i e =
    calm-IsCalm all [] n track held receiving position sink tt i e
calm_turn all (p ∷ queue) n track held receiving position sink l i e =
    calm-IsCalm all queue n track (held ++ p ∷ []) delivering position sink tt tt (
      e
      ∙ ap (λ (r : Samples). written sink ++ r) (simp (samples-append held (p ∷ []), append_assoc)))
calm_turn all queue n track [] delivering position sink l i e =
    calm-IsCalm all queue n track [] receiving position sink tt refl e
calm_turn all queue n track (p ∷ held) delivering position sink l i e =
    calm-IsCalm all queue (sub_usize n (length p.pcm)) track held
      (writing p.ts (chunks write_chunk p.pcm)) position sink tt tt
      (e
        ∙ rw (
          flatten-chunks write_chunk p.pcm (omega arith),
          append_assoc p.pcm (samples held) (samples queue),
        ))
calm_turn all queue n track held (writing ts []) position sink l i e =
    calm-IsCalm all queue n track held delivering (Option.map (played track ts) position) sink tt tt
      e
calm_turn all queue n track held (writing ts (c ∷ cs)) position sink l i e =
    calm-IsCalm all queue n track held (writing ts cs) position (sink ++ write c ∷ []) tt tt
      (e ∙ simp (written-append sink (write c ∷ []), append_assoc, append-nil))
calm_turn all queue n track held done position sink l i e = absurd l

pub step_thread-IsCalm : (all : Samples) (w : World) → IsCalm all w → IsCalm all (thread_step w)
step_thread-IsCalm all w c = rw c.is_calm (
    calm_turn all c.queue c.pending c.track c.held c.phase c.position c.sink c.live c.idle
      c.accounts)

play-calm :
    (all : Samples) (p : Packet) (queue : List Packet) (pending : ℕ) (track : Option Track)
    (held : List Packet) (phase : Phase) (position : Option Position) (sink : List Call)
    → IsLive phase
    → play p (calm queue pending track held phase position sink)
      ≡ calm (queue ++ p ∷ []) (add_usize pending (length p.pcm)) track held phase position sink
unfolding play
play-calm all p queue n track held receiving position sink l = rw map-append_one
play-calm all p queue n track held delivering position sink l = rw map-append_one
play-calm all p queue n track held (writing ts cs) position sink l = rw map-append_one
play-calm all p queue n track held done position sink l = absurd l

step_play-IsCalm :
    (all : Samples) (p : Packet) (w : World) → IsCalm all w → IsCalm (all ++ p.pcm) (play p w)
step_play-IsCalm all p w c = record {
  queue = c.queue ++ p ∷ [];
  pending = add_usize c.pending (length p.pcm);
  track = c.track;
  held = c.held;
  phase = c.phase;
  position = c.position;
  sink = c.sink;
  is_calm =
      ap (play p) c.is_calm
      ∙ play-calm all p c.queue c.pending c.track c.held c.phase c.position c.sink c.live;
  live = c.live;
  idle = c.idle;
  accounts =
      ap (λ (r : Samples). r ++ p.pcm) c.accounts
      ∙ simp (samples-append c.queue (p ∷ []), append_assoc, append-nil);
}

step_track-IsCalm :
    (all : Samples) (t : Option Track) (w : World)
    → IsCalm all w
    → IsCalm all (record w { track = t })
step_track-IsCalm all t w c = record {
  queue = c.queue;
  pending = c.pending;
  track = t;
  held = c.held;
  phase = c.phase;
  position = c.position;
  sink = c.sink;
  is_calm = ap (λ (v : World). record v { track = t }) c.is_calm;
  live = c.live;
  idle = c.idle;
  accounts = c.accounts;
}

pub run-IsCalm :
    (actions : List Action) (all : Samples) (w : World)
    → IsUndisturbed actions
    → IsCalm all w
    → IsCalm (all ++ sent actions) (run actions w)
unfolding run step
run-IsCalm [] all w u c = rw append-nil c
run-IsCalm (thread ∷ actions) all w u c =
    run-IsCalm actions all (thread_step w) u (step_thread-IsCalm all w c)
run-IsCalm (plays p ∷ actions) all w u c =
    rw (← append_assoc all p.pcm (sent actions))
      (run-IsCalm actions (all ++ p.pcm) (play p w) u (step_play-IsCalm all p w c))
run-IsCalm (sets_track t ∷ actions) all w u c =
    run-IsCalm actions all (record w { track = t }) u (step_track-IsCalm all t w c)
run-IsCalm (pauses b ∷ actions) all w u c = absurd u
run-IsCalm (flushes b ∷ actions) all w u c = absurd u
run-IsCalm (drops ∷ actions) all w u c = absurd u

pub spawn-IsCalm : (position : Option Position) → IsCalm [] (spawn position)
spawn-IsCalm position = record {
  queue = [];
  pending = 0;
  track = none;
  held = [];
  phase = receiving;
  position = position;
  sink = [];
  is_calm = refl;
  live = tt;
  idle = refl;
  accounts = refl;
}

pub accounts_of :
    (all : Samples) (w : World)
    → IsCalm all w
    → all ≡ written w.sink ++ (unwritten w.phase ++ (samples w.held ++ waiting w.queue))
accounts_of all w c = rw (c.is_calm, waiting-map c.queue) c.accounts

-- On every undisturbed schedule, what was played is, sample for sample and in this order, what the
-- sink has got, what is left of the packet at hand, the held packets and the queued ones: nothing is
-- lost, doubled or reordered, whatever the sizes of the packets.
pub run_delivers :
    (actions : List Action) (position : Option Position)
    → IsUndisturbed actions
    → sent actions
      ≡ written (run actions (spawn position)).sink
        ++ (unwritten (run actions (spawn position)).phase
            ++ (samples (run actions (spawn position)).held
                ++ waiting (run actions (spawn position)).queue))
run_delivers actions position u =
    accounts_of (sent actions) (run actions (spawn position))
      (run-IsCalm actions [] (spawn position) u (spawn-IsCalm position))
