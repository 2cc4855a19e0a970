-- ===== src/Player.antt =====
-- openairplay2/src/player.rs: the playback queue. The RTSP task and the TCP reader call the methods
-- of `PlayerSender`; the playback thread runs `run`. Both act on one `World`, by turns: a turn of the
-- thread ends where it waits (at `recv`) or where a write to the sink has returned, and a call of a
-- method is one turn.
pub mod Timeline
pub mod Pending
pub mod Order
pub mod Drain
pub mod Flush
pub mod Pieces
pub mod Waits
pub mod Pause
mod Runs
use openairplay.Prelude.{
  ℕ, zero, suc, ◌+◌, ◌-◌, ◌*◌, ◌%◌, ◌^◌, Bool, true, false, not, ◌&&◌, ◌||◌, ltb, leb, ◌==◌,
  if◌then◌else◌, Option, none, some, List, [], ◌∷◌, ◌++◌, length, chunks,
}
use mathlib.Core.Option
use openairplay.Player.Timeline.{Track, Position, played}

-- An interleaved sample is the 16-bit pattern of its i16.
abbrev pub Samples : Type 0
Samples = List ℕ

abbrev pub max_queued_samples : ℕ → ℕ → ℕ
max_queued_samples rate channels = rate * channels * 2

abbrev pub flush_none : ℕ
flush_none = 0

-- `u64::MAX`
abbrev pub flush_all : ℕ
flush_all = 2 ^ 64 - 1

abbrev pub write_chunk : ℕ
write_chunk = 256

-- `u64::saturating_add(1)`
abbrev pub saturating_succ : ℕ → ℕ
saturating_succ n = if ltb n flush_all then n + 1 else flush_all

-- `fetch_add` and `fetch_sub` on a usize of 64 bits.
abbrev pub add_usize : ℕ → ℕ → ℕ
add_usize a b = (a + b) % 2 ^ 64

abbrev pub sub_usize : ℕ → ℕ → ℕ
sub_usize a b = (a + (2 ^ 64 - b % 2 ^ 64)) % 2 ^ 64

-- A packet: its sequence number, its RTP timestamp and its samples.
pub record Packet : Type 0 where
  pub seq : ℕ
  pub ts : ℕ
  pub pcm : Samples

pub data Command : Type 0 where
  pcm : Packet → Command
  wake stop : Command

-- Where the playback thread is: at `recv`; before the next `pop_front`; in the chunk loop, with the
-- timestamp of the packet and the chunks still to be written; or returned.
pub data Phase : Type 0 where
  receiving delivering done : Phase
  writing : ℕ → List Samples → Phase

-- What the sink was called with.
pub data Call : Type 0 where
  write : Samples → Call
  flush : Call

-- The shared atomics and the channel, the locals of `run`, and the calls made of the sink.
pub record World : Type 0 where
  pub queue : List Command
  pub connected : Bool
  pub pending : ℕ
  pub flush_request : ℕ
  pub paused : Bool
  pub stopping : Bool
  pub track : Option Track
  pub held : List Packet
  pub was_paused : Bool
  pub phase : Phase
  pub position : Option Position
  pub sink : List Call

-- `Player::spawn`
abbrev pub spawn : Option Position → World
spawn position = record {
  queue = [];
  connected = true;
  pending = 0;
  flush_request = flush_none;
  paused = false;
  stopping = false;
  track = none;
  held = [];
  was_paused = false;
  phase = Phase.receiving;
  position = position;
  sink = [];
}

-- `tx.send`: once the thread has returned its receiver is gone, and the command with it.
abbrev pub send : Command → World → World
send c w = elim w.phase [ done ↦ w | _ ↦ record w { queue = w.queue ++ c ∷ [] } ]

unfoldable pub play : Packet → World → World
play p w = send (pcm p) (record w { pending = add_usize w.pending (length p.pcm) })

unfoldable pub set_paused : Bool → World → World
set_paused paused w = send wake (record w { paused = paused })

abbrev pub encode_flush : Option ℕ → ℕ
encode_flush none = flush_all
encode_flush (some seq) = saturating_succ seq

unfoldable pub request_flush : Option ℕ → World → World
request_flush below_seq w = send wake (record w { flush_request = encode_flush below_seq })

-- `Drop for Player`, before the join; the last sender goes with it.
unfoldable pub drop_player : World → World
drop_player w = record (send stop (record w { stopping = true })) { connected = false }

-- The test in `held.retain`: which stamps a flush keeps.
abbrev pub keeps : ℕ → Packet → Bool
keeps request p = not (request == flush_all) && leb request (saturating_succ p.seq)

-- `held.retain`: what it keeps, and what its closure leaves in `pending`.
unfoldable pub retain : ℕ → List Packet → List Packet
retain request [] = []
retain request (p ∷ held) =
    let rest = retain request held in if keeps request p then p ∷ rest else rest

unfoldable pub discard : ℕ → List Packet → ℕ → ℕ
discard request [] pending = pending
discard request (p ∷ held) pending =
    discard request held (if keeps request p then pending else sub_usize pending (length p.pcm))

-- The `try_recv` loop of a flush: whether it met `Stop`, what is held then, and the commands left.
unfoldable pub drain : List Command → List Packet → Bool × List Packet × List Command
drain [] held = (false, held, [])
drain (pcm p ∷ queue) held = drain queue (held ++ p ∷ [])
drain (wake ∷ queue) held = drain queue held
drain (stop ∷ queue) held = (true, held, queue)

-- The end of a round of the outer loop: hold on a pause, deliver otherwise.
abbrev pub after_control : World → World
after_control w = record w { phase = if w.paused then Phase.receiving else Phase.delivering }

-- `if flush != FLUSH_NONE`, with the request that was taken.
abbrev pub flushed : ℕ → Bool × List Packet × List Command → World → World
flushed request (true, held, queue) w = record w { held = held; queue = queue; phase = Phase.done }
flushed request (false, held, queue) w = after_control (record w {
  held = retain request held;
  queue = queue;
  pending = discard request held w.pending;
})

unfoldable pub flush_step : ℕ → World → World
unfolding drain retain discard
flush_step request w =
    if request == flush_none then after_control w else flushed request (drain w.queue w.held) w

-- `match command`
unfoldable pub command_step : ℕ → Command → World → World
unfolding flush_step
command_step request stop w = record w { phase = Phase.done }
command_step request wake w = flush_step request w
command_step request (pcm p) w = flush_step request (record w { held = w.held ++ p ∷ [] })

-- One command that `recv` returned, up to the delivery loop.
unfoldable pub receive_step : Command → World → World
unfolding command_step
receive_step c w =
    let request = w.flush_request in
    let just_paused = w.paused && not w.was_paused in
    let silence = not (request == flush_none) || just_paused in
    if w.stopping
    then record w { phase = Phase.done }
    else command_step request c (record w {
      flush_request = flush_none;
      was_paused = w.paused;
      sink = if silence then w.sink ++ flush ∷ [] else w.sink;
    })

-- `position.played(ts)`, and on.
abbrev pub report_position : ℕ → Phase → World → World
report_position ts phase w = record w {
  position = Option.map (played w.track ts) w.position;
  phase = phase;
}

-- After a write: stop, break out, or the next chunk.
abbrev pub interrupted : World → Bool
interrupted w = w.paused || not (w.flush_request == flush_none)

unfoldable pub after_write : ℕ → List Samples → World → World
after_write ts chunks w =
    if w.stopping
    then record w { phase = Phase.done }
    else if interrupted w
    then report_position ts Phase.receiving w
    else record w { phase = writing ts chunks }

-- One turn of the playback thread.
unfoldable pub thread_phase : Phase → World → World
unfolding receive_step after_write chunks
thread_phase receiving w = elim w.queue [
  | [] ↦ if w.connected then w else record w { phase = Phase.done }
  | c ∷ queue ↦ receive_step c (record w { queue = queue })
]
thread_phase delivering w = elim w.held [
  | [] ↦ record w { phase = Phase.receiving }
  | p ∷ held ↦ record w {
    held = held;
    pending = sub_usize w.pending (length p.pcm);
    phase = writing p.ts (chunks write_chunk p.pcm);
  }
]
thread_phase (writing ts []) w = report_position ts Phase.delivering w
thread_phase (writing ts (c ∷ rest)) w =
    after_write ts rest (record w { sink = w.sink ++ write c ∷ [] })
thread_phase done w = w

unfoldable pub thread_step : World → World
unfolding thread_phase
thread_step w = thread_phase w.phase w

-- What happens next: a turn of the thread, or a call from outside.
pub data Action : Type 0 where
  thread : Action
  plays : Packet → Action
  pauses : Bool → Action
  flushes : Option ℕ → Action
  drops : Action
  sets_track : Option Track → Action

unfoldable pub step : Action → World → World
unfolding play set_paused request_flush drop_player thread_step
step thread w = thread_step w
step (plays p) w = play p w
step (pauses b) w = set_paused b w
step (flushes below) w = request_flush below w
step drops w = drop_player w
step (sets_track t) w = record w { track = t }

unfoldable pub run : List Action → World → World
unfolding step
run [] w = w
run (a ∷ actions) w = run actions (step a w)
