-- ===== src/Player/Flush.antt =====
-- What a flush request discards (openairplay2/src/player.rs).

use openairplay.Prelude.{
  ℕ, ◌-◌, ◌^◌, ◌<◌, ◌≡◌, refl, ap, ◌∙◌, Bool, false, leb, ◌==◌, if◌then◌else◌, Option, none, some,
  List, [], ◌∷◌, ◌++◌, append-nil, append_assoc, All, arith,
}
use openairplay.Player.{
  flush, encode_flush, flush_none, keeps, Packet, Command, pcm, wake, stop, Phase, receiving, done,
  World, retain, drain, flush_step, command_step, receive_step, thread_phase, thread_step,
}

-- The packets of a list of commands.
abbrev pub packets : List Command → List Packet
packets [] = []
packets (pcm p ∷ queue) = p ∷ packets queue
packets (c ∷ queue) = packets queue

abbrev pub HasNoStop : List Command → Type 0
HasNoStop [] = Unit
HasNoStop (stop ∷ queue) = ⊥
HasNoStop (c ∷ queue) = HasNoStop queue

-- What a flush with this boundary is to keep: the stamps at or after it, or nothing.
abbrev pub survives : Option ℕ → Packet → Bool
survives none p = false
survives (some boundary) p = leb boundary p.seq

abbrev pub survivors : Option ℕ → List Packet → List Packet
survivors below [] = []
survivors below (p ∷ ps) =
    let rest = survivors below ps in if survives below p then p ∷ rest else rest

abbrev pub IsStamp : Packet → Type 0
IsStamp p = p.seq < 2 ^ 64 - 2

-- The encoding of the request loses nothing.
keeps-encode_flush :
    (below : Option ℕ) (p : Packet) → IsStamp p → keeps (encode_flush below) p ≡ survives below p
keeps-encode_flush none p h = ground arith
keeps-encode_flush (some boundary) p h = ground arith

retain-survivors :
    (below : Option ℕ) (held : List Packet)
    → All IsStamp held
    → retain (encode_flush below) held ≡ survivors below held
unfolding retain
retain-survivors below [] h = refl
retain-survivors below (p ∷ held) (h, hs) = rw (keeps-encode_flush below p h) (
    ap (λ (r : List Packet). if survives below p then p ∷ r else r)
      (retain-survivors below held hs))

drain-packets :
    (queue : List Command) (held : List Packet)
    → HasNoStop queue
    → drain queue held ≡ (false, held ++ packets queue, [])
unfolding drain
drain-packets [] held h = rw append-nil
drain-packets (pcm p ∷ queue) held h =
    drain-packets queue (held ++ p ∷ []) h ∙ rw (append_assoc held (p ∷ []) (packets queue))
drain-packets (wake ∷ queue) held h = drain-packets queue held h
drain-packets (stop ∷ queue) held h = absurd h

is_request : (below : Option ℕ) → (encode_flush below == flush_none) ≡ false
is_request none = refl
is_request (some boundary) = ground arith

-- The world after a flush was taken up.
abbrev pub AfterFlush : Option ℕ → List Packet → World → World → Type 0
AfterFlush below all w w' =
    (w'.held ≡ survivors below all)
    × (w'.queue ≡ [])
    × (w'.flush_request ≡ flush_none)
    × (w'.sink ≡ w.sink ++ flush ∷ [])

command-AfterFlush :
    (below : Option ℕ) (c : Command) (w : World)
    → HasNoStop (c ∷ w.queue)
    → All IsStamp (w.held ++ packets (c ∷ w.queue))
    → let w' = command_step (encode_flush below) c w in
      (w'.held ≡ survivors below (w.held ++ packets (c ∷ w.queue)))
      × (w'.queue ≡ [])
      × (w'.flush_request ≡ w.flush_request)
      × (w'.sink ≡ w.sink)
unfolding command_step flush_step
command-AfterFlush below wake w h hs =
    rw (is_request below, drain-packets w.queue w.held h)
      (retain-survivors below (w.held ++ packets w.queue) hs, refl, refl, refl)
command-AfterFlush below (pcm p) w h hs =
    rw
      (
        is_request below,
        drain-packets w.queue (w.held ++ p ∷ []) h,
        append_assoc w.held (p ∷ []) (packets w.queue),
      )
      (retain-survivors below (w.held ++ (p ∷ packets w.queue)) hs, refl, refl, refl)
command-AfterFlush below stop w h hs = absurd h

receive-AfterFlush :
    (below : Option ℕ) (c : Command) (w : World)
    → w.stopping ≡ false
    → w.flush_request ≡ encode_flush below
    → HasNoStop (c ∷ w.queue)
    → All IsStamp (w.held ++ packets (c ∷ w.queue))
    → AfterFlush below (w.held ++ packets (c ∷ w.queue)) w (receive_step c w)
unfolding receive_step
receive-AfterFlush below c w s r h hs =
    rw (s, r, is_request below)
      (command-AfterFlush below c
        (record w {
          flush_request = flush_none;
          stopping = false;
          was_paused = w.paused;
          sink = w.sink ++ flush ∷ [];
        })
        h hs)

thread_step-receive_step :
    (c : Command) (queue : List Command) (w : World)
    → w.phase ≡ receiving
    → w.queue ≡ c ∷ queue
    → thread_step w ≡ receive_step c (record w { queue = queue })
unfolding thread_step thread_phase
thread_step-receive_step c queue w p q =
    ap (λ (phase : Phase). thread_phase phase w) p
    ∙ ap
        (λ (queue : List Command). elim queue [
          | [] ↦ if w.connected then w else record w { phase = done }
          | c' ∷ rest ↦ receive_step c' (record w { queue = rest })
        ])
        q

-- The next turn at `recv` after a flush was requested discards exactly the packets stamped below the
-- boundary (all of them without a boundary), from what is held, from the command received and from
-- what is queued alike, keeps the others in order, silences the sink, and clears the request.
pub flush_exact :
    (below : Option ℕ) (c : Command) (queue : List Command) (w : World)
    → w.phase ≡ receiving
    → w.queue ≡ c ∷ queue
    → w.stopping ≡ false
    → w.flush_request ≡ encode_flush below
    → HasNoStop (c ∷ queue)
    → All IsStamp (w.held ++ packets (c ∷ queue))
    → AfterFlush below (w.held ++ packets (c ∷ queue)) w (thread_step w)
flush_exact below c queue w p q s r h hs =
    rw (thread_step-receive_step c queue w p q)
      (receive-AfterFlush below c (record w { queue = queue }) s r h hs)
