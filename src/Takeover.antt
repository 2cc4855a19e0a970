-- ===== src/Takeover.antt =====
-- openairplay2/src/takeover.rs: the active-session slot, and the connections that claim it
-- (`handle_connection` in openairplay2/src/server.rs, `set_active_guard` and `Drop` in
-- openairplay2/src/session.rs). `claim` is asynchronous: it stops while the interrupted connection
-- tears down, and goes on when that has finished or when its time is over.
pub mod Chain
pub mod Exclusive
pub mod Notify
pub mod Grant
pub mod Release
mod Runs
use openairplay.Prelude.{
  ℕ, zero, suc, ◌≡◌, Bool, true, false, not, ◌&&◌, ◌||◌, ◌==◌, if◌then◌else◌, Option, none, some,
  List, [], ◌∷◌, length,
}

-- A connection and its `Notify` are named by the connection's id; a oneshot channel by a number.
pub record Holder : Type 0 where
  pub id : ℕ
  pub evict : ℕ
  pub finished : ℕ

-- A claim that was let in: it awaits the end of a channel, or its guard lives, or its guard (and with
-- it the sending end of its channel) is dropped.
pub data Stage : Type 0 where
  awaiting : ℕ → Stage
  owning released : Stage

pub record Claim : Type 0 where
  pub channel : ℕ
  pub id : ℕ
  pub stage : Stage

-- The slot, the `Notify`s that a permit was stored in, and the claims, the newest first. That a
-- connection takes its permit up and closes is an action of its own, which may come at any time.
pub record Slots : Type 0 where
  pub holder : Option Holder
  pub permits : List ℕ
  pub claims : List Claim

abbrev pub empty_slot : Slots
empty_slot = record { holder = none; permits = []; claims = [] }

abbrev pub is_owning : Stage → Bool
is_owning owning = true
is_owning _ = false

abbrev pub is_released : Stage → Bool
is_released released = true
is_released _ = false

abbrev pub is_awaiting : Stage → Bool
is_awaiting (awaiting m) = true
is_awaiting _ = false

-- `ActiveSlot::is_held_by`
abbrev pub holds : Option Holder → ℕ → Bool
holds none id = false
holds (some h) id = h.id == id

unfoldable pub is_held_by : Slots → ℕ → Bool
is_held_by s id = holds s.holder id

-- `holder.replace`, and the fresh oneshot channel.
abbrev pub enter : ℕ → ℕ → Stage → Slots → Slots
enter id evict stage s = record s {
  holder = some (record { id = id; evict = evict; finished = length s.claims });
  claims = record { channel = length s.claims; id = id; stage = stage } ∷ s.claims;
}

-- `Drop for ActiveGuard`: the slot is vacated if this connection holds it.
abbrev pub vacated : ℕ → Option Holder → Option Holder
vacated id none = none
vacated id (some h) = if h.id == id then none else some h

abbrev pub vacate : ℕ → Slots → Slots
vacate id s = record s { holder = vacated id s.holder }

abbrev pub release : ℕ → Claim → Claim
release id c = record c { stage = if is_owning c.stage && c.id == id then released else c.stage }

unfoldable pub release_guards : ℕ → List Claim → List Claim
release_guards id [] = []
release_guards id (c ∷ claims) = release id c ∷ release_guards id claims

unfoldable pub has_guard : ℕ → List Claim → Bool
has_guard id [] = false
has_guard id (c ∷ claims) = is_owning c.stage && c.id == id || has_guard id claims

-- A claim that finds no holder returns at once with its guard, and `set_active_guard` drops the one
-- that the session had, which vacates the slot.
abbrev pub claim_free : ℕ → ℕ → Slots → Slots
claim_free id evict s =
    if has_guard id s.claims
    then vacate id (enter id evict owning (record s { claims = release_guards id s.claims }))
    else enter id evict owning s

-- `ActiveSlot::claim`, with the holder that it finds, up to where it awaits that one.
abbrev pub claim_from : Option Holder → ℕ → ℕ → Slots → Slots
claim_from none id evict s = claim_free id evict s
claim_from (some h) id evict s =
    if h.id == id
    then s
    else record (enter id evict (awaiting h.finished) s) { permits = h.evict ∷ s.permits }

unfoldable pub claim : ℕ → ℕ → Slots → Slots
unfolding has_guard release_guards
claim id evict s = claim_from s.holder id evict s

-- The guard of a connection's session is dropped, if it has one.
unfoldable pub drop_guard : ℕ → Slots → Slots
unfolding has_guard release_guards
drop_guard id s =
    if has_guard id s.claims
    then vacate id (record s { claims = release_guards id s.claims })
    else s

unfoldable pub find_claim : ℕ → List Claim → Option Claim
find_claim channel [] = none
find_claim channel (c ∷ claims) =
    let rest = find_claim channel claims in if c.channel == channel then some c else rest

unfoldable pub grant_at : ℕ → List Claim → List Claim
grant_at channel [] = []
grant_at channel (c ∷ claims) =
    let rest = grant_at channel claims in
    if c.channel == channel then record c { stage = owning } ∷ claims else c ∷ rest

-- `claim` returns its guard, which replaces the one that the session had.
unfoldable pub grant : Claim → Slots → Slots
unfolding drop_guard grant_at
grant c s = let s' = drop_guard c.id s in record s' { claims = grant_at c.channel s'.claims }

-- Whether the sending end of a channel was dropped.
unfoldable pub is_finished : ℕ → List Claim → Bool
is_finished channel [] = false
is_finished channel (c ∷ claims) =
    let rest = is_finished channel claims in
    if c.channel == channel then is_released c.stage else rest

-- The await of `claim` ends: because the previous holder has finished, or because time is over.
abbrev pub wake : Bool → ℕ → Claim → Slots → Slots
wake over m c s = if over || is_finished m s.claims then grant c s else s

abbrev pub wake_claim : Bool → Option Claim → Slots → Slots
wake_claim over none s = s
wake_claim over (some c) s = elim c.stage [ awaiting m ↦ wake over m c s | _ ↦ s ]

-- A connection that awaits in `claim` neither reads a request nor returns.
unfoldable pub is_busy : ℕ → List Claim → Bool
is_busy id [] = false
is_busy id (c ∷ claims) = is_awaiting c.stage && c.id == id || is_busy id claims

-- What happens next: a connection reads a SETUP, or returns (its session is dropped); a claim's await
-- ends.
pub data Action : Type 0 where
  setups closes : ℕ → Action
  resumes times_out : ℕ → Action

unfoldable pub step : Action → Slots → Slots
unfolding claim drop_guard grant is_finished find_claim is_busy
step (setups id) s = if is_busy id s.claims then s else claim id id s
step (closes id) s = if is_busy id s.claims then s else drop_guard id s
step (resumes channel) s = wake_claim false (find_claim channel s.claims) s
step (times_out channel) s = wake_claim true (find_claim channel s.claims) s

unfoldable pub run : List Action → Slots → Slots
unfolding step
run [] s = s
run (a ∷ actions) s = run actions (step a s)
