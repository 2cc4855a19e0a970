-- ===== src/Takeover/Exclusive.antt =====
-- At most one connection has the guard of the slot (openairplay2/src/takeover.rs).
use openairplay.Prelude.{
  ℕ, suc, ◌≤◌, ◌≡◌, refl, ap, ◌∙◌, ◌⊎◌, inl, inr, Bool, Bool-cases, true, false, ◌==◌,
  if◌then◌else◌, Option, none, some, List, [], ◌∷◌, length, arith,
}
use openairplay.Takeover.{
  Holder, Stage, awaiting, owning, released, Claim, Slots, is_owning, has_guard, find_claim,
  is_finished, is_busy, claim_from, claim, drop_guard, grant, wake_claim, Action, setups, closes,
  resumes, times_out, step, run, empty_slot, is_held_by, holds,
}
use openairplay.Takeover.Chain.{has_guard-AllReleased, AllReleased, Numbered, Link, Linked, Held}
use openairplay.Takeover.Notify.{
  is_notified, AllNotified, Notified, released-AllNotified, notify-AllNotified,
}
use openairplay.Takeover.Grant.{
  found-channel, grant_at-Numbered, granted, grant_at-Held, grant_at-Notified,
}
use openairplay.Takeover.Release.{
  release_guards-Numbered, release_guards-Linked, release_guards-Notified, release_guards-Held,
}

abbrev is_timeout : Action → Bool
is_timeout (times_out channel) = true
is_timeout _ = false

abbrev pub HasNoTimeout : List Action → Type 0
HasNoTimeout [] = Unit
HasNoTimeout (a ∷ actions) = (is_timeout a ≡ false) × HasNoTimeout actions

-- The claims form a chain whose newest one has the slot; the others were told to close.
pub record IsChain (s : Slots) : Type 0 where
  pub numbered : Numbered s.claims
  pub linked : Linked s.claims
  pub held : Held s.holder s.claims
  pub notified : Notified s.permits s.claims

-- The claim that interrupts the holder waits for its channel, and tells it to close.
joins :
    (h : Holder) (permits : List ℕ) (claims : List Claim)
    → Numbered claims
    → Held (some h) claims
    → Notified permits claims
    → (length claims ≡ suc h.finished) × AllNotified (h.evict ∷ permits) claims
joins h permits [] n k a = absurd k
joins h permits (c ∷ claims) (n, ns) (_, told, channel, _) a =
    let hit : (h.evict == c.id) ≡ true = ground arith in
    (omega arith, (inr (rw hit), notify-AllNotified h.evict permits claims a))

claim-IsChain :
    (holder : Option Holder) (id : ℕ) (s : Slots)
    → s.holder ≡ holder
    → IsChain s
    → IsChain (claim_from holder id id s)
claim-IsChain none id s e q =
    let gone : AllReleased s.claims = rw e at q.held in
    rw (has_guard-AllReleased id s.claims gone) (record {
      numbered = (refl, q.numbered);
      linked = gone;
      held = (refl, refl, refl, refl);
      notified = released-AllNotified s.permits s.claims gone;
    })
claim-IsChain (some h) id s e q = elim (Bool-cases (h.id == id)) [
  | inl same ↦ rw same q
  | inr differs ↦
      let (len, told) = joins h s.permits s.claims q.numbered (rw e at q.held) q.notified in
      rw differs (record {
        numbered = (refl, q.numbered);
        linked = (len, q.linked);
        held = (refl, refl, refl, refl);
        notified = told;
      })
]

drop_guard-IsChain :
    (id : ℕ) (s : Slots) → is_busy id s.claims ≡ false → IsChain s → IsChain (drop_guard id s)
unfolding drop_guard
drop_guard-IsChain id s idle q = elim (Bool-cases (has_guard id s.claims)) [
  | inl has ↦ rw has (record {
    numbered = release_guards-Numbered id s.claims q.numbered;
    linked = release_guards-Linked id s.claims q.linked;
    held = release_guards-Held s.holder id s.claims idle q.linked q.held;
    notified = release_guards-Notified id s.permits s.claims q.notified;
  })
  | inr has ↦ rw has q
]

grant-IsChain :
    (channel m : ℕ) (s : Slots) (c : Claim)
    → find_claim channel s.claims ≡ some c
    → c.stage ≡ awaiting m
    → is_finished m s.claims ≡ true
    → IsChain s
    → IsChain (grant c s)
unfolding grant drop_guard
grant-IsChain channel m s c e w f q =
    let (none_has, linked) = granted channel m s.claims c q.numbered q.linked e w f in
    rw (none_has c.id, found-channel channel s.claims c e)
      (record {
        numbered = grant_at-Numbered channel s.claims q.numbered;
        linked = linked;
        held = grant_at-Held s.holder channel m s.claims c e w q.held;
        notified = grant_at-Notified channel m s.permits s.claims c e w q.notified;
      })

wake-IsChain :
    (channel : ℕ) (found : Option Claim) (s : Slots)
    → find_claim channel s.claims ≡ found
    → IsChain s
    → IsChain (wake_claim false found s)
wake-IsChain channel none s e q = q
wake-IsChain channel (some c) s e q = go c.stage refl
  where
    go :
        (stage : Stage)
        → c.stage ≡ stage
        → IsChain
            (elim stage [ awaiting m ↦ (if is_finished m s.claims then grant c s else s) | _ ↦ s ])
    go (awaiting m) w = elim (Bool-cases (is_finished m s.claims)) [
      | inl f ↦ rw f (grant-IsChain channel m s c e w f q)
      | inr f ↦ rw f q
    ]
    go owning w = q
    go released w = q

step-IsChain : (a : Action) (s : Slots) → is_timeout a ≡ false → IsChain s → IsChain (step a s)
unfolding step claim
step-IsChain (setups id) s h q = elim (Bool-cases (is_busy id s.claims)) [
  | inl busy ↦ rw busy q
  | inr idle ↦ rw idle (claim-IsChain s.holder id s refl q)
]
step-IsChain (closes id) s h q = elim (Bool-cases (is_busy id s.claims)) [
  | inl busy ↦ rw busy q
  | inr idle ↦ rw idle (drop_guard-IsChain id s idle q)
]
step-IsChain (resumes channel) s h q = wake-IsChain channel (find_claim channel s.claims) s refl q
step-IsChain (times_out channel) s h q = cc

run-IsChain :
    (actions : List Action) (s : Slots) → HasNoTimeout actions → IsChain s → IsChain (run actions s)
unfolding run
run-IsChain [] s h q = q
run-IsChain (a ∷ actions) s (h, hs) q = run-IsChain actions (step a s) hs (step-IsChain a s h q)

empty-IsChain : IsChain empty_slot
empty-IsChain = record { numbered = tt; linked = tt; held = tt; notified = tt }

-- How many connections have a guard.
abbrev pub guards : List Claim → ℕ
guards [] = 0
guards (c ∷ claims) = if is_owning c.stage then suc (guards claims) else guards claims

abbrev pub IsExclusive : Slots → Type 0
IsExclusive s = guards s.claims ≤ 1

guards-AllReleased : (claims : List Claim) → AllReleased claims → guards claims ≡ 0
guards-AllReleased [] h = refl
guards-AllReleased (c ∷ claims) (h, hs) =
    let idle : is_owning c.stage ≡ false = ap is_owning h in rw idle (guards-AllReleased claims hs)

Linked-guards : (claims : List Claim) → Linked claims → guards claims ≤ 1
Linked-guards [] l = omega arith
Linked-guards (c ∷ claims) l = go c.stage l (Linked-guards claims)
  where
    go :
        (stage : Stage)
        → Link stage claims (Linked claims)
        → (Linked claims → guards claims ≤ 1)
        → (if is_owning stage then suc (guards claims) else guards claims) ≤ 1
    go (awaiting m) (_, l) f = f l
    go owning gone f = omega (arith, guards-AllReleased claims gone)
    go released gone f = omega (arith, guards-AllReleased claims gone)

-- As long as no claim runs out of time, on every schedule of connections that set up, wait, resume
-- and close, at most one of them has the guard of the slot: a takeover starts only when the
-- interrupted session has been torn down.
pub run-IsExclusive :
    (actions : List Action) → HasNoTimeout actions → IsExclusive (run actions empty_slot)
run-IsExclusive actions h =
    let s = run actions empty_slot in
    Linked-guards s.claims (run-IsChain actions empty_slot h empty-IsChain).linked

-- A claim is over, or its connection has the slot, or its connection has been told to close.
abbrev pub AllTold : Slots → List Claim → Type 0
AllTold s [] = Unit
AllTold s (c ∷ claims) =
    ((c.stage ≡ released) ⊎ (is_held_by s c.id ≡ true) ⊎ (is_notified c.id s.permits ≡ true))
    × AllTold s claims

AllNotified-AllTold :
    (s : Slots) (claims : List Claim) → AllNotified s.permits claims → AllTold s claims
AllNotified-AllTold s [] a = tt
AllNotified-AllTold s (c ∷ claims) (inl h, hs) = (inl h, AllNotified-AllTold s claims hs)
AllNotified-AllTold s (c ∷ claims) (inr h, hs) = (inr (inr h), AllNotified-AllTold s claims hs)

released-AllTold : (s : Slots) (claims : List Claim) → AllReleased claims → AllTold s claims
released-AllTold s [] h = tt
released-AllTold s (c ∷ claims) (h, hs) = (inl h, released-AllTold s claims hs)

chain-AllTold :
    (holder : Option Holder) (s : Slots) (claims : List Claim)
    → s.holder ≡ holder
    → Held holder claims
    → Notified s.permits claims
    → AllTold s claims
unfolding is_held_by
chain-AllTold none s claims e k a = released-AllTold s claims k
chain-AllTold (some h) s [] e k a = tt
chain-AllTold (some h) s (c ∷ claims) e (mine, _, _, _) a =
    let has : (h.id == c.id) ≡ true = ground arith in
    (
      inr (inl (ap (λ (holder : Option Holder). holds holder c.id) e ∙ has)),
      AllNotified-AllTold s claims a,
    )

-- Under the same condition, every connection whose claim is not over has the slot or has a stored
-- permit that tells it to close: nobody who was interrupted plays on unnoticed.
pub run-AllTold :
    (actions : List Action)
    → HasNoTimeout actions
    → AllTold (run actions empty_slot) (run actions empty_slot).claims
run-AllTold actions h =
    let q = run-IsChain actions empty_slot h empty-IsChain in
    let s = run actions empty_slot in chain-AllTold s.holder s s.claims refl q.held q.notified
