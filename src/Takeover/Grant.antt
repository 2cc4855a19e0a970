-- ===== src/Takeover/Grant.antt =====
-- A claim whose await has ended gets its guard (openairplay2/src/takeover.rs).
use openairplay.Prelude.{
  ℕ, ◌≡◌, refl, ap, ◌⊎◌, inl, inr, Bool-cases, true, false, ◌==◌, Option, none, some, List, [], ◌∷◌,
  length, arith,
}
use openairplay.Takeover.{
  Holder, Stage, awaiting, owning, released, Claim, is_owning, is_released, is_awaiting, has_guard,
  find_claim, grant_at, is_finished,
}
use openairplay.Takeover.Notify.{is_notified, AllNotified, Notified}
use openairplay.Takeover.Chain.{
  Numbered, Linked, Held, behind-AllReleased, finished-AllReleased, has_guard-AllReleased,
  find_claim-AllReleased,
}

equal_of : (a b : ℕ) → (a == b) ≡ true → a ≡ b
equal_of a b h = ground arith

pub found-channel :
    (channel : ℕ) (claims : List Claim) (c : Claim)
    → find_claim channel claims ≡ some c
    → c.channel ≡ channel
unfolding find_claim
found-channel channel [] c e = cc
found-channel channel (d ∷ claims) c e = elim (Bool-cases (d.channel == channel)) [
  | inl same ↦
      let here : some d ≡ some c = rw same at e in let eq = equal_of d.channel channel same in cc
  | inr differs ↦ found-channel channel claims c (rw differs at e)
]

length-grant_at :
    (channel : ℕ) (claims : List Claim) → length (grant_at channel claims) ≡ length claims
unfolding grant_at
length-grant_at channel [] = refl
length-grant_at channel (c ∷ claims) = elim (Bool-cases (c.channel == channel)) [
  | inl same ↦ rw same
  | inr differs ↦ rw (differs, length-grant_at channel claims)
]

pub grant_at-Numbered :
    (channel : ℕ) (claims : List Claim) → Numbered claims → Numbered (grant_at channel claims)
unfolding grant_at
grant_at-Numbered channel [] n = tt
grant_at-Numbered channel (c ∷ claims) (n, ns) = elim (Bool-cases (c.channel == channel)) [
  | inl same ↦ rw same (n, ns)
  | inr differs ↦
      rw (differs, length-grant_at channel claims) (n, grant_at-Numbered channel claims ns)
]

awaiting_of : (stage : Stage) → is_awaiting stage ≡ true → (m : ℕ) × (stage ≡ awaiting m)
awaiting_of (awaiting m) h = (m, refl)
awaiting_of owning h = cc
awaiting_of released h = cc

-- When a claim resumes, nobody has a guard, and the claims stay linked.
abbrev pub Granted : ℕ → List Claim → Type 0
Granted channel claims = ((id : ℕ) → has_guard id claims ≡ false) × Linked (grant_at channel claims)

pub granted :
    (channel m : ℕ) (claims : List Claim) (c : Claim)
    → Numbered claims
    → Linked claims
    → find_claim channel claims ≡ some c
    → c.stage ≡ awaiting m
    → is_finished m claims ≡ true
    → Granted channel claims
unfolding find_claim is_finished has_guard grant_at
granted channel m [] c n l e w f = cc
granted channel m (d ∷ claims) c (n, ns) l e w f = elim (Bool-cases (d.channel == channel)) [
  | inl same ↦
      let here : some d ≡ some c = rw same at e in
      let waits : d.stage ≡ awaiting m = cc in
      let (len, linked) = rw waits at l in
      let older : (d.channel == m) ≡ false = ground arith in
      let gone = finished-AllReleased m claims len ns linked (rw older at f) in
      let idle : is_owning d.stage ≡ false = ap is_owning waits in
      ((λ id. rw idle (has_guard-AllReleased id claims gone)), rw same gone)
  | inr differs ↦
      behind (λ linked f'. granted channel m claims c ns linked (rw differs at e) w f')
        (Bool-cases (is_awaiting d.stage)) (rw differs at e) differs
]
  where
    later :
        is_released d.stage ≡ false
        → ((d.channel == m) ≡ true) ⊎ ((d.channel == m) ≡ false)
        → is_finished m claims ≡ true
    later live (inl here) = let never = rw (here, live) at f in cc
    later live (inr further) = rw further at f

    behind :
        (Linked claims → is_finished m claims ≡ true → Granted channel claims)
        → (is_awaiting d.stage ≡ true) ⊎ (is_awaiting d.stage ≡ false)
        → find_claim channel claims ≡ some c
        → (d.channel == channel) ≡ false
        → Granted channel (d ∷ claims)
    behind rec (inr still) e' differs =
        let gone =
          find_claim-AllReleased channel claims c
            (behind-AllReleased d.stage claims (Linked claims) still l) e' in
        cc
    behind rec (inl waiting) e' differs =
        let (m', waits) = awaiting_of d.stage waiting in
        let (len, linked) = rw waits at l in
        let idle : is_owning d.stage ≡ false = ap is_owning waits in
        let live : is_released d.stage ≡ false = ap is_released waits in
        let (none_has, linked') = rec linked (later live (Bool-cases (d.channel == m))) in
        (
          (λ id. rw idle (none_has id)),
          rw (differs, waits, length-grant_at channel claims) (len, linked'),
        )

pub grant_at-Held :
    (holder : Option Holder) (channel m : ℕ) (claims : List Claim) (c : Claim)
    → find_claim channel claims ≡ some c
    → c.stage ≡ awaiting m
    → Held holder claims
    → Held holder (grant_at channel claims)
unfolding grant_at
grant_at-Held none channel m claims c e w k =
    let gone = find_claim-AllReleased channel claims c k e in cc
grant_at-Held (some h) channel m [] c e w k = absurd k
grant_at-Held (some h) channel m (d ∷ claims) c e w (mine, told, at, live) =
    elim (Bool-cases (d.channel == channel)) [
      | inl same ↦ rw same (mine, told, at, refl)
      | inr differs ↦ rw differs (mine, told, at, live)
    ]

grant_at-AllNotified :
    (channel m : ℕ) (permits : List ℕ) (claims : List Claim) (c : Claim)
    → find_claim channel claims ≡ some c
    → c.stage ≡ awaiting m
    → AllNotified permits claims
    → AllNotified permits (grant_at channel claims)
unfolding grant_at find_claim
grant_at-AllNotified channel m permits [] c e w a = tt
grant_at-AllNotified channel m permits (d ∷ claims) c e w (h, hs) =
    elim (Bool-cases (d.channel == channel)) [
      | inl same ↦ let here : some d ≡ some c = rw same at e in rw same (told here h, hs)
      | inr differs ↦
          rw differs (h, grant_at-AllNotified channel m permits claims c (rw differs at e) w hs)
    ]
  where
    told :
        some d ≡ some c
        → (d.stage ≡ released) ⊎ (is_notified d.id permits ≡ true)
        → (owning ≡ released) ⊎ (is_notified d.id permits ≡ true)
    told here (inl gone) = let waits : d.stage ≡ awaiting m = cc in cc
    told here (inr h) = inr h

pub grant_at-Notified :
    (channel m : ℕ) (permits : List ℕ) (claims : List Claim) (c : Claim)
    → find_claim channel claims ≡ some c
    → c.stage ≡ awaiting m
    → Notified permits claims
    → Notified permits (grant_at channel claims)
unfolding grant_at find_claim
grant_at-Notified channel m permits [] c e w a = tt
grant_at-Notified channel m permits (d ∷ claims) c e w a =
    elim (Bool-cases (d.channel == channel)) [
      | inl same ↦ rw same a
      | inr differs ↦
          rw differs (grant_at-AllNotified channel m permits claims c (rw differs at e) w a)
    ]
