-- ===== src/Takeover/Release.antt =====
-- A connection that is not waiting drops its guard (openairplay2/src/takeover.rs).
use openairplay.Prelude.{
  ℕ, suc, ◌≡◌, refl, sym, ap, ◌∙◌, inl, inr, Bool, Bool-cases, true, false, ◌&&◌, ◌||◌, ◌==◌,
  if◌then◌else◌, Option, none, some, List, [], ◌∷◌, length, arith,
}
use openairplay.Takeover.{
  Holder, Stage, awaiting, owning, released, Claim, is_owning, is_released, is_awaiting,
  release_guards, is_busy, vacated,
}
use openairplay.Takeover.Notify.{AllNotified, Notified}
use openairplay.Takeover.Chain.{
  Numbered, Link, Linked, Held, behind-AllReleased, release_guards-AllReleased, release-released,
}

length-release_guards :
    (id : ℕ) (claims : List Claim) → length (release_guards id claims) ≡ length claims
unfolding release_guards
length-release_guards id [] = refl
length-release_guards id (c ∷ claims) = ap suc (length-release_guards id claims)

pub release_guards-Numbered :
    (id : ℕ) (claims : List Claim) → Numbered claims → Numbered (release_guards id claims)
unfolding release_guards
release_guards-Numbered id [] n = tt
release_guards-Numbered id (c ∷ claims) (n, ns) =
    (n ∙ sym (length-release_guards id claims), release_guards-Numbered id claims ns)

release-Link :
    (stage : Stage) (b : Bool) (id : ℕ) (claims : List Claim) (L L' : Type 0)
    → (L → L')
    → Link stage claims L
    → Link (if is_owning stage && b then released else stage) (release_guards id claims) L'
release-Link (awaiting m) b id claims L L' f (len, l) = (length-release_guards id claims ∙ len, f l)
release-Link owning true id claims L L' f l = release_guards-AllReleased id claims l
release-Link owning false id claims L L' f l = release_guards-AllReleased id claims l
release-Link released b id claims L L' f l = release_guards-AllReleased id claims l

pub release_guards-Linked :
    (id : ℕ) (claims : List Claim) → Linked claims → Linked (release_guards id claims)
unfolding release_guards
release_guards-Linked id [] l = tt
release_guards-Linked id (c ∷ claims) l =
    release-Link c.stage (c.id == id) id claims (Linked claims) (Linked (release_guards id claims))
      (release_guards-Linked id claims) l

release_guards-AllNotified :
    (id : ℕ) (permits : List ℕ) (claims : List Claim)
    → AllNotified permits claims
    → AllNotified permits (release_guards id claims)
unfolding release_guards
release_guards-AllNotified id permits [] a = tt
release_guards-AllNotified id permits (c ∷ claims) (inl h, hs) =
    (inl (release-released id c h), release_guards-AllNotified id permits claims hs)
release_guards-AllNotified id permits (c ∷ claims) (inr h, hs) =
    (inr h, release_guards-AllNotified id permits claims hs)

pub release_guards-Notified :
    (id : ℕ) (permits : List ℕ) (claims : List Claim)
    → Notified permits claims
    → Notified permits (release_guards id claims)
unfolding release_guards
release_guards-Notified id permits [] a = tt
release_guards-Notified id permits (c ∷ claims) a = release_guards-AllNotified id permits claims a

-- The claim of a connection that is not waiting is over once its guard is dropped.
over :
    (stage : Stage) (b : Bool)
    → (is_awaiting stage && b) ≡ false
    → b ≡ true
    → (if is_owning stage && b then released else stage) ≡ released
over (awaiting m) true h e = cc
over (awaiting m) false h e = cc
over owning true h e = refl
over owning false h e = cc
over released b h e = refl

still_live :
    (stage : Stage) (b : Bool)
    → is_released stage ≡ false
    → b ≡ false
    → is_released (if is_owning stage && b then released else stage) ≡ false
still_live (awaiting m) b h e = refl
still_live owning true h e = cc
still_live owning false h e = refl
still_live released b h e = cc

or-false : (b b' : Bool) → (b || b') ≡ false → b ≡ false
or-false true b' h = h
or-false false b' h = refl

and-false : (b b' : Bool) → (b && b') ≡ false → b' ≡ true → b ≡ false
and-false true b' h e = cc
and-false false b' h e = refl

pub release_guards-Held :
    (holder : Option Holder) (id : ℕ) (claims : List Claim)
    → is_busy id claims ≡ false
    → Linked claims
    → Held holder claims
    → Held (vacated id holder) (release_guards id claims)
unfolding release_guards is_busy
release_guards-Held none id claims idle l k = release_guards-AllReleased id claims k
release_guards-Held (some h) id [] idle l k = absurd k
release_guards-Held (some h) id (c ∷ claims) idle l (mine, told, channel, live) =
    elim (Bool-cases (h.id == id)) [
      | inl same ↦
          let same' : (c.id == id) ≡ true = ground arith in
          let idle' = or-false (is_awaiting c.stage && c.id == id) (is_busy id claims) idle in
          let stays = and-false (is_awaiting c.stage) (c.id == id) idle' same' in
          rw same (
            over c.stage (c.id == id) idle' same',
            release_guards-AllReleased id claims
                (behind-AllReleased c.stage claims (Linked claims) stays l),
          )
      | inr differs ↦
          let differs' : (c.id == id) ≡ false = ground arith in
          rw differs (mine, told, channel, still_live c.stage (c.id == id) live differs')
    ]
