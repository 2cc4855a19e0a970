-- ===== src/Takeover/Chain.antt =====
-- How the claims on the slot depend on each other: each waits for the one before it
-- (openairplay2/src/takeover.rs).
use openairplay.Prelude.{
  ℕ, suc, ◌≡◌, refl, sym, ap, ◌∙◌, inl, inr, Bool, Bool-cases, true, false, ◌==◌, if◌then◌else◌,
  Option, none, some, List, [], ◌∷◌, length, arith,
}
use openairplay.Takeover.{
  Holder, Stage, awaiting, owning, released, Claim, is_owning, is_released, is_awaiting, release,
  release_guards, has_guard, find_claim, is_finished,
}

abbrev pub AllReleased : List Claim → Type 0
AllReleased [] = Unit
AllReleased (c ∷ claims) = (c.stage ≡ released) × AllReleased claims

abbrev pub Numbered : List Claim → Type 0
Numbered [] = Unit
Numbered (c ∷ claims) = (c.channel ≡ length claims) × Numbered claims

-- What a claim in this stage asks of the older claims, given what those ask of theirs.
abbrev pub Link : Stage → List Claim → Type 0 → Type 0
Link (awaiting m) claims L = (length claims ≡ suc m) × L
Link _ claims L = AllReleased claims

abbrev pub Linked : List Claim → Type 0
Linked [] = Unit
Linked (c ∷ claims) = Link c.stage claims (Linked claims)

-- The slot names the newest claim for as long as that is not released.
abbrev pub Held : Option Holder → List Claim → Type 0
Held none claims = AllReleased claims
Held (some h) [] = ⊥
Held (some h) (c ∷ claims) =
    (h.id ≡ c.id) × (h.evict ≡ c.id) × (h.finished ≡ c.channel) × (is_released c.stage ≡ false)

released_of : (stage : Stage) → is_released stage ≡ true → stage ≡ released
released_of (awaiting m) h = cc
released_of owning h = cc
released_of released h = refl

-- Behind a claim that does not wait, everything is released.
pub behind-AllReleased :
    (stage : Stage) (claims : List Claim) (L : Type 0)
    → is_awaiting stage ≡ false
    → Link stage claims L
    → AllReleased claims
behind-AllReleased (awaiting m) claims L h l = cc
behind-AllReleased owning claims L h l = l
behind-AllReleased released claims L h l = l

-- A claim whose awaited channel has finished: everything older is released.
pub finished-AllReleased :
    (m : ℕ) (claims : List Claim)
    → length claims ≡ suc m
    → Numbered claims
    → Linked claims
    → is_finished m claims ≡ true
    → AllReleased claims
unfolding is_finished
finished-AllReleased m [] e n l f = tt
finished-AllReleased m (c ∷ claims) e (n, _) l f =
    let same : (c.channel == m) ≡ true = ground arith in
    let gone : c.stage ≡ released =
      released_of c.stage (
        sym (ap (λ (b : Bool). if b then is_released c.stage else is_finished m claims) same)
        ∙ f) in
    (gone, behind-AllReleased c.stage claims (Linked claims) (ap is_awaiting gone) l)

-- A list of released claims has no guard, and nobody waits in it.
pub has_guard-AllReleased :
    (id : ℕ) (claims : List Claim) → AllReleased claims → has_guard id claims ≡ false
unfolding has_guard
has_guard-AllReleased id [] h = refl
has_guard-AllReleased id (c ∷ claims) (h, hs) =
    let not_owning : is_owning c.stage ≡ false = ap is_owning h in
    let later = has_guard-AllReleased id claims hs in rw not_owning later

pub release-released : (id : ℕ) (c : Claim) → c.stage ≡ released → (release id c).stage ≡ released
release-released id c h =
    let not_owning : is_owning c.stage ≡ false = ap is_owning h in rw not_owning h

pub release_guards-AllReleased :
    (id : ℕ) (claims : List Claim) → AllReleased claims → AllReleased (release_guards id claims)
unfolding release_guards
release_guards-AllReleased id [] h = tt
release_guards-AllReleased id (c ∷ claims) (h, hs) =
    (release-released id c h, release_guards-AllReleased id claims hs)

pub find_claim-AllReleased :
    (channel : ℕ) (claims : List Claim) (c : Claim)
    → AllReleased claims
    → find_claim channel claims ≡ some c
    → c.stage ≡ released
unfolding find_claim
find_claim-AllReleased channel [] c h e = cc
find_claim-AllReleased channel (d ∷ claims) c (h, hs) e = elim (Bool-cases (d.channel == channel)) [
  | inl same ↦ let here : some d ≡ some c = rw same at e in cc
  | inr differs ↦ find_claim-AllReleased channel claims c hs (rw differs at e)
]
