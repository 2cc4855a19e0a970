-- ===== src/Takeover/Notify.antt =====
-- Which connections have been told to close (openairplay2/src/takeover.rs).
use openairplay.Prelude.{ℕ, ◌≡◌, refl, ◌⊎◌, inl, inr, Bool, true, false, ◌||◌, ◌==◌, List, [], ◌∷◌}
use openairplay.Takeover.{released, Claim}
use openairplay.Takeover.Chain.{AllReleased}

-- Whether one of the `Notify`s with a stored permit is this connection's.
abbrev pub is_notified : ℕ → List ℕ → Bool
is_notified id [] = false
is_notified id (n ∷ permits) = n == id || is_notified id permits

abbrev pub AllNotified : List ℕ → List Claim → Type 0
AllNotified permits [] = Unit
AllNotified permits (c ∷ claims) =
    ((c.stage ≡ released) ⊎ (is_notified c.id permits ≡ true)) × AllNotified permits claims

abbrev pub Notified : List ℕ → List Claim → Type 0
Notified permits [] = Unit
Notified permits (c ∷ claims) = AllNotified permits claims

or-true : (b b' : Bool) → b' ≡ true → (b || b') ≡ true
or-true true b' h = refl
or-true false b' h = h

pub released-AllNotified :
    (permits : List ℕ) (claims : List Claim) → AllReleased claims → AllNotified permits claims
released-AllNotified permits [] h = tt
released-AllNotified permits (c ∷ claims) (h, hs) = (inl h, released-AllNotified permits claims hs)

pub notify-AllNotified :
    (n : ℕ) (permits : List ℕ) (claims : List Claim)
    → AllNotified permits claims
    → AllNotified (n ∷ permits) claims
notify-AllNotified n permits [] h = tt
notify-AllNotified n permits (c ∷ claims) (inl h, hs) =
    (inl h, notify-AllNotified n permits claims hs)
notify-AllNotified n permits (c ∷ claims) (inr h, hs) =
    (inr (or-true (n == c.id) (is_notified c.id permits) h), notify-AllNotified n permits claims hs)
