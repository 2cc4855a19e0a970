-- ===== src/Terminal/Passthrough.antt =====
-- What tmux makes of the envelope that `passthrough` writes.
use openairplay.Prelude.{
  ℕ, zero, suc, ◌≡◌, refl, ap, ◌∙◌, Bool, true, false, ◌==◌, if◌then◌else◌, inl, inr, Bool-cases,
  Option, none, some, [], ◌∷◌, ◌++◌, Bytes, ascii, List, length, arith, prepend_left,
}
use openairplay.Terminal.{esc, terminator, doubled, passthrough, more_of, unit, units}

-- The body of an envelope, with whether the last byte was an ESC: a doubled one is one ESC of the
-- sequence, one in front of `\` ends it, and any other is no envelope. With the sequence, what
-- follows the envelope.
unfoldable pub forward_body : Bool → Bytes → Option (Bytes × Bytes)
forward_body after_esc [] = none
forward_body true (c ∷ s) =
    if c == 92
    then some ([], s)
    else if c == esc
    then prepend_left (esc ∷ []) (forward_body false s)
    else none
forward_body false (c ∷ s) =
    if c == esc then forward_body true s else prepend_left (c ∷ []) (forward_body false s)

unfoldable strip_prefix : Bytes → Bytes → Option Bytes
strip_prefix [] s = some s
strip_prefix (_ ∷ _) [] = none
strip_prefix (p ∷ ps) (c ∷ s) = if p == c then strip_prefix ps s else none

unfoldable pub forward : Bytes → Option (Bytes × Bytes)
unfolding forward_body strip_prefix
forward s = elim (strip_prefix (esc ∷ ascii "Ptmux;") s) [
  | none ↦ none
  | some body ↦ forward_body false body
]

-- What the outer terminal gets of `n` envelopes.
unfoldable pub forward_all : ℕ → Bytes → Bytes
forward_all zero s = []
forward_all (suc n) s = elim (forward s) [
  | none ↦ s
  | some (inner, rest) ↦ inner ++ forward_all n rest
]

forward_body-doubled :
    (inner rest : Bytes)
    → forward_body false ((doubled inner ++ terminator) ++ rest) ≡ some (inner, rest)
unfolding forward_body doubled
forward_body-doubled [] rest = refl
forward_body-doubled (b ∷ inner) rest = elim (Bool-cases (b == esc)) [
  | inl h ↦ ground (arith, forward_body-doubled inner rest)
  | inr h ↦ ground (arith, forward_body-doubled inner rest)
]

pub forward-passthrough :
    (inner rest : Bytes) → forward (passthrough inner ++ rest) ≡ some (inner, rest)
unfolding forward passthrough strip_prefix
forward-passthrough inner rest = forward_body-doubled inner rest

forward_all-suc :
    (n : ℕ) (s inner rest : Bytes)
    → forward s ≡ some (inner, rest)
    → forward_all (suc n) s ≡ inner ++ forward_all n rest
unfolding forward_all
forward_all-suc n s inner rest h = rw (forward_all, h)

pub forward_all-units :
    (keys : Bytes) (cs : List Bytes)
    → forward_all (length cs) (units true keys cs) ≡ units false keys cs
unfolding forward_all units
forward_all-units keys [] = refl
forward_all-units keys (c ∷ cs) =
    let sent = unit keys (more_of cs) c in
    forward_all-suc (length cs) (passthrough sent ++ units true [] cs) sent (units true [] cs)
      (forward-passthrough sent (units true [] cs))
    ∙ ap (λ (w : Bytes). sent ++ w) (forward_all-units [] cs)
