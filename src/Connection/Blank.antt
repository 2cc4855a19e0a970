-- ===== src/Connection/Blank.antt =====
-- The head that is read byte by byte ends with the first blank line of the stream.
use openairplay.Prelude.{
  ℕ, ◌+◌, ◌≡◌, ◌≢◌, ◌≤◌, le→ltb, ◌<◌, refl, sym, ap, subst, ◌∙◌, inl, inr, true, Option, none, some,
  [], ◌∷◌, ◌++◌, append_assoc, length, take, drop, take-append, drop-append, length-append, Bytes,
  cr, lf, starts_with, prepend_left, arith, Bool-cases,
}
use mathlib.Core.List.{reverse, reverse-append, reverse-reverse}
use openairplay.Prelude.Io.{ok}
use openairplay.Http.Lines.{blank, split_blank, split_blank_at, split_blank_past}
use openairplay.Connection.{max_head, ends_blank}
use openairplay.Connection.Stream.{stream_head}

starts_with_inv : (s p : Bytes) → starts_with s p ≡ true → (r : Bytes) × (s ≡ p ++ r)
unfolding starts_with
starts_with_inv s [] h = (s, refl)
starts_with_inv [] (p ∷ ps) h = cc
starts_with_inv (c ∷ s) (p ∷ ps) h =
    let (r, e) = starts_with_inv s ps (ground arith) in let same : c ≡ p = ground arith in (r, cc)

starts_with-append : (p r : Bytes) → starts_with (p ++ r) p ≡ true
unfolding starts_with
starts_with-append [] r = refl
starts_with-append (p ∷ ps) r = ground (arith, starts_with-append ps r)

ends_blank_inv : (h : Bytes) → ends_blank h ≡ true → (x : Bytes) × (h ≡ x ++ blank)
unfolding ends_blank
ends_blank_inv h e =
    let (r, split) = starts_with_inv (reverse h) (lf ∷ cr ∷ lf ∷ cr ∷ []) e in
    (
      reverse r,
      sym (reverse-reverse h)
          ∙ ap (λ (x : Bytes). reverse x) split
          ∙ reverse-append (lf ∷ cr ∷ lf ∷ cr ∷ []) r,
    )

ends_blank_lem : (x : Bytes) → ends_blank (x ++ blank) ≡ true
unfolding ends_blank
ends_blank_lem x =
    ap (λ (r : Bytes). starts_with r (lf ∷ cr ∷ lf ∷ cr ∷ [])) (reverse-append x blank)
    ∙ starts_with-append (lf ∷ cr ∷ lf ∷ cr ∷ []) (reverse x)

prepend_inv :
    (c : ℕ) (o : Option (Bytes × Bytes)) (p s : Bytes)
    → prepend_left (c ∷ []) o ≡ some (p, s)
    → (p' : Bytes) × (o ≡ some (p', s)) × (p ≡ c ∷ p')
prepend_inv c none p s h = cc
prepend_inv c (some (a, b)) p s h = (a, cc, cc)

-- `split_blank` cuts at a blank line, and at none that comes later than another.
split_blank_first :
    (t p s x y : Bytes) → split_blank t ≡ some (p, s) → t ≡ x ++ (blank ++ y) → length p ≤ length x
split_blank_first [] p s x y h e = unfold split_blank in cc
split_blank_first (c ∷ t) p s [] y h e =
    let here : starts_with (c ∷ t) blank ≡ true =
      subst (λ (z : Bytes). starts_with z blank ≡ true) (sym e) (starts_with-append blank y) in
    let nothing : p ≡ [] = cc (split_blank_at c t here) in rw nothing (omega arith)
split_blank_first (c ∷ t) p s (d ∷ x) y h e = elim (Bool-cases (starts_with (c ∷ t) blank)) [
  | inl here ↦ let nothing : p ≡ [] = cc (split_blank_at c t here) in rw nothing (omega arith)
  | inr later ↦
      let (p', h', more) =
        prepend_inv c (split_blank t) p s (sym (split_blank_past c t later) ∙ h) in
      let tail : t ≡ x ++ (blank ++ y) = cc in
      rw more (omega (arith, split_blank_first t p' s x y h' tail))
]

split_blank_inv : (t p s : Bytes) → split_blank t ≡ some (p, s) → t ≡ p ++ (blank ++ s)
split_blank_inv [] p s h = unfold split_blank in cc
split_blank_inv (c ∷ t) p s h = elim (Bool-cases (starts_with (c ∷ t) blank)) [
  | inl here ↦
      let (r, split) = starts_with_inv (c ∷ t) blank here in
      let nothing : p ≡ [] = cc (split_blank_at c t here) in
      let rest : s ≡ drop 3 t = cc (split_blank_at c t here) in
      let left : drop 3 t ≡ r = ap (λ (z : Bytes). drop 4 z) split in rw (nothing, rest, left) split
  | inr later ↦
      let (p', h', more) =
        prepend_inv c (split_blank t) p s (sym (split_blank_past c t later) ∙ h) in
      rw more (ap (λ (z : Bytes). c ∷ z) (split_blank_inv t p' s h'))
]

-- Two cuts of a text at the same length are the same.
same_cut : (a b x y : Bytes) → a ++ x ≡ b ++ y → length a ≡ length b → (a ≡ b) × (x ≡ y)
same_cut a b x y e n = (
  sym (take-append a x)
      ∙ ap (λ (k : ℕ). take k (a ++ x)) n
      ∙ ap (λ (z : Bytes). take (length b) z) e
      ∙ take-append b y,
  sym (drop-append a x)
      ∙ ap (λ (k : ℕ). drop k (a ++ x)) n
      ∙ ap (λ (z : Bytes). drop (length b) z) e
      ∙ drop-append b y,
)

pub length-blank : (p : Bytes) → length (p ++ blank) ≡ length p + 4
length-blank p = length-append p blank

-- One more byte of the stream.
shifted : (head : Bytes) (b : ℕ) (s : Bytes) → head ++ b ∷ s ≡ (head ++ b ∷ []) ++ s
shifted head b s = sym (append_assoc head (b ∷ []) s)

module _ (t p s : Bytes) (first : split_blank t ≡ some (p, s)) where
  whole : t ≡ (p ++ blank) ++ s
  whole = split_blank_inv t p s first ∙ sym (append_assoc p blank s)

  -- A blank line at the end of what was read is no earlier than the first.
  ends_late :
      (head rest : Bytes) → t ≡ head ++ rest → ends_blank head ≡ true → length p + 4 ≤ length head
  ends_late head rest e ended =
      let (x, split) = ends_blank_inv head ended in
      let at : t ≡ x ++ (blank ++ rest) =
        e ∙ ap (λ (z : Bytes). z ++ rest) split ∙ append_assoc x blank rest in
      omega (
        arith,
        split_blank_first t p s x rest first at,
        length-blank x,
        ap (λ (z : Bytes). length z) split,
      )

  -- What was read ends with it when it is as long.
  ends_there :
      (head rest : Bytes)
      → t ≡ head ++ rest
      → length head ≡ length p + 4
      → (head ≡ p ++ blank) × (rest ≡ s)
  ends_there head rest e n =
      same_cut head (p ++ blank) rest s (sym e ∙ whole) (n ∙ sym (length-blank p))

  -- The loop over the head stops at the first blank line.
  pub stream_head-blank :
      (rest head : Bytes)
      → t ≡ head ++ rest
      → length head < length p + 4
      → length p + 4 ≤ max_head + 1
      → stream_head rest head ≡ (ok (some (p ++ blank)), s)
  unfolding stream_head
  stream_head-blank [] head e short fits = absurd (
      omega (
        arith,
        ap (λ (z : Bytes). length z) (sym e ∙ whole),
        length-append head [],
        length-append (p ++ blank) s,
        length-blank p,
      ))
  stream_head-blank (b ∷ rest) head e short fits =
      let head' = head ++ b ∷ [] in
      let at : t ≡ head' ++ rest = e ∙ shifted head b rest in
      let longer : length head' ≡ length head + 1 = length-append head (b ∷ []) in
      elim (Bool-cases (ends_blank head')) [
        | inl ended ↦
            let n : length head' ≡ length p + 4 = omega (arith, ends_late head' rest at ended) in
            let (same_head, same_rest) = ends_there head' rest at n in
            rw ended (
              ap (λ (z : Bytes). (ok (some z), rest)) same_head
              ∙ ap (λ (z : Bytes). (ok (some (p ++ blank)), z)) same_rest)
        | inr goes_on ↦
            let not_there : length head' ≢ length p + 4 = λ n.
              let (same_head, _) = ends_there head' rest at n in
              let ended : ends_blank head' ≡ true = ap ends_blank same_head ∙ ends_blank_lem p in
              cc in
            let short' : length head' < length p + 4 = omega arith in
            rw (goes_on, le→ltb max_head (length head') (omega arith))
              (stream_head-blank rest head' at short' fits)
      ]
