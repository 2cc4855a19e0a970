-- ===== src/Http/Lines.antt =====
-- Texts cut at a separator, at the ends of lines and at the first blank line.
use openairplay.Prelude.{
  ℕ, ◌≡◌, ◌≢◌, refl, sym, ap, ◌==◌, true, false, if◌then◌else◌, Option, none, some, [], ◌∷◌, ◌++◌,
  append_assoc, drop, All, Bytes, cr, lf, prepend_left, split_once, split_lines, starts_with, arith,
}

abbrev pub Lacks : ℕ → Bytes → Type 0
Lacks c s = All (λ b. b ≢ c) s

pub split_once-append :
    (sep : ℕ) (p s : Bytes) → Lacks sep p → split_once sep (p ++ sep ∷ s) ≡ some (p, s)
unfolding split_once
split_once-append sep [] s h = ground arith
split_once-append sep (c ∷ p) s (h, hs) = ground (arith, split_once-append sep p s hs)

==_of_ne : (a b : ℕ) → a ≢ b → (a == b) ≡ false
==_of_ne a b h = ground arith

-- A line without a carriage return ends at the first line end, or with the text.
pub split_lines_line : (line : Bytes) → Lacks cr line → split_lines line ≡ line ∷ []
unfolding split_lines
split_lines_line [] h = refl
split_lines_line (c ∷ []) h = refl
split_lines_line (c ∷ d ∷ s) (h, hs) = rw (==_of_ne c cr h, split_lines_line (d ∷ s) hs)

pub split_lines-append :
    (line s : Bytes) → Lacks cr line → split_lines (line ++ cr ∷ lf ∷ s) ≡ line ∷ split_lines s
unfolding split_lines
split_lines-append [] s h = refl
split_lines-append (c ∷ []) s (h, hs) = rw (==_of_ne c cr h)
split_lines-append (c ∷ d ∷ line) s (h, hs) =
    rw (==_of_ne c cr h, split_lines-append (d ∷ line) s hs)

-- The first blank line: what stands before it and what follows it.
abbrev pub blank : Bytes
blank = cr ∷ lf ∷ cr ∷ lf ∷ []

unfoldable pub split_blank : Bytes → Option (Bytes × Bytes)
unfolding starts_with
split_blank [] = none
split_blank (c ∷ s) =
    let later = prepend_left (c ∷ []) (split_blank s) in
    if starts_with (c ∷ s) blank then some ([], drop 3 s) else later

pub split_blank_at :
    (c : ℕ) (s : Bytes)
    → starts_with (c ∷ s) blank ≡ true
    → split_blank (c ∷ s) ≡ some ([], drop 3 s)
unfolding split_blank
split_blank_at c s h = rw h

pub split_blank_past :
    (c : ℕ) (s : Bytes)
    → starts_with (c ∷ s) blank ≡ false
    → split_blank (c ∷ s) ≡ prepend_left (c ∷ []) (split_blank s)
unfolding split_blank
split_blank_past c s h = rw h

pub prepend_left-prepend_left :
    (p q : Bytes) (o : Option (Bytes × Bytes))
    → prepend_left p (prepend_left q o) ≡ prepend_left (p ++ q) o
prepend_left-prepend_left p q none = refl
prepend_left-prepend_left p q (some (a, b)) =
    ap (λ (x : Bytes). some (x, b)) (sym (append_assoc p q a))

pub split_blank_line :
    (line s : Bytes) → Lacks cr line → split_blank (line ++ s) ≡ prepend_left line (split_blank s)
unfolding split_blank
split_blank_line [] s h = go (split_blank s)
  where
    go : (o : Option (Bytes × Bytes)) → o ≡ prepend_left [] o
    go none = refl
    go (some (a, b)) = refl
split_blank_line (c ∷ line) s (h, hs) =
    ground
      (arith, split_blank_line line s hs, prepend_left-prepend_left (c ∷ []) line (split_blank s))

-- A line end in front of a text that does not begin with another.
pub split_blank_line_end :
    (c : ℕ) (s : Bytes)
    → c ≢ cr
    → split_blank (cr ∷ lf ∷ c ∷ s) ≡ prepend_left (cr ∷ lf ∷ []) (split_blank (c ∷ s))
unfolding split_blank
split_blank_line_end c s h =
    ground (arith, prepend_left-prepend_left (cr ∷ []) (lf ∷ []) (split_blank (c ∷ s)))

pub split_blank_here : (s : Bytes) → split_blank (cr ∷ lf ∷ cr ∷ lf ∷ s) ≡ some ([], s)
unfolding split_blank
split_blank_here s = refl
