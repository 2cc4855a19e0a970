-- ===== src/Prelude/Chunks.antt =====
-- Rust's `slice::chunks`, which the TLV encoder, the channel cipher and the player call.
use Prim.Native.Nat.{ℕ, zero, suc, ◌≤◌, ◌<◌}
use mathlib.Core.Path.{◌≡◌, refl, ap, ◌∙◌}
use mathlib.Core.List.{List, [], ◌∷◌}
use native.Mathlib.Omega.{arith}
use openairplay.Prelude.Lists.{
  length, take, drop, flatten, All, length-drop, length-take, take-append-drop, take_all, drop_all,
}

module _ {ℓ} {A : Type ℓ} where
  -- The fuel is the number of pieces at most.
  unfoldable pub chunks_loop : ℕ → ℕ → List A → List (List A)
  chunks_loop fuel n [] = []
  chunks_loop zero n (x ∷ xs) = []
  chunks_loop (suc fuel) n (x ∷ xs) = take n (x ∷ xs) ∷ chunks_loop fuel n (drop n (x ∷ xs))

  unfoldable pub chunks : ℕ → List A → List (List A)
  unfolding chunks_loop
  chunks n xs = chunks_loop (length xs) n xs

module _ {ℓ} {A : Type ℓ} where
  -- Any fuel that covers the length gives the same pieces.
  pub chunks_loop-fuel :
      (f g n : ℕ) (xs : List A)
      → 0 < n
      → length xs ≤ f
      → length xs ≤ g
      → chunks_loop f n xs ≡ chunks_loop g n xs
  unfolding chunks_loop
  chunks_loop-fuel zero zero n xs p h k = refl
  chunks_loop-fuel f g n [] p h k = refl
  chunks_loop-fuel zero g n (x ∷ xs) p h k = absurd (omega arith)
  chunks_loop-fuel (suc f) zero n (x ∷ xs) p h k = absurd (omega arith)
  chunks_loop-fuel (suc f) (suc g) n (x ∷ xs) p h k =
      ap (λ (r : List (List A)). take n (x ∷ xs) ∷ r)
        (chunks_loop-fuel f g n (drop n (x ∷ xs)) p (omega (arith, length-drop n (x ∷ xs)))
          (omega (arith, length-drop n (x ∷ xs))))

  -- The equation of `chunks` on a list with an element.
  pub chunks-cons :
      (n : ℕ) (x : A) (xs : List A)
      → 0 < n
      → chunks n (x ∷ xs) ≡ take n (x ∷ xs) ∷ chunks n (drop n (x ∷ xs))
  unfolding chunks
  chunks-cons n x xs p =
      ap (λ (r : List (List A)). take n (x ∷ xs) ∷ r)
        (chunks_loop-fuel (length xs) _ n (drop n (x ∷ xs)) p
          (omega (arith, length-drop n (x ∷ xs))) (omega arith))

  pub chunks-nil : (n : ℕ) → chunks {A = A} n [] ≡ []
  unfolding chunks
  chunks-nil n = refl

  -- A list that fits in one piece is that piece.
  pub chunks_one :
      (n : ℕ) (x : A) (xs : List A) → length (x ∷ xs) ≤ n → chunks n (x ∷ xs) ≡ (x ∷ xs) ∷ []
  unfolding chunks
  chunks_one n x xs h =
      chunks-cons n x xs (omega arith)
      ∙ rw (take_all n (x ∷ xs) h, drop_all n (x ∷ xs) h) (unfold chunks_loop in refl)

  flatten-chunks_loop :
      (f n : ℕ) (xs : List A) → 0 < n → length xs ≤ f → flatten (chunks_loop f n xs) ≡ xs
  unfolding chunks_loop
  flatten-chunks_loop f n [] p h = refl
  flatten-chunks_loop zero n (x ∷ xs) p h = absurd (omega arith)
  flatten-chunks_loop (suc f) n (x ∷ xs) p h =
      rw (flatten-chunks_loop f n (drop n (x ∷ xs)) p (omega (arith, length-drop n (x ∷ xs))))
        (take-append-drop n (x ∷ xs))

  -- The pieces are the list, cut.
  pub flatten-chunks : (n : ℕ) (xs : List A) → 0 < n → flatten (chunks n xs) ≡ xs
  unfolding chunks
  flatten-chunks n xs p = flatten-chunks_loop (length xs) n xs p (omega arith)

  -- Each piece has an element, and at most `n`.
  abbrev pub IsPiece : ℕ → List A → Type 0
  IsPiece n c = (0 < length c) × (length c ≤ n)

  chunks_loop-IsPiece : (f n : ℕ) (xs : List A) → 0 < n → All (IsPiece n) (chunks_loop f n xs)
  unfolding chunks_loop
  chunks_loop-IsPiece f n [] p = tt
  chunks_loop-IsPiece zero n (x ∷ xs) p = tt
  chunks_loop-IsPiece (suc f) n (x ∷ xs) p =
      (omega (arith, length-take n (x ∷ xs)), chunks_loop-IsPiece f n (drop n (x ∷ xs)) p)

  pub chunks-IsPiece : (n : ℕ) (xs : List A) → 0 < n → All (IsPiece n) (chunks n xs)
  unfolding chunks
  chunks-IsPiece n xs p = chunks_loop-IsPiece (length xs) n xs p
