-- ===== src/Cipher/Frames.antt =====
-- The block loop of `decrypt_available`: its rounds, its fuel, and what it leaves behind.
use openairplay.Prelude.{
  ℕ, zero, suc, ◌+◌, ◌≤◌, ◌<◌, ◌≡◌, refl, sym, ap, ◌∙◌, inl, inr, ltb, Bool-cases, Option, some,
  none, [], ◌∷◌, ◌++◌, append-nil, append_assoc, length, take, drop, length-drop, Bytes, from_le16,
  Option-cases, arith,
}
use openairplay.Aead.{Aead}
use openairplay.Cipher.{Decryptor, succ_u64, nonce_for, tag_len, decrypt_loop, decrypt_available}

-- A trailing block that is not complete yet.
abbrev pub IsPartial : Bytes → Type 0
IsPartial [] = Unit
IsPartial (b0 ∷ []) = Unit
IsPartial (b0 ∷ b1 ∷ rest) = length rest < from_le16 b0 b1 + tag_len

abbrev pub Answer : Type 0
Answer = Option (Bytes × ℕ) × Decryptor

-- What was decrypted before, put in front of a later answer.
abbrev pub after : Bytes → ℕ → Answer → Answer
after plain pos (none, d) = (none, d)
after plain pos (some (p, n), d) = (some (plain ++ p, pos + n), d)

abbrev pub next : Decryptor → Decryptor
next d = record d { counter = succ_u64 d.counter }

pub after-after :
    (p q : Bytes) (m n : ℕ) (r : Answer) → after p m (after q n r) ≡ after (p ++ q) (m + n) r
after-after p q m n (none, d) = refl
after-after p q m n (some (x, k), d) =
    rw (append_assoc p q x) (ap (λ (j : ℕ). (some (p ++ (q ++ x), j), d)) (omega arith))

pub after_nothing : (r : Answer) → after [] 0 r ≡ r
after_nothing (none, d) = refl
after_nothing (some (x, k), d) = ap (λ (j : ℕ). (some (x, j), d)) (omega arith)

module _ (aead : Aead) where
  abbrev pub opened : Decryptor → ℕ → ℕ → Bytes → Option Bytes
  opened d b0 b1 rest =
      aead.decrypt d.key (nonce_for d.counter) (b0 ∷ b1 ∷ [])
        (take (from_le16 b0 b1 + tag_len) rest)

  -- The three ways a round ends.
  pub round_partial :
      (fuel : ℕ) (d : Decryptor) (input plain : Bytes) (pos : ℕ)
      → IsPartial input
      → decrypt_loop aead fuel d input plain pos ≡ (some (plain, pos), d)
  unfolding decrypt_loop
  round_partial zero d input plain pos h = refl
  round_partial (suc fuel) d [] plain pos h = refl
  round_partial (suc fuel) d (b0 ∷ []) plain pos h = refl
  round_partial (suc fuel) d (b0 ∷ b1 ∷ rest) plain pos h = ground arith

  pub round_refused :
      (fuel : ℕ) (d : Decryptor) (b0 b1 : ℕ) (rest plain : Bytes) (pos : ℕ)
      → from_le16 b0 b1 + tag_len ≤ length rest
      → opened d b0 b1 rest ≡ none
      → decrypt_loop aead (suc fuel) d (b0 ∷ b1 ∷ rest) plain pos ≡ (none, d)
  unfolding decrypt_loop
  round_refused fuel d b0 b1 rest plain pos h e = ground arith

  pub round_opened :
      (fuel : ℕ) (d : Decryptor) (b0 b1 : ℕ) (rest plain pt : Bytes) (pos : ℕ)
      → from_le16 b0 b1 + tag_len ≤ length rest
      → opened d b0 b1 rest ≡ some pt
      → decrypt_loop aead (suc fuel) d (b0 ∷ b1 ∷ rest) plain pos
        ≡ decrypt_loop aead fuel
            (next d)
            (drop (from_le16 b0 b1 + tag_len) rest)
            (plain ++ pt)
            (pos + (2 + from_le16 b0 b1 + tag_len))
  unfolding decrypt_loop
  round_opened fuel d b0 b1 rest plain pt pos h e = ground arith

  -- The three kinds of input that a round can meet.
  pub data View (d : Decryptor) : Bytes → Type 0 where
    partial : {input : Bytes} → IsPartial input → View d input
    refused :
        {b0 b1 : ℕ} {rest : Bytes}
        → from_le16 b0 b1 + tag_len ≤ length rest
        → opened d b0 b1 rest ≡ none
        → View d (b0 ∷ b1 ∷ rest)
    opens :
        {b0 b1 : ℕ} {rest : Bytes} (pt : Bytes)
        → from_le16 b0 b1 + tag_len ≤ length rest
        → opened d b0 b1 rest ≡ some pt
        → View d (b0 ∷ b1 ∷ rest)

  View-full :
      (d : Decryptor) (b0 b1 : ℕ) (rest : Bytes)
      → from_le16 b0 b1 + tag_len ≤ length rest
      → View d (b0 ∷ b1 ∷ rest)
  View-full d b0 b1 rest h = elim (Option-cases (opened d b0 b1 rest)) [
    | inl e ↦ refused h e
    | inr (pt, e) ↦ opens pt h e
  ]

  pub view : (d : Decryptor) (input : Bytes) → View d input
  view d [] = partial tt
  view d (b0 ∷ []) = partial tt
  view d (b0 ∷ b1 ∷ rest) = elim (Bool-cases (ltb (length rest) (from_le16 b0 b1 + tag_len))) [
    | inl short ↦ partial (ground arith)
    | inr fits ↦ View-full d b0 b1 rest (ground arith)
  ]

  -- The accumulator stands in front of the answer.
  decrypt_loop-after :
      (fuel : ℕ) (d : Decryptor) (input plain : Bytes) (pos : ℕ)
      → View d input
      → decrypt_loop aead fuel d input plain pos
        ≡ after plain pos (decrypt_loop aead fuel d input [] 0)
  decrypt_loop-after zero d input plain pos v =
      unfold decrypt_loop in rw append-nil (ap (λ (j : ℕ). (some (plain, j), d)) (omega arith))
  decrypt_loop-after (suc fuel) d input plain pos (partial h) =
      rw
        (
          round_partial (suc fuel) d input plain pos h,
          round_partial (suc fuel) d input [] 0 h,
          append-nil,
        )
        (ap (λ (j : ℕ). (some (plain, j), d)) (omega arith))
  decrypt_loop-after (suc fuel) d _ plain pos (refused {b0} {b1} {rest} h e) =
      rw (round_refused fuel d b0 b1 rest plain pos h e, round_refused fuel d b0 b1 rest [] 0 h e)
  decrypt_loop-after (suc fuel) d _ plain pos (opens {b0} {b1} {rest} pt h e) =
      let len = from_le16 b0 b1 + tag_len in
      let later = decrypt_loop aead fuel (next d) (drop len rest) [] 0 in
      round_opened fuel d b0 b1 rest plain pt pos h e
      ∙ decrypt_loop-after fuel (next d) (drop len rest) (plain ++ pt) _
          (view (next d) (drop len rest))
      ∙ ap (λ (j : ℕ). after (plain ++ pt) j later) (omega arith)
      ∙ sym (after-after plain pt pos (2 + len) later)
      ∙ ap (after plain pos) (
          ap (λ (j : ℕ). after pt j later) (omega arith)
          ∙ sym (
              decrypt_loop-after fuel (next d) (drop len rest) pt _ (view (next d) (drop len rest)))
          ∙ sym (round_opened fuel d b0 b1 rest [] pt 0 h e))

  -- Any fuel that covers the length gives the same answer.
  decrypt_loop-fuel :
      (f g : ℕ) (d : Decryptor) (input plain : Bytes) (pos : ℕ)
      → View d input
      → length input ≤ f
      → length input ≤ g
      → decrypt_loop aead f d input plain pos ≡ decrypt_loop aead g d input plain pos
  decrypt_loop-fuel f g d input plain pos (partial h) hf hg =
      rw (round_partial f d input plain pos h, round_partial g d input plain pos h)
  decrypt_loop-fuel zero g d input plain pos v hf hg = absurd (omega arith)
  decrypt_loop-fuel (suc f) zero d input plain pos v hf hg = absurd (omega arith)
  decrypt_loop-fuel (suc f) (suc g) d _ plain pos (refused {b0} {b1} {rest} h e) hf hg =
      rw (round_refused f d b0 b1 rest plain pos h e, round_refused g d b0 b1 rest plain pos h e)
  decrypt_loop-fuel (suc f) (suc g) d _ plain pos (opens {b0} {b1} {rest} pt h e) hf hg =
      let len = from_le16 b0 b1 + tag_len in
      round_opened f d b0 b1 rest plain pt pos h e
      ∙ decrypt_loop-fuel f g (next d) (drop len rest) (plain ++ pt) _
          (view (next d) (drop len rest)) (omega (arith, length-drop len rest))
          (omega (arith, length-drop len rest))
      ∙ sym (round_opened g d b0 b1 rest plain pt pos h e)

  -- The equations of `decrypt_available`, with neither fuel nor accumulator.
  pub available_partial :
      (d : Decryptor) (input : Bytes)
      → IsPartial input
      → decrypt_available aead d input ≡ (some ([], 0), d)
  unfolding decrypt_available
  available_partial d input h = round_partial (length input) d input [] 0 h

  pub available_refused :
      (d : Decryptor) (b0 b1 : ℕ) (rest : Bytes)
      → from_le16 b0 b1 + tag_len ≤ length rest
      → opened d b0 b1 rest ≡ none
      → decrypt_available aead d (b0 ∷ b1 ∷ rest) ≡ (none, d)
  unfolding decrypt_available
  available_refused d b0 b1 rest h e = round_refused (suc (length rest)) d b0 b1 rest [] 0 h e

  pub available_opened :
      (d : Decryptor) (b0 b1 : ℕ) (rest pt : Bytes)
      → from_le16 b0 b1 + tag_len ≤ length rest
      → opened d b0 b1 rest ≡ some pt
      → decrypt_available aead d (b0 ∷ b1 ∷ rest)
        ≡ after pt
            (2 + from_le16 b0 b1 + tag_len)
            (decrypt_available aead (next d) (drop (from_le16 b0 b1 + tag_len) rest))
  unfolding decrypt_available
  available_opened d b0 b1 rest pt h e =
      let len = from_le16 b0 b1 + tag_len in
      let tail = drop len rest in
      round_opened (suc (length rest)) d b0 b1 rest [] pt 0 h e
      ∙ decrypt_loop-fuel (suc (length rest)) (length tail) (next d) tail pt _ (view (next d) tail)
          (omega (arith, length-drop len rest)) (omega arith)
      ∙ decrypt_loop-after (length tail) (next d) tail pt _ (view (next d) tail)
      ∙ ap (λ (j : ℕ). after pt j (decrypt_loop aead (length tail) (next d) tail [] 0))
          (omega arith)
