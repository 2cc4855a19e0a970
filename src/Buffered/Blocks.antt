-- ===== src/Buffered/Blocks.antt =====
-- `split_blocks` against the wire format, written without a parser.
use openairplay.Prelude.{
  ℕ, zero, suc, ◌+◌, ◌-◌, ◌/◌, ◌%◌, ◌≤◌, ◌<◌, ◌≡◌, refl, sym, ap, ◌∙◌, ◌⊎◌, ◌||◌, inl, inr, ltb,
  Bool-cases, List, [], ◌∷◌, ◌++◌, append-nil, append_assoc, length, take, drop, All, All-drop,
  length-append, take-append, drop-append, take-append-drop, length-take, length-drop, Bytes,
  IsByte, from_be16, to_be16, from_be16-to_be16, if◌then◌else◌, drop-add, arith,
}
use openairplay.Buffered.{split_loop, split_blocks}

abbrev pub block : Bytes → Bytes
block packet = to_be16 (length packet + 2) ++ packet

abbrev pub blocks : List Bytes → Bytes
blocks [] = []
blocks (p ∷ ps) = block p ++ blocks ps

abbrev pub FitsBlock : Bytes → Type 0
FitsBlock packet = length packet + 2 < 65536

-- What cannot be split further: a block that has not arrived whole, or a length field below two,
-- which no sender writes.
abbrev pub IsPartial : Bytes → Type 0
IsPartial (b0 ∷ b1 ∷ rest) = (from_be16 b0 b1 < 2) ⊎ (2 + length rest < from_be16 b0 b1)
IsPartial _ = Unit

split_loop-fuel :
    (f g : ℕ) (input : Bytes)
    → length input ≤ f
    → length input ≤ g
    → split_loop f input ≡ split_loop g input
unfolding split_loop
split_loop-fuel zero zero input hf hg = refl
split_loop-fuel zero (suc g) [] hf hg = refl
split_loop-fuel zero (suc g) (b ∷ bs) hf hg = absurd (omega arith)
split_loop-fuel (suc f) zero [] hf hg = refl
split_loop-fuel (suc f) zero (b ∷ bs) hf hg = absurd (omega arith)
split_loop-fuel (suc f) (suc g) [] hf hg = refl
split_loop-fuel (suc f) (suc g) (b ∷ []) hf hg = refl
split_loop-fuel (suc f) (suc g) (b0 ∷ b1 ∷ rest) hf hg =
    let len = from_be16 b0 b1 in
    ap
      (λ (m : List Bytes × ℕ).
        if ltb len 2 || ltb (2 + length rest) len
        then ([], 0)
        else (take (len - 2) rest ∷ m.0, len + m.1))
      (split_loop-fuel f g (drop (len - 2) rest) (omega (arith, length-drop (len - 2) rest))
        (omega (arith, length-drop (len - 2) rest)))

-- The equations of `split_blocks`.
split_blocks_partial : (input : Bytes) → IsPartial input → split_blocks input ≡ ([], 0)
unfolding split_blocks
split_blocks_partial [] h = refl
split_blocks_partial (b ∷ []) h = refl
split_blocks_partial (b0 ∷ b1 ∷ rest) h = ground arith

split_blocks_full :
    (b0 b1 : ℕ) (rest : Bytes)
    → 2 ≤ from_be16 b0 b1
    → from_be16 b0 b1 ≤ 2 + length rest
    → split_blocks (b0 ∷ b1 ∷ rest) ≡ (
      take (from_be16 b0 b1 - 2) rest ∷ (split_blocks (drop (from_be16 b0 b1 - 2) rest)).0,
      from_be16 b0 b1 + (split_blocks (drop (from_be16 b0 b1 - 2) rest)).1,
    )
unfolding split_blocks
split_blocks_full b0 b1 rest h k =
    let n = from_be16 b0 b1 - 2 in
    ground (
      arith,
      split_loop-fuel (suc (length rest)) (length (drop n rest)) (drop n rest)
          (omega (arith, length-drop n rest)) (omega arith),
    )

-- Packets in front of any input come out first.
split_blocks-block :
    (packet rest : Bytes)
    → FitsBlock packet
    → split_blocks (block packet ++ rest)
      ≡ (packet ∷ (split_blocks rest).0, length (block packet) + (split_blocks rest).1)
split_blocks-block packet rest h =
    let b0 = (length packet + 2) / 256 % 256 in
    let b1 = (length packet + 2) % 256 in
    let size : from_be16 b0 b1 ≡ length packet + 2 = from_be16-to_be16 (length packet + 2) h in
    let n : from_be16 b0 b1 - 2 ≡ length packet = omega (arith, size) in
    split_blocks_full b0 b1 (packet ++ rest) (omega (arith, size))
      (omega (arith, size, length-append packet rest))
    ∙ rw (n, take-append packet rest, drop-append packet rest)
        (ap (λ (k : ℕ). (packet ∷ (split_blocks rest).0, k)) (omega (arith, size)))

-- Packets in front of any input come out first, whole and in order.
pub split_blocks-blocks :
    (packets : List Bytes) (rest : Bytes)
    → All FitsBlock packets
    → split_blocks (blocks packets ++ rest)
      ≡ (packets ++ (split_blocks rest).0, length (blocks packets) + (split_blocks rest).1)
split_blocks-blocks [] rest h = ap (λ (k : ℕ). ((split_blocks rest).0, k)) (omega arith)
split_blocks-blocks (p ∷ ps) rest (h, hs) =
    ap split_blocks (append_assoc (block p) (blocks ps) rest)
    ∙ split_blocks-block p (blocks ps ++ rest) h
    ∙ ap (λ (r : List Bytes × ℕ). (p ∷ r.0, length (block p) + r.1))
        (split_blocks-blocks ps rest hs)
    ∙ ap (λ (k : ℕ). (p ∷ (ps ++ (split_blocks rest).0), k))
        (omega (arith, length-append (block p) (blocks ps)))

-- The input is the blocks of the packets, of which `used` counts the bytes, and a rest that cannot
-- be split.
pub record Splits (input : Bytes) (r : List Bytes × ℕ) : Type 0 where
  pub reads : input ≡ blocks r.0 ++ drop r.1 input
  pub used : r.1 ≡ length (blocks r.0)
  pub short : All FitsBlock r.0
  pub rest : IsPartial (drop r.1 input)

Splits-cons :
    (b0 b1 : ℕ) (rest : Bytes) (r : List Bytes × ℕ)
    → IsByte b0
    → IsByte b1
    → 2 ≤ from_be16 b0 b1
    → from_be16 b0 b1 ≤ 2 + length rest
    → Splits (drop (from_be16 b0 b1 - 2) rest) r
    → Splits (b0 ∷ b1 ∷ rest) (take (from_be16 b0 b1 - 2) rest ∷ r.0, from_be16 b0 b1 + r.1)
Splits-cons b0 b1 rest r h0 h1 h k s = record {
  reads =
      ap (λ (x : Bytes). b0 ∷ b1 ∷ x)
        (sym (take-append-drop n rest) ∙ ap (λ (x : Bytes). packet ++ x) s.reads)
      ∙ sym (ap (λ (x : Bytes). x ++ (blocks r.0 ++ drop r.1 tail)) header)
      ∙ sym (append_assoc (block packet) (blocks r.0) (drop r.1 tail))
      ∙ ap (λ (x : Bytes). (block packet ++ blocks r.0) ++ x) (sym skip);
  used = omega (arith, size, s.used, length-append (block packet) (blocks r.0));
  short = (omega (arith, size), s.short);
  rest = rw skip s.rest;
}
  where
    n : ℕ
    n = from_be16 b0 b1 - 2

    packet : Bytes
    packet = take n rest

    tail : Bytes
    tail = drop n rest

    size : length packet ≡ from_be16 b0 b1 - 2
    size = omega (arith, length-take n rest)

    header : block packet ≡ b0 ∷ b1 ∷ packet
    header =
        let hi : (length packet + 2) / 256 % 256 ≡ b0 = omega (arith, size) in
        let lo : (length packet + 2) % 256 ≡ b1 = omega (arith, size) in rw (hi, lo)

    sum : from_be16 b0 b1 + r.1 ≡ suc (suc (n + r.1))
    sum = omega arith

    skip : drop (from_be16 b0 b1 + r.1) (b0 ∷ b1 ∷ rest) ≡ drop r.1 tail
    skip = ap (λ (k : ℕ). drop k (b0 ∷ b1 ∷ rest)) sum ∙ drop-add n r.1 rest

split_cases :
    (b0 b1 : ℕ) (rest : Bytes)
    → IsPartial (b0 ∷ b1 ∷ rest) ⊎ ((2 ≤ from_be16 b0 b1) × (from_be16 b0 b1 ≤ 2 + length rest))
split_cases b0 b1 rest = elim (Bool-cases (ltb (from_be16 b0 b1) 2)) [
  | inl low ↦ inl (inl (ground arith))
  | inr enough ↦ elim (Bool-cases (ltb (2 + length rest) (from_be16 b0 b1))) [
    | inl short ↦ inl (inr (ground arith))
    | inr fits ↦ inr (ground arith, ground arith)
  ]
]

Splits-partial : (input : Bytes) → IsPartial input → Splits input (split_blocks input)
Splits-partial input h =
    rw (split_blocks_partial input h) (record { reads = refl; used = refl; short = tt; rest = h })

Splits-fuel :
    (fuel : ℕ) (input : Bytes)
    → All IsByte input
    → length input ≤ fuel
    → Splits input (split_blocks input)
Splits-fuel fuel [] hb hf = Splits-partial [] tt
Splits-fuel fuel (b ∷ []) hb hf = Splits-partial (b ∷ []) tt
Splits-fuel zero (b0 ∷ b1 ∷ rest) hb hf = absurd (omega arith)
Splits-fuel (suc fuel) (b0 ∷ b1 ∷ rest) hb hf =
    let n = from_be16 b0 b1 - 2 in
    let later =
      Splits-fuel fuel (drop n rest) (All-drop IsByte n rest hb.1.1)
        (omega (arith, length-drop n rest)) in
    elim (split_cases b0 b1 rest) [
      | inl h ↦ Splits-partial (b0 ∷ b1 ∷ rest) h
      | inr (h, k) ↦
          rw (split_blocks_full b0 b1 rest h k)
            (Splits-cons b0 b1 rest (split_blocks (drop n rest)) hb.0 hb.1.0 h k later)
    ]

-- `split_blocks` is complete and exact on any bytes: what it consumed is the blocks of the packets
-- that it returned, and what it leaves is not the beginning of a further whole block.
pub split_blocks-Splits : (input : Bytes) → All IsByte input → Splits input (split_blocks input)
split_blocks-Splits input hb = Splits-fuel (length input) input hb (omega arith)

-- Where the TCP stream is cut does not matter: the packets of `a ++ b` are those of `a`, and then
-- those of `b` behind the bytes that `a` left.
pub split_blocks-append :
    (a b : Bytes)
    → All IsByte a
    → split_blocks (a ++ b) ≡ (
      (split_blocks a).0 ++ (split_blocks (drop (split_blocks a).1 a ++ b)).0,
      (split_blocks a).1 + (split_blocks (drop (split_blocks a).1 a ++ b)).1,
    )
split_blocks-append a b hb =
    let s = split_blocks-Splits a hb in
    let r = split_blocks a in
    let left = drop r.1 a in
    ap (λ (x : Bytes). split_blocks (x ++ b)) s.reads
    ∙ ap split_blocks (append_assoc (blocks r.0) left b)
    ∙ split_blocks-blocks r.0 (left ++ b) s.short
    ∙ ap (λ (k : ℕ). (r.0 ++ (split_blocks (left ++ b)).0, k + (split_blocks (left ++ b)).1))
        (sym s.used)

-- A block with a length field below two stops the channel for good: whatever arrives behind it, no
-- further packet comes out and no further byte is consumed.
pub split_blocks_stalls :
    (packets : List Bytes) (b0 b1 : ℕ) (rest more : Bytes)
    → All FitsBlock packets
    → from_be16 b0 b1 < 2
    → split_blocks (blocks packets ++ (b0 ∷ b1 ∷ (rest ++ more)))
      ≡ (packets, length (blocks packets))
split_blocks_stalls packets b0 b1 rest more hs h =
    split_blocks-blocks packets (b0 ∷ b1 ∷ (rest ++ more)) hs
    ∙ rw (split_blocks_partial (b0 ∷ b1 ∷ (rest ++ more)) (inl h), append-nil)
        (ap (λ (k : ℕ). (packets, k)) (omega arith))
