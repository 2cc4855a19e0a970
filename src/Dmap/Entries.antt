-- ===== src/Dmap/Entries.antt =====
-- The walk against the wire format: entries one after another, then a truncated rest.
use openairplay.Prelude.{
  ℕ, zero, suc, ◌/◌, ◌%◌, ◌^◌, ◌≤◌, ◌<◌, ◌≡◌, refl, sym, ap, ◌∙◌, inl, inr, ltb, Bool-cases, List,
  [], ◌∷◌, ◌++◌, append_assoc, length, take, drop, All, All-drop, length-append, take-append,
  drop-append, take-append-drop, length-take, length-drop, Bytes, IsByte, from_be32, to_be32,
  from_be32-to_be32, if◌then◌else◌, le→ltb, lt→ltb, arith,
}
use openairplay.Dmap.{walk_loop, walk}

-- An entry: its tag and its payload.
abbrev pub Entry : Type 0
Entry = Bytes × Bytes

abbrev pub entry : Entry → Bytes
entry (tag, payload) = tag ++ (to_be32 (length payload) ++ payload)

abbrev pub entries : List Entry → Bytes
entries [] = []
entries (e ∷ es) = entry e ++ entries es

abbrev pub IsEntry : Entry → Type 0
IsEntry (tag, payload) = (length tag ≡ 4) × (length payload < 2 ^ 32)

-- What ends the walk: fewer than eight bytes, or a length that runs past the end.
abbrev pub IsTruncated : Bytes → Type 0
IsTruncated (t0 ∷ t1 ∷ t2 ∷ t3 ∷ l0 ∷ l1 ∷ l2 ∷ l3 ∷ rest) = length rest < from_be32 l0 l1 l2 l3
IsTruncated _ = Unit

-- The callback over a list of entries.
abbrev pub fold_entries : {A : Type 0} → (A → Bytes → Bytes → A) → A → List Entry → A
fold_entries f acc [] = acc
fold_entries f acc ((tag, payload) ∷ es) = fold_entries f (f acc tag payload) es

module _ {A : Type 0} (f : A → Bytes → Bytes → A) where
  walk_loop-fuel :
      (m n : ℕ) (bytes : Bytes) (acc : A)
      → length bytes ≤ m
      → length bytes ≤ n
      → walk_loop f m bytes acc ≡ walk_loop f n bytes acc
  unfolding walk_loop
  walk_loop-fuel (suc m) (suc n) (t0 ∷ t1 ∷ t2 ∷ t3 ∷ l0 ∷ l1 ∷ l2 ∷ l3 ∷ rest) acc hm hn =
      let len = from_be32 l0 l1 l2 l3 in
      ap (λ (r : A). if ltb (length rest) len then acc else r)
        (walk_loop-fuel m n (drop len rest) (f acc (t0 ∷ t1 ∷ t2 ∷ t3 ∷ []) (take len rest))
          (omega (arith, length-drop len rest)) (omega (arith, length-drop len rest)))
  walk_loop-fuel zero (suc n) (t0 ∷ t1 ∷ t2 ∷ t3 ∷ l0 ∷ l1 ∷ l2 ∷ l3 ∷ rest) acc hm hn =
      absurd (omega arith)
  walk_loop-fuel (suc m) zero (t0 ∷ t1 ∷ t2 ∷ t3 ∷ l0 ∷ l1 ∷ l2 ∷ l3 ∷ rest) acc hm hn =
      absurd (omega arith)
  walk_loop-fuel zero zero _ acc hm hn = refl
  walk_loop-fuel _ _ _ acc hm hn = refl

  walk_truncated : (bytes : Bytes) (acc : A) → IsTruncated bytes → walk f bytes acc ≡ acc
  unfolding walk
  walk_truncated (t0 ∷ t1 ∷ t2 ∷ t3 ∷ l0 ∷ l1 ∷ l2 ∷ l3 ∷ rest) acc h =
      rw (lt→ltb (length rest) _ h)
  walk_truncated _ acc h = refl

  walk_full :
      (t0 t1 t2 t3 l0 l1 l2 l3 : ℕ) (rest : Bytes) (acc : A)
      → from_be32 l0 l1 l2 l3 ≤ length rest
      → walk f (t0 ∷ t1 ∷ t2 ∷ t3 ∷ l0 ∷ l1 ∷ l2 ∷ l3 ∷ rest) acc
        ≡ walk f
            (drop (from_be32 l0 l1 l2 l3) rest)
            (f acc (t0 ∷ t1 ∷ t2 ∷ t3 ∷ []) (take (from_be32 l0 l1 l2 l3) rest))
  unfolding walk
  walk_full t0 t1 t2 t3 l0 l1 l2 l3 rest acc h =
      let len = from_be32 l0 l1 l2 l3 in
      rw (le→ltb (length rest) len h) (
        walk_loop-fuel (suc (suc (suc (suc (suc (suc (suc (length rest))))))))
          (length (drop len rest)) (drop len rest) _ (omega (arith, length-drop len rest))
          (omega arith))

  walk-entry :
      (e : Entry) (rest : Bytes) (acc : A)
      → IsEntry e
      → walk f (entry e ++ rest) acc ≡ walk f rest (f acc e.0 e.1)
  walk-entry (t0 ∷ t1 ∷ t2 ∷ t3 ∷ [], payload) rest acc (h4, hp) =
      let size = from_be32-to_be32 (length payload) hp in
      walk_full t0 t1 t2 t3 _ _ _ _ (payload ++ rest) acc
        (omega (arith, size, length-append payload rest))
      ∙ rw (size, take-append payload rest, drop-append payload rest)
  walk-entry (_, payload) rest acc (h4, hp) = absurd (omega arith)

  -- The walk calls back once for each entry, in order, and ends at what is truncated.
  pub walk-entries :
      (es : List Entry) (rest : Bytes) (acc : A)
      → All IsEntry es
      → IsTruncated rest
      → walk f (entries es ++ rest) acc ≡ fold_entries f acc es
  walk-entries [] rest acc h hr = walk_truncated rest acc hr
  walk-entries (e ∷ es) rest acc (h, hs) hr =
      ap (λ (b : Bytes). walk f b acc) (append_assoc (entry e) (entries es) rest)
      ∙ walk-entry e (entries es ++ rest) acc h
      ∙ walk-entries es rest (f acc e.0 e.1) hs hr

-- Any bytes are some entries and a truncated rest.
pub record Walks (bytes : Bytes) : Type 0 where
  pub found : List Entry
  pub rest : Bytes
  pub reads : bytes ≡ entries found ++ rest
  pub well_formed : All IsEntry found
  pub truncated : IsTruncated rest

Walks-truncated : (bytes : Bytes) → IsTruncated bytes → Walks bytes
Walks-truncated bytes h = record {
  found = [];
  rest = bytes;
  reads = refl;
  well_formed = tt;
  truncated = h;
}

to_be32-from_be32 :
    (a b c d : ℕ)
    → IsByte a × IsByte b × IsByte c × IsByte d
    → to_be32 (from_be32 a b c d) ≡ a ∷ b ∷ c ∷ d ∷ []
to_be32-from_be32 a b c d h =
    let n = from_be32 a b c d in
    let h0 : n / 16777216 % 256 ≡ a = omega arith in
    let h1 : n / 65536 % 256 ≡ b = omega arith in
    let h2 : n / 256 % 256 ≡ c = omega arith in
    let h3 : n % 256 ≡ d = omega arith in rw (h0, h1, h2, h3)

Walks-cons :
    (t0 t1 t2 t3 l0 l1 l2 l3 : ℕ) (rest : Bytes)
    → IsByte l0 × IsByte l1 × IsByte l2 × IsByte l3
    → from_be32 l0 l1 l2 l3 ≤ length rest
    → Walks (drop (from_be32 l0 l1 l2 l3) rest)
    → Walks (t0 ∷ t1 ∷ t2 ∷ t3 ∷ l0 ∷ l1 ∷ l2 ∷ l3 ∷ rest)
Walks-cons t0 t1 t2 t3 l0 l1 l2 l3 rest hl h w = record {
  found = (t0 ∷ t1 ∷ t2 ∷ t3 ∷ [], payload) ∷ w.found;
  rest = w.rest;
  reads =
      ap (λ (x : Bytes). head (l0 ∷ l1 ∷ l2 ∷ l3 ∷ x)) (sym (take-append-drop len rest))
      ∙ ap (λ (x : Bytes). head (x ++ (payload ++ drop len rest))) (sym header)
      ∙ ap (λ (x : Bytes). head (to_be32 (length payload) ++ (payload ++ x))) w.reads
      ∙ sym (
          ap (λ (x : Bytes). head (to_be32 (length payload) ++ x))
            (append_assoc payload (entries w.found) w.rest));
  well_formed = ((refl, omega (arith, size)), w.well_formed);
  truncated = w.truncated;
}
  where
    len : ℕ
    len = from_be32 l0 l1 l2 l3

    payload : Bytes
    payload = take len rest

    head : Bytes → Bytes
    head x = t0 ∷ t1 ∷ t2 ∷ t3 ∷ x

    size : length payload ≡ len
    size = omega (arith, length-take len rest)

    header : to_be32 (length payload) ≡ l0 ∷ l1 ∷ l2 ∷ l3 ∷ []
    header = ap to_be32 size ∙ to_be32-from_be32 l0 l1 l2 l3 hl

Walks-fuel : (fuel : ℕ) (bytes : Bytes) → All IsByte bytes → length bytes ≤ fuel → Walks bytes
Walks-fuel (suc fuel) (t0 ∷ t1 ∷ t2 ∷ t3 ∷ l0 ∷ l1 ∷ l2 ∷ l3 ∷ rest) hb hf =
    let len = from_be32 l0 l1 l2 l3 in
    elim (Bool-cases (ltb (length rest) len)) [
      | inl short ↦ Walks-truncated _ (ground arith)
      | inr fits ↦ Walks-cons t0 t1 t2 t3 l0 l1 l2 l3 rest (omega arith) (ground arith) (
          Walks-fuel fuel (drop len rest) (All-drop IsByte len rest (all_rest hb))
            (omega (arith, length-drop len rest)))
    ]
  where
    all_rest : All IsByte (t0 ∷ t1 ∷ t2 ∷ t3 ∷ l0 ∷ l1 ∷ l2 ∷ l3 ∷ rest) → All IsByte rest
    all_rest h = h.1.1.1.1.1.1.1.1
Walks-fuel zero (t0 ∷ t1 ∷ t2 ∷ t3 ∷ l0 ∷ l1 ∷ l2 ∷ l3 ∷ rest) hb hf = absurd (omega arith)
Walks-fuel _ _ hb hf = Walks-truncated _ tt

pub bytes-Walks : (bytes : Bytes) → All IsByte bytes → Walks bytes
bytes-Walks bytes hb = Walks-fuel (length bytes) bytes hb (omega arith)
