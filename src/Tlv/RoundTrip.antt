-- ===== src/Tlv/RoundTrip.antt =====
-- `decode` after `encode`.
use openairplay.Prelude.{
  ℕ, zero, suc, ◌%◌, ◌≤◌, ◌<◌, ◌≡◌, refl, sym, ap, ◌∙◌, false, some, List, [], ◌∷◌, ◌++◌,
  append-nil, append_assoc, length, take, drop, length-append, take-append-drop, length-take,
  length-drop, Bytes, chunks_loop, chunks, arith,
}
use openairplay.Tlv.{
  Tlv, Item, encode_chunks, encode_item, encode_items, encode, continues, merge, decode,
}
use openairplay.Tlv.Fragments.{wire, merge_all, tlv, decode-wire}

-- No item continues the one before it, so that where one ends is not lost on the wire.
abbrev pub IsSeparate : List Item → Type 0
IsSeparate [] = Unit
IsSeparate (i ∷ []) = Unit
IsSeparate (i ∷ j ∷ rest) = (continues j.0 i ≡ false) × IsSeparate (j ∷ rest)

-- The fragments of the pieces of a value, and of an item.
tag_all : ℕ → List Bytes → List Item
tag_all ty [] = []
tag_all ty (c ∷ cs) = (ty, c) ∷ tag_all ty cs

pieces : Item → List Item
unfolding tag_all
pieces (ty, []) = (ty, []) ∷ []
pieces (ty, b ∷ v) = tag_all ty (chunks 255 (b ∷ v))

pieces_all : List Item → List Item
unfolding pieces
pieces_all [] = []
pieces_all (i ∷ items) = pieces i ++ pieces_all items

wire-append : (fs gs : List Item) → wire (fs ++ gs) ≡ wire fs ++ wire gs
wire-append [] gs = refl
wire-append ((ty, v) ∷ fs) gs = simp (wire-append fs gs, append_assoc)

encode_chunks-wire :
    (fuel ty : ℕ) (v : Bytes)
    → encode_chunks ty (chunks_loop fuel 255 v) ≡ wire (tag_all ty (chunks_loop fuel 255 v))
unfolding encode_chunks chunks_loop tag_all
encode_chunks-wire fuel ty [] = refl
encode_chunks-wire zero ty (b ∷ v) = refl
encode_chunks-wire (suc fuel) ty (b ∷ v) =
    let short : length (take 255 (b ∷ v)) % 256 ≡ length (take 255 (b ∷ v)) =
      omega (arith, length-take 255 (b ∷ v)) in
    ap
      (λ (n : ℕ).
        ty ∷ n ∷ (take 255 (b ∷ v) ++ encode_chunks ty (chunks_loop fuel 255 (drop 255 (b ∷ v)))))
      short
    ∙ ap (λ (r : Bytes). ty ∷ length (take 255 (b ∷ v)) ∷ (take 255 (b ∷ v) ++ r))
        (encode_chunks-wire fuel ty (drop 255 (b ∷ v)))

encode_item-wire : (i : Item) → encode_item i ≡ wire (pieces i)
unfolding encode_item pieces
encode_item-wire (ty, []) = refl
encode_item-wire (ty, b ∷ v) = encode_chunks-wire (length (b ∷ v)) ty (b ∷ v)

encode_items-wire : (items : List Item) → encode_items items ≡ wire (pieces_all items)
unfolding encode_items pieces_all
encode_items-wire [] = refl
encode_items-wire (i ∷ items) =
    rw (encode_item-wire i, encode_items-wire items)
      (sym (wire-append (pieces i) (pieces_all items)))

merge_all-append :
    (items fs gs : List Item) → merge_all items (fs ++ gs) ≡ merge_all (merge_all items fs) gs
merge_all-append items [] gs = refl
merge_all-append items ((ty, v) ∷ fs) gs = merge_all-append (merge items ty v) fs gs

-- `merge` looks at the last item alone.
merge-append :
    (front : List Item) (i : Item) (ty : ℕ) (v : Bytes)
    → merge (front ++ i ∷ []) ty v ≡ front ++ merge (i ∷ []) ty v
unfolding merge
merge-append [] i ty v = refl
merge-append (j ∷ []) i ty v = refl
merge-append (j ∷ k ∷ front) i ty v =
    ap (λ (r : List Item). j ∷ r) (merge-append (k ∷ front) i ty v)

-- A full item of the same type takes the next piece; an item that is not continued leaves it apart.
merge_continued :
    (front : List Item) (ty b : ℕ) (pre v : Bytes)
    → length (b ∷ pre) % 255 ≡ 0
    → merge (front ++ (ty, b ∷ pre) ∷ []) ty v ≡ front ++ (ty, b ∷ (pre ++ v)) ∷ []
merge_continued front ty b pre v h =
    merge-append front (ty, b ∷ pre) ty v
    ∙ ap (λ (r : List Item). front ++ r) (unfold merge in ground (arith, h))

merge_separate :
    (front : List Item) (i : Item) (ty : ℕ) (v : Bytes)
    → continues ty i ≡ false
    → merge (front ++ i ∷ []) ty v ≡ front ++ i ∷ (ty, v) ∷ []
merge_separate front i ty v h =
    merge-append front i ty v ∙ ap (λ (r : List Item). front ++ r) (unfold merge in rw h)

-- The later pieces of a value gather behind its first ones.
merge_all-pieces :
    (fuel : ℕ) (front : List Item) (ty b : ℕ) (pre v : Bytes)
    → (0 < length v → length (b ∷ pre) % 255 ≡ 0)
    → length v ≤ fuel
    → merge_all (front ++ (ty, b ∷ pre) ∷ []) (tag_all ty (chunks_loop fuel 255 v))
      ≡ front ++ (ty, b ∷ (pre ++ v)) ∷ []
unfolding chunks_loop tag_all
merge_all-pieces fuel front ty b pre [] full h = rw append-nil
merge_all-pieces zero front ty b pre (c ∷ v) full h = absurd (omega arith)
merge_all-pieces (suc fuel) front ty b pre (c ∷ v) full h =
    let head = take 255 (c ∷ v) in
    let rest = drop 255 (c ∷ v) in
    ap (λ (r : List Item). merge_all r (tag_all ty (chunks_loop fuel 255 rest)))
      (merge_continued front ty b pre head (full (omega arith)))
    ∙ merge_all-pieces fuel front ty b (pre ++ head) rest
        (λ more. omega (
          arith,
          full (omega arith),
          length-append pre head,
          length-take 255 (c ∷ v),
          length-drop 255 (c ∷ v),
        ))
        (omega (arith, length-drop 255 (c ∷ v)))
    ∙ rw (append_assoc pre head rest, take-append-drop 255 (c ∷ v))

-- The pieces of one item, read behind an item that it does not continue, are that item.
merge_all-item :
    (front : List Item) (prev i : Item)
    → continues i.0 prev ≡ false
    → merge_all (front ++ prev ∷ []) (pieces i) ≡ front ++ prev ∷ i ∷ []
unfolding pieces tag_all chunks chunks_loop
merge_all-item front prev (ty, []) h = merge_separate front prev ty [] h
merge_all-item front prev (ty, b ∷ v) h =
    ap (λ (r : List Item). merge_all r (tag_all ty (chunks_loop (length v) 255 (drop 254 v))))
      (merge_separate front prev ty (b ∷ take 254 v) h ∙ sym (append_assoc front (prev ∷ []) _))
    ∙ merge_all-pieces (length v) (front ++ prev ∷ []) ty b (take 254 v) (drop 254 v)
        (λ more. omega (arith, length-take 254 v, length-drop 254 v))
        (omega (arith, length-drop 254 v))
    ∙ rw (take-append-drop 254 v) (append_assoc front (prev ∷ []) _)

merge_all-items :
    (items front : List Item) (prev : Item)
    → IsSeparate (prev ∷ items)
    → merge_all (front ++ prev ∷ []) (pieces_all items) ≡ front ++ prev ∷ items
unfolding pieces_all
merge_all-items [] front prev h = refl
merge_all-items (i ∷ items) front prev (h, hs) =
    merge_all-append (front ++ prev ∷ []) (pieces i) (pieces_all items)
    ∙ ap (λ (r : List Item). merge_all r (pieces_all items))
        (merge_all-item front prev i h ∙ sym (append_assoc front (prev ∷ []) (i ∷ [])))
    ∙ merge_all-items items (front ++ prev ∷ []) i hs
    ∙ append_assoc front (prev ∷ []) (i ∷ items)

-- The first item finds no item before it.
merge_all_first : (i : Item) → merge_all [] (pieces i) ≡ i ∷ []
unfolding pieces tag_all chunks chunks_loop merge
merge_all_first (ty, []) = refl
merge_all_first (ty, b ∷ v) =
    merge_all-pieces (length v) [] ty b (take 254 v) (drop 254 v)
      (λ more. omega (arith, length-take 254 v, length-drop 254 v))
      (omega (arith, length-drop 254 v))
    ∙ rw (take-append-drop 254 v)

merge_all-pieces_all :
    (items : List Item) → IsSeparate items → merge_all [] (pieces_all items) ≡ items
unfolding pieces_all
merge_all-pieces_all [] h = refl
merge_all-pieces_all (i ∷ items) h =
    merge_all-append [] (pieces i) (pieces_all items)
    ∙ ap (λ (r : List Item). merge_all r (pieces_all items)) (merge_all_first i)
    ∙ merge_all-items items [] i h

-- `decode` gives back what `encode` was given, values of any length in their order, provided that
-- no item continues the one before it (the same type behind a value of 255, 510, … bytes).
pub decode-encode : (t : Tlv) → IsSeparate t.items → decode (encode t) ≡ some t
unfolding encode
decode-encode t h =
    ap decode (encode_items-wire t.items)
    ∙ decode-wire (pieces_all t.items)
    ∙ ap (λ (items : List Item). some (tlv items)) (merge_all-pieces_all t.items h)
