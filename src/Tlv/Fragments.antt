-- ===== src/Tlv/Fragments.antt =====
-- The wire grammar of TLV8, independent of the parser: a sequence of fragments of at most 255 bytes.
use openairplay.Prelude.{
  ℕ, zero, suc, ◌≤◌, ◌<◌, ◌≡◌, refl, sym, ap, ◌∙◌, inl, inr, ltb, le→ltb, Bool-cases, some, List,
  [], ◌∷◌, ◌++◌, length, take, drop, All, All-drop, length-append, take-append, drop-append,
  take-append-drop, length-take, Bytes, IsByte, arith,
}
use openairplay.Tlv.{Tlv, Item, merge, decode_loop, decode}

-- One fragment on the wire, then the rest.
abbrev pub wire : List Item → Bytes
wire [] = []
wire ((ty, v) ∷ fs) = ty ∷ length v ∷ (v ++ wire fs)

abbrev pub IsFragment : Item → Type 0
IsFragment (ty, v) = length v < 256

-- What the decoder makes of a sequence of fragments.
abbrev pub merge_all : List Item → List Item → List Item
merge_all items [] = items
merge_all items ((ty, v) ∷ fs) = merge_all (merge items ty v) fs

abbrev pub tlv : List Item → Tlv
tlv items = record { items = items }

decode_loop-wire :
    (fuel : ℕ) (fs items : List Item)
    → length (wire fs) ≤ fuel
    → decode_loop fuel (wire fs) items ≡ some (tlv (merge_all items fs))
unfolding decode_loop
decode_loop-wire fuel [] items h = refl
decode_loop-wire zero ((ty, v) ∷ fs) items h = absurd (omega arith)
decode_loop-wire (suc fuel) ((ty, v) ∷ fs) items h =
    rw
      (
        le→ltb (length (v ++ wire fs)) (length v) (omega (arith, length-append v (wire fs))),
        take-append v (wire fs),
        drop-append v (wire fs),
      )
      (decode_loop-wire fuel fs (merge items ty v) (omega (arith, length-append v (wire fs))))

-- Every sequence of fragments decodes, to the fold of `merge` over it.
pub decode-wire : (fs : List Item) → decode (wire fs) ≡ some (tlv (merge_all [] fs))
unfolding decode
decode-wire fs = decode_loop-wire (length (wire fs)) fs [] (omega arith)

-- What a successful run has read.
pub record Reads (bytes : Bytes) (items : List Item) (t : Tlv) : Type 0 where
  pub fragments : List Item
  pub reads : bytes ≡ wire fragments
  pub merges : t ≡ tlv (merge_all items fragments)
  pub short : All IsByte bytes → All IsFragment fragments

Reads-cons :
    (ty len : ℕ) (rest : Bytes) (items : List Item) (t : Tlv)
    → len ≤ length rest
    → Reads (drop len rest) (merge items ty (take len rest)) t
    → Reads (ty ∷ len ∷ rest) items t
Reads-cons ty len rest items t h r = record {
  fragments = (ty, take len rest) ∷ r.fragments;
  reads =
      ap (λ (bs : Bytes). ty ∷ bs)
        (ap (λ (n : ℕ). n ∷ rest) (sym cut)
          ∙ ap (λ (bs : Bytes). length (take len rest) ∷ bs)
              (sym (take-append-drop len rest) ∙ ap (λ (bs : Bytes). take len rest ++ bs) r.reads));
  merges = r.merges;
  short = λ b. (omega (arith, cut, b.1.0), r.short (All-drop IsByte len rest b.1.1));
}
  where
    cut : length (take len rest) ≡ len
    cut = omega (arith, length-take len rest)

decode_loop-Reads :
    (fuel : ℕ) (bytes : Bytes) (items : List Item) (t : Tlv)
    → decode_loop fuel bytes items ≡ some t
    → Reads bytes items t
unfolding decode_loop
decode_loop-Reads fuel [] items t e = record {
  fragments = [];
  reads = refl;
  merges = cc;
  short = λ _. tt;
}
decode_loop-Reads zero (b ∷ bs) items t e = absurd (cc)
decode_loop-Reads (suc fuel) (ty ∷ []) items t e = absurd (cc)
decode_loop-Reads (suc fuel) (ty ∷ len ∷ rest) items t e =
    elim (Bool-cases (ltb (length rest) len)) [
      | inl short ↦ absurd (ground arith)
      | inr fits ↦
          Reads-cons ty len rest items t (ground arith)
            (decode_loop-Reads fuel (drop len rest) _ t (rw fits at e))
    ]

-- What decodes is a sequence of fragments, and the result is the fold of `merge` over it.
pub decode-Reads : (bytes : Bytes) (t : Tlv) → decode bytes ≡ some t → Reads bytes [] t
unfolding decode
decode-Reads bytes t e = decode_loop-Reads (length bytes) bytes [] t e
