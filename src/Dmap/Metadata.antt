-- ===== src/Dmap/Metadata.antt =====
-- The track that `parse` reads from a body, as a function of the entries in it.

use openairplay.Prelude.{
  ◌^◌, ◌<◌, ◌≡◌, refl, ap, ◌∙◌, inl, inr, true, false, Bool-cases, Option, none, some, List, [],
  ◌∷◌, ◌++◌, length, All, All-append, Bytes, same_bytes, same_bytes_iff, if◌then◌else◌,
}
use openairplay.Dmap.{
  TrackMetadata, default, tag_mlit, tag_minm, tag_asar, tag_asal, set_field, set_track, parse,
}
use openairplay.Dmap.Entries.{Entry, entries, IsEntry, IsTruncated, fold_entries, walk-entries}

-- The payload of the last entry with a tag, or what was known before.
abbrev pub last_or : {S : Type 0} → (Bytes → S) → Option S → Bytes → List Entry → Option S
last_or text known tag [] = known
last_or text known tag ((t, payload) ∷ es) =
    last_or text (if same_bytes t tag then some (text payload) else known) tag es

abbrev pub IsOther : Entry → Type 0
IsOther (tag, payload) = same_bytes tag tag_mlit ≡ false

-- The three tags differ from one another.
tags_differ :
    (same_bytes tag_minm tag_asar ≡ false)
    × (same_bytes tag_minm tag_asal ≡ false)
    × (same_bytes tag_asar tag_minm ≡ false)
    × (same_bytes tag_asar tag_asal ≡ false)
    × (same_bytes tag_asal tag_minm ≡ false)
    × (same_bytes tag_asal tag_asar ≡ false)
unfolding same_bytes
tags_differ = (refl, refl, refl, refl, refl, refl)

excludes :
    (tag a b : Bytes) → same_bytes tag a ≡ true → same_bytes a b ≡ false → same_bytes tag b ≡ false
excludes tag a b e d = ap (λ (t : Bytes). same_bytes t b) ((same_bytes_iff tag a).0 e) ∙ d

module _ {S : Type 0} (text : Bytes → S) where
  -- The track that a sequence of entries states, on top of what was known.
  abbrev pub track : TrackMetadata S → List Entry → TrackMetadata S
  track m es = record {
    title = last_or text m.title tag_minm es;
    artist = last_or text m.artist tag_asar es;
    album = last_or text m.album tag_asal es;
  }

  set_field-track :
      (m : TrackMetadata S) (tag payload : Bytes)
      → set_field text m tag payload ≡ track m ((tag, payload) ∷ [])
  unfolding set_field
  set_field-track m tag payload =
      let d = tags_differ in
      elim (Bool-cases (same_bytes tag tag_minm)) [
        | inl e ↦ rw (e, excludes tag tag_minm tag_asar e d.0, excludes tag tag_minm tag_asal e d.1)
        | inr n0 ↦ elim (Bool-cases (same_bytes tag tag_asar)) [
          | inl e ↦ rw (n0, e, excludes tag tag_asar tag_asal e d.3)
          | inr n1 ↦ elim (Bool-cases (same_bytes tag tag_asal)) [
            | inl e ↦ rw (n0, n1, e)
            | inr n2 ↦ rw (n0, n1, n2)
          ]
        ]
      ]

  fold-track :
      (es : List Entry) (m : TrackMetadata S) → fold_entries (set_field text) m es ≡ track m es
  fold-track [] m = refl
  fold-track ((tag, payload) ∷ es) m =
      ap (λ (x : TrackMetadata S). fold_entries (set_field text) x es)
        (set_field-track m tag payload)
      ∙ fold-track es (track m ((tag, payload) ∷ []))

  fold_other :
      (es : List Entry) (meta : Option (TrackMetadata S))
      → All IsOther es
      → fold_entries (set_track text) meta es ≡ meta
  unfolding set_track
  fold_other [] meta h = refl
  fold_other ((tag, payload) ∷ es) meta (h, hs) = rw h (fold_other es meta hs)

  fold-append :
      (xs ys : List Entry) (meta : Option (TrackMetadata S))
      → fold_entries (set_track text) meta (xs ++ ys)
        ≡ fold_entries (set_track text) (fold_entries (set_track text) meta xs) ys
  fold-append [] ys meta = refl
  fold-append ((tag, payload) ∷ xs) ys meta = fold-append xs ys (set_track text meta tag payload)

  -- With one container among other entries, the track is that of the container alone: each field is
  -- the last entry with its tag in there, absent if there is none, wherever the container or the
  -- body is truncated.
  pub parse-track :
      (front behind children : List Entry) (tail rest : Bytes)
      → All IsEntry front
      → All IsEntry behind
      → All IsEntry children
      → All IsOther front
      → All IsOther behind
      → length (entries children ++ tail) < 2 ^ 32
      → IsTruncated tail
      → IsTruncated rest
      → parse text (entries (front ++ (tag_mlit, entries children ++ tail) ∷ behind) ++ rest)
        ≡ some (track default children)
  unfolding parse
  parse-track front behind children tail rest wf wb wc nf nb size ht hr =
      let payload = entries children ++ tail in
      let mlit : Entry = (tag_mlit, payload) in
      walk-entries (set_track text) (front ++ mlit ∷ behind) rest none
        (All-append IsEntry front (mlit ∷ behind) wf ((refl, size), wb)) hr
      ∙ fold-append front (mlit ∷ behind) none
      ∙ ap (λ (x : Option (TrackMetadata S)). fold_entries (set_track text) x (mlit ∷ behind))
          (fold_other front none nf)
      ∙ fold_other behind _ nb
      ∙ ap (λ (x : TrackMetadata S). some x)
          (walk-entries (set_field text) children tail default wc ht ∙ fold-track children default)

  -- Without a container there is no track, whatever the entries are.
  pub parse_no_container :
      (es : List Entry) (rest : Bytes)
      → All IsEntry es
      → All IsOther es
      → IsTruncated rest
      → parse text (entries es ++ rest) ≡ none
  unfolding parse
  parse_no_container es rest w n hr =
      walk-entries (set_track text) es rest none w hr ∙ fold_other es none n
