-- ===== src/Terminal/Picker.antt =====
-- The highlight of the picker, while the list shifts underneath it.
use openairplay.Prelude.{
  ℕ, zero, suc, ◌-◌, ◌≤◌, ◌<◌, ◌≡◌, refl, ap, subst, ◌∙◌, inl, inr, Bool, true, false, Bool-cases,
  if◌then◌else◌, Option, none, some, List, [], ◌∷◌, length, Bytes, same_bytes, same_bytes_iff,
  arith, min,
}
use openairplay.Display.{
  Message, snapshot, session_started, metadata, cover, volume, position, paused, flushed,
  session_ended,
}
use openairplay.Terminal.{Graphics}
use openairplay.Terminal.NowPlaying.{
  NowPlaying, new, Picker, position_of, find_again, kept_cursor, kept_picker, move_in, picker_move,
  highlighted, choose, choose_from, picker_or_default, apply, apply_message,
}
use openairplay.Terminal.Updates.{
  Receiver, receivers, unavailable, Update, is_connected, message, disconnected, is_unauthorized,
  no_local_receiver, discovery, ℤ, pos, negsuc, map_option, and_then, get_elem?, unwrap_or,
}

-- What drives a display: updates, and the keys of the picker.
pub data Input (F : Type 0) : Type 0 where
  updated : Update F → Input F
  moved : ℤ → Input F
  entered : Input F

abbrev pub IsWithin : List Receiver → Option Picker → Type 0
IsWithin rs none = Unit
IsWithin rs (some p) = p.cursor ≤ length rs - 1

get_elem?_within :
    (rs : List Receiver) (r : Receiver) (n : ℕ)
    → n ≤ length rs
    → (found : Receiver) × (get_elem? (r ∷ rs) n ≡ some found)
unfolding get_elem?
get_elem?_within rs r zero h = (r, refl)
get_elem?_within [] r (suc n) h = absurd (omega arith)
get_elem?_within (q ∷ rs) r (suc n) h = get_elem?_within rs q n (omega arith)

moved-IsWithin :
    (rs : List Receiver) (delta : ℤ) (p : Option Picker)
    → IsWithin rs p
    → IsWithin rs (map_option (move_in rs delta) p)
moved-IsWithin rs delta none h = tt
moved-IsWithin [] delta (some p) h = h
moved-IsWithin (r ∷ rs) (pos n) (some p) h = omega arith
moved-IsWithin (r ∷ rs) (negsuc n) (some p) h = omega arith

kept-IsWithin :
    (discovered rs : List Receiver) (p : Option Picker)
    → IsWithin rs (map_option (kept_picker discovered rs) p)
unfolding kept_cursor
kept-IsWithin discovered rs none = tt
kept-IsWithin discovered rs (some p) =
    let found = unwrap_or 0 (find_again rs (get_elem? discovered p.cursor)) in omega arith

picker_or_default-IsWithin :
    (rs : List Receiver) (p : Option Picker) → IsWithin rs p → IsWithin rs (picker_or_default p)
picker_or_default-IsWithin rs none h = omega arith
picker_or_default-IsWithin rs (some p) h = h

-- The first of a name, where one of that name is in the list.
abbrev IsFirst : Bytes → List Receiver → Type 0
IsFirst name rs =
    (n : ℕ) × (found : Receiver) × (position_of name rs ≡ some n)
    × (n < length rs)
    × (get_elem? rs n ≡ some found)
    × (found.name ≡ name)

position_of-IsFirst :
    (name : Bytes) (rs : List Receiver) (k : ℕ) (q : Receiver)
    → get_elem? rs k ≡ some q
    → q.name ≡ name
    → IsFirst name rs
unfolding get_elem? position_of
position_of-IsFirst name [] k q h e = ground arith
position_of-IsFirst name (r ∷ rs) zero q h e =
    let same =
      (same_bytes_iff r.name name).1 (ap (λ (o : Option Receiver). (unwrap_or r o).name) h ∙ e) in
    (0, r, rw same, omega arith, refl, (same_bytes_iff r.name name).0 same)
position_of-IsFirst name (r ∷ rs) (suc k) q h e =
    let (n, found, is_at, fits, is_found, named) = position_of-IsFirst name rs k q h e in
    elim (Bool-cases (same_bytes r.name name)) [
      | inl same ↦ (0, r, rw same, omega arith, refl, (same_bytes_iff r.name name).0 same)
      | inr other ↦ (suc n, found, rw (other, is_at), omega (arith, fits), is_found, named)
    ]

min_fits : (n len : ℕ) → n < len → min n (len - 1) ≡ n
min_fits n len h = omega arith

-- When the list changes and still has a receiver of the highlighted one's name, such a receiver is
-- highlighted.
pub kept_cursor-name :
    (discovered rs : List Receiver) (cursor k : ℕ) (r q : Receiver)
    → get_elem? discovered cursor ≡ some r
    → get_elem? rs k ≡ some q
    → q.name ≡ r.name
    → (found : Receiver) × (get_elem? rs (kept_cursor discovered rs cursor) ≡ some found)
      × (found.name ≡ r.name)
unfolding kept_cursor
kept_cursor-name discovered rs cursor k r q h at e =
    let (n, found, is_at, fits, is_found, named) = position_of-IsFirst r.name rs k q at e in
    let is_kept =
      ap (λ (o : Option Receiver). min (unwrap_or 0 (find_again rs o)) (length rs - 1)) h
      ∙ ap (λ (o : Option ℕ). min (unwrap_or 0 o) (length rs - 1)) is_at
      ∙ min_fits n (length rs) fits in
    (found, ap (λ (j : ℕ). get_elem? rs j) is_kept ∙ is_found, named)

module _ {F : Type 0} (decode_base64 : Bytes → Option Bytes) where
  abbrev pub handle_input : Input F → NowPlaying F → NowPlaying F
  handle_input (updated update) s = apply decode_base64 update s
  handle_input (moved delta) s = picker_move delta s
  handle_input entered s = (choose s).1

  unfoldable pub handle_all : List (Input F) → NowPlaying F → NowPlaying F
  handle_all [] s = s
  handle_all (input ∷ inputs) s = handle_all inputs (handle_input input s)

  abbrev pub IsInside : NowPlaying F → Type 0
  IsInside s = IsWithin s.discovered s.picker

  apply_message-IsInside :
      (m : Message Bytes F) (s : NowPlaying F)
      → IsInside s
      → IsInside (apply_message decode_base64 m s)
  unfolding apply_message
  apply_message-IsInside (snapshot other) s h = h
  apply_message-IsInside (session_started rate channels peer) s h = h
  apply_message-IsInside (metadata title artist album) s h = h
  apply_message-IsInside (cover content_type data_base64) s h = h
  apply_message-IsInside (volume db) s h = h
  apply_message-IsInside (position elapsed_ms duration_ms) s h = h
  apply_message-IsInside (paused b) s h = h
  apply_message-IsInside flushed s h = h
  apply_message-IsInside session_ended s h = h

  no_local-IsInside :
      (is_chosen : Bool) (s : NowPlaying F)
      → IsInside s
      → IsInside (if is_chosen then s else record s { picker = picker_or_default s.picker })
  no_local-IsInside true s h = h
  no_local-IsInside false s h = picker_or_default-IsWithin s.discovered s.picker h

  apply-IsInside :
      (u : Update F) (s : NowPlaying F) → IsInside s → IsInside (apply decode_base64 u s)
  unfolding apply kept_cursor
  apply-IsInside (is_connected endpoint) s h = tt
  apply-IsInside disconnected s h = h
  apply-IsInside is_unauthorized s h = h
  apply-IsInside (message m) s h = apply_message-IsInside m s h
  apply-IsInside no_local_receiver s h = no_local-IsInside s.is_chosen s h
  apply-IsInside (discovery (receivers rs)) s h = kept-IsWithin s.discovered rs s.picker
  apply-IsInside (discovery (unavailable text)) s h = h

  choose_from-IsInside :
      (r : Option Receiver) (s : NowPlaying F) → IsInside s → IsInside ((choose_from r s).1)
  choose_from-IsInside none s h = h
  choose_from-IsInside (some r) s h = tt

  handle_input-IsInside :
      (input : Input F) (s : NowPlaying F) → IsInside s → IsInside (handle_input input s)
  handle_input-IsInside (updated update) s h = apply-IsInside update s h
  handle_input-IsInside (moved delta) s h = moved-IsWithin s.discovered delta s.picker h
  handle_input-IsInside entered s h = choose_from-IsInside (highlighted s) s h

  handle_all-IsInside :
      (inputs : List (Input F)) (s : NowPlaying F) → IsInside s → IsInside (handle_all inputs s)
  unfolding handle_all
  handle_all-IsInside [] s h = h
  handle_all-IsInside (input ∷ inputs) s h =
      handle_all-IsInside inputs (handle_input input s) (handle_input-IsInside input s h)

  choose_highlighted :
      (s : NowPlaying F) (p : Picker) (found : Receiver)
      → s.picker ≡ some p
      → get_elem? s.discovered p.cursor ≡ some found
      → highlighted s ≡ some found
  choose_highlighted s p found h k =
      ap (λ (o : Option Picker). and_then (λ (q : Picker). get_elem? s.discovered q.cursor) o) h ∙ k

  connects :
      (s : NowPlaying F) (p : Picker) (r : Receiver) (rs : List Receiver)
      → IsInside s
      → s.picker ≡ some p
      → s.discovered ≡ r ∷ rs
      → (found : Receiver) × (get_elem? s.discovered p.cursor ≡ some found)
        × (choose s ≡ choose_from (some found) s)
  connects s p r rs h up listed =
      let inside = subst (IsWithin s.discovered) up h in
      let fits = subst (λ (l : List Receiver). p.cursor ≤ length l - 1) listed inside in
      let (found, at) = get_elem?_within rs r p.cursor (omega (arith, fits)) in
      let is_found = ap (λ (l : List Receiver). get_elem? l p.cursor) listed ∙ at in
      (
        found,
        is_found,
        ap (λ (o : Option Receiver). choose_from o s) (choose_highlighted s p found up is_found),
      )

  -- Whatever updates and keys came since the display started, while the picker is up over a list
  -- that is not empty a receiver of the list is highlighted, and Enter chooses that one.
  pub handle_all-connects :
      (endpoint : Bytes) (images : Graphics) (inputs : List (Input F)) (p : Picker) (r : Receiver)
      (rs : List Receiver)
      → (handle_all inputs (new endpoint images)).picker ≡ some p
      → (handle_all inputs (new endpoint images)).discovered ≡ r ∷ rs
      → (found : Receiver) × (get_elem?
            (handle_all inputs (new endpoint images)).discovered
            p.cursor
          ≡ some found)
        × (choose (handle_all inputs (new endpoint images))
            ≡ choose_from (some found) (handle_all inputs (new endpoint images)))
  unfolding new
  handle_all-connects endpoint images inputs p r rs up listed =
      connects (handle_all inputs (new endpoint images)) p r rs
        (handle_all-IsInside inputs (new endpoint images) tt) up listed
