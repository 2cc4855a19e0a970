-- ===== src/Terminal/Offered.antt =====
-- The list of receivers on offer, and the roster it comes from.
use openairplay.Prelude.{
  ◌≡◌, refl, sym, ap, subst, ◌∙◌, inl, inr, ◌⊎◌, Bool, true, false, not, ◌&&◌, if◌then◌else◌, List,
  [], ◌∷◌, Bytes, All, same_bytes, same_bytes_iff, arith,
}
use openairplay.Terminal.Updates.{Receiver}
use openairplay.Terminal.Roster.{Roster, text_ltb, is_ipv6_url, preferred, offer, offer_all, listed}

-- A receiver stands for another: it has the same name, and an IPv6 URL only where the other has.
abbrev pub StandsFor : Receiver → Receiver → Type 0
StandsFor q r = (q.name ≡ r.name) × (is_ipv6_url q.url ≡ true → is_ipv6_url r.url ≡ true)

abbrev pub IsListed : Receiver → List Receiver → Type 0
IsListed r [] = ⊥
IsListed r (q ∷ by_name) = StandsFor q r ⊎ IsListed r by_name

preferred_if :
    (kept r : Receiver) (a b : Bool)
    → kept.name ≡ r.name
    → is_ipv6_url kept.url ≡ a
    → is_ipv6_url r.url ≡ b
    → StandsFor (if a && not b then r else kept) kept × StandsFor (if a && not b then r else kept) r
preferred_if kept r true true h e f = ((refl, λ k. k), (h, λ _. f))
preferred_if kept r true false h e f = ((sym h, λ _. e), (refl, λ k. k))
preferred_if kept r false b h e f = ((refl, λ k. k), (h, λ k. absurd (ground arith)))

preferred_both :
    (kept r : Receiver)
    → same_bytes kept.name r.name ≡ true
    → StandsFor (preferred kept r) kept × StandsFor (preferred kept r) r
preferred_both kept r h =
    preferred_if kept r (is_ipv6_url kept.url) (is_ipv6_url r.url)
      ((same_bytes_iff kept.name r.name).0 h) refl refl

StandsFor-trans : (a b c : Receiver) → StandsFor a b → StandsFor b c → StandsFor a c
StandsFor-trans a b c (h, h') (k, k') = (h ∙ k, λ e. k' (h' e))

-- The branches of `offer` at an entry.
abbrev offer_if : Bool → Bool → Receiver → Receiver → List Receiver → List Receiver
offer_if is_same comes_first r kept by_name =
    if is_same
    then preferred kept r ∷ by_name
    else if comes_first
    then r ∷ kept ∷ by_name
    else kept ∷ offer r by_name

offer_if_new :
    (is_same comes_first : Bool) (r kept : Receiver) (by_name : List Receiver)
    → same_bytes kept.name r.name ≡ is_same
    → IsListed r (offer r by_name)
    → IsListed r (offer_if is_same comes_first r kept by_name)
offer_if_new true _ r kept by_name h later = inl ((preferred_both kept r h).1)
offer_if_new false true r kept by_name h later = inl (refl, λ k. k)
offer_if_new false false r kept by_name h later = inr later

offer_if_old :
    (is_same comes_first : Bool) (p r kept : Receiver) (by_name : List Receiver)
    → same_bytes kept.name r.name ≡ is_same
    → (IsListed p by_name → IsListed p (offer r by_name))
    → IsListed p (kept ∷ by_name)
    → IsListed p (offer_if is_same comes_first r kept by_name)
offer_if_old true _ p r kept by_name h later (inl k) =
    inl (StandsFor-trans (preferred kept r) kept p ((preferred_both kept r h).0) k)
offer_if_old true _ p r kept by_name h later (inr k) = inr k
offer_if_old false true p r kept by_name h later k = inr k
offer_if_old false false p r kept by_name h later (inl k) = inl k
offer_if_old false false p r kept by_name h later (inr k) = inr (later k)

offer_new : (r : Receiver) (by_name : List Receiver) → IsListed r (offer r by_name)
unfolding offer
offer_new r [] = inl (refl, λ k. k)
offer_new r (kept ∷ by_name) =
    offer_if_new (same_bytes kept.name r.name) (text_ltb r.name kept.name) r kept by_name refl
      (offer_new r by_name)

offer_old :
    (p r : Receiver) (by_name : List Receiver) → IsListed p by_name → IsListed p (offer r by_name)
unfolding offer
offer_old p r [] h = absurd h
offer_old p r (kept ∷ by_name) h =
    offer_if_old (same_bytes kept.name r.name) (text_ltb r.name kept.name) p r kept by_name refl
      (offer_old p r by_name) h

offer_all_old :
    (p : Receiver) (entries : Roster) (by_name : List Receiver)
    → IsListed p by_name
    → IsListed p (offer_all entries by_name)
unfolding offer_all
offer_all_old p [] by_name h = h
offer_all_old p ((_, r) ∷ entries) by_name h =
    offer_all_old p entries (offer r by_name) (offer_old p r by_name h)

abbrev pub IsEntry : Receiver → Roster → Type 0
IsEntry r [] = ⊥
IsEntry r ((_, q) ∷ entries) = (r ≡ q) ⊎ IsEntry r entries

offer_all_new :
    (p : Receiver) (entries : Roster) (by_name : List Receiver)
    → IsEntry p entries
    → IsListed p (offer_all entries by_name)
unfolding offer_all
offer_all_new p [] by_name h = absurd h
offer_all_new p ((_, r) ∷ entries) by_name (inl h) =
    offer_all_old p entries (offer r by_name)
      (subst (λ (q : Receiver). IsListed q (offer r by_name)) (sym h) (offer_new r by_name))
offer_all_new p ((_, r) ∷ entries) by_name (inr h) = offer_all_new p entries (offer r by_name) h

text_above : (s t : Bytes) → same_bytes s t ≡ false → text_ltb t s ≡ false → text_ltb s t ≡ true
unfolding same_bytes text_ltb
text_above [] [] h k = ground arith
text_above [] (b ∷ t) h k = refl
text_above (a ∷ s) [] h k = ground arith
text_above (a ∷ s) (b ∷ t) h k = ground (arith, text_above s t)

abbrev IsAbove : Bytes → List Receiver → Type 0
IsAbove name [] = Unit
IsAbove name (q ∷ _) = text_ltb name q.name ≡ true

-- Each name is below the next one.
abbrev pub IsSorted : List Receiver → Type 0
IsSorted [] = Unit
IsSorted (q ∷ by_name) = IsAbove q.name by_name × IsSorted by_name

offer_if-IsAbove :
    (is_same comes_first : Bool) (name : Bytes) (r kept : Receiver) (by_name : List Receiver)
    → same_bytes kept.name r.name ≡ is_same
    → text_ltb name r.name ≡ true
    → text_ltb name kept.name ≡ true
    → IsAbove name (offer_if is_same comes_first r kept by_name)
offer_if-IsAbove true _ name r kept by_name h k l =
    ap (λ (n : Bytes). text_ltb name n) ((preferred_both kept r h).0.0) ∙ l
offer_if-IsAbove false true name r kept by_name h k l = k
offer_if-IsAbove false false name r kept by_name h k l = l

offer-IsAbove :
    (name : Bytes) (r : Receiver) (by_name : List Receiver)
    → text_ltb name r.name ≡ true
    → IsAbove name by_name
    → IsAbove name (offer r by_name)
unfolding offer
offer-IsAbove name r [] h k = h
offer-IsAbove name r (kept ∷ by_name) h k =
    offer_if-IsAbove (same_bytes kept.name r.name) (text_ltb r.name kept.name) name r kept by_name
      refl h k

offer_if-IsSorted :
    (is_same comes_first : Bool) (r kept : Receiver) (by_name : List Receiver)
    → same_bytes kept.name r.name ≡ is_same
    → text_ltb r.name kept.name ≡ comes_first
    → IsSorted (kept ∷ by_name)
    → IsSorted (offer r by_name)
    → IsSorted (offer_if is_same comes_first r kept by_name)
offer_if-IsSorted true _ r kept by_name h k (above, sorted) later =
    (subst (λ (n : Bytes). IsAbove n by_name) (sym ((preferred_both kept r h).0.0)) above, sorted)
offer_if-IsSorted false true r kept by_name h k sorted later = (k, sorted)
offer_if-IsSorted false false r kept by_name h k (above, sorted) later =
    (offer-IsAbove kept.name r by_name (text_above kept.name r.name h k) above, later)

offer-IsSorted :
    (r : Receiver) (by_name : List Receiver) → IsSorted by_name → IsSorted (offer r by_name)
unfolding offer
offer-IsSorted r [] h = (tt, tt)
offer-IsSorted r (kept ∷ by_name) h =
    offer_if-IsSorted (same_bytes kept.name r.name) (text_ltb r.name kept.name) r kept by_name refl
      refl h (offer-IsSorted r by_name h.1)

offer_all-IsSorted :
    (entries : Roster) (by_name : List Receiver)
    → IsSorted by_name
    → IsSorted (offer_all entries by_name)
unfolding offer_all
offer_all-IsSorted [] by_name h = h
offer_all-IsSorted ((_, r) ∷ entries) by_name h =
    offer_all-IsSorted entries (offer r by_name) (offer-IsSorted r by_name h)

module _ (P : Receiver → Type 0) where
  preferred_either : (b : Bool) (kept r : Receiver) → P kept → P r → P (if b then r else kept)
  preferred_either true kept r h k = k
  preferred_either false kept r h k = h

  offer_if-All :
      (is_same comes_first : Bool) (r kept : Receiver) (by_name : List Receiver)
      → P r
      → All P (kept ∷ by_name)
      → All P (offer r by_name)
      → All P (offer_if is_same comes_first r kept by_name)
  offer_if-All true _ r kept by_name h (k, l) later =
      (preferred_either (is_ipv6_url kept.url && not (is_ipv6_url r.url)) kept r k h, l)
  offer_if-All false true r kept by_name h k later = (h, k)
  offer_if-All false false r kept by_name h (k, _) later = (k, later)

  offer_each :
      (r : Receiver) (by_name : List Receiver) → P r → All P by_name → All P (offer r by_name)
  unfolding offer
  offer_each r [] h k = (h, tt)
  offer_each r (kept ∷ by_name) h k =
      offer_if-All (same_bytes kept.name r.name) (text_ltb r.name kept.name) r kept by_name h k
        (offer_each r by_name h k.1)

  offer_all_each :
      (entries : Roster) (by_name : List Receiver)
      → ((r : Receiver) → IsEntry r entries → P r)
      → All P by_name
      → All P (offer_all entries by_name)
  unfolding offer_all
  offer_all_each [] by_name h k = k
  offer_all_each ((_, r) ∷ entries) by_name h k =
      offer_all_each entries (offer r by_name) (λ q l. h q (inr l))
        (offer_each r by_name (h r (inl refl)) k)

-- On the list on offer each name is below the next one; what is on it is in the roster; and each
-- receiver of the roster has its name on it, with an IPv6 URL only where its own is one.
pub listed-IsSorted :
    (entries : Roster)
    → IsSorted (listed entries)
      × All (λ (q : Receiver). IsEntry q entries) (listed entries)
      × ((r : Receiver) → IsEntry r entries → IsListed r (listed entries))
listed-IsSorted entries = (
  offer_all-IsSorted entries [] tt,
  offer_all_each (λ (q : Receiver). IsEntry q entries) entries [] (λ r h. h) tt,
  λ r h. offer_all_new r entries [] h,
)
