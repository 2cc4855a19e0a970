-- ===== src/Terminal/Roster.antt =====
-- openairplay2-tui/src/discover.rs: the roster of the receivers on the network. A `BTreeMap` is the
-- list of its entries, in the order of the keys.
use openairplay.Prelude.{
  ℕ, Bool, true, false, not, ◌&&◌, ◌||◌, ◌==◌, ltb, if◌then◌else◌, List, [], ◌∷◌, ◌++◌, Bytes,
  ascii, same_bytes, starts_with, to_decimal,
}
use openairplay.Terminal.Detect.{contains}
use openairplay.Terminal.Updates.{Receiver, ℤ, pos, negsuc}

-- An i32 by its value.
abbrev int_ltb : ℤ → ℤ → Bool
int_ltb (pos m) (pos n) = ltb m n
int_ltb (pos m) (negsuc n) = false
int_ltb (negsuc m) (pos n) = true
int_ltb (negsuc m) (negsuc n) = ltb n m

abbrev int_same : ℤ → ℤ → Bool
int_same (pos m) (pos n) = m == n
int_same (negsuc m) (negsuc n) = m == n
int_same _ _ = false

-- The order of `str`.
unfoldable pub text_ltb : Bytes → Bytes → Bool
text_ltb _ [] = false
text_ltb [] (_ ∷ _) = true
text_ltb (a ∷ s) (b ∷ t) = if a == b then text_ltb s t else ltb a b

pub record Key : Type 0 where
  pub interface : ℤ
  pub protocol : ℤ
  pub name : Bytes

unfoldable pub same_key : Key → Key → Bool
unfolding same_bytes
same_key a b =
    int_same a.interface b.interface && int_same a.protocol b.protocol && same_bytes a.name b.name

unfoldable pub key_ltb : Key → Key → Bool
unfolding text_ltb
key_ltb a b =
    if int_same a.interface b.interface
    then if int_same a.protocol b.protocol
      then text_ltb a.name b.name
      else int_ltb a.protocol b.protocol
    else int_ltb a.interface b.interface

abbrev pub Roster : Type 0
Roster = List (Key × Receiver)

unfoldable pub insert : Key → Receiver → Roster → Roster
unfolding same_key key_ltb
insert key r [] = (key, r) ∷ []
insert key r ((k, q) ∷ entries) =
    let later = insert key r entries in
    if same_key k key
    then (k, r) ∷ entries
    else if key_ltb key k
    then (key, r) ∷ (k, q) ∷ entries
    else (k, q) ∷ later

abbrev pub add : ℤ → ℤ → Receiver → Roster → Roster
add interface protocol r entries =
    insert (record { interface = interface; protocol = protocol; name = r.name }) r entries

unfoldable pub remove_key : Key → Roster → Roster
unfolding same_key
remove_key key [] = []
remove_key key ((k, q) ∷ entries) =
    let later = remove_key key entries in if same_key k key then entries else (k, q) ∷ later

abbrev pub remove_entry : ℤ → ℤ → Bytes → Roster → Roster
remove_entry interface protocol name entries =
    remove_key (record { interface = interface; protocol = protocol; name = name }) entries

unfoldable pub is_ipv6_url : Bytes → Bool
unfolding starts_with
is_ipv6_url url = starts_with url (ascii "ws://[")

-- `and_modify`
abbrev pub preferred : Receiver → Receiver → Receiver
preferred kept r = if is_ipv6_url kept.url && not (is_ipv6_url r.url) then r else kept

unfoldable pub offer : Receiver → List Receiver → List Receiver
unfolding text_ltb same_bytes is_ipv6_url
offer r [] = r ∷ []
offer r (kept ∷ by_name) =
    let later = offer r by_name in
    if same_bytes kept.name r.name
    then preferred kept r ∷ by_name
    else if text_ltb r.name kept.name
    then r ∷ kept ∷ by_name
    else kept ∷ later

unfoldable pub offer_all : Roster → List Receiver → List Receiver
unfolding offer
offer_all [] by_name = by_name
offer_all ((_, r) ∷ entries) by_name = offer_all entries (offer r by_name)

abbrev pub listed : Roster → List Receiver
listed entries = offer_all entries []

unfoldable pub endpoint_url : Bytes → ℕ → Bytes
unfolding contains to_decimal
endpoint_url address port =
    if contains address (ascii ":")
    then ascii "ws://[" ++ address ++ ascii "]:" ++ to_decimal port
    else ascii "ws://" ++ address ++ ascii ":" ++ to_decimal port

unfoldable pub wants_password : List Bytes → Bool
unfolding same_bytes
wants_password [] = false
wants_password (txt ∷ rest) = same_bytes txt (ascii "pw=1") || wants_password rest
