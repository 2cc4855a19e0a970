-- ===== src/Tlv.antt =====
-- openairplay2/src/tlv.rs: HomeKit TLV8, items `[type][len][value]` with long values in fragments.
pub mod Fragments
pub mod RoundTrip
mod Runs
use openairplay.Prelude.{
  ℕ, zero, suc, ◌+◌, ◌%◌, Bool, not, ◌&&◌, ◌==◌, ltb, if◌then◌else◌, Option, none, some, List, [],
  ◌∷◌, ◌++◌, length, is_empty, head?, take, drop, chunks, Bytes,
}

-- The item types of `mod ty`.
abbrev pub ty_method : ℕ
ty_method = 0x00

abbrev pub ty_salt : ℕ
ty_salt = 0x02

abbrev pub ty_public_key : ℕ
ty_public_key = 0x03

abbrev pub ty_proof : ℕ
ty_proof = 0x04

abbrev pub ty_state : ℕ
ty_state = 0x06

abbrev pub ty_error : ℕ
ty_error = 0x07

abbrev pub ty_flags : ℕ
ty_flags = 0x13

abbrev pub Item : Type 0
Item = ℕ × Bytes

pub record Tlv : Type 0 where
  pub items : List Item

abbrev pub new : Tlv
new = record { items = [] }

abbrev pub put : ℕ → Bytes → Tlv → Tlv
put ty value tlv = record { items = tlv.items ++ ((ty, value) ∷ []) }

abbrev pub put_u8 : ℕ → ℕ → Tlv → Tlv
put_u8 ty value tlv = put ty (value ∷ []) tlv

-- `iter().find(..)`
unfoldable pub find : ℕ → List Item → Option Bytes
find ty [] = none
find ty ((t, v) ∷ items) = if t == ty then some v else find ty items

unfoldable pub get : ℕ → Tlv → Option Bytes
unfolding find
get ty tlv = find ty tlv.items

unfoldable pub get_u8 : ℕ → Tlv → Option ℕ
unfolding get
get_u8 ty tlv = elim (get ty tlv) [ none ↦ none | some v ↦ head? v ]

-- One pass of the inner loop of `encode`: the length is cast to `u8`.
abbrev pub fragment : ℕ → Bytes → Bytes
fragment ty chunk = ty ∷ (length chunk % 256) ∷ chunk

unfoldable pub encode_chunks : ℕ → List Bytes → Bytes
encode_chunks ty [] = []
encode_chunks ty (chunk ∷ rest) = fragment ty chunk ++ encode_chunks ty rest

unfoldable pub encode_item : Item → Bytes
unfolding encode_chunks chunks
encode_item (ty, value) =
    if is_empty value then ty ∷ 0 ∷ [] else encode_chunks ty (chunks 255 value)

unfoldable pub encode_items : List Item → Bytes
unfolding encode_item
encode_items [] = []
encode_items (item ∷ rest) = encode_item item ++ encode_items rest

unfoldable pub encode : Tlv → Bytes
unfolding encode_items
encode tlv = encode_items tlv.items

-- The guard on `items.last_mut()`: is a fragment of type `ty` the continuation of this item?
abbrev pub continues : ℕ → Item → Bool
continues ty (last_ty, last_val) =
    last_ty == ty && (length last_val % 255 == 0 && not (is_empty last_val))

-- The `match items.last_mut()` of `decode`: extend the last item, or push a new one.
unfoldable pub merge : List Item → ℕ → Bytes → List Item
merge [] ty value = (ty, value) ∷ []
merge (item ∷ []) ty value =
    if continues ty item then (item.0, item.1 ++ value) ∷ [] else item ∷ (ty, value) ∷ []
merge (item ∷ next ∷ rest) ty value = item ∷ merge (next ∷ rest) ty value

-- The loop of `decode`, over the bytes from `i` on. The fuel bounds the rounds: each takes two bytes
-- at least.
unfoldable pub decode_loop : ℕ → Bytes → List Item → Option Tlv
unfolding merge
decode_loop fuel [] items = some (record { items = items })
decode_loop zero (ty ∷ rest) items = none
decode_loop (suc fuel) (ty ∷ []) items = none
decode_loop (suc fuel) (ty ∷ len ∷ rest) items =
    let more = decode_loop fuel (drop len rest) (merge items ty (take len rest)) in
    if ltb (length rest) len then none else more

unfoldable pub decode : Bytes → Option Tlv
unfolding decode_loop
decode bytes = decode_loop (length bytes) bytes []
