-- ===== src/Tlv/Runs.antt =====
-- Concrete runs of the TLV8 codec, and its theorems at concrete inputs.
use openairplay.Prelude.{◌≡◌, refl, none, some, [], ◌∷◌, replicate, Bytes}
use openairplay.Tlv.{
  Tlv, new, put, put_u8, ty_state, ty_salt, ty_public_key, get_u8, encode, decode,
}
use openairplay.Tlv.Fragments.{wire, merge_all, tlv, decode-wire}
use openairplay.Tlv.RoundTrip.{decode-encode}

abbrev two_items : Tlv
two_items = put ty_salt (replicate 16 0xaa) (put_u8 ty_state 2 new)

-- round_trips_simple_items
decode-encode_example : decode (encode two_items) ≡ some two_items
decode-encode_example = decode-encode two_items (refl, tt)

abbrev long_item : Tlv
long_item = put ty_public_key (replicate 600 7) new

-- fragments_and_reassembles_long_values
long_item_runs : decode (encode long_item) ≡ some long_item
unfolding decode encode
long_item_runs = refl

get_u8_runs : get_u8 ty_state two_items ≡ some 2
unfolding get_u8
get_u8_runs = refl

-- decode_rejects_truncated
truncated_run : decode (ty_salt ∷ 5 ∷ 1 ∷ 2 ∷ []) ≡ none
unfolding decode
truncated_run = refl

abbrev two_fragments : Bytes
two_fragments = ty_state ∷ 1 ∷ 2 ∷ ty_salt ∷ 0 ∷ []

two_fragments_run : decode two_fragments ≡ some (tlv ((ty_state, 2 ∷ []) ∷ (ty_salt, []) ∷ []))
unfolding decode
two_fragments_run = refl

decode-wire_example :
    decode (wire ((ty_state, 2 ∷ []) ∷ (ty_salt, []) ∷ []))
    ≡ some (tlv (merge_all [] ((ty_state, 2 ∷ []) ∷ (ty_salt, []) ∷ [])))
decode-wire_example = decode-wire ((ty_state, 2 ∷ []) ∷ (ty_salt, []) ∷ [])
