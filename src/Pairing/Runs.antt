-- ===== src/Pairing/Runs.antt =====
-- Concrete runs of `pair-setup` with a verifier that compares the proof with the password, and its
-- theorems at concrete inputs.
use openairplay.Prelude.{◌≡◌, refl, none, List, [], ◌∷◌, Bytes, same_bytes}
use openairplay.Tlv.{
  new as new_tlv, put, put_u8, encode, decode, get_u8, ty_method, ty_public_key, ty_proof, ty_state,
  ty_flags,
}
use openairplay.Pairing.{done, failed, pair_setup_pin, new, reply_m4, handle, handle_all}
use openairplay.Pairing.Toy.{toy_srp, toy_srp_laws}
use openairplay.Pairing.Replies.{IsAnswer, handle-IsAnswer}
use openairplay.Pairing.Exchange.{AllFounded, handle_all-AllFounded}

abbrev m1_request : Bytes
m1_request = encode (put_u8 ty_flags 0x10 (put_u8 ty_method 0 (put_u8 ty_state 1 new_tlv)))

abbrev m3_request : Bytes → Bytes
m3_request proof =
    encode (put ty_proof proof (put ty_public_key (5 ∷ []) (put_u8 ty_state 3 new_tlv)))

-- transient_pair_setup_completes_with_matching_secret
completes :
    (handle toy_srp []
      (m3_request pair_setup_pin)
      (handle toy_srp [] m1_request (new toy_srp none)).1).0
    ≡ done (reply_m4 toy_srp (5 ∷ [])) (5 ∷ [])
unfolding handle decode encode get_u8 same_bytes
completes = refl

-- wrong_pin_fails_at_m3
wrong_pin :
    (handle toy_srp [] (m3_request (9 ∷ [])) (handle toy_srp [] m1_request (new toy_srp none)).1).0
    ≡ failed 4
unfolding handle decode encode get_u8 same_bytes
wrong_pin = refl

-- M3 before M1
too_early : (handle toy_srp [] (m3_request pair_setup_pin) (new toy_srp none)).0 ≡ failed 4
unfolding handle decode encode get_u8 same_bytes
too_early = refl

handle-IsAnswer_example : IsAnswer (handle toy_srp [] m1_request (new toy_srp none)).0
handle-IsAnswer_example = handle-IsAnswer toy_srp toy_srp_laws [] m1_request (new toy_srp none)

abbrev exchange : List (Bytes × Bytes)
exchange = ([], m1_request) ∷ ([], m3_request (9 ∷ [])) ∷ ([], m3_request pair_setup_pin) ∷ []

handle_all-AllFounded_example :
    AllFounded toy_srp (new toy_srp none).pin (handle_all toy_srp exchange (new toy_srp none)).0
handle_all-AllFounded_example = handle_all-AllFounded toy_srp none exchange
