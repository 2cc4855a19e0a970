-- ===== src/Pairing/Replies.antt =====
-- Every answer of `pair-setup` is a message that the sender can read (openairplay2/src/pairing.rs).
use openairplay.Prelude.{
  ℕ, ◌≡◌, refl, ◌⊎◌, inl, inr, Bool, Bool-cases, true, false, ◌==◌, Option, none, some, Bytes,
}
use openairplay.Tlv.{
  Tlv, get, get_u8, decode, ty_method, ty_public_key, ty_proof, ty_state, ty_error,
}
use openairplay.Tlv.RoundTrip.{decode-encode}
use openairplay.Pairing.{
  state_m2, state_m4, error_authentication, Srp, SrpLaws, Outcome, continue, done, failed_with,
  panicked, failed, is_method_zero, PairSetup, reply_m2, handle_m1, reply_m4, finish, verified,
  verify_m3, with_server, handle_m3, handle_state, handle_decoded, handle,
}

-- A message that names one of the receiver's two steps.
abbrev pub IsReply : Bytes → Type 0
IsReply response =
    (tlv : Tlv) × (decode response ≡ some tlv)
    × ((get_u8 ty_state tlv ≡ some state_m2) ⊎ (get_u8 ty_state tlv ≡ some state_m4))

abbrev pub IsError : Bytes → Type 0
IsError response =
    (tlv : Tlv) × (decode response ≡ some tlv)
    × ((get_u8 ty_state tlv ≡ some state_m2) ⊎ (get_u8 ty_state tlv ≡ some state_m4))
    × (get_u8 ty_error tlv ≡ some error_authentication)

abbrev pub IsAnswer : Outcome → Type 0
IsAnswer (continue response) = IsReply response
IsAnswer (done response secret) = IsReply response
IsAnswer (failed_with response) = IsError response
IsAnswer panicked = ⊥

failed_m2-IsAnswer : IsAnswer (failed state_m2)
unfolding failed get_u8
failed_m2-IsAnswer = (_, decode-encode _ (refl, tt), inl refl, refl)

failed_m4-IsAnswer : IsAnswer (failed state_m4)
unfolding failed get_u8
failed_m4-IsAnswer = (_, decode-encode _ (refl, tt), inr refl, refl)

module _ (srp : Srp) where
  reply_m2-IsReply : (s : srp.Server) → IsReply (reply_m2 srp s)
  unfolding get_u8
  reply_m2-IsReply s = (_, decode-encode _ (refl, (refl, tt)), inl refl)

  reply_m4-IsReply : (hamk : Bytes) → IsReply (reply_m4 srp hamk)
  unfolding get_u8
  reply_m4-IsReply hamk = (_, decode-encode _ (refl, tt), inr refl)

  finish-IsAnswer :
      (hamk : Bytes) (key : Option Bytes) (k : Bytes)
      → key ≡ some k
      → IsAnswer (finish srp (reply_m4 srp hamk) key)
  finish-IsAnswer hamk none k e = cc
  finish-IsAnswer hamk (some k') k e = reply_m4-IsReply hamk

  verified-IsAnswer :
      SrpLaws srp
      → (a m1 : Bytes) (s : srp.Server) (setup : PairSetup srp)
      → IsAnswer (verified srp (srp.verify a m1 s) setup).0
  verified-IsAnswer laws a m1 s setup = go (srp.verify a m1 s) refl setup.transient
    where
      go :
          (r : Option Bytes × srp.Server)
          → srp.verify a m1 s ≡ r
          → (b : Bool) → IsAnswer (verified srp r (record setup { transient = b })).0
      go (none, s') e b = failed_m4-IsAnswer
      go (some hamk, s') e true =
          let (k, has) = laws.verify-key a m1 hamk s s' e in
          finish-IsAnswer hamk (srp.session_key s') k has
      go (some hamk, s') e false = reply_m4-IsReply hamk

  verify_m3-IsAnswer :
      SrpLaws srp
      → (a m1 : Option Bytes) (s : srp.Server) (setup : PairSetup srp)
      → IsAnswer (verify_m3 srp a m1 s setup).0
  verify_m3-IsAnswer laws (some a) (some m1) s setup = verified-IsAnswer laws a m1 s setup
  verify_m3-IsAnswer laws (some a) none s setup = failed_m4-IsAnswer
  verify_m3-IsAnswer laws none m1 s setup = failed_m4-IsAnswer

  handle_m3-IsAnswer :
      SrpLaws srp
      → (request : Tlv) (setup : PairSetup srp) → IsAnswer (handle_m3 srp request setup).0
  unfolding handle_m3
  handle_m3-IsAnswer laws request setup = go setup.server
    where
      go : (server : Option srp.Server) → IsAnswer (with_server srp server request setup).0
      go none = failed_m4-IsAnswer
      go (some s) =
          verify_m3-IsAnswer laws (get ty_public_key request) (get ty_proof request) s setup

  handle_m1-IsAnswer :
      (random : Bytes) (request : Tlv) (setup : PairSetup srp)
      → IsAnswer (handle_m1 srp random request setup).0
  unfolding handle_m1
  handle_m1-IsAnswer random request setup =
      elim (Bool-cases (is_method_zero (get_u8 ty_method request))) [
        | inl zero ↦ rw zero (reply_m2-IsReply (srp.new setup.pin random))
        | inr other ↦ rw other failed_m2-IsAnswer
      ]

  handle_state-IsAnswer :
      SrpLaws srp
      → (random : Bytes) (state : Option ℕ) (request : Tlv) (setup : PairSetup srp)
      → IsAnswer (handle_state srp random state request setup).0
  handle_state-IsAnswer laws random none request setup = failed_m2-IsAnswer
  handle_state-IsAnswer laws random (some state) request setup = elim (Bool-cases (state == 1)) [
    | inl one ↦ rw one (handle_m1-IsAnswer random request setup)
    | inr other ↦ elim (Bool-cases (state == 3)) [
      | inl three ↦ rw (other, three) (handle_m3-IsAnswer laws request setup)
      | inr neither ↦ rw (other, neither) failed_m2-IsAnswer
    ]
  ]

  -- Whatever the sender posts, and whatever was posted before, the answer is a TLV message that
  -- decodes, with the state M2 or M4, and with the authentication error where the exchange failed; the
  -- handler never panics.
  pub handle-IsAnswer :
      SrpLaws srp
      → (random body : Bytes) (setup : PairSetup srp) → IsAnswer (handle srp random body setup).0
  unfolding handle
  handle-IsAnswer laws random body setup = go (decode body)
    where
      go : (request : Option Tlv) → IsAnswer (handle_decoded srp random request setup).0
      go none = failed_m2-IsAnswer
      go (some request) = handle_state-IsAnswer laws random (get_u8 ty_state request) request setup
