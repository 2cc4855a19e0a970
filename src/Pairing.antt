-- ===== src/Pairing.antt =====
-- openairplay2/src/pairing.rs: the receiver's side of transient `pair-setup`.
pub mod Replies
pub mod Exchange
pub mod Toy
mod Runs
use openairplay.Prelude.{
  ℕ, zero, suc, ◌+◌, ◌/◌, ◌%◌, ◌≡◌, ◌≢◌, Bool, true, false, not, ◌==◌, if◌then◌else◌, Option, none,
  some, List, [], ◌∷◌, Bytes, head?,
}
use openairplay.Tlv.{
  Tlv, new as new_tlv, put, put_u8, get, get_u8, encode, decode, ty_method, ty_salt, ty_public_key,
  ty_proof, ty_state, ty_error, ty_flags,
}

abbrev pub state_m2 : ℕ
state_m2 = 2

abbrev pub state_m4 : ℕ
state_m4 = 4

abbrev pub flag_transient : ℕ
flag_transient = 0x10

abbrev pub error_authentication : ℕ
error_authentication = 0x02

-- "3939"
abbrev pub pair_setup_pin : Bytes
pair_setup_pin = 0x33 ∷ 0x39 ∷ 0x33 ∷ 0x39 ∷ []

-- What the state machine uses of `SrpServer`: `new` takes the password and what the random number
-- generator supplies; `verify` takes the client's public key and its proof.
pub record Srp : Type 1 where
  pub Server : Type 0
  pub new : Bytes → Bytes → Server
  pub salt : Server → Bytes
  pub public_b : Server → Bytes
  pub verify : Bytes → Bytes → Server → Option Bytes × Server
  pub session_key : Server → Option Bytes

-- A successful `verify` stores the session key; a failed one changes nothing.
pub record SrpLaws (srp : Srp) : Type 0 where
  pub verify-key :
      (a m1 hamk : Bytes) (s s' : srp.Server)
      → srp.verify a m1 s ≡ (some hamk, s')
      → (k : Bytes) × (srp.session_key s' ≡ some k)
  pub verify-failed : (a m1 : Bytes) (s s' : srp.Server) → srp.verify a m1 s ≡ (none, s') → s' ≡ s

-- `panicked` stands for the panic of `expect`.
pub data Outcome : Type 0 where
  continue : Bytes → Outcome
  done : Bytes → Bytes → Outcome
  failed_with : Bytes → Outcome
  panicked : Outcome

-- The TLV error response.
unfoldable pub failed : ℕ → Outcome
failed state =
    failed_with (encode (put_u8 ty_error error_authentication (put_u8 ty_state state new_tlv)))

-- `b & FLAG_TRANSIENT != 0`
abbrev pub has_transient : Option ℕ → Bool
has_transient none = false
has_transient (some b) = b / flag_transient % 2 == 1

-- `request.get_u8(ty::METHOD) != Some(0)`, negated.
abbrev pub is_method_zero : Option ℕ → Bool
is_method_zero none = false
is_method_zero (some m) = m == 0

module _ (srp : Srp) where
  pub record PairSetup : Type 0 where
    pub server : Option srp.Server
    pub transient : Bool
    pub pin : Bytes

  abbrev pub new : Option Bytes → PairSetup
  new none = record { server = none; transient = false; pin = pair_setup_pin }
  new (some password) = record { server = none; transient = false; pin = password }

  abbrev pub flags_byte : Tlv → Option ℕ
  flags_byte request = elim (get ty_flags request) [ none ↦ none | some f ↦ head? f ]

  -- M2: the salt and the public key.
  abbrev pub reply_m2 : srp.Server → Bytes
  reply_m2 s = encode (
      put ty_public_key (srp.public_b s)
        (put ty_salt (srp.salt s) (put_u8 ty_state state_m2 new_tlv)))

  -- `random` is what `SrpServer::new` draws.
  unfoldable pub handle_m1 : Bytes → Tlv → PairSetup → Outcome × PairSetup
  unfolding failed
  handle_m1 random request setup =
      let s = srp.new setup.pin random in
      if is_method_zero (get_u8 ty_method request)
      then (
        continue (reply_m2 s),
        record setup { server = some s; transient = has_transient (flags_byte request) },
      )
      else (failed state_m2, setup)

  -- M4: the server's proof.
  abbrev pub reply_m4 : Bytes → Bytes
  reply_m4 hamk = encode (put ty_proof hamk (put_u8 ty_state state_m4 new_tlv))

  -- `*srp.session_key().expect(..)`
  abbrev pub finish : Bytes → Option Bytes → Outcome
  finish response none = panicked
  finish response (some secret) = done response secret

  abbrev pub verified : Option Bytes × srp.Server → PairSetup → Outcome × PairSetup
  verified (none, s) setup = (failed state_m4, record setup { server = some s })
  verified (some hamk, s) setup = (
    if setup.transient
        then finish (reply_m4 hamk) (srp.session_key s)
        else continue (reply_m4 hamk),
    record setup { server = some s },
  )

  abbrev pub verify_m3 : Option Bytes → Option Bytes → srp.Server → PairSetup → Outcome × PairSetup
  verify_m3 (some a) (some m1) s setup = verified (srp.verify a m1 s) setup
  verify_m3 _ _ s setup = (failed state_m4, setup)

  abbrev pub with_server : Option srp.Server → Tlv → PairSetup → Outcome × PairSetup
  with_server none request setup = (failed state_m4, setup)
  with_server (some s) request setup =
      verify_m3 (get ty_public_key request) (get ty_proof request) s setup

  unfoldable pub handle_m3 : Tlv → PairSetup → Outcome × PairSetup
  unfolding failed
  handle_m3 request setup = with_server setup.server request setup

  -- `match request.get_u8(ty::STATE)`
  abbrev pub handle_state : Bytes → Option ℕ → Tlv → PairSetup → Outcome × PairSetup
  handle_state random none request setup = (failed state_m2, setup)
  handle_state random (some state) request setup =
      if state == 1
      then handle_m1 random request setup
      else if state == 3
      then handle_m3 request setup
      else (failed state_m2, setup)

  abbrev pub handle_decoded : Bytes → Option Tlv → PairSetup → Outcome × PairSetup
  handle_decoded random none setup = (failed state_m2, setup)
  handle_decoded random (some request) setup =
      handle_state random (get_u8 ty_state request) request setup

  unfoldable pub handle : Bytes → Bytes → PairSetup → Outcome × PairSetup
  unfolding handle_m1 handle_m3 failed
  handle random body setup = handle_decoded random (decode body) setup

  -- A connection's requests, each with what the random number generator supplies while it is handled.
  unfoldable pub handle_all : List (Bytes × Bytes) → PairSetup → List Outcome × PairSetup
  unfolding handle
  handle_all [] setup = ([], setup)
  handle_all ((random, body) ∷ requests) setup =
      let (outcome, setup') = handle random body setup in
      let (outcomes, last) = handle_all requests setup' in (outcome ∷ outcomes, last)
