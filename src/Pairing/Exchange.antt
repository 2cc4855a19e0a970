-- ===== src/Pairing/Exchange.antt =====
-- What a completed `pair-setup` rests on (openairplay2/src/pairing.rs).
use openairplay.Prelude.{
  ℕ, ◌≡◌, refl, ap, inl, inr, Bool, Bool-cases, true, false, ◌==◌, Option, none, some, List, [],
  ◌∷◌, Bytes,
}
use openairplay.Tlv.{Tlv, get, get_u8, decode, ty_method, ty_public_key, ty_proof, ty_state}
use openairplay.Pairing.{
  pair_setup_pin, Srp, Outcome, done, failed, is_method_zero, PairSetup, new, handle_m1, reply_m4,
  finish, verified, verify_m3, with_server, handle_m3, handle_state, handle_decoded, handle,
  handle_all,
}

module _ (srp : Srp) where
  -- The SRP servers that an exchange over this password can hold: a fresh one, or what `verify` has
  -- made of one.
  pub data Reached (pin : Bytes) : srp.Server → Type 0 where
    fresh : (random : Bytes) → Reached pin (srp.new pin random)
    tried : (a m1 : Bytes) (s : srp.Server) → Reached pin s → Reached pin ((srp.verify a m1 s).1)

  -- The secret is the session key that a successful verification, by a server over this password,
  -- has stored.
  pub record IsAgreed (pin secret : Bytes) : Type 0 where
    pub server : srp.Server
    pub is_reached : Reached pin server
    pub public_a : Bytes
    pub proof : Bytes
    pub hamk : Bytes
    pub is_verified : (srp.verify public_a proof server).0 ≡ some hamk
    pub is_key : srp.session_key (srp.verify public_a proof server).1 ≡ some secret

  abbrev pub IsFounded : Bytes → Outcome → Type 0
  IsFounded pin (done response secret) = IsAgreed pin secret
  IsFounded pin _ = Unit

  abbrev pub HasReached : Bytes → Option srp.Server → Type 0
  HasReached pin none = Unit
  HasReached pin (some s) = Reached pin s

  -- The password stays, the server is one that was reached, and the outcome is founded.
  abbrev Keeps : Bytes → Outcome × PairSetup srp → Type 0
  Keeps pin (outcome, setup) =
      IsFounded pin outcome × (setup.pin ≡ pin) × HasReached pin setup.server

  finish-IsFounded :
      (pin a m1 hamk : Bytes) (s : srp.Server)
      → Reached pin s
      → (srp.verify a m1 s).0 ≡ some hamk
      → (key : Option Bytes) → srp.session_key (srp.verify a m1 s).1 ≡ key
      → IsFounded pin (finish srp (reply_m4 srp hamk) key)
  finish-IsFounded pin a m1 hamk s r v none e = tt
  finish-IsFounded pin a m1 hamk s r v (some secret) e = record {
    server = s;
    is_reached = r;
    public_a = a;
    proof = m1;
    hamk = hamk;
    is_verified = v;
    is_key = e;
  }

  verified-Keeps :
      (a m1 : Bytes) (s : srp.Server) (setup : PairSetup srp)
      → Reached setup.pin s
      → Keeps setup.pin (verified srp (srp.verify a m1 s) setup)
  unfolding failed
  verified-Keeps a m1 s setup r = go (srp.verify a m1 s) refl setup.transient refl
    where
      moved : (s' : srp.Server) → (srp.verify a m1 s).1 ≡ s' → Reached setup.pin s'
      moved s' e = let reached = tried a m1 s r in rw e at reached

      go :
          (v : Option Bytes × srp.Server)
          → srp.verify a m1 s ≡ v
          → (b : Bool) → setup.transient ≡ b
          → Keeps setup.pin (verified srp v setup)
      go (none, s') e b t = (tt, refl, moved s' (ap (λ (v : Option Bytes × srp.Server). v.1) e))
      go (some hamk, s') e true t =
          let now = ap (λ (v : Option Bytes × srp.Server). v.1) e in
          (
            rw t (
                finish-IsFounded setup.pin a m1 hamk s r
                  (ap (λ (v : Option Bytes × srp.Server). v.0) e) (srp.session_key s')
                  (ap srp.session_key now)),
            refl,
            moved s' now,
          )
      go (some hamk, s') e false t =
          (rw t tt, refl, moved s' (ap (λ (v : Option Bytes × srp.Server). v.1) e))

  verify_m3-Keeps :
      (a m1 : Option Bytes) (s : srp.Server) (setup : PairSetup srp)
      → Reached setup.pin s
      → HasReached setup.pin setup.server
      → Keeps setup.pin (verify_m3 srp a m1 s setup)
  unfolding failed
  verify_m3-Keeps (some a) (some m1) s setup r h = verified-Keeps a m1 s setup r
  verify_m3-Keeps (some a) none s setup r h = (tt, refl, h)
  verify_m3-Keeps none m1 s setup r h = (tt, refl, h)

  handle_m3-Keeps :
      (request : Tlv) (setup : PairSetup srp)
      → HasReached setup.pin setup.server
      → Keeps setup.pin (handle_m3 srp request setup)
  unfolding handle_m3 failed
  handle_m3-Keeps request setup h = go setup.server h
    where
      go :
          (server : Option srp.Server)
          → HasReached setup.pin server
          → Keeps setup.pin (with_server srp server request setup)
      go none r = (tt, refl, h)
      go (some s) r = verify_m3-Keeps (get ty_public_key request) (get ty_proof request) s setup r h

  handle_m1-Keeps :
      (random : Bytes) (request : Tlv) (setup : PairSetup srp)
      → HasReached setup.pin setup.server
      → Keeps setup.pin (handle_m1 srp random request setup)
  unfolding handle_m1 failed
  handle_m1-Keeps random request setup h =
      elim (Bool-cases (is_method_zero (get_u8 ty_method request))) [
        | inl zero ↦ rw zero (tt, refl, fresh random)
        | inr other ↦ rw other (tt, refl, h)
      ]

  handle_state-Keeps :
      (random : Bytes) (state : Option ℕ) (request : Tlv) (setup : PairSetup srp)
      → HasReached setup.pin setup.server
      → Keeps setup.pin (handle_state srp random state request setup)
  unfolding failed
  handle_state-Keeps random none request setup h = (tt, refl, h)
  handle_state-Keeps random (some state) request setup h = elim (Bool-cases (state == 1)) [
    | inl one ↦ rw one (handle_m1-Keeps random request setup h)
    | inr other ↦ elim (Bool-cases (state == 3)) [
      | inl three ↦ rw (other, three) (handle_m3-Keeps request setup h)
      | inr neither ↦ rw (other, neither) (tt, refl, h)
    ]
  ]

  handle-Keeps :
      (random body : Bytes) (setup : PairSetup srp)
      → HasReached setup.pin setup.server
      → Keeps setup.pin (handle srp random body setup)
  unfolding handle failed
  handle-Keeps random body setup h = go (decode body)
    where
      go : (request : Option Tlv) → Keeps setup.pin (handle_decoded srp random request setup)
      go none = (tt, refl, h)
      go (some request) = handle_state-Keeps random (get_u8 ty_state request) request setup h

  abbrev pub AllFounded : Bytes → List Outcome → Type 0
  AllFounded pin [] = Unit
  AllFounded pin (outcome ∷ outcomes) = IsFounded pin outcome × AllFounded pin outcomes

  handle-pin-Keeps :
      (pin random body : Bytes) (setup : PairSetup srp)
      → setup.pin ≡ pin
      → HasReached pin setup.server
      → Keeps pin (handle srp random body setup)
  handle-pin-Keeps pin random body setup same h =
      let h' = rw (← same) at h in rw (← same) (handle-Keeps random body setup h')

  all-AllFounded :
      (pin : Bytes) (requests : List (Bytes × Bytes)) (setup : PairSetup srp)
      → setup.pin ≡ pin
      → HasReached pin setup.server
      → AllFounded pin (handle_all srp requests setup).0
  unfolding handle_all
  all-AllFounded pin [] setup same h = tt
  all-AllFounded pin ((random, body) ∷ requests) setup same h =
      let (founded, same', reached) = handle-pin-Keeps pin random body setup same h in
      (founded, all-AllFounded pin requests (handle srp random body setup).1 same' reached)

  -- In every sequence of requests on a connection, whatever they contain, each pairing that completes
  -- hands out the session key that a successful SRP verification has stored, in a server that was
  -- created over the configured password (3939 without one).
  pub handle_all-AllFounded :
      (password : Option Bytes) (requests : List (Bytes × Bytes))
      → AllFounded (new srp password).pin (handle_all srp requests (new srp password)).0
  handle_all-AllFounded none requests =
      all-AllFounded pair_setup_pin requests (new srp none) refl tt
  handle_all-AllFounded (some password) requests =
      all-AllFounded password requests (new srp (some password)) refl tt
