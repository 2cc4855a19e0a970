-- ===== src/Srp/Completes.antt =====
-- A whole `pair-setup` exchange, from the bytes of M1 to the shared secret
-- (openairplay2/src/pairing.rs over openairplay2/src/srp.rs).
use openairplay.Prelude.{
  ℕ, [], ◌∷◌, Bool, same_bytes, if◌then◌else◌, ◌%◌, ◌≡◌, refl, ap, ◌∙◌, true, false, ◌==◌, Option,
  none, some, Bytes,
}
use openairplay.Tlv.{Tlv, new as new_tlv, put, put_u8, get, get_u8, encode, decode}
use openairplay.Tlv.RoundTrip.{decode-encode}
use openairplay.Pairing.{
  Srp, continue, done, PairSetup, new, reply_m2, reply_m4, finish, verified, handle_m1, handle_m3,
  handle_decoded, handle,
}
use openairplay.Srp.{
  group, Crates, CratesLaws, SrpServer, SrpClient, verify_hamk, new_server, public_b, verify,
  new_client, public_a, process,
}
use openairplay.Srp.Agreement.{parties_agree}
use openairplay.Srp.Server.{srp_server}

-- The sender's side, with the numbers of the protocol: 0 is the method, 2 the salt, 3 a public key,
-- 4 a proof, 6 the state and 0x13 the flags. It posts M1 with the transient flag, and M3 with its
-- public key and its proof.
abbrev pub m1_message : Tlv
m1_message = put_u8 0x13 0x10 (put_u8 0x00 0 (put_u8 0x06 1 new_tlv))

abbrev pub m3_message : Bytes → Bytes → Tlv
m3_message a proof = put 0x04 proof (put 0x03 a (put_u8 0x06 3 new_tlv))

abbrev pub field : ℕ → Option Tlv → Option Bytes
field ty none = none
field ty (some t) = get ty t

abbrev pub has_state : ℕ → Option Tlv → Bool
has_state n t = elim (field 0x06 t) [ none ↦ false | some v ↦ same_bytes v (n ∷ []) ]

module _ (crates : Crates) (laws : CratesLaws crates) where
  abbrev srp : Srp
  srp = srp_server crates

  -- After M1.
  abbrev pub started : Bytes → Bytes → PairSetup (srp_server crates)
  started password random = record {
    server = some (new_server crates password random);
    transient = true;
    pin = password;
  }

  m1_answered :
      (password random : Bytes)
      → (handle srp random (encode m1_message) (new srp (some password))).0
        ≡ continue (reply_m2 srp (new_server crates password random))
  unfolding handle handle_m1 get_u8
  m1_answered password random =
      ap (λ (request : Option Tlv). (handle_decoded srp random request (new srp (some password))).0)
        (decode-encode m1_message (refl, (refl, tt)))

  m1_starts :
      (password random : Bytes)
      → (handle srp random (encode m1_message) (new srp (some password))).1
        ≡ started password random
  unfolding handle handle_m1 get_u8
  m1_starts password random =
      ap (λ (request : Option Tlv). (handle_decoded srp random request (new srp (some password))).1)
        (decode-encode m1_message (refl, (refl, tt)))

  verified_done :
      (hamk key : Bytes) (r : Option Bytes × SrpServer crates) (password random : Bytes)
      → r.0 ≡ some hamk
      → r.1.session_key ≡ some key
      → (verified srp r (started password random)).0 ≡ done (reply_m4 srp hamk) key
  verified_done hamk key (none, s) password random a k = cc
  verified_done hamk key (some hamk', s) password random a k =
      let same : hamk' ≡ hamk = cc in
      ap (λ (x : Bytes). finish srp (reply_m4 srp x) s.session_key) same
      ∙ ap (finish srp (reply_m4 srp hamk)) k

  m3_completes :
      (password random random' a proof hamk key : Bytes)
      → (verify crates a proof (new_server crates password random)).0 ≡ some hamk
      → (verify crates a proof (new_server crates password random)).1.session_key ≡ some key
      → (handle srp random' (encode (m3_message a proof)) (started password random)).0
        ≡ done (reply_m4 srp hamk) key
  unfolding handle handle_m3 get_u8
  m3_completes password random random' a proof hamk key accepted stored =
      ap
        (λ (request : Option Tlv). (handle_decoded srp random' request (started password random)).0)
        (decode-encode (m3_message a proof) (refl, (refl, tt)))
      ∙ verified_done hamk key (verify crates a proof (new_server crates password random)) password
          random accepted stored

  abbrev pub processed :
      Option Bytes → Option Bytes → SrpClient crates → Option (Bytes × SrpClient crates)
  processed (some salt) (some b) c = some (process crates salt b c)
  processed _ _ c = none

  -- What a client makes of the bytes of M2: its proof, and its state behind it.
  unfoldable pub read_m2 : Bytes → SrpClient crates → Option (Bytes × SrpClient crates)
  unfolding decode get same_bytes process
  read_m2 bytes c =
      let m2 = decode bytes in
      if has_state 2 m2 then processed (field 0x02 m2) (field 0x03 m2) c else none

  abbrev pub trusted : Option Bytes → Bytes → SrpClient crates → Option Bool
  trusted none proof c = none
  trusted (some hamk) proof c = verify_hamk crates hamk proof c

  -- Whether a client accepts the bytes of M4, once its own proof was sent.
  unfoldable pub read_m4 : Bytes → Bytes → SrpClient crates → Option Bool
  unfolding decode get same_bytes verify_hamk
  read_m4 bytes proof c =
      let m4 = decode bytes in if has_state 4 m4 then trusted (field 0x04 m4) proof c else none

  read_reply_m2 :
      (s : SrpServer crates) (c : SrpClient crates)
      → read_m2 (reply_m2 srp s) c ≡ some (process crates s.salt (public_b crates s) c)
  unfolding read_m2 get same_bytes
  read_reply_m2 s c =
      ap
        (λ (m2 : Option Tlv).
          if has_state 2 m2 then processed (field 0x02 m2) (field 0x03 m2) c else none)
        (decode-encode _ (refl, (refl, tt)))

  read_reply_m4 :
      (hamk proof : Bytes) (c : SrpClient crates)
      → read_m4 (reply_m4 srp hamk) proof c ≡ verify_hamk crates hamk proof c
  unfolding read_m4 get same_bytes
  read_reply_m4 hamk proof c =
      ap (λ (m4 : Option Tlv). if has_state 4 m4 then trusted (field 0x04 m4) proof c else none)
        (decode-encode _ (refl, tt))

  -- An exchange that ends with both sides holding the same secret: all that the sender knows of the
  -- receiver is the bytes that `handle` answers.
  pub record IsComplete (password random_s random_c random' : Bytes) : Type 0 where
    pub m2 : Bytes
    pub m4 : Bytes
    pub proof : Bytes
    pub client : SrpClient crates
    pub key : Bytes
    pub m1_answer :
        (handle srp random_s (encode m1_message) (new srp (some password))).0 ≡ continue m2
    pub m2_read : read_m2 m2 (new_client crates password random_c) ≡ some (proof, client)
    pub m3_answer :
        (handle srp random'
          (encode (m3_message (public_a crates (new_client crates password random_c)) proof))
          (handle srp random_s (encode m1_message) (new srp (some password))).1).0
        ≡ done m4 key
    pub m4_read : read_m4 m4 proof client ≡ some true
    pub same_key : client.session_key ≡ some key

  -- A sender that knows the password pairs: with the salt and the public key that it finds in the
  -- bytes of M2 it makes an M3 that takes the receiver to the end of the exchange, it accepts the
  -- proof that it finds in the bytes of M4, and the secret that the receiver hands out is the session
  -- key that the sender has, provided that the sender's public key is not 0 modulo the prime.
  pub pair_setup_completes :
      (password random_s random_c random' : Bytes)
      → ((new_client crates password random_c).big_a % group.0 == 0) ≡ false
      → IsComplete password random_s random_c random'
  pair_setup_completes password random_s random_c random' safe =
      let agreed = parties_agree crates laws password random_s random_c safe in
      let s = new_server crates password random_s in
      let c = new_client crates password random_c in
      let made = process crates s.salt (public_b crates s) c in
      record {
        m2 = reply_m2 srp s;
        m4 = reply_m4 srp agreed.hamk;
        proof = made.0;
        client = made.1;
        key = agreed.key;
        m1_answer = m1_answered password random_s;
        m2_read = read_reply_m2 s c;
        m3_answer =
            ap
              (λ (setup : PairSetup srp).
                (handle srp random' (encode (m3_message (public_a crates c) made.0)) setup).0)
              (m1_starts password random_s)
            ∙ m3_completes password random_s random' (public_a crates c) made.0 agreed.hamk
                agreed.key agreed.accepts agreed.server_key;
        m4_read = read_reply_m4 agreed.hamk made.0 made.1 ∙ agreed.trusts;
        same_key = agreed.client_key;
      }
