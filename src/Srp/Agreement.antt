-- ===== src/Srp/Agreement.antt =====
-- Both sides of SRP agree (openairplay2/src/srp.rs).
use Prim.Native.Nat.{two, bit_xor, digits, differ, bit_xor-bitwise}
use openairplay.Prelude.{
  ℕ, zero, suc, ◌+◌, ◌-◌, ◌*◌, ◌/◌, ◌%◌, ◌^◌, ◌≤◌, ◌<◌, ◌≡◌, refl, sym, ap, ◌∙◌, true, false, ◌==◌,
  some, [], ◌∷◌, length, take, Bytes, arith,
}
use native.Mathlib.Nat.{mod-mod, mod-lt, mul_comm}
use openairplay.Srp.{
  username, group, modpow, differences, constant_time_eq, Crates, CratesLaws, h, compute_k,
  compute_u, compute_x, compute_hamk, SrpServer, server_over, new_server, public_b, check_proof,
  verify_key, verify, SrpClient, client_over, new_client, public_a, make_proof, process_key,
  process, verify_hamk,
}
use openairplay.Srp.Modular.{pow_add, pow_mul, mul-mod_of, pow-mod_of, base_mod}

-- The two ways to the same power: the server's, and the client's.
server_power :
    (g a x u b n : ℕ)
    → modpow (modpow g a n * modpow (modpow g x n) u n) b n ≡ g ^ (b * (a + u * x)) % n
server_power g a x u b n =
    pow-mod_of (modpow g a n * modpow (modpow g x n) u n) (g ^ (a + u * x)) b n (
      mul-mod_of (modpow g a n) (g ^ a) (modpow (modpow g x n) u n) (g ^ (u * x)) n
        (mod-mod (g ^ a) n)
        (mod-mod (modpow g x n ^ u) n
          ∙ pow-mod_of (modpow g x n) (g ^ x) u n (mod-mod (g ^ x) n)
          ∙ ap (λ (p : ℕ). p % n) (pow_mul g x u ∙ ap (λ (e : ℕ). g ^ e) (mul_comm x u)))
      ∙ ap (λ (p : ℕ). p % n) (sym (pow_add g a (u * x))))
    ∙ ap (λ (p : ℕ). p % n)
        (pow_mul g (a + u * x) b ∙ ap (λ (e : ℕ). g ^ e) (mul_comm (a + u * x) b))

client_power :
    (c g b e n : ℕ)
    → 0 < n
    → modpow (((c + modpow g b n) % n + n - c % n) % n) e n ≡ g ^ (b * e) % n
client_power c g b e n p =
    ap (λ (base : ℕ). modpow base e n) (base_mod c (modpow g b n) n (mod-lt (g ^ b) p))
    ∙ pow-mod_of (modpow g b n) (g ^ b) e n (mod-mod (g ^ b) n)
    ∙ ap (λ (q : ℕ). q % n) (pow_mul g b e)

-- A byte string is equal to itself, also in constant time.
differ_self : (x : ℕ) → differ x x ≡ 0
differ_self zero = refl
differ_self (suc x) = differ_self x

digits_self : (n a : ℕ) → a ≤ n → digits (λ b. b) differ n a a ≡ 0
digits_self zero a h = omega arith
digits_self (suc n) zero h = refl
digits_self (suc n) (suc a) h =
    rw (digits_self n (suc a / two) (omega arith), differ_self (suc a % two)) (omega arith)

bit_xor_self : (x : ℕ) → bit_xor x x ≡ 0
bit_xor_self x = bit_xor-bitwise x x ∙ digits_self x x (omega arith)

differences_self : (xs : Bytes) → differences 0 xs xs ≡ 0
unfolding differences
differences_self [] = refl
differences_self (x ∷ xs) = rw (bit_xor_self x) (differences_self xs)

equal_self : (n : ℕ) → (n == n) ≡ true
equal_self n = ground arith

constant_time_eq_self : (xs : Bytes) → constant_time_eq xs xs ≡ true
unfolding constant_time_eq
constant_time_eq_self xs = rw (equal_self (length xs), differences_self xs)

module _ (crates : Crates) (laws : CratesLaws crates) where
  -- Two parties over one password and one group.
  module _ (n g : ℕ) (password random_s random_c : Bytes) where
    abbrev server : SrpServer crates
    server = server_over crates (n, g) password random_s

    abbrev client : SrpClient crates
    client = client_over crates (n, g) password random_c

    abbrev x : ℕ
    x = compute_x crates (take 16 random_s) username password

    abbrev u : ℕ
    u = compute_u crates client.big_a server.big_b

    abbrev shared : ℕ
    shared = g ^ (server.b * (client.a + u * x)) % n

    abbrev key : Bytes
    key = h crates (crates.to_bytes_be shared ∷ [])

    abbrev proof : Bytes
    proof = (make_proof crates server.big_b shared server.salt client).0

    process_agrees :
        0 < n
        → process crates server.salt (public_b crates server) client
          ≡ make_proof crates server.big_b shared server.salt client
    unfolding process process_key
    process_agrees p =
        ap (λ (b : ℕ). process_key crates b server.salt client)
          (laws.from_bytes-to_bytes server.big_b)
        ∙ ap (λ (s : ℕ). make_proof crates server.big_b s server.salt client)
            (client_power (compute_k crates n g * modpow g x n) g server.b (client.a + u * x) n p)

    check_agrees : check_proof crates client.big_a shared proof server ≡ (
      some (compute_hamk crates client.big_a proof key),
      record server { session_key = some key },
    )
    unfolding check_proof make_proof
    check_agrees = rw (constant_time_eq_self proof)

    verify_agrees :
        ((client.big_a % n) == 0) ≡ false
        → verify crates (public_a crates client) proof server ≡ (
          some (compute_hamk crates client.big_a proof key),
          record server { session_key = some key },
        )
    unfolding verify verify_key
    verify_agrees safe =
        ap (λ (a : ℕ). verify_key crates a proof server) (laws.from_bytes-to_bytes client.big_a)
        ∙ rw safe (
            ap (λ (s : ℕ). check_proof crates client.big_a s proof server)
              (server_power g client.a x u server.b n)
            ∙ check_agrees)

  -- What a completed exchange leaves: the server accepts the client's proof, both sides hold the same
  -- key, and the client accepts the server's proof.
  pub record Agrees (server : SrpServer crates) (client : SrpClient crates) : Type 0 where
    pub key : Bytes
    pub hamk : Bytes
    pub accepts :
        (verify crates
          (public_a crates client)
          (process crates server.salt (public_b crates server) client).0
          server).0
        ≡ some hamk
    pub server_key :
        (verify crates
          (public_a crates client)
          (process crates server.salt (public_b crates server) client).0
          server).1.session_key
        ≡ some key
    pub client_key :
        (process crates server.salt (public_b crates server) client).1.session_key ≡ some key
    pub trusts :
        verify_hamk crates hamk
          (process crates server.salt (public_b crates server) client).0
          (process crates server.salt (public_b crates server) client).1
        ≡ some true

  Agrees-over :
      (n g : ℕ) (password random_s random_c : Bytes)
      → 0 < n
      → ((client n g password random_s random_c).big_a % n == 0) ≡ false
      → Agrees (server n g password random_s random_c) (client n g password random_s random_c)
  unfolding make_proof verify_hamk
  Agrees-over n g password random_s random_c p safe =
      let done = process_agrees n g password random_s random_c p in
      let checked = verify_agrees n g password random_s random_c safe in
      record {
        key = key n g password random_s random_c;
        hamk =
            compute_hamk crates (client n g password random_s random_c).big_a
              (proof n g password random_s random_c) (key n g password random_s random_c);
        accepts = rw (done, checked);
        server_key = rw (done, checked);
        client_key = rw done;
        trusts = rw (
          done,
          constant_time_eq_self (
              compute_hamk crates (client n g password random_s random_c).big_a
                (proof n g password random_s random_c) (key n g password random_s random_c)),
        );
      }

  group_positive : 0 < group.0
  unfolding group
  group_positive = omega arith

  -- A client and a server over the same password agree on the session key, and accept each other's
  -- proofs, whatever random numbers they draw, provided that the client's public key is not 0 modulo
  -- the prime.
  pub parties_agree :
      (password random_s random_c : Bytes)
      → ((new_client crates password random_c).big_a % group.0 == 0) ≡ false
      → Agrees (new_server crates password random_s) (new_client crates password random_c)
  parties_agree password random_s random_c safe =
      Agrees-over group.0 group.1 password random_s random_c group_positive safe
