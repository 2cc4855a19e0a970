-- ===== src/Srp/Server.antt =====
-- `SrpServer` is what Pairing asks for (openairplay2/src/srp.rs).
use openairplay.Prelude.{
  [], ◌∷◌, ℕ, ◌%◌, ◌≡◌, refl, inl, inr, Bool, Bool-cases, true, false, ◌==◌, if◌then◌else◌, Option,
  none, some, Bytes,
}
use openairplay.Pairing.{Srp, SrpLaws}
use openairplay.Srp.{
  Crates, h, compute_hamk, compute_m1, username, constant_time_eq, SrpServer, new_server, public_b,
  check_proof, verify_key, verify,
}

abbrev pub srp_server : Crates → Srp
srp_server crates = record {
  Server = SrpServer crates;
  new = new_server crates;
  salt = λ s. s.salt;
  public_b = public_b crates;
  verify = verify crates;
  session_key = λ s. s.session_key;
}

module _ (crates : Crates) where
  -- What `verify` may do: fail and change nothing, or accept and store a key.
  abbrev pub IsVerdict : SrpServer crates → Option Bytes × SrpServer crates → Type 0
  IsVerdict s (none, s') = s' ≡ s
  IsVerdict s (some hamk, s') = (k : Bytes) × (s'.session_key ≡ some k)

  check_proof-IsVerdict :
      (a n : ℕ) (m1 : Bytes) (s : SrpServer crates) → IsVerdict s (check_proof crates a n m1 s)
  unfolding check_proof
  check_proof-IsVerdict a n m1 s = go (
      constant_time_eq
        (compute_m1 crates s.n s.g username s.salt a s.big_b (h crates (crates.to_bytes_be n ∷ [])))
        m1)
    where
      key : Bytes
      key = h crates (crates.to_bytes_be n ∷ [])

      go :
          (b : Bool)
          → IsVerdict s (
              if b
              then (some (compute_hamk crates a m1 key), record s { session_key = some key })
              else (none, s))
      go true = (key, refl)
      go false = refl

  pub verify-IsVerdict :
      (a_bytes m1 : Bytes) (s : SrpServer crates) → IsVerdict s (verify crates a_bytes m1 s)
  unfolding verify verify_key
  verify-IsVerdict a_bytes m1 s = elim (Bool-cases (crates.from_bytes_be a_bytes % s.n == 0)) [
    | inl zero ↦ rw zero refl
    | inr other ↦ rw other (check_proof-IsVerdict (crates.from_bytes_be a_bytes) _ m1 s)
  ]

  pub srp_server_laws : SrpLaws (srp_server crates)
  srp_server_laws = record {
    verify-key = λ a m1 hamk s s' e. let v = verify-IsVerdict a m1 s in rw e at v;
    verify-failed = λ a m1 s s' e. let v = verify-IsVerdict a m1 s in rw e at v;
  }
