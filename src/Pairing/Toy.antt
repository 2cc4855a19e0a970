-- ===== src/Pairing/Toy.antt =====
-- An SRP server that compares the proof with the password, for the concrete runs.
use openairplay.Prelude.{
  ap, sym, ◌≡◌, Bool, true, false, Option, none, some, [], ◌∷◌, Bytes, same_bytes,
}
use openairplay.Pairing.{Srp, SrpLaws}

abbrev pub compare_proof :
    Bool → Bytes → Bytes × Option Bytes → Option Bytes × (Bytes × Option Bytes)
compare_proof true a (password, key) = (some a, (password, some a))
compare_proof false a server = (none, server)

-- A server is the password and the session key.
abbrev pub toy_srp : Srp
toy_srp = record {
  Server = Bytes × Option Bytes;
  new = λ password random. (password, none);
  salt = λ server. 1 ∷ [];
  public_b = λ server. 2 ∷ [];
  verify = λ a m1 server. compare_proof (same_bytes m1 server.0) a server;
  session_key = λ server. server.1;
}

compare_proof-key :
    (b : Bool) (a hamk : Bytes) (s s' : Bytes × Option Bytes)
    → compare_proof b a s ≡ (some hamk, s')
    → (k : Bytes) × (s'.1 ≡ some k)
compare_proof-key true a hamk (password, key) s' e =
    (a, ap (λ (r : Option Bytes × (Bytes × Option Bytes)). r.1.1) (sym e))
compare_proof-key false a hamk s s' e = cc

compare_proof-same :
    (b : Bool) (a : Bytes) (s s' : Bytes × Option Bytes) → compare_proof b a s ≡ (none, s') → s' ≡ s
compare_proof-same true a (password, key) s' e = cc
compare_proof-same false a s s' e = ap (λ (r : Option Bytes × (Bytes × Option Bytes)). r.1) (sym e)

pub toy_srp_laws : SrpLaws toy_srp
toy_srp_laws = record {
  verify-key = λ a m1 hamk s s' e. compare_proof-key (same_bytes m1 s.0) a hamk s s' e;
  verify-failed = λ a m1 s s' e. compare_proof-same (same_bytes m1 s.0) a s s' e;
}
