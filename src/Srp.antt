-- ===== src/Srp.antt =====
-- openairplay2/src/srp.rs: SRP-6a as HomeKit has it, both sides. SHA-512 and the conversions of
-- `BigUint` are crates: parameters, with numbers in the place of `BigUint`.
pub mod Modular
pub mod Agreement
pub mod Server
pub mod Completes
mod Runs
use Prim.Native.Nat.{bit_xor, bit_or}
use openairplay.Prelude.{
  ℕ, zero, suc, ◌+◌, ◌-◌, ◌*◌, ◌%◌, ◌^◌, ◌≡◌, Bool, true, false, ◌&&◌, ◌==◌, if◌then◌else◌, Option,
  none, some, List, [], ◌∷◌, ◌++◌, length, take, drop, replicate, Bytes, same_bytes,
}

-- "Pair-Setup"
abbrev pub username : Bytes
username = b'P' ∷ b'a' ∷ b'i' ∷ b'r' ∷ b'-' ∷ b'S' ∷ b'e' ∷ b't' ∷ b'u' ∷ b'p' ∷ []

abbrev pub n_len : ℕ
n_len = 384

-- RFC 5054's prime of 3072 bits, and the generator.
unfoldable pub group : ℕ × ℕ
group = (
  0xFFFFFFFFFFFFFFFFC90FDAA22168C234C4C6628B80DC1CD129024E088A67CC74020BBEA63B139B22514A08798E3404DDEF9519B3CD3A431B302B0A6DF25F14374FE1356D6D51C245E485B576625E7EC6F44C42E9A637ED6B0BFF5CB6F406B7EDEE386BFB5A899FA5AE9F24117C4B1FE649286651ECE45B3DC2007CB8A163BF0598DA48361C55D39A69163FA8FD24CF5F83655D23DCA3AD961C62F356208552BB9ED529077096966D670C354E4ABC9804F1746C08CA18217C32905E462E36CE3BE39E772C180E86039B2783A2EC07A28FB5C55DF06F4C52C9DE2BCBF6955817183995497CEA956AE515D2261898FA051015728E5A8AAAC42DAD33170D04507A33A85521ABDF1CBA64ECFB850458DBEF0A8AEA71575D060C7DB3970F85A6E1E4C7ABF5AE8CDB0933D71E8C94E04A25619DCEE3D2261AD2EE6BF12FFA06D98A0864D87602733EC86A64521F2B18177B200CBBE117577A615D6C770988C0BAD946E208E24FA074E5AB3143DB5BFCE0FD108E4B82D120A93AD2CAFFFFFFFFFFFFFFFF,
  5,
)

-- `base.modpow(&exp, &n)`
abbrev pub modpow : ℕ → ℕ → ℕ → ℕ
modpow base exp n = base ^ exp % n

-- The parts that are hashed, one behind the other.
abbrev pub joined : List Bytes → Bytes
joined [] = []
joined (part ∷ parts) = part ++ joined parts

unfoldable pub xor_bytes : Bytes → Bytes → Bytes
xor_bytes (x ∷ xs) (y ∷ ys) = bit_xor x y ∷ xor_bytes xs ys
xor_bytes _ _ = []

-- The fold of `constant_time_eq`.
unfoldable pub differences : ℕ → Bytes → Bytes → ℕ
differences acc (x ∷ xs) (y ∷ ys) = differences (bit_or acc (bit_xor x y)) xs ys
differences acc _ _ = acc

unfoldable pub constant_time_eq : Bytes → Bytes → Bool
unfolding differences
constant_time_eq a b = length a == length b && differences 0 a b == 0

-- What the program uses of other crates.
pub record Crates : Type 0 where
  pub sha512 : Bytes → Bytes
  pub to_bytes_be : ℕ → Bytes
  pub from_bytes_be : Bytes → ℕ

pub record CratesLaws (crates : Crates) : Type 0 where
  pub from_bytes-to_bytes : (n : ℕ) → crates.from_bytes_be (crates.to_bytes_be n) ≡ n

module _ (crates : Crates) where
  abbrev pub h : List Bytes → Bytes
  h parts = crates.sha512 (joined parts)

  abbrev pub pad : ℕ → Bytes
  pad n = let bytes = crates.to_bytes_be n in replicate (n_len - length bytes) 0 ++ bytes

  abbrev pub compute_k : ℕ → ℕ → ℕ
  compute_k n g = crates.from_bytes_be (h (pad n ∷ pad g ∷ []))

  abbrev pub compute_u : ℕ → ℕ → ℕ
  compute_u a b = crates.from_bytes_be (h (pad a ∷ pad b ∷ []))

  abbrev pub compute_x : Bytes → Bytes → Bytes → ℕ
  compute_x salt user password =
      crates.from_bytes_be (h (salt ∷ h (user ∷ (b':' ∷ []) ∷ password ∷ []) ∷ []))

  abbrev pub compute_m1 : ℕ → ℕ → Bytes → Bytes → ℕ → ℕ → Bytes → Bytes
  compute_m1 n g user salt a b k_session =
      let h_xor = xor_bytes (h (crates.to_bytes_be n ∷ [])) (h (crates.to_bytes_be g ∷ [])) in
      h (
        h_xor ∷ h (user ∷ []) ∷ salt ∷ crates.to_bytes_be a ∷ crates.to_bytes_be b ∷ k_session ∷ [])

  abbrev pub compute_hamk : ℕ → Bytes → Bytes → Bytes
  compute_hamk a m1 k_session = h (crates.to_bytes_be a ∷ m1 ∷ k_session ∷ [])

  pub record SrpServer : Type 0 where
    pub n : ℕ
    pub g : ℕ
    pub salt : Bytes
    pub v : ℕ
    pub b : ℕ
    pub big_b : ℕ
    pub session_key : Option Bytes

  -- `SrpServer::new` over a group; of what the random number generator supplies, the first sixteen
  -- bytes are the salt and the next 32 the exponent.
  abbrev pub server_over : ℕ × ℕ → Bytes → Bytes → SrpServer
  server_over (n, g) password random =
      let salt = take 16 random in
      let x = compute_x salt username password in
      let v = modpow g x n in
      let k = compute_k n g in
      let b = crates.from_bytes_be (take 32 (drop 16 random)) in
      record {
        n = n;
        g = g;
        salt = salt;
        v = v;
        b = b;
        big_b = (k * v + modpow g b n) % n;
        session_key = none;
      }

  abbrev pub new_server : Bytes → Bytes → SrpServer
  new_server password random = server_over group password random

  abbrev pub public_b : SrpServer → Bytes
  public_b s = crates.to_bytes_be s.big_b

  -- The check of the proof, with the premaster secret, and both with the client's key.
  unfoldable pub check_proof : ℕ → ℕ → Bytes → SrpServer → Option Bytes × SrpServer
  unfolding constant_time_eq xor_bytes
  check_proof a s m1 server =
      let k_session = h (crates.to_bytes_be s ∷ []) in
      let expected = compute_m1 server.n server.g username server.salt a server.big_b k_session in
      if constant_time_eq expected m1
      then (some (compute_hamk a m1 k_session), record server { session_key = some k_session })
      else (none, server)

  unfoldable pub verify_key : ℕ → Bytes → SrpServer → Option Bytes × SrpServer
  unfolding check_proof
  verify_key a m1 server =
      let u = compute_u a server.big_b in
      let s = modpow (a * modpow server.v u server.n) server.b server.n in
      if a % server.n == 0 then (none, server) else check_proof a s m1 server

  -- `SrpServer::verify`
  unfoldable pub verify : Bytes → Bytes → SrpServer → Option Bytes × SrpServer
  unfolding verify_key
  verify a_bytes m1 server = verify_key (crates.from_bytes_be a_bytes) m1 server

  pub record SrpClient : Type 0 where
    pub n : ℕ
    pub g : ℕ
    pub a : ℕ
    pub big_a : ℕ
    pub password : Bytes
    pub session_key : Option Bytes

  abbrev pub client_over : ℕ × ℕ → Bytes → Bytes → SrpClient
  client_over (n, g) password random =
      let a = crates.from_bytes_be (take 32 random) in
      record { n = n; g = g; a = a; big_a = modpow g a n; password = password; session_key = none }

  abbrev pub new_client : Bytes → Bytes → SrpClient
  new_client password random = client_over group password random

  abbrev pub public_a : SrpClient → Bytes
  public_a c = crates.to_bytes_be c.big_a

  -- The proof, with the server's key and the premaster secret, and both with the server's key.
  unfoldable pub make_proof : ℕ → ℕ → Bytes → SrpClient → Bytes × SrpClient
  unfolding xor_bytes
  make_proof big_b s salt c =
      let k_session = h (crates.to_bytes_be s ∷ []) in
      (
        compute_m1 c.n c.g username salt c.big_a big_b k_session,
        record c { session_key = some k_session },
      )

  unfoldable pub process_key : ℕ → Bytes → SrpClient → Bytes × SrpClient
  unfolding make_proof
  process_key big_b salt c =
      let x = compute_x salt username c.password in
      let u = compute_u c.big_a big_b in
      let k = compute_k c.n c.g in
      let kgx = k * modpow c.g x c.n % c.n in
      let base = (big_b + c.n - kgx) % c.n in
      make_proof big_b (modpow base (c.a + u * x) c.n) salt c

  -- `SrpClient::process`
  unfoldable pub process : Bytes → Bytes → SrpClient → Bytes × SrpClient
  unfolding process_key
  process salt b_bytes c = process_key (crates.from_bytes_be b_bytes) salt c

  -- `SrpClient::verify_hamk`; without a session key it panics.
  unfoldable pub verify_hamk : Bytes → Bytes → SrpClient → Option Bool
  unfolding constant_time_eq
  verify_hamk hamk m1 c = elim c.session_key [
    | none ↦ none
    | some k ↦ some (constant_time_eq (compute_hamk c.big_a m1 k) hamk)
  ]
