-- ===== src/Aead/Toy.antt =====
-- A cipher that satisfies the assumed laws, for the concrete runs: its tag is not a secret.
use openairplay.Prelude.{
  ℕ, ◌≡◌, refl, ap, sym, ◌∙◌, Bool-cases, inl, inr, Option, none, some, ◌++◌, length, take, drop,
  take-append, drop-append, take-append-drop, length-append, length-take, replicate, if◌then◌else◌,
  same_bytes, same_bytes_iff, Bytes, arith,
}
use openairplay.Aead.{Aead, AeadLaws}

-- The tag is made of the nonce, the associated data and the key, and stands in front.
unfoldable pub tag : Bytes → Bytes → Bytes → Bytes
tag key nonce aad = take 16 (nonce ++ (aad ++ (key ++ replicate 16 0)))

unfoldable pub toy_decrypt : Bytes → Bytes → Bytes → Bytes → Option Bytes
unfolding tag same_bytes
toy_decrypt key nonce aad ct =
    if same_bytes (take 16 ct) (tag key nonce aad) then some (drop 16 ct) else none

abbrev pub toy_aead : Aead
toy_aead = record { encrypt = λ key nonce aad msg. tag key nonce aad ++ msg; decrypt = toy_decrypt }

length-tag : (key nonce aad : Bytes) → length (tag key nonce aad) ≡ 16
unfolding tag
length-tag key nonce aad = omega (
  arith,
  length-take 16 (nonce ++ (aad ++ (key ++ replicate 16 0))),
  length-append nonce (aad ++ (key ++ replicate 16 0)),
  length-append aad (key ++ replicate 16 0),
  length-append key (replicate 16 0),
)

toy_decrypt-encrypt :
    (key nonce aad msg : Bytes) → toy_decrypt key nonce aad (tag key nonce aad ++ msg) ≡ some msg
unfolding toy_decrypt
toy_decrypt-encrypt key nonce aad msg =
    let t = tag key nonce aad in
    let head : take 16 (t ++ msg) ≡ t =
      ap (λ (n : ℕ). take n (t ++ msg)) (sym (length-tag key nonce aad)) ∙ take-append t msg in
    let rest : drop 16 (t ++ msg) ≡ msg =
      ap (λ (n : ℕ). drop n (t ++ msg)) (sym (length-tag key nonce aad)) ∙ drop-append t msg in
    rw (head, rest, (same_bytes_iff t t).1 refl)

toy_encrypt-decrypt :
    (key nonce aad ct msg : Bytes)
    → toy_decrypt key nonce aad ct ≡ some msg
    → ct ≡ tag key nonce aad ++ msg
unfolding toy_decrypt
toy_encrypt-decrypt key nonce aad ct msg e =
    let t = tag key nonce aad in
    elim (Bool-cases (same_bytes (take 16 ct) t)) [
      | inl same ↦
          let rest : drop 16 ct ≡ msg = ground arith in
          sym (take-append-drop 16 ct)
          ∙ ap (λ (r : Bytes). r ++ drop 16 ct) ((same_bytes_iff (take 16 ct) t).0 same)
          ∙ ap (λ (r : Bytes). t ++ r) rest
      | inr differ ↦ absurd (ground arith)
    ]

pub toy_laws : AeadLaws toy_aead
toy_laws = record {
  decrypt-encrypt = toy_decrypt-encrypt;
  length-encrypt = λ key nonce aad msg.
      omega (arith, length-append (tag key nonce aad) msg, length-tag key nonce aad);
  encrypt-decrypt = toy_encrypt-decrypt;
}
