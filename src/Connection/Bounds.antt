-- ===== src/Connection/Bounds.antt =====
-- How much of the stream a request takes at most.
use openairplay.Prelude.{
  ℕ, suc, ◌+◌, ◌-◌, ◌≡◌, ◌≤◌, refl, sym, ap, subst, ◌∙◌, inl, inr, Bool, ltb, Option, none, some,
  [], ◌∷◌, ◌++◌, append_assoc, length, take, take-append-drop, length-take, length-append, Bytes,
  is_utf8, arith, Bool-cases,
}
use openairplay.Prelude.Io.{IoResult, ok, err, ◌>>=◌}
use openairplay.Aead.{Aead}
use openairplay.Http.{Head, parse_head, content_length}
use openairplay.Connection.{
  ControlConnection, max_head, max_body, ends_blank, request_head, checked_length, read_request,
}
use openairplay.Connection.Upcoming.{Upcoming}
use openairplay.Connection.Stream.{
  Outcome, stream_exact, stream_head, stream_body, stream_rest, after_head, stream_request,
}
use openairplay.Connection.Requests.{read_request-Reads}

-- `rest` is what `s` leaves behind `n` bytes at most.
pub record Takes (n : ℕ) (s rest : Bytes) : Type 0 where
  pub taken : Bytes
  pub cut : s ≡ taken ++ rest
  pub few : length taken ≤ n

Takes-more : {n k : ℕ} {s rest : Bytes} → n ≤ k → Takes n s rest → Takes k s rest
Takes-more h t = record { taken = t.taken; cut = t.cut; few = omega (arith, t.few) }

Takes-then :
    {n k : ℕ} {s mid rest : Bytes} → Takes n s mid → Takes k mid rest → Takes (n + k) s rest
Takes-then {n} {k} {s} {mid} {rest} t u = record {
  taken = t.taken ++ u.taken;
  cut = t.cut ∙ ap (λ (x : Bytes). t.taken ++ x) u.cut ∙ sym (append_assoc t.taken u.taken rest);
  few = omega (arith, length-append t.taken u.taken, t.few, u.few);
}

Takes-byte : {n : ℕ} {b : ℕ} {s rest : Bytes} → Takes n s rest → Takes (suc n) (b ∷ s) rest
Takes-byte {n} {b} t = record {
  taken = b ∷ t.taken;
  cut = ap (λ (x : Bytes). b ∷ x) t.cut;
  few = omega (arith, t.few);
}

Takes-none : {n : ℕ} {s : Bytes} → Takes n s s
Takes-none = record { taken = []; cut = refl; few = omega arith }

-- The head takes what is missing to one byte more than its bound.
stream_head-Takes :
    (s head : Bytes)
    → length head ≤ max_head
    → Takes (max_head + 1 - length head) s (stream_head s head).1
unfolding stream_head
stream_head-Takes [] [] h = Takes-none
stream_head-Takes [] (c ∷ head) h = Takes-none
stream_head-Takes (b ∷ s) head h =
    let head' = head ++ b ∷ [] in
    let longer : length head' ≡ length head + 1 = length-append head (b ∷ []) in
    elim (Bool-cases (ends_blank head')) [
      | inl e ↦ rw e (Takes-more (omega arith) (Takes-byte (Takes-none {n = 0})))
      | inr e ↦ elim (Bool-cases (ltb max_head (length head'))) [
        | inl long ↦ rw (e, long) (Takes-more (omega arith) (Takes-byte (Takes-none {n = 0})))
        | inr short ↦
            rw (e, short)
              (Takes-more (omega arith) (Takes-byte (stream_head-Takes s head' (ground arith))))
      ]
    ]

stream_exact-Takes : (n : ℕ) (s : Bytes) → Takes n s (stream_exact n s).1
stream_exact-Takes n s = record {
  taken = take n s;
  cut = sym (take-append-drop n s);
  few = omega (arith, length-take n s);
}

checked_length_bounds :
    (h : Head) (declared : IoResult ℕ) (head : Head) (n : ℕ)
    → (declared >>= checked_length h) ≡ ok (head, n)
    → n ≤ max_body
checked_length_bounds h (ok len) head n e = ground arith
checked_length_bounds h (err x) head n e = cc

parsed_bounds :
    (parsed : IoResult Head) (head : Head) (n : ℕ)
    → (parsed >>= (λ h. content_length h.3 >>= checked_length h)) ≡ ok (head, n)
    → n ≤ max_body
parsed_bounds (ok h) head n e = checked_length_bounds h (content_length h.3) head n e
parsed_bounds (err x) head n e = cc

-- The length of a body is checked before the body is read.
pub request_head_bounds :
    (text : Bytes) (head : Head) (n : ℕ) → request_head text ≡ ok (head, n) → n ≤ max_body
unfolding request_head
request_head_bounds text head n e =
    let line = take (length text - 4) text in
    elim (Bool-cases (is_utf8 line)) [
      | inl good ↦ parsed_bounds (parse_head line) head n (ground arith)
      | inr bad ↦ absurd (ground arith)
    ]

stream_body-rest : (head : Head) (o : Outcome Bytes) → (stream_body head o).1 ≡ o.1
stream_body-rest head (ok body, s) = refl
stream_body-rest head (err e, s) = refl

stream_rest-Takes :
    (text s : Bytes) (parsed : IoResult (Head × ℕ))
    → request_head text ≡ parsed
    → Takes max_body s (stream_rest parsed s).1
stream_rest-Takes text s (err e) h = Takes-none
stream_rest-Takes text s (ok (head, n)) h =
    subst (λ (x : Bytes). Takes max_body s x) (sym (stream_body-rest head (stream_exact n s)))
      (Takes-more (request_head_bounds text head n h) (stream_exact-Takes n s))

after_head-Takes : (o : Outcome (Option Bytes)) → Takes max_body o.1 (after_head o).1
after_head-Takes (err e, s) = Takes-none
after_head-Takes (ok none, s) = Takes-none
after_head-Takes (ok (some text), s) = stream_rest-Takes text s (request_head text) refl

stream_request-Takes : (s : Bytes) → Takes (max_head + 1 + max_body) s (stream_request s).1
unfolding stream_request
stream_request-Takes s =
    Takes-then (stream_head-Takes s [] (omega arith)) (after_head-Takes (stream_head s []))

module _ (aead : Aead) (m : Bool) where
  -- Where the stream is in the clear, whatever bytes it has, or all the ciphertext that is there or
  -- arrives decrypts, one call of `read_request` takes no more of the plaintext than the bounds of a
  -- head (and one byte) and of a body, in success and in failure.
  pub read_request-Takes :
      (c : ControlConnection) (s : Bytes)
      → Upcoming aead m c s
      → (rest : Bytes) × Upcoming aead m (read_request aead c).1 rest
        × Takes (max_head + 1 + max_body) s rest
  read_request-Takes c s up =
      ((stream_request s).1, (read_request-Reads aead m c s up).rest, stream_request-Takes s)
