-- ===== src/Connection/Requests.antt =====
-- `read_request` reads the requests of the stream of plaintext.
use openairplay.Prelude.{
  ℕ, zero, suc, ◌+◌, ◌≡◌, ◌≤◌, refl, sym, subst, inl, inr, Bool, true, false, ltb, Option, none,
  some, [], ◌∷◌, ◌++◌, length, length-append, Bytes, arith, Bool-cases,
}
use openairplay.Prelude.Io.{IoResult, ok, err, invalid_data}
use openairplay.Aead.{Aead}
use openairplay.Http.{Head, Request, from_parts}
use openairplay.Connection.{
  ControlConnection, Reading, max_head, ends_blank, head_ended, unless_ended, extended, read_byte,
  read_head_loop, read_head, read_exact_n, request_head, body_of, request_of, read_request,
  and_then,
}
use openairplay.Connection.Upcoming.{Upcoming}
use openairplay.Connection.Stream.{
  Outcome, stream_byte, stream_exact, stream_head, stream_body, stream_rest, after_head,
  stream_request,
}
use openairplay.Connection.Refines.{Reads, read_byte-Reads}
use openairplay.Connection.Body.{read_exact_n-Reads}

-- The three ways a byte is taken into the head.
head_complete :
    (head : Bytes) (b : ℕ)
    → ends_blank (head ++ b ∷ []) ≡ true
    → head_ended (some b) head ≡ some (ok (some (head ++ b ∷ [])))
head_complete head b e = rw e

head_too_long :
    (head : Bytes) (b : ℕ)
    → ends_blank (head ++ b ∷ []) ≡ false
    → ltb max_head (length (head ++ b ∷ [])) ≡ true
    → head_ended (some b) head ≡ some (err invalid_data)
head_too_long head b e long = rw (e, long)

head_goes_on :
    (head : Bytes) (b : ℕ)
    → ends_blank (head ++ b ∷ []) ≡ false
    → ltb max_head (length (head ++ b ∷ [])) ≡ false
    → head_ended (some b) head ≡ none
head_goes_on head b e short = rw (e, short)

module _ (aead : Aead) (m : Bool) where
  -- What a round of the head's loop makes of its byte.
  abbrev head_round : ℕ → Bytes → Option ℕ → ControlConnection → Reading (Option Bytes)
  head_round fuel head byte c =
      unless_ended (λ (c' : ControlConnection). read_head_loop aead fuel (extended head byte) c')
        (head_ended byte head) c

  -- The later rounds.
  abbrev Goes : ℕ → Type 0
  Goes fuel =
      (head : Bytes) (c : ControlConnection) (s : Bytes)
      → length head ≤ max_head
      → max_head + 2 ≤ length head + fuel
      → Upcoming aead m c s
      → Reads aead m (read_head_loop aead fuel head c) (stream_head s head)

  head_end-Reads :
      (fuel : ℕ) (head : Bytes) (c : ControlConnection)
      → Upcoming aead m c []
      → Reads aead m (head_round fuel head none c) (stream_head [] head)
  unfolding stream_head
  head_end-Reads fuel [] c up = record { result = refl; rest = up }
  head_end-Reads fuel (h ∷ head) c up = record { result = refl; rest = up }

  head_byte-Reads :
      (fuel : ℕ) (head : Bytes) (b : ℕ) (c : ControlConnection) (s : Bytes)
      → Goes fuel
      → max_head + 2 ≤ length head + suc fuel
      → Upcoming aead m c s
      → Reads aead m (head_round fuel head (some b) c) (stream_head (b ∷ s) head)
  unfolding stream_head
  head_byte-Reads fuel head b c s ih h up =
      let head' = head ++ b ∷ [] in
      elim (Bool-cases (ends_blank head')) [
        | inl e ↦ rw (head_complete head b e, e) (record { result = refl; rest = up })
        | inr e ↦ elim (Bool-cases (ltb max_head (length head'))) [
          | inl long ↦
              rw (head_too_long head b e long, e, long) (record { result = refl; rest = up })
          | inr short ↦
              rw (head_goes_on head b e short, e, short)
                (ih head' c s (ground arith) (omega (arith, length-append head (b ∷ []))) up)
        ]
      ]

  head_round-Reads :
      (fuel : ℕ) (head s : Bytes) (r : Reading (Option ℕ))
      → Goes fuel
      → max_head + 2 ≤ length head + suc fuel
      → Reads aead m r (stream_byte s)
      → Reads aead m (and_then r (head_round fuel head)) (stream_head s head)
  head_round-Reads fuel head [] (result, c) ih h reads =
      subst
        (λ (x : IoResult (Option ℕ)).
          Reads aead m (and_then (x, c) (head_round fuel head)) (stream_head [] head))
        (sym reads.result) (head_end-Reads fuel head c reads.rest)
  head_round-Reads fuel head (b ∷ s) (result, c) ih h reads =
      subst
        (λ (x : IoResult (Option ℕ)).
          Reads aead m (and_then (x, c) (head_round fuel head)) (stream_head (b ∷ s) head))
        (sym reads.result) (head_byte-Reads fuel head b c s ih h reads.rest)

  read_head_loop-Reads : (fuel : ℕ) → Goes fuel
  unfolding read_head_loop
  read_head_loop-Reads zero head c s short h up = absurd (omega arith)
  read_head_loop-Reads (suc fuel) head c s short h up =
      head_round-Reads fuel head s (read_byte aead c) (read_head_loop-Reads fuel) h
        (read_byte-Reads aead m c s up)

  -- The head of a request, up to the blank line; the fuel is enough.
  pub read_head-Reads :
      (c : ControlConnection) (s : Bytes)
      → Upcoming aead m c s
      → Reads aead m (read_head aead c) (stream_head s [])
  unfolding read_head
  read_head-Reads c s up = read_head_loop-Reads (max_head + 2) [] c s (omega arith) (omega arith) up

  abbrev with_head : Head → Bytes → ControlConnection → Reading (Option Request)
  with_head head body c = (ok (some (from_parts head body)), c)

  body-Reads :
      (head : Head) (r : Reading Bytes) (o : Outcome Bytes)
      → Reads aead m r o
      → Reads aead m (and_then r (with_head head)) (stream_body head o)
  body-Reads head (ok body, c) (ok body', s) reads = record {
    result = cc (reads.result);
    rest = reads.rest;
  }
  body-Reads head (err e, c) (err e', s) reads = record {
    result = cc (reads.result);
    rest = reads.rest;
  }
  body-Reads head (ok body, c) (err e', s) reads = cc (reads.result)
  body-Reads head (err e, c) (ok body', s) reads = cc (reads.result)

  body_of-Reads :
      (parsed : IoResult (Head × ℕ)) (c : ControlConnection) (s : Bytes)
      → Upcoming aead m c s
      → Reads aead m (body_of aead parsed c) (stream_rest parsed s)
  body_of-Reads (err e) c s up = record { result = refl; rest = up }
  body_of-Reads (ok (head, len)) c s up =
      body-Reads head (read_exact_n aead len c) (stream_exact len s)
        (read_exact_n-Reads aead m len c s up)

  request-Reads :
      (r : Reading (Option Bytes)) (o : Outcome (Option Bytes))
      → Reads aead m r o
      → Reads aead m (and_then r (request_of aead)) (after_head o)
  request-Reads (ok none, c) (ok none, s) reads = record { result = refl; rest = reads.rest }
  request-Reads (ok (some head), c) (ok (some head'), s) reads =
      subst
        (λ (h : Bytes).
          Reads aead m (body_of aead (request_head head) c) (stream_rest (request_head h) s))
        (cc (reads.result)) (body_of-Reads (request_head head) c s reads.rest)
  request-Reads (err e, c) (err e', s) reads = record {
    result = cc (reads.result);
    rest = reads.rest;
  }
  request-Reads (ok none, c) (ok (some h), s) reads = cc (reads.result)
  request-Reads (ok (some h), c) (ok none, s) reads = cc (reads.result)
  request-Reads (ok x, c) (err e, s) reads = cc (reads.result)
  request-Reads (err e, c) (ok x, s) reads = cc (reads.result)

  -- A connection whose plaintext is `s`, in the clear or encrypted and in whatever pieces it
  -- arrives, reads the request that stands first in `s`, or fails as `s` says, and what is upcoming
  -- then is the rest of `s`.
  pub read_request-Reads :
      (c : ControlConnection) (s : Bytes)
      → Upcoming aead m c s
      → Reads aead m (read_request aead c) (stream_request s)
  unfolding read_request stream_request
  read_request-Reads c s up =
      request-Reads (read_head aead c) (stream_head s []) (read_head-Reads c s up)
