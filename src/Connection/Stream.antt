-- ===== src/Connection/Stream.antt =====
-- What a control connection promises: the plaintext is a stream of bytes, of which a request takes
-- a head and a body.
use openairplay.Prelude.{
  ℕ, ltb, leb, if◌then◌else◌, Option, none, some, [], ◌∷◌, ◌++◌, length, take, drop, head?, Bytes,
}
use openairplay.Prelude.Io.{IoResult, ok, err, invalid_data, unexpected_eof}
use openairplay.Http.{Head, Request, from_parts}
use openairplay.Connection.{ends_blank, max_head, request_head}

abbrev pub Outcome : Type 0 → Type 0
Outcome A = IoResult A × Bytes

abbrev pub stream_byte : Bytes → Outcome (Option ℕ)
stream_byte s = (ok (head? s), drop 1 s)

abbrev pub stream_exact : ℕ → Bytes → Outcome Bytes
stream_exact n s = (if leb n (length s) then ok (take n s) else err unexpected_eof, drop n s)

-- The bytes up to the first blank line, behind those (the second argument) that were read.
unfoldable pub stream_head : Bytes → Bytes → Outcome (Option Bytes)
stream_head [] [] = (ok none, [])
stream_head [] (h ∷ head) = (err unexpected_eof, [])
stream_head (b ∷ s) head =
    let head' = head ++ b ∷ [] in
    let later = stream_head s head' in
    if ends_blank head'
    then (ok (some head'), s)
    else if ltb max_head (length head')
    then (err invalid_data, s)
    else later

abbrev pub stream_body : Head → Outcome Bytes → Outcome (Option Request)
stream_body head (ok body, s) = (ok (some (from_parts head body)), s)
stream_body head (err e, s) = (err e, s)

abbrev pub stream_rest : IoResult (Head × ℕ) → Bytes → Outcome (Option Request)
stream_rest (err e) s = (err e, s)
stream_rest (ok (head, len)) s = stream_body head (stream_exact len s)

abbrev pub after_head : Outcome (Option Bytes) → Outcome (Option Request)
after_head (err e, s) = (err e, s)
after_head (ok none, s) = (ok none, s)
after_head (ok (some head), s) = stream_rest (request_head head) s

unfoldable pub stream_request : Bytes → Outcome (Option Request)
unfolding stream_head request_head
stream_request s = after_head (stream_head s [])
