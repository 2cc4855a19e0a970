-- ===== src/Http/Framing.antt =====
-- What `Response::to_bytes` writes, as a sender reads it: a head up to the first blank line, then as
-- many bytes as its `Content-Length` says.
use openairplay.Prelude.{
  ℕ, ◌≡◌, ◌≤◌, refl, sym, ap, ◌∙◌, false, Option, none, some, List, [], ◌∷◌, ◌++◌, append_assoc,
  length, take, drop, take-append, drop-append, All, All-append, Bytes, ascii, cr, lf, split_lines,
  leb, if◌then◌else◌, to_decimal, max_usize, parse_usize-to_decimal, prepend_left, is_empty,
  length-append, IsDigit, IsSolid, trim_solid, to_decimal-IsDigit, arith,
}
use openairplay.Prelude.Io.{IoResult, ok, err, unexpected_eof, ◌>>=◌}
use openairplay.Http.{
  Headers, Response, header_line, header_lines, to_bytes, parse_headers, content_length, get,
  declared, counted, crlf,
}
use openairplay.Http.Lines.{
  Lacks, split_blank, split_blank_line, split_blank_line_end, split_blank_here,
}
use openairplay.Http.Head.{
  IsPlain, plain_line, plain_line-Lacks, plain_lines, after_line, split_lines_head,
  parse_headers_lines,
}

-- A sender's reader of one response: its headers, its body, and the bytes behind it.
abbrev tail_lines : List Bytes → List Bytes
tail_lines [] = []
tail_lines (line ∷ lines) = lines

abbrev take_body : Headers → Bytes → ℕ → IoResult (Headers × Bytes × Bytes)
take_body headers rest n =
    if leb n (length rest) then ok (headers, take n rest, drop n rest) else err unexpected_eof

abbrev receive_after : Option (Bytes × Bytes) → IoResult (Headers × Bytes × Bytes)
receive_after none = err unexpected_eof
receive_after (some (head, rest)) = parse_headers (tail_lines (split_lines head)) >>= λ headers.
    content_length headers >>= take_body headers rest

pub receive_response : Bytes → IoResult (Headers × Bytes × Bytes)
unfolding split_blank split_lines parse_headers content_length
receive_response s = receive_after (split_blank s)

abbrev pub length_header : Response → Bytes × Bytes
length_header r = (ascii "Content-Length", to_decimal (length r.body))

abbrev pub all_headers : Response → Headers
all_headers r = r.headers ++ length_header r ∷ []

abbrev status_line : Response → Bytes
status_line r = r.protocol ++ ascii " " ++ to_decimal r.status ++ ascii " " ++ r.reason

-- What the server's responses have: a status line, headers with names that a sender can read back,
-- and no length of their own.
pub record IsWellFormed (r : Response) : Type 0 where
  pub protocol_line : Lacks cr r.protocol
  pub reason_line : Lacks cr r.reason
  pub plain : All IsPlain r.headers
  pub named : All (λ (h : Bytes × Bytes). is_empty h.0 ≡ false) r.headers
  pub no_length : get r.headers (ascii "Content-Length") ≡ none
  pub fits : length r.body ≤ max_usize

IsDigit-ne-cr : (s : Bytes) → All IsDigit s → Lacks cr s
IsDigit-ne-cr [] h = tt
IsDigit-ne-cr (c ∷ s) (h, hs) = (omega arith, IsDigit-ne-cr s hs)

status_line-Lacks : (r : Response) → IsWellFormed r → Lacks cr (status_line r)
status_line-Lacks r w =
    All-append _ (r.protocol ++ ascii " " ++ to_decimal r.status ++ ascii " ") r.reason
      (All-append _ (r.protocol ++ ascii " " ++ to_decimal r.status) (ascii " ")
        (All-append _ (r.protocol ++ ascii " ") (to_decimal r.status)
          (All-append _ r.protocol (ascii " ") w.protocol_line (cc, tt))
          (IsDigit-ne-cr _ (to_decimal-IsDigit r.status)))
        (cc, tt))
      w.reason_line

IsDigit-IsSolid : (s : Bytes) → All IsDigit s → All IsSolid s
IsDigit-IsSolid [] h = tt
IsDigit-IsSolid (c ∷ s) (h, hs) = ((ground arith, omega arith), IsDigit-IsSolid s hs)

length_name-IsSolid : All IsSolid (ascii "Content-Length")
length_name-IsSolid = ground arith

length_header-IsPlain : (r : Response) → IsPlain (length_header r)
length_header-IsPlain r = record {
  name_line = omega arith;
  name_colon = omega arith;
  name_trimmed = trim_solid (ascii "Content-Length") length_name-IsSolid;
  value_line = IsDigit-ne-cr _ (to_decimal-IsDigit (length r.body));
  value_trimmed = trim_solid _ (IsDigit-IsSolid _ (to_decimal-IsDigit (length r.body)));
}

header_lines-append : (a b : Headers) → header_lines (a ++ b) ≡ header_lines a ++ header_lines b
unfolding header_lines
header_lines-append [] b = refl
header_lines-append (h ∷ a) b =
    ap (λ (s : Bytes). header_line h ++ s) (header_lines-append a b)
    ∙ sym (append_assoc (header_line h) (header_lines a) (header_lines b))

header_lines-after_line : (hs : Headers) → crlf ++ header_lines hs ≡ after_line hs ++ crlf
unfolding header_lines
header_lines-after_line [] = refl
header_lines-after_line (h ∷ hs) =
    ap (λ (s : Bytes). cr ∷ lf ∷ s)
      (append_assoc (plain_line h) crlf (header_lines hs)
        ∙ ap (λ (s : Bytes). plain_line h ++ s) (header_lines-after_line hs)
        ∙ sym (append_assoc (plain_line h) (after_line hs) crlf))

-- A head and the blank line behind it.
pub split_blank_head :
    (line : Bytes) (headers : Headers) (s : Bytes)
    → Lacks cr line
    → All IsPlain headers
    → All (λ (h : Bytes × Bytes). is_empty h.0 ≡ false) headers
    → split_blank (line ++ (after_line headers ++ cr ∷ lf ∷ cr ∷ lf ∷ s))
      ≡ some (line ++ after_line headers, s)
split_blank_head line [] s h hs ns =
    split_blank_line line _ h ∙ ap (prepend_left line) (split_blank_here s)
split_blank_head line (([], value) ∷ headers) s h hs (n, ns) = cc
split_blank_head line ((c ∷ name, value) ∷ headers) s h (p, hs) (n, ns) =
    let plain = plain_line (c ∷ name, value) in
    split_blank_line line _ h
    ∙ ap (prepend_left line) (
        ap (λ (t : Bytes). split_blank (cr ∷ lf ∷ t))
          (append_assoc plain (after_line headers) (cr ∷ lf ∷ cr ∷ lf ∷ s))
        ∙ split_blank_line_end c _ p.name_line.0
        ∙ ap (prepend_left crlf)
            (split_blank_head plain headers s (plain_line-Lacks (c ∷ name, value) p) hs ns))

to_bytes_lines :
    (r : Response) (rest : Bytes)
    → to_bytes r ++ rest
      ≡ status_line r ++ ((crlf ++ header_lines (all_headers r)) ++ (crlf ++ (r.body ++ rest)))
unfolding to_bytes header_lines
to_bytes_lines r rest = simp (header_lines-append, append_assoc)

body_there :
    (r : Response) (rest : Bytes)
    → take_body (all_headers r) (r.body ++ rest) (length r.body) ≡ ok (all_headers r, r.body, rest)
body_there r rest =
    rw (take-append r.body rest, drop-append r.body rest)
      (ground (arith, length-append r.body rest))

-- The bytes of a response: the status line, the headers with the length, a blank line, the body.
to_bytes_parts :
    (r : Response) (rest : Bytes)
    → to_bytes r ++ rest
      ≡ status_line r ++ (after_line (all_headers r) ++ cr ∷ lf ∷ cr ∷ lf ∷ (r.body ++ rest))
unfolding to_bytes
to_bytes_parts r rest =
    to_bytes_lines r rest
    ∙ ap (λ (s : Bytes). status_line r ++ (s ++ (crlf ++ (r.body ++ rest))))
        (header_lines-after_line (all_headers r))
    ∙ ap (λ (s : Bytes). status_line r ++ s)
        (append_assoc (after_line (all_headers r)) crlf (crlf ++ (r.body ++ rest)))

read_status_line :
    (r : Response)
    → IsWellFormed r
    → split_lines (status_line r ++ after_line (all_headers r))
      ≡ status_line r ∷ plain_lines (all_headers r)
read_status_line r w =
    split_lines_head (status_line r) (all_headers r) (status_line-Lacks r w)
      (All-append IsPlain r.headers _ w.plain (length_header-IsPlain r, tt))

get-append_none :
    (headers more : Headers) (name : Bytes)
    → get headers name ≡ none
    → get (headers ++ more) name ≡ get more name
unfolding get
get-append_none [] more name h = refl
get-append_none ((k, v) ∷ headers) more name h = ground (arith, get-append_none headers more name)

content_length_all :
    (r : Response) → IsWellFormed r → content_length (all_headers r) ≡ ok (length r.body)
unfolding content_length
content_length_all r w =
    ap declared
      (get-append_none r.headers (length_header r ∷ []) (ascii "Content-Length") w.no_length)
    ∙ ap counted (parse_usize-to_decimal (length r.body) w.fits)

-- A sender that reads what the server writes for a response, and whatever follows it on the stream,
-- finds the response's headers with the length added, exactly its body, and the rest untouched.
pub receive_response-to_bytes :
    (r : Response) (rest : Bytes)
    → IsWellFormed r
    → receive_response (to_bytes r ++ rest) ≡ ok (all_headers r, r.body, rest)
unfolding receive_response
receive_response-to_bytes r rest w =
    ap (λ (s : Bytes). receive_after (split_blank s)) (to_bytes_parts r rest)
    ∙ ap receive_after (
        split_blank_head (status_line r) (all_headers r) (r.body ++ rest) (status_line-Lacks r w)
          (All-append IsPlain r.headers _ w.plain (length_header-IsPlain r, tt))
          (All-append _ r.headers _ w.named (refl, tt)))
    ∙ rw
        (
          read_status_line r w,
          parse_headers_lines (all_headers r)
              (All-append IsPlain r.headers _ w.plain (length_header-IsPlain r, tt)),
          content_length_all r w,
        )
        (body_there r rest)
