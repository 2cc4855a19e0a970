-- ===== src/Http/Head.antt =====
-- The head of a request as a sender writes it, and what `parse_head` makes of it.
use openairplay.Prelude.{
  ℕ, ◌≡◌, refl, ap, ◌∙◌, Bool, true, false, not, ◌&&◌, ◌||◌, List, [], ◌∷◌, ◌++◌, append_assoc,
  append-nil, All, All-append, Bytes, ascii, cr, lf, split_lines, starts_with, trim, is_empty,
}
use openairplay.Prelude.Io.{IoResult, ok}
use openairplay.Http.{
  Headers, Head, request_parts, then_split, checked_parts, parse_header, trimmed, three,
  parse_headers, parse_head,
}
use openairplay.Http.Lines.{Lacks, split_once-append, split_lines_line, split_lines-append}

-- A header that its line gives back: no colon in the name, no line end, no white space around.
pub record IsPlain (h : Bytes × Bytes) : Type 0 where
  pub name_line : Lacks cr h.0
  pub name_colon : Lacks 58 h.0
  pub name_trimmed : trim h.0 ≡ h.0
  pub value_line : Lacks cr h.1
  pub value_trimmed : trim h.1 ≡ h.1

abbrev pub plain_line : Bytes × Bytes → Bytes
plain_line (name, value) = name ++ ascii ": " ++ value

abbrev pub plain_lines : Headers → List Bytes
plain_lines [] = []
plain_lines (h ∷ headers) = plain_line h ∷ plain_lines headers

trim_space : (v : Bytes) → trim (32 ∷ v) ≡ trim v
unfolding trim
trim_space [] = refl
trim_space (b ∷ []) = refl
trim_space (b ∷ c ∷ s) = refl

plain_line_cons : (name value : Bytes) → name ++ ascii ": " ++ value ≡ name ++ 58 ∷ 32 ∷ value
plain_line_cons name value = append_assoc name (ascii ": ") value

is_empty_line : (p : Bytes) (c : ℕ) (s : Bytes) → is_empty (p ++ c ∷ s) ≡ false
is_empty_line [] c s = refl
is_empty_line (b ∷ p) c s = refl

parse_header_line : (h : Bytes × Bytes) → IsPlain h → parse_header (h.0 ++ 58 ∷ 32 ∷ h.1) ≡ ok h
parse_header_line (name, value) p =
    ap trimmed (split_once-append 58 name (32 ∷ value) p.name_colon)
    ∙ ap (λ (v : Bytes). let header : IoResult (Bytes × Bytes) = ok (trim name, v) in header)
        (trim_space value ∙ p.value_trimmed)
    ∙ ap (λ (n : Bytes). let header : IoResult (Bytes × Bytes) = ok (n, value) in header)
        p.name_trimmed

-- Header lines are read back, all of them and in their order.
pub parse_headers_lines :
    (headers : Headers) → All IsPlain headers → parse_headers (plain_lines headers) ≡ ok headers
unfolding parse_headers
parse_headers_lines [] h = refl
parse_headers_lines ((name, value) ∷ headers) (h, hs) = rw (
  plain_line_cons name value,
  is_empty_line name 58 (32 ∷ value),
  parse_header_line (name, value) h,
  parse_headers_lines headers hs,
)

-- Each header on a line of its own, behind a line end.
abbrev pub after_line : Headers → Bytes
after_line [] = []
after_line (h ∷ headers) = cr ∷ lf ∷ (plain_line h ++ after_line headers)

pub plain_line-Lacks : (h : Bytes × Bytes) → IsPlain h → Lacks cr (plain_line h)
plain_line-Lacks (name, value) p =
    All-append _ (name ++ ascii ": ") value
      (All-append _ name (ascii ": ") p.name_line (cc, (cc, tt))) p.value_line

-- The lines of a head are the request line and the headers' lines.
pub split_lines_head :
    (line : Bytes) (headers : Headers)
    → Lacks cr line
    → All IsPlain headers
    → split_lines (line ++ after_line headers) ≡ line ∷ plain_lines headers
split_lines_head line [] h hs = rw append-nil (split_lines_line line h)
split_lines_head line (x ∷ headers) h (p, ps) =
    split_lines-append line (plain_line x ++ after_line headers) h
    ∙ ap (λ (lines : List Bytes). line ∷ lines)
        (split_lines_head (plain_line x) headers (plain_line-Lacks x p) ps)

-- The method, the target and the protocol of a request line.
pub record IsRequestLine (method target protocol : Bytes) : Type 0 where
  pub method_some : is_empty method ≡ false
  pub method_word : Lacks 32 method
  pub method_line : Lacks cr method
  pub target_word : Lacks 32 target
  pub target_line : Lacks cr target
  pub protocol_line : Lacks cr protocol
  pub known : (starts_with protocol (ascii "HTTP/") || starts_with protocol (ascii "RTSP/")) ≡ true

abbrev pub request_line : Bytes → Bytes → Bytes → Bytes
request_line method target protocol = method ++ 32 ∷ (target ++ 32 ∷ protocol)

-- A head, as a sender prints it, without the blank line behind it.
abbrev pub print_head : Head → Bytes
print_head (method, target, protocol, headers) =
    request_line method target protocol ++ after_line headers

pub request_line-Lacks :
    {method target protocol : Bytes}
    → IsRequestLine method target protocol
    → Lacks cr (request_line method target protocol)
request_line-Lacks {method} {target} {protocol} r =
    All-append _ method _ r.method_line
      (cc, All-append _ target _ r.target_line (cc, r.protocol_line))

known_either : (a b : Bool) → (a || b) ≡ true → (not a && not b) ≡ false
known_either true b h = refl
known_either false true h = refl
known_either false false h = cc

checked_request_line :
    {method target protocol : Bytes}
    → IsRequestLine method target protocol
    → checked_parts (request_parts (request_line method target protocol))
      ≡ ok (method, target, protocol)
unfolding request_parts
checked_request_line {method} {target} {protocol} r =
    ap (λ o. checked_parts (then_split o))
      (split_once-append 32 method (target ++ 32 ∷ protocol) r.method_word)
    ∙ ap (λ o. checked_parts (three method o)) (split_once-append 32 target protocol r.target_word)
    ∙ rw (
      r.method_some,
      known_either (starts_with protocol (ascii "HTTP/")) (starts_with protocol (ascii "RTSP/"))
          r.known,
    )

-- `parse_head` gives back the method, the target, the protocol and the headers of a head that a
-- sender prints: the request line has words without blanks, the protocol is HTTP or RTSP, and no
-- header holds a line end, a colon in its name or white space around its parts.
pub parse_head-print_head :
    (method target protocol : Bytes) (headers : Headers)
    → IsRequestLine method target protocol
    → All IsPlain headers
    → parse_head (print_head (method, target, protocol, headers))
      ≡ ok (method, target, protocol, headers)
unfolding parse_head
parse_head-print_head method target protocol headers r hs = rw (
  split_lines_head (request_line method target protocol) headers (request_line-Lacks r) hs,
  checked_request_line r,
  parse_headers_lines headers hs,
)
