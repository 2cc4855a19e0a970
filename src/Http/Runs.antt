-- ===== src/Http/Runs.antt =====
-- Heads and responses at concrete inputs.
use openairplay.Prelude.{
  ◌≡◌, refl, [], ◌∷◌, ◌++◌, ascii, starts_with, trim_solid, to_decimal, arith,
}
use openairplay.Prelude.Io.{ok, err, invalid_data}
use openairplay.Http.{Response, get, parse_head, content_length, to_bytes, header_lines, crlf}
use openairplay.Http.Head.{IsPlain, IsRequestLine, print_head, parse_head-print_head}
use openairplay.Http.Framing.{
  IsWellFormed, all_headers, receive_response, receive_response-to_bytes,
}

cseq_IsPlain : IsPlain (ascii "CSeq", ascii "7")
cseq_IsPlain = record {
  name_line = ground arith;
  name_colon = ground arith;
  name_trimmed = trim_solid (ascii "CSeq") (ground arith);
  value_line = ground arith;
  value_trimmed = trim_solid (ascii "7") (ground arith);
}

info_line : IsRequestLine (ascii "GET") (ascii "/info") (ascii "RTSP/1.0")
unfolding starts_with
info_line = record {
  method_some = refl;
  method_word = ground arith;
  method_line = ground arith;
  target_word = ground arith;
  target_line = ground arith;
  protocol_line = ground arith;
  known = refl;
}

parse_head-print_head_example :
    parse_head
      (print_head (ascii "GET", ascii "/info", ascii "RTSP/1.0", (ascii "CSeq", ascii "7") ∷ []))
    ≡ ok (ascii "GET", ascii "/info", ascii "RTSP/1.0", (ascii "CSeq", ascii "7") ∷ [])
parse_head-print_head_example =
    parse_head-print_head (ascii "GET") (ascii "/info") (ascii "RTSP/1.0")
      ((ascii "CSeq", ascii "7") ∷ []) info_line (cseq_IsPlain, tt)

abbrev answer : Response
answer = record {
  protocol = ascii "RTSP/1.0";
  status = 200;
  reason = ascii "OK";
  headers = (ascii "CSeq", ascii "7") ∷ [];
  body = ascii "abc";
}

answer-IsWellFormed : IsWellFormed answer
unfolding get
answer-IsWellFormed = record {
  protocol_line = ground arith;
  reason_line = ground arith;
  plain = (cseq_IsPlain, tt);
  named = (refl, tt);
  no_length = refl;
  fits = omega arith;
}

receive_response-to_bytes_example :
    receive_response (to_bytes answer ++ ascii "RTSP")
    ≡ ok (all_headers answer, ascii "abc", ascii "RTSP")
receive_response-to_bytes_example =
    receive_response-to_bytes answer (ascii "RTSP") answer-IsWellFormed

answer_bytes :
    to_bytes answer
    ≡ ascii "RTSP/1.0 200 OK"
      ++ crlf
      ++ ascii "CSeq: 7"
      ++ crlf
      ++ ascii "Content-Length: 3"
      ++ crlf
      ++ crlf
      ++ ascii "abc"
unfolding to_bytes to_decimal header_lines
answer_bytes = refl

-- Spaces around a header's parts are trimmed, and names are found in any case.
mixed_case :
    parse_head (ascii "POST /x HTTP/1.1" ++ crlf ++ ascii "content-LENGTH :  12 ")
    ≡ ok (ascii "POST", ascii "/x", ascii "HTTP/1.1", (ascii "content-LENGTH", ascii "12") ∷ [])
unfolding parse_head
mixed_case = refl

found : content_length ((ascii "content-LENGTH", ascii "12") ∷ []) ≡ ok 12
unfolding content_length
found = refl

no_target : parse_head (ascii "GET HTTP/1.1") ≡ err invalid_data
unfolding parse_head
no_target = refl

no_method : parse_head (ascii " /x HTTP/1.1") ≡ err invalid_data
unfolding parse_head
no_method = refl

other_protocol : parse_head (ascii "GET /x FTP/1.1") ≡ err invalid_data
unfolding parse_head
other_protocol = refl

no_colon : parse_head (ascii "GET /x HTTP/1.1" ++ crlf ++ ascii "CSeq 7") ≡ err invalid_data
unfolding parse_head
no_colon = refl
