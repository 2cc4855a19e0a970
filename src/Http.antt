-- ===== src/Http.antt =====
-- openairplay2/src/http.rs: the requests and responses of the control connection. A `String` is
-- its UTF-8 bytes, and an error its kind.
pub mod Lines
pub mod Head
pub mod Framing
mod Runs
use openairplay.Prelude.{
  ℕ, ◌==◌, Bool, true, false, not, ◌&&◌, ◌||◌, if◌then◌else◌, Option, none, some, List, [], ◌∷◌,
  ◌++◌, length, is_empty, Bytes, ascii, cr, lf, split_once, split_lines, starts_with,
  eq_ignore_ascii_case, trim, to_decimal, parse_usize, parse_unsigned,
}
use openairplay.Prelude.Io.{IoResult, ok, err, invalid_data, ◌>>=◌}

abbrev pub Headers : Type 0
Headers = List (Bytes × Bytes)

pub record Request : Type 0 where
  pub method : Bytes
  pub target : Bytes
  pub protocol : Bytes
  pub headers : Headers
  pub body : Bytes

-- `Headers::get`
unfoldable pub get : Headers → Bytes → Option Bytes
unfolding eq_ignore_ascii_case
get [] name = none
get ((k, v) ∷ headers) name = if eq_ignore_ascii_case k name then some v else get headers name

-- The three parts of `splitn(3, ' ')`, if there are three.
abbrev pub three : Bytes → Option (Bytes × Bytes) → Option (Bytes × Bytes × Bytes)
three m none = none
three m (some (t, p)) = some (m, t, p)

abbrev pub then_split : Option (Bytes × Bytes) → Option (Bytes × Bytes × Bytes)
then_split none = none
then_split (some (m, rest)) = three m (split_once 32 rest)

unfoldable pub request_parts : Bytes → Option (Bytes × Bytes × Bytes)
unfolding split_once
request_parts line = then_split (split_once 32 line)

-- The guards on the request line.
abbrev pub checked_parts : Option (Bytes × Bytes × Bytes) → IoResult (Bytes × Bytes × Bytes)
checked_parts none = err invalid_data
checked_parts (some (m, t, p)) =
    if is_empty m
    then err invalid_data
    else if not (starts_with p (ascii "HTTP/")) && not (starts_with p (ascii "RTSP/"))
    then err invalid_data
    else ok (m, t, p)

-- One header line, cut at its first colon.
abbrev pub trimmed : Option (Bytes × Bytes) → IoResult (Bytes × Bytes)
trimmed none = err invalid_data
trimmed (some (name, value)) = ok (trim name, trim value)

abbrev pub parse_header : Bytes → IoResult (Bytes × Bytes)
parse_header line = trimmed (split_once 58 line)

-- The loop over the header lines.
unfoldable pub parse_headers : List Bytes → IoResult Headers
unfolding split_once trim
parse_headers [] = ok []
parse_headers (line ∷ lines) =
    let later = parse_headers lines in
    let here = parse_header line >>= λ header. later >>= λ headers. ok (header ∷ headers) in
    if is_empty line then later else here

abbrev pub Head : Type 0
Head = Bytes × Bytes × Bytes × Headers

abbrev pub parse_lines : List Bytes → IoResult Head
parse_lines [] = checked_parts (request_parts []) >>= λ parts. ok (parts.0, parts.1, parts.2, [])
parse_lines (line ∷ lines) = checked_parts (request_parts line) >>= λ parts.
    parse_headers lines >>= λ headers. ok (parts.0, parts.1, parts.2, headers)

unfoldable pub parse_head : Bytes → IoResult Head
unfolding split_lines request_parts parse_headers starts_with
parse_head head = parse_lines (split_lines head)

-- `Request::from_parts`
abbrev pub from_parts : Head → Bytes → Request
from_parts (method, target, protocol, headers) body = record {
  method = method;
  target = target;
  protocol = protocol;
  headers = headers;
  body = body;
}

abbrev pub counted : Option ℕ → IoResult ℕ
counted none = err invalid_data
counted (some n) = ok n

abbrev pub declared : Option Bytes → IoResult ℕ
declared none = ok 0
declared (some v) = counted (parse_usize v)

-- `Request::content_length`
unfoldable pub content_length : Headers → IoResult ℕ
unfolding get parse_unsigned
content_length headers = declared (get headers (ascii "Content-Length"))

pub record Response : Type 0 where
  pub protocol : Bytes
  pub status : ℕ
  pub reason : Bytes
  pub headers : Headers
  pub body : Bytes

-- `Response::new`
abbrev pub new : Bytes → ℕ → Bytes → Response
new protocol status reason = record {
  protocol = protocol;
  status = status;
  reason = reason;
  headers = [];
  body = [];
}

-- `Response::ok`
abbrev pub ok_response : Bytes → Response
ok_response protocol = new protocol 200 (ascii "OK")

-- `Response::header`
abbrev pub header : Bytes → Bytes → Response → Response
header name value r = record r { headers = r.headers ++ (name, value) ∷ [] }

-- `Response::body`
abbrev pub with_body : Bytes → Bytes → Response → Response
with_body content_type body r = record r {
  headers = r.headers ++ (ascii "Content-Type", content_type) ∷ [];
  body = body;
}

abbrev pub crlf : Bytes
crlf = cr ∷ lf ∷ []

abbrev pub header_line : Bytes × Bytes → Bytes
header_line (name, value) = name ++ ascii ": " ++ value ++ crlf

unfoldable pub header_lines : Headers → Bytes
header_lines [] = []
header_lines (h ∷ headers) = header_line h ++ header_lines headers

-- `Response::to_bytes`
unfoldable pub to_bytes : Response → Bytes
to_bytes r =
    r.protocol
    ++ ascii " "
    ++ to_decimal r.status
    ++ ascii " "
    ++ r.reason
    ++ crlf
    ++ header_lines r.headers
    ++ ascii "Content-Length: "
    ++ to_decimal (length r.body)
    ++ crlf
    ++ crlf
    ++ r.body
