-- ===== src/Connection/Runs.antt =====
-- A control connection at concrete inputs: in the clear, in pieces, and switching to the cipher.
use openairplay.Prelude.{
  ◌≡◌, ◌+◌, refl, ap, append-nil, some, none, List, [], ◌∷◌, ◌++◌, true, false, take, drop,
  replicate, flatten, Bytes, ascii, starts_with, trim_solid, is_utf8, arith,
}
use openairplay.Prelude.Io.{ok, err, unexpected_eof, invalid_data}
use openairplay.Aead.Toy.{toy_decrypt, toy_aead, toy_laws}
use openairplay.Cipher.{Encryptor, encrypt, decrypt_available, nonce_for}
use openairplay.Cipher.Stream.{peer}
use openairplay.Http.{Head, from_parts, content_length}
use openairplay.Http.Head.{IsPlain, IsRequestLine}
use openairplay.Connection.{
  ControlConnection, new, enable_encryption, max_head, max_body, read_request,
}
use openairplay.Connection.Upcoming.{Upcoming, in_clear}
use openairplay.Connection.Stream.{stream_request}
use openairplay.Connection.Refines.{Reads}
use openairplay.Connection.Requests.{read_request-Reads}
use openairplay.Connection.Sent.{
  IsSendable, print_request, read_request-sent, read_request-enable_encryption,
}
use openairplay.Connection.Bounds.{Takes, read_request-Takes}

abbrev headers : List (Bytes × Bytes)
headers = (ascii "Content-Length", ascii "3") ∷ []

abbrev head : Head
head = (ascii "POST", ascii "/x", ascii "RTSP/1.0", headers)

abbrev body : Bytes
body = ascii "abc"

head_line : IsRequestLine (ascii "POST") (ascii "/x") (ascii "RTSP/1.0")
unfolding starts_with
head_line = record {
  method_some = refl;
  method_word = ground arith;
  method_line = ground arith;
  target_word = ground arith;
  target_line = ground arith;
  protocol_line = ground arith;
  known = refl;
}

length_IsPlain : IsPlain (ascii "Content-Length", ascii "3")
length_IsPlain = record {
  name_line = ground arith;
  name_colon = ground arith;
  name_trimmed = trim_solid (ascii "Content-Length") (ground arith);
  value_line = ground arith;
  value_trimmed = trim_solid (ascii "3") (ground arith);
}

head-IsSendable : IsSendable (ascii "POST") (ascii "/x") (ascii "RTSP/1.0") headers body
unfolding content_length is_utf8
head-IsSendable = record {
  line = head_line;
  plain = (length_IsPlain, tt);
  named = (refl, tt);
  length_said = refl;
  body_fits = omega arith;
  head_text = refl;
  head_fits = omega arith;
}

-- The request in two pieces, with the first bytes of another behind it.
abbrev pieces : List Bytes
pieces =
    take 30 (print_request head body) ∷ [] ∷ (drop 30 (print_request head body) ++ ascii "GE") ∷ []

reads_clear : (read_request toy_aead (new pieces)).0 ≡ ok (some (from_parts head body))
unfolding read_request
reads_clear = refl

leaves_rest : flatten (read_request toy_aead (new pieces)).1.reader ≡ ascii "GE"
unfolding read_request
leaves_rest = refl

closed : (read_request toy_aead (new [])).0 ≡ ok none
unfolding read_request
closed = refl

cut_off : (read_request toy_aead (new (ascii "GET" ∷ []))).0 ≡ err unexpected_eof
unfolding read_request
cut_off = refl

read_request-Reads_example :
    Reads toy_aead false
      (read_request toy_aead (new pieces))
      (stream_request (print_request head body ++ ascii "GE"))
read_request-Reads_example =
    read_request-Reads toy_aead false (new pieces) (print_request head body ++ ascii "GE")
      (in_clear refl refl refl refl refl)

read_request-Takes_example :
    (rest : Bytes) × Upcoming toy_aead false (read_request toy_aead (new pieces)).1 rest
    × Takes (max_head + 1 + max_body) (print_request head body ++ ascii "GE") rest
read_request-Takes_example =
    read_request-Takes toy_aead false (new pieces) (print_request head body ++ ascii "GE")
      (in_clear refl refl refl refl refl)

abbrev encryptor : Encryptor
encryptor = record { key = 1 ∷ []; counter = 0 }

-- An encrypted connection whose ciphertext does not decrypt.
abbrev broken : ControlConnection
broken = enable_encryption encryptor (peer encryptor) (new ((1 ∷ 0 ∷ replicate 17 7) ∷ []))

is_refused : (read_request toy_aead broken).0 ≡ err invalid_data
unfolding read_request decrypt_available toy_decrypt nonce_for
is_refused = refl

abbrev switching : List Bytes
switching = print_request head body ∷ (encrypt toy_aead encryptor (print_request head body)).0 ∷ []

read_request-sent_example :
    ((read_request toy_aead (new pieces)).0 ≡ ok (some (from_parts head body)))
    × Upcoming toy_aead false (read_request toy_aead (new pieces)).1 (ascii "GE")
read_request-sent_example =
    read_request-sent head-IsSendable toy_aead false (new pieces) (ascii "GE")
      (in_clear refl refl refl refl refl)

read_request-enable_encryption_example :
    ((read_request toy_aead (new switching)).0 ≡ ok (some (from_parts head body)))
    × Upcoming toy_aead true
        (enable_encryption encryptor (peer encryptor) (read_request toy_aead (new switching)).1)
        (print_request head body)
read_request-enable_encryption_example =
    read_request-enable_encryption toy_aead toy_laws head-IsSendable switching encryptor encryptor
      (print_request head body)
      (ap (λ (s : Bytes). print_request head body ++ s)
        (append-nil (encrypt toy_aead encryptor (print_request head body)).0))
