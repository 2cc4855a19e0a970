-- ===== src/Connection/Sent.antt =====
-- A request that a sender writes, in the clear or encrypted, is the one that the connection reads.
use openairplay.Prelude.{
  ℕ, ◌+◌, ◌-◌, ◌≡◌, ◌≤◌, refl, sym, ap, subst, ◌∙◌, Bool, true, false, le→ltb, some, List, [], ◌++◌,
  append_assoc, append-nil, length, take, take-append, drop-append, length-append, flatten, All,
  is_empty, Bytes, is_utf8, arith,
}
use openairplay.Prelude.Io.{IoResult, ok}
use openairplay.Aead.{Aead, AeadLaws}
use openairplay.Cipher.{Encryptor, encrypt, decrypt_available}
use openairplay.Cipher.Stream.{peer, decrypt_available-encrypt}
use openairplay.Http.{Head, Headers, from_parts, content_length}
use openairplay.Http.Lines.{blank, split_blank}
use openairplay.Http.Head.{
  IsPlain, IsRequestLine, print_head, request_line, request_line-Lacks, after_line,
  parse_head-print_head,
}
use openairplay.Http.Framing.{split_blank_head}
use openairplay.Connection.{
  ControlConnection, new, enable_encryption, max_head, max_body, request_head, read_request,
}
use openairplay.Connection.Upcoming.{Upcoming, in_clear, encrypted}
use openairplay.Connection.Stream.{
  stream_exact, stream_body, stream_rest, after_head, stream_request,
}
use openairplay.Connection.Refines.{Reads}
use openairplay.Connection.Blank.{stream_head-blank, length-blank}
use openairplay.Connection.Requests.{read_request-Reads}

-- A request within the connection's bounds, whose headers say how long its body is.
pub record IsSendable (method target protocol : Bytes) (headers : Headers) (body : Bytes)
    : Type 0 where
  pub line : IsRequestLine method target protocol
  pub plain : All IsPlain headers
  pub named : All (λ (h : Bytes × Bytes). is_empty h.0 ≡ false) headers
  pub length_said : content_length headers ≡ ok (length body)
  pub body_fits : length body ≤ max_body
  pub head_text : is_utf8 (print_head (method, target, protocol, headers)) ≡ true
  pub head_fits : length (print_head (method, target, protocol, headers)) + 4 ≤ max_head + 1

abbrev pub print_request : Head → Bytes → Bytes
print_request head body = print_head head ++ (blank ++ body)

module _ {method target protocol : Bytes} {headers : Headers} {body : Bytes}
    (sendable : IsSendable method target protocol headers body) where
  abbrev head : Head
  head = (method, target, protocol, headers)

  first_blank :
      (rest : Bytes)
      → split_blank (print_request head body ++ rest) ≡ some (print_head head, body ++ rest)
  first_blank rest =
      ap split_blank (
        append_assoc (print_head head) (blank ++ body) rest
        ∙ append_assoc (request_line method target protocol) (after_line headers)
            (blank ++ (body ++ rest)))
      ∙ split_blank_head (request_line method target protocol) headers (body ++ rest)
          (request_line-Lacks sendable.line) sendable.plain sendable.named

  head_of_text :
      (n : ℕ) → n ≡ length (print_head head) → take n (print_head head ++ blank) ≡ print_head head
  head_of_text n e =
      ap (λ (k : ℕ). take k (print_head head ++ blank)) e ∙ take-append (print_head head) blank

  request_head-printed : request_head (print_head head ++ blank) ≡ ok (head, length body)
  unfolding request_head
  request_head-printed = rw (
    head_of_text (length (print_head head ++ blank) - 4)
        (omega (arith, length-blank (print_head head))),
    sendable.head_text,
    parse_head-print_head method target protocol headers sendable.line sendable.plain,
    sendable.length_said,
    le→ltb max_body (length body) sendable.body_fits,
  )

  body_there : (rest : Bytes) → stream_exact (length body) (body ++ rest) ≡ (ok body, rest)
  body_there rest =
      rw (take-append body rest, drop-append body rest) (ground (arith, length-append body rest))

  stream_request-printed :
      (rest : Bytes)
      → stream_request (print_request head body ++ rest) ≡ (ok (some (from_parts head body)), rest)
  unfolding stream_request
  stream_request-printed rest =
      ap after_head (
        stream_head-blank (print_request head body ++ rest) (print_head head) (body ++ rest)
          (first_blank rest) (print_request head body ++ rest) [] refl (omega arith)
          sendable.head_fits)
      ∙ ap (λ (x : IoResult (Head × ℕ)). stream_rest x (body ++ rest)) request_head-printed
      ∙ ap (stream_body head) (body_there rest)

  module _ (aead : Aead) (m : Bool) where
    -- A connection where a sender's request is upcoming reads that request, whatever follows it, and
    -- leaves what follows.
    pub read_request-sent :
        (c : ControlConnection) (rest : Bytes)
        → Upcoming aead m c (print_request head body ++ rest)
        → ((read_request aead c).0 ≡ ok (some (from_parts head body)))
          × Upcoming aead m (read_request aead c).1 rest
    read_request-sent c rest up =
        let reads =
          subst (λ o. Reads aead m (read_request aead c) o) (stream_request-printed rest)
            (read_request-Reads aead m c (print_request head body ++ rest) up) in
        (reads.result, reads.rest)

module _ (aead : Aead) (laws : AeadLaws aead) where
  -- What the other end encrypts is upcoming.
  pub encrypt-Upcoming :
      (c : ControlConnection) (e : Encryptor) (s : Bytes)
      → c.dec ≡ some (peer e)
      → c.plain ≡ []
      → c.cipher_pending ≡ []
      → flatten c.reader ≡ (encrypt aead e s).0
      → Upcoming aead true c s
  encrypt-Upcoming c e s hd hp hc he =
      encrypted (peer e) s refl hd
        (record {
          used = length (encrypt aead e s).0;
          final = peer (encrypt aead e s).1;
          decrypts =
              ap (decrypt_available aead (peer e)) (
                ap (λ (p : Bytes). p ++ flatten c.reader) hc
                ∙ he
                ∙ sym (append-nil (encrypt aead e s).0))
              ∙ decrypt_available-encrypt aead laws e s [] tt;
        })
        (rw hp)

  switched :
      (c : ControlConnection) (enc e : Encryptor) (s : Bytes)
      → Upcoming aead false c (encrypt aead e s).0
      → Upcoming aead true (enable_encryption enc (peer e) c) s
  switched c enc e s (in_clear clear hd hp hc he) =
      encrypt-Upcoming (enable_encryption enc (peer e) c) e s refl hp hc he
  switched c enc e s (encrypted d q secret hd dq he) = cc

  -- A request in the clear is read to its last byte and no further: what the sender encrypts behind
  -- it is what the connection delivers once the cipher is installed, however the bytes arrive.
  pub read_request-enable_encryption :
      {method target protocol : Bytes} {headers : Headers} {body : Bytes}
      (sendable : IsSendable method target protocol headers body) (pieces : List Bytes)
      (enc e : Encryptor) (s : Bytes)
      → flatten pieces
        ≡ print_request (method, target, protocol, headers) body ++ (encrypt aead e s).0
      → ((read_request aead (new pieces)).0
          ≡ ok (some (from_parts (method, target, protocol, headers) body)))
        × Upcoming aead true (enable_encryption enc (peer e) (read_request aead (new pieces)).1) s
  read_request-enable_encryption sendable pieces enc e s arrives =
      let (result, rest) =
        read_request-sent sendable aead false (new pieces) (encrypt aead e s).0
          (in_clear refl refl refl refl arrives) in
      (result, switched (read_request aead (new pieces)).1 enc e s rest)
