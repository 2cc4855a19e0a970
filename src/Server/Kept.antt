-- ===== src/Server/Kept.antt =====
-- What every verb of a session keeps, a connection keeps, whatever requests it reads.
use openairplay.Prelude.{
  ℕ, Bool, true, false, not, ◌&&◌, ◌||◌, if◌then◌else◌, Option, none, some, List, [], ◌∷◌, Bytes,
  ascii, same_bytes, trim, head?, eq_ignore_ascii_case,
}
use openairplay.Prelude.Io.{IoResult, ok, err}
use openairplay.Http
use openairplay.Http.{Request, Response, ok_response}
use openairplay.Connection.{is_encrypted, read_request}
use openairplay.Pairing.{Outcome, PairSetup, continue, done, failed_with, panicked, handle}
use openairplay.Session.{
  start_buffered_audio, Verb, sets_up, sets_rate, flushes, sets_progress, sets_volume,
  sets_metadata, sets_artwork, tears_down, apply, drop_session,
}
use openairplay.Session.Parameters.{
  dmap_content_type, is_image, strip_prefix, parse_progress, media_type, lines, apply_prefixed,
  apply_line, apply_lines, set_text_parameters, set_typed, set_parameter,
}
use openairplay.Session.Setup.{
  Ports, ◌>>?◌, is_buffered, has_decryptor, start_data, reply_streams, setup_stream, setup_first,
  setup_by, setup_streams, setup_phase, setup_timing, handle_setup, parse_rate_anchor,
  parse_flush_until_seq,
}
use openairplay.Server.{
  Externals, Sn, Serving, Answer, Turn, evicted, times_out, reads, is_request, allowed_in_clear,
  setup_response, dispatch_session, pairing_answer, answer, written, close, handle_request,
  incoming, take_turn, serve,
}

module _ (x : Externals) where
  -- A predicate on sessions that the verbs keep, that does not depend on the stream's fields, and
  -- that holds when the session is dropped.
  pub record IsKept (P : Sn x → Type 0) : Type 0 where
    pub verb : (v : Verb x.from_utf8_lossy) (s : Sn x) → P s → P (apply x.from_utf8_lossy v s)
    pub store :
        (stream_type audio_format : Option ℕ) (stream_key : Option Bytes) (s : Sn x)
        → P s
        → P (record s {
          stream_type = stream_type;
          audio_format = audio_format;
          stream_key = stream_key;
        })
    pub dropped : (s : Sn x) → P s → P (drop_session x.from_utf8_lossy s)

  module _ (P : Sn x → Type 0) (kept : IsKept P) where
    if_kept : (b : Bool) (s t : Sn x) → P s → P t → P (if b then s else t)
    if_kept true s t h k = h
    if_kept false s t h k = k

    start_data_kept :
        (port : IoResult ℕ) (s : Sn x)
        → P s
        → P (start_data x.plist x.from_utf8_lossy x.encode_plist x.local_ip x.decoder port s).1
    unfolding apply start_buffered_audio
    start_data_kept (err e) s h = h
    start_data_kept (ok port) s h =
        if_kept (is_buffered s.stream_type)
          (apply x.from_utf8_lossy (sets_up (has_decryptor s.stream_key) x.decoder) s) s
          (kept.verb (sets_up (has_decryptor s.stream_key) x.decoder) s h) h

    reply_streams_kept :
        (control_port : ℕ) (r : IoResult ℕ × Sn x)
        → P r.1
        → P
            (reply_streams x.plist x.from_utf8_lossy x.encode_plist x.local_ip x.decoder
              control_port r).1
    reply_streams_kept control_port (data_port, s) h = h

    setup_stream_kept :
        (ports : Ports) (stream : x.plist.Dictionary) (s : Sn x)
        → P s
        → P
            (setup_stream x.plist x.from_utf8_lossy x.encode_plist x.local_ip x.decoder ports stream
              s).1
    setup_stream_kept ports stream s h = go ports.control
      where
        s' : Sn x
        s' = record s {
          stream_type = x.plist.get stream (ascii "type") >>? x.plist.as_unsigned_integer;
          audio_format = x.plist.get stream (ascii "audioFormat") >>? x.plist.as_unsigned_integer;
          stream_key = x.plist.get stream (ascii "shk") >>? x.plist.as_data;
        }

        stored : P s'
        stored = kept.store _ _ _ s h

        go :
            (control : IoResult ℕ)
            → P
                (setup_stream x.plist x.from_utf8_lossy x.encode_plist x.local_ip x.decoder
                  (record ports { control = control })
                  stream
                  s).1
        go (err e) = stored
        go (ok port) =
            reply_streams_kept port
              (start_data x.plist x.from_utf8_lossy x.encode_plist x.local_ip x.decoder
                ports.data_channel s')
              (start_data_kept ports.data_channel s' stored)

    setup_first_kept :
        (ports : Ports) (first : Option x.plist.Dictionary) (s : Sn x)
        → P s
        → P
            (setup_first x.plist x.from_utf8_lossy x.encode_plist x.local_ip x.decoder ports first
              s).1
    setup_first_kept ports none s h = h
    setup_first_kept ports (some stream) s h = setup_stream_kept ports stream s h

    setup_by_kept :
        (ports : Ports) (streams : Option (List x.plist.Value)) (s : Sn x)
        → P s
        → P
            (setup_by x.plist x.from_utf8_lossy x.encode_plist x.local_ip x.decoder ports streams
              s).1
    unfolding setup_streams setup_timing
    setup_by_kept ports none s h = h
    setup_by_kept ports (some streams) s h =
        setup_first_kept ports (head? streams >>? x.plist.as_dictionary) s h

    setup_phase_kept :
        (ports : Ports) (dict : Option x.plist.Dictionary) (s : Sn x)
        → P s
        → P
            (setup_phase x.plist x.from_utf8_lossy x.encode_plist x.local_ip x.decoder ports dict
              s).1
    setup_phase_kept ports none s h = h
    setup_phase_kept ports (some dict) s h =
        setup_by_kept ports (x.plist.get dict (ascii "streams") >>? x.plist.as_array) s h

    handle_setup_kept :
        (ports : Ports) (body : Bytes) (s : Sn x)
        → P s
        → P
            (handle_setup x.plist x.from_utf8_lossy x.encode_plist x.local_ip x.decoder ports body
              s).1
    unfolding handle_setup
    handle_setup_kept ports body s h =
        setup_phase_kept ports (x.plist.from_reader body >>? x.plist.as_dictionary) s h

    apply_line_kept :
        (line : Bytes) (s : Sn x) → P s → P (apply_line x.from_utf8_lossy x.parse_f32 line s)
    unfolding apply
    apply_line_kept line s h =
        go (strip_prefix (ascii "volume:") line) (strip_prefix (ascii "progress:") line)
      where
        go : (v p : Option Bytes) → P (apply_prefixed x.from_utf8_lossy x.parse_f32 v p s)
        go (some v) p = kept.verb (sets_volume (x.parse_f32 (trim v))) s h
        go none (some p) = kept.verb (sets_progress (parse_progress (trim p))) s h
        go none none = h

    apply_lines_kept :
        (rest : List Bytes) (s : Sn x) → P s → P (apply_lines x.from_utf8_lossy x.parse_f32 rest s)
    unfolding apply_lines
    apply_lines_kept [] s h = h
    apply_lines_kept (line ∷ rest) s h =
        apply_lines_kept rest (apply_line x.from_utf8_lossy x.parse_f32 (trim line) s)
          (apply_line_kept (trim line) s h)

    text_kept :
        (body : Bytes) (s : Sn x)
        → P s
        → P (set_text_parameters x.from_utf8_lossy x.parse_f32 body s)
    unfolding set_text_parameters
    text_kept body s h = apply_lines_kept (lines (x.from_utf8_lossy body)) s h

    set_typed_kept :
        (ct : Option Bytes) (body : Bytes) (s : Sn x)
        → P s
        → P (set_typed x.from_utf8_lossy x.parse_f32 ct body s)
    unfolding apply
    set_typed_kept none body s h = text_kept body s h
    set_typed_kept (some ct) body s h =
        if_kept (eq_ignore_ascii_case ct dmap_content_type) _ _ (kept.verb (sets_metadata body) s h)
          (if_kept (is_image ct) _ _ (kept.verb (sets_artwork ct body) s h) (text_kept body s h))

    set_parameter_kept :
        (ct : Option Bytes) (body : Bytes) (s : Sn x)
        → P s
        → P (set_parameter x.from_utf8_lossy x.parse_f32 ct body s)
    unfolding set_parameter
    set_parameter_kept ct body s h = set_typed_kept (media_type ct) body s h

    if_pair_kept :
        {A : Type 0} (b : Bool) (p q : A × Sn x) → P p.1 → P q.1 → P (if b then p else q).1
    if_pair_kept true p q h k = h
    if_pair_kept false p q h k = k

    setup_response_kept :
        (protocol : Bytes) (r : IoResult Bytes × Sn x) → P r.1 → P (setup_response x protocol r).1
    setup_response_kept protocol (ok body, s) h = h
    setup_response_kept protocol (err e, s) h = h

    dispatch_session_kept :
        (ports : Ports) (request : Request) (s : Sn x)
        → P s
        → P (dispatch_session x ports request s).1
    unfolding dispatch_session apply
    dispatch_session_kept ports request s h =
        if_pair_kept (same_bytes request.method (ascii "SETUP")) _ _
          (setup_response_kept request.protocol _ (handle_setup_kept ports request.body s h))
          (if_pair_kept (same_bytes request.method (ascii "GET_PARAMETER")) _ _ h (
            if_pair_kept (same_bytes request.method (ascii "SET_PARAMETER")) _ _
              (set_parameter_kept (Http.get request.headers (ascii "Content-Type")) request.body s
                h)
              (if_pair_kept (same_bytes request.method (ascii "SETRATEANCHORTIME")) _ _
                (kept.verb (sets_rate (parse_rate_anchor x.plist request.body)) s h)
                (if_pair_kept (same_bytes request.method (ascii "FLUSHBUFFERED")) _ _
                  (kept.verb (flushes (parse_flush_until_seq x.plist request.body)) s h)
                  (if_pair_kept (same_bytes request.method (ascii "TEARDOWN")) _ _
                    (kept.verb tears_down s h)
                    (if_pair_kept
                      (same_bytes request.method (ascii "RECORD")
                        || same_bytes request.method (ascii "SETPEERS")
                        || same_bytes request.method (ascii "SETPEERSX"))
                      _ _ h h))))))

    -- An answer, or a panic that drops the session.
    abbrev AnswerKept : Option (Answer x) → Type 0
    AnswerKept none = Unit
    AnswerKept (some (response, secret, s)) = P s.session

    if_AnswerKept :
        (b : Bool) (a c : Option (Answer x))
        → AnswerKept a
        → AnswerKept c
        → AnswerKept (if b then a else c)
    if_AnswerKept true a c h k = h
    if_AnswerKept false a c h k = k

    pairing_answer_kept :
        (request : Request) (o : Outcome × PairSetup x.srp) (s : Serving x)
        → P s.session
        → AnswerKept (pairing_answer x request o s)
    pairing_answer_kept request (continue tlv, pair) s h = h
    pairing_answer_kept request (failed_with tlv, pair) s h = h
    pairing_answer_kept request (done tlv secret, pair) s h = h
    pairing_answer_kept request (panicked, pair) s h = tt

    answer_kept :
        (random : Bytes) (ports : Ports) (request : Request) (s : Serving x)
        → P s.session
        → AnswerKept (answer x random ports request s)
    unfolding answer
    answer_kept random ports request s h =
        if_AnswerKept (is_request (ascii "POST") (ascii "/pair-setup") request) _ _
          (pairing_answer_kept request (handle x.srp random request.body s.pair) s h)
          (if_AnswerKept (is_request (ascii "POST") (ascii "/pair-pin-start") request) _ _ h (
            if_AnswerKept (not (is_encrypted s.conn) && not (allowed_in_clear request)) _ _ h
              (dispatch_session_kept ports request s.session h)))

    written_kept :
        (a : Option (Answer x)) (s : Serving x)
        → P s.session
        → AnswerKept a
        → P (written x a s).session
    written_kept none s h k = kept.dropped s.session h
    written_kept (some (response, secret, s')) s h k = k

    incoming_kept :
        (random : Bytes) (ports : Ports) (r : IoResult (Option Request)) (s : Serving x)
        → P s.session
        → P (incoming x random ports r s).session
    unfolding handle_request
    incoming_kept random ports (ok (some request)) s h =
        written_kept (answer x random ports request s) s h (answer_kept random ports request s h)
    incoming_kept random ports (ok none) s h = kept.dropped s.session h
    incoming_kept random ports (err e) s h = kept.dropped s.session h

    if_serving_kept :
        (b : Bool) (s t : Serving x) → P s.session → P t.session → P (if b then s else t).session
    if_serving_kept true s t h k = h
    if_serving_kept false s t h k = k

    take_turn_kept : (turn : Turn x) (s : Serving x) → P s.session → P (take_turn x turn s).session
    unfolding take_turn
    take_turn_kept evicted s h = kept.dropped s.session h
    take_turn_kept times_out s h =
        if_serving_kept (is_encrypted s.conn) s (close x s) h (kept.dropped s.session h)
    take_turn_kept (reads random ports) s h =
        incoming_kept random ports (read_request x.aead s.conn).0
          (record s { conn = (read_request x.aead s.conn).1 }) h

    -- Whatever turns a connection takes, it keeps what the verbs keep.
    pub serve_kept :
        (turns : List (Turn x)) (s : Serving x) → P s.session → P (serve x turns s).session
    unfolding serve
    serve_kept [] s h = h
    serve_kept (turn ∷ turns) s h =
        if_serving_kept s.is_open (serve x turns (take_turn x turn s)) s
          (serve_kept turns (take_turn x turn s) (take_turn_kept turn s h)) h
