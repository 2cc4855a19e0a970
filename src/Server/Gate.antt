-- ===== src/Server/Gate.antt =====
-- What a peer that has not paired can do.
use openairplay.Prelude.{
  ℕ, ◌≡◌, refl, sym, ap, ◌∙◌, Bool, true, false, not, ◌&&◌, if◌then◌else◌, Option, none, some, List,
  [], ◌∷◌, ◌++◌, All, Bytes, ascii, arith,
}
use openairplay.Prelude.Io.{IoResult, ok, err}
use openairplay.Http.{Request}
use openairplay.Connection.{ControlConnection, is_encrypted, read_request}
use openairplay.Connection.Kept.{is_encrypted-read_request, is_encrypted-write_response}
use openairplay.Pairing.{Outcome, PairSetup, continue, done, failed_with, panicked, handle}
use openairplay.Takeover.{Slots}
use openairplay.Session
use openairplay.Session.{drop_session}
use openairplay.Session.Setup.{Ports}
use openairplay.Server.{
  Externals, Sn, Serving, Answer, Turn, evicted, times_out, reads, accepted, is_request,
  allowed_in_clear, dispatch_session, pairing_answer, claimed, session_answer, answer, close,
  written, handle_request, incoming, take_turn, serve,
}
use openairplay.Server.Verbs.{
  IsRegular, All-split, if_by, not_verb-dispatch_session, not_verb-claimed, claimed_conn,
  passed_verb, request_in, read_in, requests,
}

module _ (x : Externals) (peer_ip : ℕ) (slots : Slots) where
  -- Nothing was done to the session or the slot.
  abbrev pub IsUntouched : Serving x → Type 0
  IsUntouched s = (s.session ≡ Session.new x.from_utf8_lossy peer_ip) × (s.slots ≡ slots)

  abbrev UntouchedInClear : Serving x → Type 0
  UntouchedInClear s = is_encrypted s.conn ≡ false → IsUntouched s

  abbrev AnswerUntouched : Option (Answer x) → Type 0
  AnswerUntouched none = Unit
  AnswerUntouched (some (response, secret, s)) = UntouchedInClear s

  pairing_answer_untouched :
      (request : Request) (o : Outcome × PairSetup x.srp) (s : Serving x)
      → UntouchedInClear s
      → AnswerUntouched (pairing_answer x request o s)
  pairing_answer_untouched request (continue tlv, pair) s h = h
  pairing_answer_untouched request (failed_with tlv, pair) s h = h
  pairing_answer_untouched request (done tlv secret, pair) s h = h
  pairing_answer_untouched request (panicked, pair) s h = tt

  session_answer_untouched :
      (ports : Ports) (request : Request) (s : Serving x)
      → IsRegular request
      → UntouchedInClear s
      → (not (is_encrypted s.conn) && not (allowed_in_clear request)) ≡ false
      → AnswerUntouched (
          some (
            session_answer x request
              (dispatch_session x ports request s.session)
              (claimed x request s)))
  session_answer_untouched ports request s regular h passed clear =
      let in_clear : is_encrypted s.conn ≡ false =
        ap (λ (c : ControlConnection). is_encrypted c) (sym (claimed_conn x request s)) ∙ clear in
      let v = passed_verb x request (is_encrypted s.conn) passed in_clear regular in
      let (same_session, same_slots) = h in_clear in
      (
        not_verb-dispatch_session x ports request s.session v ∙ same_session,
        ap (λ (t : Serving x). t.slots) (not_verb-claimed x request s v) ∙ same_slots,
      )

  answer_untouched :
      (random : Bytes) (ports : Ports) (request : Request) (s : Serving x)
      → IsRegular request
      → UntouchedInClear s
      → AnswerUntouched (answer x random ports request s)
  unfolding answer
  answer_untouched random ports request s regular h =
      if_by x AnswerUntouched (is_request (ascii "POST") (ascii "/pair-setup") request) _ _
        (λ _. pairing_answer_untouched request (handle x.srp random request.body s.pair) s h)
        (λ _.
          if_by x AnswerUntouched (is_request (ascii "POST") (ascii "/pair-pin-start") request) _ _
            (λ _. h)
            (λ _.
              if_by x AnswerUntouched (not (is_encrypted s.conn) && not (allowed_in_clear request))
                _ _ (λ _. h) (session_answer_untouched ports request s regular h)))

  close_untouched : (s : Serving x) → UntouchedInClear s → UntouchedInClear (close x s)
  unfolding drop_session
  close_untouched s h clear =
      let (same_session, same_slots) = h clear in
      (ap (λ (t : Sn x). drop_session x.from_utf8_lossy t) same_session, same_slots)

  written_untouched :
      (a : Option (Answer x)) (s : Serving x)
      → UntouchedInClear s
      → AnswerUntouched a
      → UntouchedInClear (written x a s)
  written_untouched none s h k clear = close_untouched s h clear
  written_untouched (some (response, none, s')) s h k clear =
      k (sym (is_encrypted-write_response x.aead response s'.conn) ∙ clear)
  written_untouched (some (response, some secret, s')) s h k clear = ground arith

  incoming_untouched :
      (random : Bytes) (ports : Ports) (r : IoResult (Option Request)) (s : Serving x)
      → All IsRegular (request_in x r)
      → UntouchedInClear s
      → UntouchedInClear (incoming x random ports r s)
  unfolding handle_request
  incoming_untouched random ports (ok (some request)) s (regular, _) h =
      written_untouched (answer x random ports request s) s h
        (answer_untouched random ports request s regular h)
  incoming_untouched random ports (ok none) s _ h = close_untouched s h
  incoming_untouched random ports (err e) s _ h = close_untouched s h

  take_turn_untouched :
      (turn : Turn x) (s : Serving x)
      → All IsRegular (read_in x turn s)
      → UntouchedInClear s
      → UntouchedInClear (take_turn x turn s)
  unfolding take_turn
  take_turn_untouched evicted s regular h = close_untouched s h
  take_turn_untouched times_out s regular h =
      if_by x UntouchedInClear (is_encrypted s.conn) s (close x s) (λ _. h)
        (λ _. close_untouched s h)
  take_turn_untouched (reads random ports) s regular h =
      incoming_untouched random ports (read_request x.aead s.conn).0
        (record s { conn = (read_request x.aead s.conn).1 }) regular
        (λ clear. h (sym (is_encrypted-read_request x.aead s.conn) ∙ clear))

  -- A turn and what follows it, on a connection that is open or not.
  turn_untouched :
      (is_open : Bool) (turn : Turn x) (turns : List (Turn x)) (s : Serving x)
      → All IsRegular
          (if is_open then read_in x turn s ++ requests x turns (take_turn x turn s) else [])
      → UntouchedInClear s
      → (All IsRegular (requests x turns (take_turn x turn s))
          → UntouchedInClear (take_turn x turn s)
          → UntouchedInClear (serve x turns (take_turn x turn s)))
      → UntouchedInClear (if is_open then serve x turns (take_turn x turn s) else s)
  turn_untouched true turn turns s regular h later =
      let (now, behind) =
        All-split (read_in x turn s) (requests x turns (take_turn x turn s)) regular in
      later behind (take_turn_untouched turn s now h)
  turn_untouched false turn turns s regular h later = h

  serve_untouched :
      (turns : List (Turn x)) (s : Serving x)
      → All IsRegular (requests x turns s)
      → UntouchedInClear s
      → UntouchedInClear (serve x turns s)
  unfolding serve requests
  serve_untouched [] s regular h = h
  serve_untouched (turn ∷ turns) s regular h =
      turn_untouched s.is_open turn turns s regular h (serve_untouched turns (take_turn x turn s))

  -- Whatever bytes arrive, and whatever ends the connection: as long as the channel is not encrypted,
  -- the session is as it was when the connection was accepted and the slot is left alone, provided
  -- that no SETUP, SET_PARAMETER, SETRATEANCHORTIME, FLUSHBUFFERED or TEARDOWN came for a target
  -- that begins with `/pair-`.
  pub serve-IsUntouched :
      (reader : List Bytes) (password : Option Bytes) (conn_id : ℕ) (turns : List (Turn x))
      → All IsRegular (requests x turns (accepted x reader password peer_ip conn_id slots))
      → is_encrypted (serve x turns (accepted x reader password peer_ip conn_id slots)).conn ≡ false
      → IsUntouched (serve x turns (accepted x reader password peer_ip conn_id slots))
  serve-IsUntouched reader password conn_id turns regular =
      serve_untouched turns (accepted x reader password peer_ip conn_id slots) regular
        (λ _. (refl, refl))
