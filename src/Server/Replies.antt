-- ===== src/Server/Replies.antt =====
-- Every request that is answered gets a response that the sender can assign to it.
use openairplay.Prelude.{
  ◌≡◌, refl, sym, subst, append-nil, ◌∙◌, ap, Bool, true, false, not, ◌&&◌, ◌||◌, if◌then◌else◌,
  Option, none, some, [], ◌∷◌, ◌++◌, append_assoc, Bytes, ascii, same_bytes,
}
use openairplay.Prelude.Io.{IoResult, ok, err}
use openairplay.Http
use openairplay.Http.{Headers, Request, Response, ok_response}
use openairplay.Connection.{is_encrypted}
use openairplay.FairPlay.{fp_setup}
use openairplay.Pairing.{PairSetup, Outcome, continue, done, failed_with, panicked, handle}
use openairplay.Session.Setup.{Ports}
use openairplay.Server.{
  Externals, Sn, Serving, Answer, server_id, echo_cseq, finalize, is_request, allowed_in_clear,
  fp_response, dispatch, setup_response, dispatch_session, pairing_answer, session_answer, claimed,
  answer,
}

abbrev pub cseq_headers : Option Bytes → Headers
cseq_headers none = []
cseq_headers (some cseq) = (ascii "CSeq", cseq) ∷ []

-- A response to this request: in its protocol, with its CSeq, if it has one, and the server's name
-- behind all other headers.
pub record IsReply (request : Request) (response : Response) : Type 0 where
  pub in_protocol : response.protocol ≡ request.protocol
  pub front : Headers
  pub closing :
      response.headers
      ≡ front
        ++ (cseq_headers (Http.get request.headers (ascii "CSeq"))
            ++ (ascii "Server", server_id) ∷ [])

protocol-echo_cseq : (o : Option Bytes) (r : Response) → (echo_cseq o r).protocol ≡ r.protocol
protocol-echo_cseq none r = refl
protocol-echo_cseq (some cseq) r = refl

headers-echo_cseq :
    (o : Option Bytes) (r : Response) → (echo_cseq o r).headers ≡ r.headers ++ cseq_headers o
headers-echo_cseq none r = sym (append-nil r.headers)
headers-echo_cseq (some cseq) r = refl

finalize-IsReply :
    (request : Request) (r : Response)
    → r.protocol ≡ request.protocol
    → IsReply request (finalize r request)
unfolding finalize
finalize-IsReply request r e =
    let cseq = Http.get request.headers (ascii "CSeq") in
    record {
      in_protocol = protocol-echo_cseq cseq r ∙ e;
      front = r.headers;
      closing =
          ap (λ (h : Headers). h ++ (ascii "Server", server_id) ∷ []) (headers-echo_cseq cseq r)
          ∙ append_assoc r.headers (cseq_headers cseq) ((ascii "Server", server_id) ∷ []);
    }

if_protocol :
    (b : Bool) (r q : Response) (p : Bytes)
    → r.protocol ≡ p
    → q.protocol ≡ p
    → (if b then r else q).protocol ≡ p
if_protocol true r q p h k = h
if_protocol false r q p h k = k

protocol-fp_response : (p : Bytes) (o : Option Bytes) → (fp_response p o).protocol ≡ p
protocol-fp_response p none = refl
protocol-fp_response p (some reply) = refl

module _ (x : Externals) where
  protocol-dispatch : (request : Request) → (dispatch x request).protocol ≡ request.protocol
  unfolding dispatch
  protocol-dispatch request =
      if_protocol (is_request (ascii "GET") (ascii "/info") request) _ _ _ refl (
        if_protocol (is_request (ascii "POST") (ascii "/fp-setup") request) _ _ _
          (protocol-fp_response request.protocol (fp_setup request.body))
          (if_protocol
            (is_request (ascii "POST") (ascii "/feedback") request
              || is_request (ascii "POST") (ascii "/command") request
              || is_request (ascii "POST") (ascii "/audioMode") request)
            _ _ _ refl refl))

  -- The response of a session verb, if it is one, is in the request's protocol.
  abbrev InProtocol : Bytes → Option Response × Sn x → Type 0
  InProtocol p (none, s) = Unit
  InProtocol p (some r, s) = r.protocol ≡ p

  if-InProtocol :
      (p : Bytes) (b : Bool) (a c : Option Response × Sn x)
      → InProtocol p a
      → InProtocol p c
      → InProtocol p (if b then a else c)
  if-InProtocol p true a c h k = h
  if-InProtocol p false a c h k = k

  setup_response-InProtocol :
      (p : Bytes) (r : IoResult Bytes × Sn x) → InProtocol p (setup_response x p r)
  setup_response-InProtocol p (ok body, s) = refl
  setup_response-InProtocol p (err e, s) = refl

  dispatch_session-InProtocol :
      (ports : Ports) (request : Request) (s : Sn x)
      → InProtocol request.protocol (dispatch_session x ports request s)
  unfolding dispatch_session
  dispatch_session-InProtocol ports request s =
      let p = request.protocol in
      if-InProtocol p (same_bytes request.method (ascii "SETUP")) _ _
        (setup_response-InProtocol p _)
        (if-InProtocol p (same_bytes request.method (ascii "GET_PARAMETER")) _ _ refl (
          if-InProtocol p (same_bytes request.method (ascii "SET_PARAMETER")) _ _ refl (
            if-InProtocol p (same_bytes request.method (ascii "SETRATEANCHORTIME")) _ _ refl (
              if-InProtocol p (same_bytes request.method (ascii "FLUSHBUFFERED")) _ _ refl (
                if-InProtocol p (same_bytes request.method (ascii "TEARDOWN")) _ _ refl (
                  if-InProtocol p
                    (same_bytes request.method (ascii "RECORD")
                      || same_bytes request.method (ascii "SETPEERS")
                      || same_bytes request.method (ascii "SETPEERSX"))
                    _ _ refl tt))))))

  -- An answer is a reply, if there is one.
  abbrev Replies : Request → Option (Answer x) → Type 0
  Replies request none = Unit
  Replies request (some (response, secret, s)) = IsReply request response

  if-Replies :
      (request : Request) (b : Bool) (a c : Option (Answer x))
      → Replies request a
      → Replies request c
      → Replies request (if b then a else c)
  if-Replies request true a c h k = h
  if-Replies request false a c h k = k

  pairing_answer-Replies :
      (request : Request) (o : Outcome × PairSetup x.srp) (s : Serving x)
      → Replies request (pairing_answer x request o s)
  pairing_answer-Replies request (continue tlv, pair) s = finalize-IsReply request _ refl
  pairing_answer-Replies request (failed_with tlv, pair) s = finalize-IsReply request _ refl
  pairing_answer-Replies request (done tlv secret, pair) s = finalize-IsReply request _ refl
  pairing_answer-Replies request (panicked, pair) s = tt

  session_answer-Replies :
      (request : Request) (r : Option Response × Sn x) (s : Serving x)
      → InProtocol request.protocol r
      → Replies request (some (session_answer x request r s))
  session_answer-Replies request (none, session) s h =
      finalize-IsReply request (dispatch x request) (protocol-dispatch request)
  session_answer-Replies request (some response, session) s h = finalize-IsReply request response h

  answer-Replies :
      (random : Bytes) (ports : Ports) (request : Request) (s : Serving x)
      → Replies request (answer x random ports request s)
  unfolding answer
  answer-Replies random ports request s =
      if-Replies request (is_request (ascii "POST") (ascii "/pair-setup") request) _ _
        (pairing_answer-Replies request (handle x.srp random request.body s.pair) s)
        (if-Replies request (is_request (ascii "POST") (ascii "/pair-pin-start") request) _ _
          (finalize-IsReply request _ refl)
          (if-Replies request (not (is_encrypted s.conn) && not (allowed_in_clear request)) _ _
            (finalize-IsReply request _ refl)
            (session_answer-Replies request (dispatch_session x ports request s.session)
              (claimed x request s) (dispatch_session-InProtocol ports request s.session))))

  -- On every branch, errors included, the response is in the request's protocol, echoes its CSeq, and
  -- names the server.
  pub answer-IsReply :
      (random : Bytes) (ports : Ports) (request : Request) (s : Serving x) (response : Response)
      (secret : Option Bytes) (s' : Serving x)
      → answer x random ports request s ≡ some (response, secret, s')
      → IsReply request response
  answer-IsReply random ports request s response secret s' e =
      subst (Replies request) e (answer-Replies random ports request s)
