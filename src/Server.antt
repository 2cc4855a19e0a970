-- ===== src/Server.antt =====
-- openairplay2/src/server.rs: what a control connection does with the requests that it reads. It
-- composes the connection, the pairing, the session and the slot. `claim` is entered here; how it
-- waits for the connection that it interrupts is in Takeover. The accept loop is left out.
pub mod Verbs
pub mod Gate
pub mod Replies
pub mod Kept
pub mod Milestones
mod Runs
use openairplay.Prelude.{
  ℕ, ◌≡◌, Bool, true, false, not, ◌&&◌, ◌||◌, if◌then◌else◌, Option, none, some, List, [], ◌∷◌,
  Bytes, ascii, same_bytes, starts_with,
}
use openairplay.Prelude.Io.{IoResult, ok, err}
use openairplay.Aead.{Aead, Hkdf}
use openairplay.Cipher.{Encryptor, Decryptor, control_channel}
use openairplay.Http
use openairplay.Http.{Request, Response, header, with_body, ok_response}
use openairplay.Connection
use openairplay.Pairing
use openairplay.Session
use openairplay.Connection.{
  ControlConnection, enable_encryption, is_encrypted, read_request, write_response,
}
use openairplay.Pairing.{Srp, PairSetup, Outcome, continue, done, failed_with, panicked, handle}
use openairplay.FairPlay.{fp_setup}
use openairplay.Takeover.{Slots, claim}
use openairplay.Session.{Session, set_rate_anchor, flush, teardown, drop_session}
use openairplay.Session.Parameters.{get_parameter, set_parameter}
use openairplay.Session.Setup.{
  Plist, Tree, Ports, handle_setup, parse_rate_anchor, parse_flush_until_seq,
}

-- The crates, the texts of floats, and what the context holds: the `/info` property list, the
-- address as a text, and whether a decoder can be made.
pub record Externals : Type 1 where
  pub srp : Srp
  pub aead : Aead
  pub hkdf : Hkdf
  pub plist : Plist
  pub from_utf8_lossy : Bytes → Bytes
  pub parse_f32 : Bytes → Option ℕ
  pub show_f32 : ℕ → Bytes
  pub encode_plist : Tree → IoResult Bytes
  pub info_plist : Bytes
  pub local_ip : Bytes
  pub decoder : Bool

abbrev pub server_id : Bytes
server_id = ascii "AirTunes/366.0"

abbrev pub info_content_type : Bytes
info_content_type = ascii "application/x-apple-binary-plist"

abbrev pub pairing_content_type : Bytes
pairing_content_type = ascii "application/octet-stream"

abbrev pub parameters_content_type : Bytes
parameters_content_type = ascii "text/parameters"

abbrev pub echo_cseq : Option Bytes → Response → Response
echo_cseq none response = response
echo_cseq (some cseq) response = header (ascii "CSeq") cseq response

-- The headers that every response carries.
unfoldable pub finalize : Response → Request → Response
unfolding Http.get
finalize response request =
    header (ascii "Server") server_id (echo_cseq (Http.get request.headers (ascii "CSeq")) response)

abbrev pub bad_request : Bytes → Response
bad_request protocol = Http.new protocol 400 (ascii "Bad Request")

abbrev pub forbidden : Bytes → Response
forbidden protocol = Http.new protocol 403 (ascii "Forbidden")

abbrev pub is_request : Bytes → Bytes → Request → Bool
is_request method target request =
    same_bytes request.method method && same_bytes request.target target

-- `GET /info`, and whatever is asked of a target that begins with `/pair-`.
unfoldable pub allowed_in_clear : Request → Bool
unfolding same_bytes starts_with
allowed_in_clear request =
    is_request (ascii "GET") (ascii "/info") request || starts_with request.target (ascii "/pair-")

abbrev pub fp_response : Bytes → Option Bytes → Response
fp_response protocol none = bad_request protocol
fp_response protocol (some reply) = with_body pairing_content_type reply (ok_response protocol)

module _ (x : Externals) where
  abbrev pub Sn : Type 0
  Sn = Session x.from_utf8_lossy

  -- The stateless part.
  unfoldable pub dispatch : Request → Response
  unfolding same_bytes fp_setup
  dispatch request =
      if is_request (ascii "GET") (ascii "/info") request
      then with_body info_content_type x.info_plist (ok_response request.protocol)
      else if is_request (ascii "POST") (ascii "/fp-setup") request
      then fp_response request.protocol (fp_setup request.body)
      else if is_request (ascii "POST") (ascii "/feedback") request
          || is_request (ascii "POST") (ascii "/command") request
          || is_request (ascii "POST") (ascii "/audioMode") request
      then ok_response request.protocol
      else Http.new request.protocol 501 (ascii "Not Implemented")

  abbrev pub setup_response : Bytes → IoResult Bytes × Sn → Option Response × Sn
  setup_response protocol (ok body, s) =
      (some (with_body info_content_type body (ok_response protocol)), s)
  setup_response protocol (err e, s) = (some (bad_request protocol), s)

  -- The verbs that operate on the session, by the method alone.
  unfoldable pub dispatch_session : Ports → Request → Sn → Option Response × Sn
  unfolding same_bytes handle_setup get_parameter set_parameter set_rate_anchor flush teardown
      parse_rate_anchor parse_flush_until_seq Http.get
  dispatch_session ports request s =
      let acknowledged = some (ok_response request.protocol) in
      if same_bytes request.method (ascii "SETUP")
      then setup_response request.protocol (
          handle_setup x.plist x.from_utf8_lossy x.encode_plist x.local_ip x.decoder ports
            request.body s)
      else if same_bytes request.method (ascii "GET_PARAMETER")
      then (
        some (
            with_body parameters_content_type
              (get_parameter x.from_utf8_lossy x.show_f32 request.body s)
              (ok_response request.protocol)),
        s,
      )
      else if same_bytes request.method (ascii "SET_PARAMETER")
      then (
        acknowledged,
        set_parameter x.from_utf8_lossy x.parse_f32
            (Http.get request.headers (ascii "Content-Type")) request.body s,
      )
      else if same_bytes request.method (ascii "SETRATEANCHORTIME")
      then (
        acknowledged,
        set_rate_anchor x.from_utf8_lossy (parse_rate_anchor x.plist request.body) s,
      )
      else if same_bytes request.method (ascii "FLUSHBUFFERED")
      then (acknowledged, flush x.from_utf8_lossy (parse_flush_until_seq x.plist request.body) s)
      else if same_bytes request.method (ascii "TEARDOWN")
      then (acknowledged, teardown x.from_utf8_lossy s)
      else if same_bytes request.method (ascii "RECORD")
          || same_bytes request.method (ascii "SETPEERS")
          || same_bytes request.method (ascii "SETPEERSX")
      then (acknowledged, s)
      else (none, s)

  -- A connection, with the slot that all connections share.
  pub record Serving : Type 0 where
    pub conn : ControlConnection
    pub pair : PairSetup x.srp
    pub session : Sn
    pub slots : Slots
    pub conn_id : ℕ
    pub is_open : Bool

  -- What `handle_connection` begins with: the pieces that the transport delivers, the password, the
  -- peer's address, and the connection's place in the slot.
  abbrev pub accepted : List Bytes → Option Bytes → ℕ → ℕ → Slots → Serving
  accepted reader password peer_ip conn_id slots = record {
    conn = Connection.new reader;
    pair = Pairing.new x.srp password;
    session = Session.new x.from_utf8_lossy peer_ip;
    slots = slots;
    conn_id = conn_id;
    is_open = true;
  }

  -- A response, the secret that pairing ended with, and the state behind it.
  abbrev pub Answer : Type 0
  Answer = Response × Option Bytes × Serving

  abbrev pub pairing_response : Request → Bytes → Response
  pairing_response request tlv =
      finalize (with_body pairing_content_type tlv (ok_response request.protocol)) request

  -- `none` stands for the panic of `expect`.
  abbrev pub pairing_answer : Request → Outcome × PairSetup x.srp → Serving → Option Answer
  pairing_answer request (continue tlv, pair) s =
      some (pairing_response request tlv, none, record s { pair = pair })
  pairing_answer request (failed_with tlv, pair) s =
      some (pairing_response request tlv, none, record s { pair = pair })
  pairing_answer request (done tlv secret, pair) s =
      some (pairing_response request tlv, some secret, record s { pair = pair })
  pairing_answer request (panicked, pair) s = none

  -- A SETUP claims the slot.
  abbrev pub claimed : Request → Serving → Serving
  claimed request s =
      if same_bytes request.method (ascii "SETUP")
      then record s { slots = claim s.conn_id s.conn_id s.slots }
      else s

  abbrev pub or_dispatch : Request → Option Response → Response
  or_dispatch request none = dispatch request
  or_dispatch request (some response) = response

  abbrev pub session_answer : Request → Option Response × Sn → Serving → Answer
  session_answer request (response, session) s =
      (finalize (or_dispatch request response) request, none, record s { session = session })

  -- The body of the loop in `handle_connection`, up to where the response is written.
  unfoldable pub answer : Bytes → Ports → Request → Serving → Option Answer
  unfolding same_bytes finalize handle allowed_in_clear claim dispatch dispatch_session
  answer random ports request s =
      if is_request (ascii "POST") (ascii "/pair-setup") request
      then pairing_answer request (handle x.srp random request.body s.pair) s
      else if is_request (ascii "POST") (ascii "/pair-pin-start") request
      then some (finalize (ok_response request.protocol) request, none, s)
      else if not (is_encrypted s.conn) && not (allowed_in_clear request)
      then some (finalize (forbidden request.protocol) request, none, s)
      else some
          (session_answer request (dispatch_session ports request s.session) (claimed request s))

  abbrev pub install : Option Bytes → ControlConnection → ControlConnection
  install none c = c
  install (some secret) c =
      let (enc, dec) = control_channel x.hkdf secret in enable_encryption enc dec c

  -- The connection is over: its session is dropped.
  abbrev pub close : Serving → Serving
  close s = record s { session = drop_session x.from_utf8_lossy s.session; is_open = false }

  -- The response is written as the channel was, and the cipher installed behind it.
  abbrev pub written : Option Answer → Serving → Serving
  written none s = close s
  written (some (response, secret, s')) s = record s' {
    conn = install secret (write_response x.aead response s'.conn);
  }

  unfoldable pub handle_request : Bytes → Ports → Request → Serving → Serving
  unfolding answer write_response control_channel drop_session
  handle_request random ports request s = written (answer random ports request s) s

  abbrev pub incoming : Bytes → Ports → IoResult (Option Request) → Serving → Serving
  incoming random ports (ok (some request)) s = handle_request random ports request s
  incoming random ports (ok none) s = close s
  incoming random ports (err e) s = close s

  -- What ends the wait for a request: another sender has taken over, nothing came in time, or there
  -- is something to read. A request comes with what the random number generator and the sockets
  -- supply while it is handled.
  pub data Turn : Type 0 where
    evicted times_out : Turn
    reads : Bytes → Ports → Turn

  -- The handshake timeout is lifted once the channel is encrypted.
  unfoldable pub take_turn : Turn → Serving → Serving
  unfolding handle_request read_request drop_session
  take_turn evicted s = close s
  take_turn times_out s = if is_encrypted s.conn then s else close s
  take_turn (reads random ports) s =
      let (result, conn) = read_request x.aead s.conn in
      incoming random ports result (record s { conn = conn })

  -- The turns of a connection that is open.
  unfoldable pub serve : List Turn → Serving → Serving
  unfolding take_turn
  serve [] s = s
  serve (turn ∷ turns) s = if s.is_open then serve turns (take_turn turn s) else s
