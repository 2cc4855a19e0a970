-- ===== src/Server/Runs.antt =====
-- Requests at concrete inputs, and the theorems about them.
use openairplay.Prelude.{
  ◌≡◌, refl, true, false, none, some, List, All, [], ◌∷◌, ◌++◌, Bytes, ascii, same_bytes,
  starts_with,
}
use openairplay.Prelude.Io.{ok}
use openairplay.Aead.Toy.{toy_aead}
use openairplay.Connection.{is_encrypted}
use openairplay.Http.{Request, crlf}
use openairplay.Pairing.Toy.{toy_srp}
use openairplay.Session.{volume, drop_session}
use openairplay.Session.Host.{Merged, finished, sent, HasStopped, fresh, follows_all}
use openairplay.Session.Volume.{HasUsable}
use openairplay.Session.Setup.{Plist, Ports}
use openairplay.Takeover.{Slots, empty_slot}
use openairplay.Server.{
  Externals, Serving, Turn, evicted, times_out, reads, accepted, answer, forbidden, finalize, close,
  serve,
}
use openairplay.Server.Gate.{IsUntouched, serve-IsUntouched}
use openairplay.Server.Verbs.{IsRegular, requests}
use openairplay.Server.Replies.{IsReply, answer-IsReply}
use openairplay.Server.Milestones.{serve-HasStopped, serve-HasUsable}

-- A property list that is an empty dictionary.
abbrev toy_plist : Plist
toy_plist = record {
  Value = Bytes;
  Dictionary = Bytes;
  from_reader = λ body. some body;
  as_dictionary = λ value. some value;
  get = λ dict key. none;
  as_array = λ value. none;
  as_unsigned_integer = λ value. none;
  as_signed_integer = λ value. none;
  as_data = λ value. none;
}

abbrev toy : Externals
toy = record {
  srp = toy_srp;
  aead = toy_aead;
  hkdf = λ secret salt info. secret;
  plist = toy_plist;
  from_utf8_lossy = λ bytes. bytes;
  parse_f32 = λ text. some 0xC1480000;
  show_f32 = λ bits. ascii "-12.500000";
  encode_plist = λ tree. ok (ascii "bplist");
  info_plist = ascii "bplist";
  local_ip = ascii "10.0.0.1";
  decoder = true;
}

abbrev ports : Ports
ports = record { event = ok 7000; control = ok 7001; data_channel = ok 7002 }

-- Connection 9 has the slot.
abbrev held : Slots
held = record empty_slot { holder = some (record { id = 9; evict = 9; finished = 0 }) }

abbrev start : Serving toy
start = accepted toy [] none 7 1 held

abbrev asked : Bytes → Bytes → Request
asked method target = record {
  method = method;
  target = target;
  protocol = ascii "RTSP/1.0";
  headers = (ascii "CSeq", ascii "4") ∷ [];
  body = [];
}

abbrev setup : Request
setup = asked (ascii "SETUP") (ascii "rtsp://10.0.0.1/1")

-- What the sender writes.
abbrev head_of : Bytes → Bytes
head_of line = line ++ crlf ++ ascii "CSeq: 4" ++ crlf ++ crlf

abbrev setup_wire : Bytes
setup_wire = head_of (ascii "SETUP rtsp://10.0.0.1/1 RTSP/1.0")

abbrev refused_turns : List (Turn toy)
refused_turns = reads [] ports ∷ reads [] ports ∷ []

abbrev refused_start : Serving toy
refused_start = accepted toy (setup_wire ∷ []) none 7 1 held

one_request : requests toy refused_turns refused_start ≡ setup ∷ []
unfolding requests
one_request = refl

requests-IsRegular : All IsRegular (requests toy refused_turns refused_start)
unfolding requests starts_with same_bytes
requests-IsRegular = (refl, tt)

in_clear : is_encrypted (serve toy refused_turns refused_start).conn ≡ false
unfolding serve
in_clear = refl

serve-IsUntouched_example : IsUntouched toy 7 held (serve toy refused_turns refused_start)
serve-IsUntouched_example =
    serve-IsUntouched toy 7 held (setup_wire ∷ []) none 1 refused_turns requests-IsRegular in_clear

-- The same request for a target that begins with `/pair-`, also in the clear: connection 9 loses the
-- slot to the unpaired connection 1, and is told to close.
abbrev passed_end : Serving toy
passed_end =
    serve toy refused_turns
      (accepted toy (head_of (ascii "SETUP /pair-x RTSP/1.0") ∷ []) none 7 1 held)

takes_over :
    (passed_end.slots.holder ≡ some (record { id = 1; evict = 1; finished = 0 }))
    × (passed_end.slots.permits ≡ 9 ∷ [])
unfolding serve
takes_over = (refl, refl)

refused :
    answer toy [] ports setup start
    ≡ some (finalize (forbidden (ascii "RTSP/1.0")) setup, none, start)
unfolding answer
refused = refl

answer-IsReply_example : IsReply setup (finalize (forbidden (ascii "RTSP/1.0")) setup)
unfolding starts_with same_bytes
answer-IsReply_example =
    answer-IsReply toy [] ports setup start (finalize (forbidden (ascii "RTSP/1.0")) setup) none
      start refused

-- The volume is set in the clear too, with such a target.
abbrev wire : Bytes
wire =
    ascii "SET_PARAMETER /pair-x RTSP/1.0"
    ++ crlf
    ++ ascii "Content-Length: 13"
    ++ crlf
    ++ crlf
    ++ ascii "volume: -12.5"

abbrev turns : List (Turn toy)
turns = reads [] ports ∷ times_out ∷ evicted ∷ []

abbrev end : Serving toy
end = serve toy turns (accepted toy (wire ∷ []) none 7 1 held)

volume_set : end.session.volume_db ≡ 0xC1480000
unfolding serve
volume_set = refl

volume_merged :
    Merged false
      (close toy (serve toy turns (accepted toy (wire ∷ []) none 7 1 held))).session.events
      (volume 0xC1480000 ∷ [])
unfolding serve drop_session
volume_merged = sent (volume 0xC1480000) finished

serve-HasStopped_example :
    HasStopped (follows_all {S = Bytes} (some fresh) (volume 0xC1480000 ∷ []))
serve-HasStopped_example =
    serve-HasStopped toy (wire ∷ []) none 7 1 held turns (volume 0xC1480000 ∷ []) volume_merged

serve-HasUsable_example : HasUsable (λ bytes. bytes) end.session
serve-HasUsable_example = serve-HasUsable toy (wire ∷ []) none 7 1 held turns
