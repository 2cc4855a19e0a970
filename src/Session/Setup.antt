-- ===== src/Session/Setup.antt =====
-- `handle_setup` in openairplay2/src/session.rs, and the bodies of the other verbs that are property
-- lists. The crate `plist` is a parameter. What the sockets answer is given: the port, or an error.
use openairplay.Prelude.{
  ℕ, Bool, true, false, ◌==◌, if◌then◌else◌, Option, none, some, List, head?, Bytes, ascii,
}
use openairplay.Prelude.Io.{IoResult, ok, err, invalid_data, ◌>>=◌}
use openairplay.Buffered.{audio_decryptor}
use openairplay.Session.{Session, start_buffered_audio}

-- What is read of a property list. A signed integer is given by its 64 bits.
pub record Plist : Type 1 where
  pub Value : Type 0
  pub Dictionary : Type 0
  pub from_reader : Bytes → Option Value
  pub as_dictionary : Value → Option Dictionary
  pub get : Dictionary → Bytes → Option Value
  pub as_array : Value → Option (List Value)
  pub as_unsigned_integer : Value → Option ℕ
  pub as_signed_integer : Value → Option ℕ
  pub as_data : Value → Option Bytes

-- A property list that is written.
mutual
  pub data Tree : Type 0 where
    integer : ℕ → Tree
    string : Bytes → Tree
    array : Trees → Tree
    dictionary : Fields → Tree

  pub data Trees : Type 0 where
    nil : Trees
    cons : Tree → Trees → Trees

  pub data Fields : Type 0 where
    end : Fields
    field : Bytes → Tree → Fields → Fields

infixl 5 ◌>>?◌
abbrev pub ◌>>?◌ {ℓ κ} : {A : Type ℓ} {B : Type κ} → Option A → (A → Option B) → Option B
none >>? f = none
some a >>? f = f a

abbrev pub type_realtime : ℕ
type_realtime = 96

abbrev pub type_buffered : ℕ
type_buffered = 103

-- What `bind` and `local_addr` gave for the event channel, the control channel and the data channel.
pub record Ports : Type 0 where
  pub event : IoResult ℕ
  pub control : IoResult ℕ
  pub data_channel : IoResult ℕ

abbrev pub or_zero : Option ℕ → ℕ
or_zero none = 0
or_zero (some n) = n

-- `stream_type == Some(TYPE_BUFFERED)`
abbrev pub is_buffered : Option ℕ → Bool
is_buffered none = false
is_buffered (some t) = t == type_buffered

abbrev pub or_realtime : Option ℕ → ℕ
or_realtime none = type_realtime
or_realtime (some t) = t

abbrev pub buffer_size : Bool → Fields
buffer_size true = field (ascii "audioBufferSize") (integer 8_388_608) end
buffer_size false = end

abbrev pub streams_reply : Option ℕ → ℕ → ℕ → Tree
streams_reply stream_type data_port control_port = dictionary (
    field (ascii "streams")
      (array (
        cons
          (dictionary (
            field (ascii "type") (integer (or_realtime stream_type)) (
              field (ascii "dataPort") (integer data_port) (
                field (ascii "controlPort") (integer control_port)
                  (buffer_size (is_buffered stream_type))))))
          nil))
      end)

-- `self.stream_key.as_deref().and_then(AudioDecryptor::new)` is some.
abbrev pub has_decryptor : Option Bytes → Bool
has_decryptor key = elim (key >>? audio_decryptor) [ none ↦ false | some d ↦ true ]

module _ (plist : Plist) where
  -- `int_field`
  abbrev pub int_field : plist.Value → Option ℕ
  int_field v = elim (plist.as_unsigned_integer v) [
    | some n ↦ some n
    | none ↦ plist.as_signed_integer v
  ]

  unfoldable pub parse_rate_anchor : Bytes → Option (ℕ × ℕ)
  parse_rate_anchor body = plist.from_reader body >>? λ value. plist.as_dictionary value >>? λ dict.
      (plist.get dict (ascii "rate") >>? int_field) >>? λ rate.
      some (rate, or_zero (plist.get dict (ascii "rtpTime") >>? int_field))

  unfoldable pub parse_flush_until_seq : Bytes → Option ℕ
  parse_flush_until_seq body = plist.from_reader body >>? λ value.
      plist.as_dictionary value >>? λ dict. plist.get dict (ascii "flushUntilSeq") >>? int_field

  module _ (from_utf8_lossy : Bytes → Bytes) (encode_plist : Tree → IoResult Bytes)
      (local_ip : Bytes) (decoder : Bool) where
    abbrev Sn : Type 0
    Sn = Session from_utf8_lossy

    abbrev pub timing_reply : ℕ → Tree
    timing_reply event_port = dictionary (
        field (ascii "eventPort") (integer event_port) (
          field (ascii "timingPort") (integer 0) (
            field (ascii "timingPeerInfo")
              (dictionary (
                field (ascii "Addresses") (array (cons (string local_ip) nil))
                  (field (ascii "ID") (string local_ip) end)))
              end)))

    unfoldable pub setup_timing : Ports → Sn → IoResult Bytes × Sn
    setup_timing ports s = (ports.event >>= λ port. encode_plist (timing_reply port), s)

    -- The data channel is bound before the stream is started.
    abbrev pub start_data : IoResult ℕ → Sn → IoResult ℕ × Sn
    start_data (err e) s = (err e, s)
    start_data (ok port) s = (
      ok port,
      if is_buffered s.stream_type
          then start_buffered_audio from_utf8_lossy (has_decryptor s.stream_key) decoder s
          else s,
    )

    abbrev pub reply_streams : ℕ → IoResult ℕ × Sn → IoResult Bytes × Sn
    reply_streams control_port (data_port, s) =
        (data_port >>= λ port. encode_plist (streams_reply s.stream_type port control_port), s)

    -- The fields of the stream are stored before a socket is bound.
    abbrev pub setup_stream : Ports → plist.Dictionary → Sn → IoResult Bytes × Sn
    setup_stream ports stream s =
        let s' : Sn = record s {
          stream_type = plist.get stream (ascii "type") >>? plist.as_unsigned_integer;
          audio_format = plist.get stream (ascii "audioFormat") >>? plist.as_unsigned_integer;
          stream_key = plist.get stream (ascii "shk") >>? plist.as_data;
        } in
        elim ports.control [
          | err e ↦ (err e, s')
          | ok control_port ↦ reply_streams control_port (start_data ports.data_channel s')
        ]

    abbrev pub setup_first : Ports → Option plist.Dictionary → Sn → IoResult Bytes × Sn
    setup_first ports none s = (err invalid_data, s)
    setup_first ports (some stream) s = setup_stream ports stream s

    unfoldable pub setup_streams : Ports → List plist.Value → Sn → IoResult Bytes × Sn
    unfolding audio_decryptor start_buffered_audio
    setup_streams ports streams s = setup_first ports (head? streams >>? plist.as_dictionary) s

    abbrev pub setup_by : Ports → Option (List plist.Value) → Sn → IoResult Bytes × Sn
    setup_by ports (some streams) s = setup_streams ports streams s
    setup_by ports none s = setup_timing ports s

    abbrev pub setup_phase : Ports → Option plist.Dictionary → Sn → IoResult Bytes × Sn
    setup_phase ports none s = (err invalid_data, s)
    setup_phase ports (some dict) s =
        setup_by ports (plist.get dict (ascii "streams") >>? plist.as_array) s

    unfoldable pub handle_setup : Ports → Bytes → Sn → IoResult Bytes × Sn
    unfolding setup_streams setup_timing
    handle_setup ports body s = setup_phase ports (plist.from_reader body >>? plist.as_dictionary) s
