-- ===== src/Pipeline/Runs.antt =====
-- Concrete runs of the audio reader with a decoder that passes the payload on, and its theorems at
-- concrete inputs.
use openairplay.Prelude.{ℕ, ◌≡◌, refl, true, false, some, List, [], ◌∷◌, replicate, Bytes, arith}
use openairplay.Aead.Toy.{toy_aead, tag, toy_decrypt}
use openairplay.Buffered.{AudioDecryptor, decrypt, packet_seq}
use openairplay.Buffered.Packet.{make_packet}
use openairplay.Pipeline.{
  skip_before_boundary, Decoder, Reader, handle_packets, receive, receive_all,
}
use openairplay.Pipeline.Delivery.{concat, from_boundary, deliver_all, Same, handle_packets-Same}
use openairplay.Pipeline.Stream.{receive_all-concat}

abbrev pass_on : Decoder
pass_on = record { State = Unit; decode = λ payload s. (some payload, s) }

abbrev the_key : AudioDecryptor
the_key = record { key = 1 ∷ [] }

abbrev reader : ℕ → Reader toy_aead pass_on the_key
reader boundary = record {
  buf = [];
  flush_until_seq = boundary;
  decrypt_failures = 0;
  skipped = 0;
  codec = tt;
  played = [];
}

-- flush_boundary_discards_then_self_clears
below : skip_before_boundary 100 100 99 ≡ (true, 100)
unfolding skip_before_boundary
below = refl

reached : skip_before_boundary 100 100 100 ≡ (false, 0)
unfolding skip_before_boundary
reached = refl

-- A newer flush that comes between the load and the exchange stays.
newer : skip_before_boundary 100 200 100 ≡ (false, 200)
unfolding skip_before_boundary
newer = refl

abbrev sent : ℕ → Bytes → Bytes
sent seq payload = make_packet toy_aead (1 ∷ []) seq 44100 0 payload (replicate 8 5)

abbrev packets : List Bytes
packets = sent 5 (1 ∷ 2 ∷ []) ∷ sent 7 (3 ∷ []) ∷ sent 2 (4 ∷ []) ∷ []

-- Behind the boundary even a lower number plays.
skips_run :
    (handle_packets toy_aead pass_on the_key packets (reader 6)).played
    ≡ record { seq = 7; ts = 44100; pcm = 3 ∷ [] }
      ∷ record { seq = 2; ts = 44100; pcm = 4 ∷ [] }
      ∷ []
unfolding handle_packets decrypt packet_seq tag toy_decrypt
skips_run = refl

handle_packets-Same_example :
    Same toy_aead pass_on the_key
      (handle_packets toy_aead pass_on the_key packets (reader 6))
      (deliver_all toy_aead pass_on the_key (from_boundary 6 packets) (reader 6))
handle_packets-Same_example =
    handle_packets-Same toy_aead pass_on the_key packets (reader 6) (reader 6)
      (record { played = refl; codec = refl; decrypt_failures = refl })

abbrev first_read : Bytes
first_read = 0 ∷ 4 ∷ 9 ∷ []

abbrev second_read : Bytes
second_read = 8 ∷ 0 ∷ []

receive_all-concat_example :
    receive_all toy_aead pass_on the_key (first_read ∷ second_read ∷ []) (reader 0)
    ≡ receive toy_aead pass_on the_key (concat (first_read ∷ second_read ∷ [])) (reader 0)
receive_all-concat_example =
    receive_all-concat toy_aead pass_on the_key first_read (second_read ∷ []) (reader 0) tt
      ((omega arith, (omega arith, (omega arith, tt))), ((omega arith, (omega arith, tt)), tt))
