-- ===== src/Terminal/PickerRuns.antt =====
-- The picker and the now-playing view at concrete updates.
use openairplay.Prelude.{
  ℕ, ◌≡◌, refl, true, false, none, some, List, map, All, [], ◌∷◌, Bytes, ascii, same_bytes,
  starts_with, to_decimal,
}
use openairplay.Display.{Snapshot, Message, session_started, metadata, cover, paused, cleared}
use openairplay.Display
use openairplay.Terminal.{kitty}
use openairplay.Terminal.NowPlaying.{
  NowPlaying, new, position_of, kept_cursor, choose, choose_from, apply,
}
use openairplay.Terminal.Updates.{
  Receiver, receivers, endpoint_parse, no_local_receiver, discovery, negsuc, pos, get_elem?, to_url,
  to_socket,
}
use openairplay.Terminal.Lines.{clock, center_block, shown_position}
use openairplay.Terminal.Updates.{negsuc}
use openairplay.Terminal.Roster.{
  Roster, add, listed, insert, same_key, key_ltb, text_ltb, offer, offer_all, is_ipv6_url,
  endpoint_url,
}
use openairplay.Terminal.Detect.{contains}
use openairplay.Terminal.Offered.{IsSorted, IsEntry, IsListed, listed-IsSorted}
use openairplay.Terminal.Picker.{Input, updated, moved, handle_all, handle_all-connects}
use openairplay.Terminal.View.{Agrees, is_empty, apply_messages, apply_messages-Agrees}

abbrev seen : Bytes → Bytes → Receiver
seen name url = record { name = name; url = url; password = false }

abbrev attic : Receiver
attic = seen (ascii "Attic") (ascii "ws://10.0.0.3:7392")

abbrev kitchen : Receiver
kitchen = seen (ascii "Kitchen") (ascii "ws://10.0.0.2:7392")

abbrev inputs : List (Input ℕ)
inputs =
    updated no_local_receiver
    ∷ updated (discovery (receivers (kitchen ∷ [])))
    ∷ moved (negsuc 0)
    ∷ updated (discovery (receivers (attic ∷ kitchen ∷ [])))
    ∷ moved (pos 1)
    ∷ []

abbrev start : NowPlaying ℕ
start = new (ascii "/run/openairplay2/tui.sock") (record { protocol = kitty; tmux = false })

kitchen_chosen :
    (choose (handle_all some inputs start)).0 ≡ some (to_url (ascii "ws://10.0.0.2:7392"))
unfolding new handle_all apply kept_cursor get_elem? position_of same_bytes endpoint_parse
    starts_with
kitchen_chosen = refl

path_parsed : endpoint_parse (ascii "/tmp/x") ≡ to_socket (ascii "/tmp/x")
unfolding endpoint_parse starts_with
path_parsed = refl

hour_shown : clock 3723999 ≡ ascii "1:02:03"
unfolding clock to_decimal
hour_shown = refl

centred :
    center_block (record { x = 0; y = 0; width = 80; height = 24 }) 10
    ≡ record { x = 0; y = 7; width = 80; height = 10 }
centred = refl

no_end_no_clock : shown_position (some (record { elapsed = 5; duration = 0 })) ≡ none
no_end_no_clock = refl

picker_up : (handle_all some inputs start).picker ≡ some (record { cursor = 1 })
unfolding new handle_all apply kept_cursor get_elem? position_of same_bytes
picker_up = refl

both_listed : (handle_all some inputs start).discovered ≡ attic ∷ kitchen ∷ []
unfolding new handle_all apply kept_cursor get_elem? position_of same_bytes
both_listed = refl

handle_all-connects_example :
    (found : Receiver) × (get_elem? (handle_all some inputs start).discovered 1 ≡ some found)
    × (choose (handle_all some inputs start)
        ≡ choose_from (some found) (handle_all some inputs start))
handle_all-connects_example =
    handle_all-connects some (ascii "/run/openairplay2/tui.sock")
      (record { protocol = kitty; tmux = false }) inputs (record { cursor = 1 }) attic
      (kitchen ∷ []) picker_up both_listed

abbrev idle : Snapshot Bytes ℕ
idle = cleared (record { name = ascii "Kitchen"; version = ascii "1" })

abbrev evening : List (Message Bytes ℕ)
evening =
    session_started 44100 2 (ascii "::1")
    ∷ metadata (some (ascii "Song")) none none
    ∷ cover (ascii "image/png") (ascii "AAAA")
    ∷ paused true
    ∷ []

apply_messages-Agrees_example :
    Agrees some
      (apply_messages some (Display.snapshot idle ∷ evening) start)
      (Display.apply_all is_empty evening idle)
apply_messages-Agrees_example = apply_messages-Agrees some idle evening start

abbrev roster : Roster
roster =
    add (pos 2) (pos 1) (record { name = ascii "B"; url = ascii "ws://[::1]:1"; password = false })
      (add (pos 2) (pos 0)
        (record { name = ascii "B"; url = ascii "ws://10.0.0.2:1"; password = false }) [])

urls_test : map (λ r. r.url) (listed roster) ≡ ascii "ws://10.0.0.2:1" ∷ []
unfolding insert same_key key_ltb text_ltb offer_all offer is_ipv6_url starts_with same_bytes
urls_test = refl

endpoint_url_test : endpoint_url (ascii "::1") 80 ≡ ascii "ws://[::1]:80"
unfolding endpoint_url contains starts_with to_decimal
endpoint_url_test = refl

listed-IsSorted_example :
    IsSorted (listed roster)
    × All (λ (q : Receiver). IsEntry q roster) (listed roster)
    × ((r : Receiver) → IsEntry r roster → IsListed r (listed roster))
listed-IsSorted_example = listed-IsSorted roster
