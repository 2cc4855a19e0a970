-- ===== src/Terminal/Runs.antt =====
-- The terminal's escapes at concrete values.
use openairplay.Prelude.{
  ◌≡◌, refl, true, false, if◌then◌else◌, none, some, List, [], ◌∷◌, ◌++◌, Bytes, ascii, same_bytes,
  starts_with, eq_ignore_ascii_case, length, to_decimal, trim,
}
use openairplay.Terminal.{
  kitty, text_only, Graphics, esc, terminator, doubled, passthrough, Placement, Codecs, l8,
  clear_as, cursor_to, chunks_loop, first_keys, payload_of, kitty_draw, draw, is_png, expand,
  decode_jpeg, units,
}
use openairplay.Terminal.Detect.{
  in_screen, always, parse_allowed, Env, multiplexer, detect, contains,
}
use openairplay.Terminal.Artwork.{Artwork, Rect, new, sync, focus_lost, same_drawn}
use openairplay.Terminal.Screen.{
  ScreenEvent, redrawn, unfocused, focused_again, handle_all, IsTrue, handle_all-IsTrue,
}

abbrev with_term : Bytes → Env
with_term term name = if same_bytes name (ascii "TERM") then some term else none

kitty_detected : detect (with_term (ascii "xterm-kitty")) none ≡ kitty
unfolding detect contains starts_with eq_ignore_ascii_case same_bytes
kitty_detected = refl

none_detected : detect (with_term (ascii "xterm-256color")) (some false) ≡ text_only
unfolding detect contains starts_with eq_ignore_ascii_case same_bytes
none_detected = refl

screen_found : multiplexer (with_term (ascii "screen")) ≡ in_screen
unfolding multiplexer starts_with same_bytes
screen_found = refl

all_parsed : parse_allowed (ascii "all\n") ≡ always
unfolding parse_allowed trim same_bytes
all_parsed = refl

esc_doubled : passthrough (esc ∷ 65 ∷ []) ≡ (esc ∷ ascii "Ptmux;") ++ esc ∷ esc ∷ 65 ∷ terminator
unfolding passthrough doubled
esc_doubled = refl

-- A base64 that leaves bytes as they are, and JPEGs of one grey pixel.
abbrev toy : Codecs
toy = record {
  jpeg_decode = λ image. some image;
  jpeg_info = λ _. some (record { width = 1; height = 1; pixel_format = l8 });
  base64_encode = λ payload. payload;
}

abbrev corner : Placement
corner = record { col = 2; row = 3; cols = 10; rows = 5 }

abbrev shown_grey : Bytes
shown_grey =
    (esc ∷ ascii "[3;2H")
    ++ (esc ∷ ascii "_Ga=T,i=7332,f=24,s=1,v=1,c=10,r=5,C=1,q=2,m=0;777")
    ++ terminator

grey_drawn : kitty_draw toy (ascii "image/jpeg") (ascii "7") corner false ≡ some shown_grey
unfolding kitty_draw payload_of is_png decode_jpeg expand to_decimal cursor_to units first_keys
    chunks_loop starts_with eq_ignore_ascii_case same_bytes
grey_drawn = refl

abbrev in_tmux_pane : Graphics
in_tmux_pane = record { protocol = kitty; tmux = true }

abbrev cover : Artwork
cover = record { content_type = ascii "image/jpeg"; data_bytes = ascii "7" }

abbrev box : Rect
box = record { x = 0; y = 0; width = 10; height = 5 }

abbrev evening : List ScreenEvent
evening =
    redrawn (some cover) box
    ∷ redrawn (some cover) box
    ∷ unfocused
    ∷ redrawn (some cover) box
    ∷ focused_again
    ∷ redrawn (some cover) box
    ∷ redrawn none box
    ∷ []

-- Twice drawn and twice taken down.
four_escapes : length ((handle_all toy evening (new in_tmux_pane, [], true)).1) ≡ 4
unfolding handle_all sync focus_lost clear_as draw same_drawn kitty_draw payload_of is_png
    decode_jpeg starts_with eq_ignore_ascii_case same_bytes
four_escapes = refl

handle_all-IsTrue_example : IsTrue toy (handle_all toy evening (new in_tmux_pane, [], true))
handle_all-IsTrue_example = handle_all-IsTrue toy in_tmux_pane evening refl
