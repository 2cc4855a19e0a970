-- ===== src/Terminal.antt =====
-- openairplay2-tui/src/images.rs, openairplay2-tui/src/tui.rs: the escapes that draw cover art.
pub mod Passthrough
pub mod Kitty
pub mod Artwork
pub mod Screen
pub mod Updates
pub mod Roster
pub mod Offered
pub mod Lines
pub mod NowPlaying
pub mod Picker
pub mod View
pub mod Detect
mod Runs
mod PickerRuns
use openairplay.Prelude.{
  ℕ, zero, suc, Bool, true, false, not, ◌&&◌, ◌||◌, ◌==◌, if◌then◌else◌, Option, none, some, List,
  [], ◌∷◌, ◌++◌, length, take, drop, Bytes, ascii, same_bytes, starts_with, eq_ignore_ascii_case,
  trim, to_decimal,
}

pub data Protocol : Type 0 where
  kitty iterm2 text_only : Protocol

pub record Graphics : Type 0 where
  pub protocol : Protocol
  pub tmux : Bool

abbrev draws_as : Protocol → Bool
draws_as text_only = false
draws_as _ = true

abbrev pub draws : Graphics → Bool
draws g = draws_as g.protocol

abbrev pub esc : ℕ
esc = 0x1b

-- `\x1b\\`
abbrev pub terminator : Bytes
terminator = esc ∷ 92 ∷ []

abbrev pub double_esc : ℕ → Bytes → Bytes
double_esc byte rest = if byte == esc then esc ∷ byte ∷ rest else byte ∷ rest

unfoldable pub doubled : Bytes → Bytes
doubled [] = []
doubled (byte ∷ inner) = double_esc byte (doubled inner)

unfoldable pub passthrough : Bytes → Bytes
unfolding doubled
passthrough inner = (esc ∷ ascii "Ptmux;") ++ doubled inner ++ terminator

abbrev pub escape : Bytes → Bool → Bytes
escape bytes tmux = if tmux then passthrough bytes else bytes

abbrev pub artwork_id : ℕ
artwork_id = 7332

abbrev pub probe_id : ℕ
probe_id = 7331

abbrev pub chunk_len : ℕ
chunk_len = 4096

unfoldable pub clear_as : Protocol → Bool → Option Bytes
unfolding to_decimal
clear_as kitty tmux =
    some (escape ((esc ∷ ascii "_Ga=d,d=I,i=") ++ to_decimal artwork_id ++ terminator) tmux)
clear_as _ tmux = none

abbrev pub clear : Graphics → Option Bytes
clear g = clear_as g.protocol g.tmux

pub record Placement : Type 0 where
  pub col : ℕ
  pub row : ℕ
  pub cols : ℕ
  pub rows : ℕ

unfoldable pub cursor_to : Placement → Bytes
unfolding to_decimal
cursor_to p = (esc ∷ ascii "[") ++ to_decimal p.row ++ ascii ";" ++ to_decimal p.col ++ ascii "H"

unfoldable pub is_png : Bytes → Bytes → Bool
unfolding eq_ignore_ascii_case starts_with
is_png content_type image =
    eq_ignore_ascii_case content_type (ascii "image/png")
    || starts_with image (0x89 ∷ 0x50 ∷ 0x4E ∷ 0x47 ∷ 0x0D ∷ 0x0A ∷ 0x1A ∷ 0x0A ∷ [])

-- `slice::chunks`, which has no empty chunk. A round takes a byte at least where `n` is positive.
unfoldable pub chunks_loop : ℕ → ℕ → Bytes → List Bytes
chunks_loop zero n s = []
chunks_loop (suc fuel) n [] = []
chunks_loop (suc fuel) n (b ∷ s) = take n (b ∷ s) ∷ chunks_loop fuel n (drop n (b ∷ s))

abbrev pub chunks : ℕ → Bytes → List Bytes
chunks n s = chunks_loop (length s) n s

abbrev pub more_of : List Bytes → Bytes
more_of [] = ascii "0"
more_of (_ ∷ _) = ascii "1"

-- One chunk with its control keys.
abbrev pub unit : Bytes → Bytes → Bytes → Bytes
unit keys more chunk =
    (esc ∷ ascii "_G") ++ keys ++ ascii "m=" ++ more ++ ascii ";" ++ chunk ++ terminator

unfoldable pub units : Bool → Bytes → List Bytes → Bytes
units tmux keys [] = []
units tmux keys (chunk ∷ rest) = escape (unit keys (more_of rest) chunk) tmux ++ units tmux [] rest

unfoldable pub first_keys : Bytes → Placement → Bytes
unfolding to_decimal
first_keys format_keys p =
    ascii "a=T,i="
    ++ to_decimal artwork_id
    ++ ascii ","
    ++ format_keys
    ++ ascii ",c="
    ++ to_decimal p.cols
    ++ ascii ",r="
    ++ to_decimal p.rows
    ++ ascii ",C=1,q=2,"

pub data PixelFormat : Type 0 where
  l8 l16 rgb24 cmyk32 : PixelFormat

pub record ImageInfo : Type 0 where
  pub width : ℕ
  pub height : ℕ
  pub pixel_format : PixelFormat

pub record Rgb : Type 0 where
  pub width : ℕ
  pub height : ℕ
  pub pixels : Bytes

-- The crates jpeg_decoder and base64.
pub record Codecs : Type 0 where
  pub jpeg_decode : Bytes → Option Bytes
  pub jpeg_info : Bytes → Option ImageInfo
  pub base64_encode : Bytes → Bytes

unfoldable pub expand : Bytes → Bytes
expand [] = []
expand (v ∷ pixels) = v ∷ v ∷ v ∷ expand pixels

abbrev pub to_rgb : ImageInfo → Bytes → Option Rgb
to_rgb i pixels = elim i.pixel_format [
  | rgb24 ↦ some (record { width = i.width; height = i.height; pixels = pixels })
  | l8 ↦ some (record { width = i.width; height = i.height; pixels = expand pixels })
  | _ ↦ none
]

module _ (codecs : Codecs) where
  unfoldable pub decode_jpeg : Bytes → Option Rgb
  unfolding expand
  decode_jpeg image = elim (codecs.jpeg_decode image) [
    | none ↦ none
    | some pixels ↦ elim (codecs.jpeg_info image) [ none ↦ none | some i ↦ to_rgb i pixels ]
  ]

  -- The format keys and the payload of `kitty_draw`.
  unfoldable pub payload_of : Bytes → Bytes → Option (Bytes × Bytes)
  unfolding is_png decode_jpeg to_decimal
  payload_of content_type image =
      if is_png content_type image then some (ascii "f=100", image) else elim (decode_jpeg image) [
        | none ↦ none
        | some rgb ↦ some (
          ascii "f=24,s=" ++ to_decimal rgb.width ++ ascii ",v=" ++ to_decimal rgb.height,
          rgb.pixels,
        )
      ]

  abbrev pub draw_payload : Option (Bytes × Bytes) → Placement → Bool → Option Bytes
  draw_payload none p tmux = none
  draw_payload (some (format_keys, payload)) p tmux = some (
      cursor_to p
      ++ units tmux (first_keys format_keys p) (chunks chunk_len (codecs.base64_encode payload)))

  unfoldable pub kitty_draw : Bytes → Bytes → Placement → Bool → Option Bytes
  unfolding payload_of cursor_to units first_keys chunks_loop
  kitty_draw content_type image p tmux = draw_payload (payload_of content_type image) p tmux

  unfoldable pub iterm2_draw : Bytes → Placement → Bool → Bytes
  unfolding to_decimal cursor_to
  iterm2_draw image p tmux =
      cursor_to p
      ++ escape
          ((esc ∷ ascii "]1337;File=inline=1;size=")
            ++ to_decimal (length image)
            ++ ascii ";width="
            ++ to_decimal p.cols
            ++ ascii ";height="
            ++ to_decimal p.rows
            ++ ascii ";preserveAspectRatio=1;doNotMoveCursor=1:"
            ++ codecs.base64_encode image
            ++ 0x07 ∷ [])
          tmux

  -- `Graphics::draw`
  unfoldable pub draw : Graphics → Bytes → Bytes → Placement → Option Bytes
  unfolding kitty_draw iterm2_draw
  draw g content_type image p =
      if p.cols == 0 || p.rows == 0 || length image == 0 then none else elim g.protocol [
        | kitty ↦ kitty_draw content_type image p g.tmux
        | iterm2 ↦ some (iterm2_draw image p g.tmux)
        | text_only ↦ none
      ]

  unfoldable pub probe_query : Bool → Bytes
  unfolding to_decimal
  probe_query tmux =
      escape
        ((esc ∷ ascii "_Gi=")
          ++ to_decimal probe_id
          ++ ascii ",s=1,v=1,a=q,t=d,f=24;"
          ++ codecs.base64_encode (0 ∷ 0 ∷ 0 ∷ [])
          ++ terminator
          ++ esc ∷ ascii "[c")
        tmux
