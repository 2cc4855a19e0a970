-- ===== src/Terminal/Artwork.antt =====
-- openairplay2-tui/src/tui.rs: `ArtworkOnScreen`. The `impl Write` is any type of writers with
-- `write_all` and `flush`, which give the writer after them and whether they succeeded.
use openairplay.Prelude.{
  ℕ, ◌+◌, ◌%◌, ◌^◌, Bool, true, false, not, ◌&&◌, ◌||◌, ◌==◌, ltb, if◌then◌else◌, Option, none,
  some, Bytes, same_bytes,
}
use openairplay.Terminal.{Graphics, Placement, Codecs, draws, clear, clear_as, draw}

pub record Artwork : Type 0 where
  pub content_type : Bytes
  pub data_bytes : Bytes

pub record Rect : Type 0 where
  pub x : ℕ
  pub y : ℕ
  pub width : ℕ
  pub height : ℕ

pub record DrawnArtwork : Type 0 where
  pub artwork : Artwork
  pub area : Rect

pub record ArtworkOnScreen : Type 0 where
  pub images : Graphics
  pub drawn : Option DrawnArtwork
  pub focused : Bool

abbrev pub new : Graphics → ArtworkOnScreen
new images = record { images = images; drawn = none; focused = true }

-- The derived `==`.
unfoldable pub same_drawn : Option DrawnArtwork → Option DrawnArtwork → Bool
unfolding same_bytes
same_drawn none none = true
same_drawn (some a) (some b) =
    same_bytes a.artwork.content_type b.artwork.content_type
    && same_bytes a.artwork.data_bytes b.artwork.data_bytes
    && a.area.x == b.area.x
    && a.area.y == b.area.y
    && a.area.width == b.area.width
    && a.area.height == b.area.height
same_drawn _ _ = false

abbrev pub wanted_artwork : Option Artwork → Rect → Option DrawnArtwork
wanted_artwork none area = none
wanted_artwork (some artwork) area =
    if ltb 0 area.width && ltb 0 area.height
    then some (record { artwork = artwork; area = area })
    else none

abbrev pub placement_of : DrawnArtwork → Placement
placement_of w = record {
  col = (w.area.x + 1) % 2 ^ 16;
  row = (w.area.y + 1) % 2 ^ 16;
  cols = w.area.width;
  rows = w.area.height;
}

pub record Writer (W : Type 0) : Type 0 where
  pub write_all : Bytes → W → W × Bool
  pub flush : W → W × Bool

abbrev pub focus_gained : ArtworkOnScreen → ArtworkOnScreen
focus_gained s = record s { focused = true }

module _ {W : Type 0} (writer : Writer W) where
  abbrev pub write_escape : Option Bytes → W → W × Bool
  write_escape none out = (out, true)
  write_escape (some bytes) out = writer.write_all bytes out

  abbrev pub remove : Option DrawnArtwork → Graphics → W → W × Bool
  remove none images out = (out, true)
  remove (some _) images out = write_escape (clear images) out

  -- The flush at the end of `sync`, and what it records.
  abbrev pub recorded :
      Option DrawnArtwork → ArtworkOnScreen → W × Bool → ArtworkOnScreen × W × Bool
  recorded wanted s (out, true) = (record s { drawn = wanted }, out, true)
  recorded wanted s (out, false) = (s, out, false)

  abbrev pub flushed_as :
      Option DrawnArtwork → ArtworkOnScreen → W × Bool → ArtworkOnScreen × W × Bool
  flushed_as wanted s (out, true) = recorded wanted s (writer.flush out)
  flushed_as wanted s (out, false) = (s, out, false)

  abbrev pub put_image :
      Option Bytes → DrawnArtwork → ArtworkOnScreen → W → ArtworkOnScreen × W × Bool
  put_image none wanted s out = (record s { drawn = none }, out, true)
  put_image (some bytes) wanted s out = flushed_as (some wanted) s (writer.write_all bytes out)

  abbrev paired : ArtworkOnScreen → W × Bool → ArtworkOnScreen × W × Bool
  paired s (out, is_ok) = (s, out, is_ok)

  -- `focus_lost`, when there was an image.
  abbrev flush_cleared : ArtworkOnScreen → W × Bool → ArtworkOnScreen × W × Bool
  flush_cleared s (out, true) = paired s (writer.flush out)
  flush_cleared s (out, false) = (s, out, false)

  abbrev pub take_down : Option Bytes → ArtworkOnScreen → W → ArtworkOnScreen × W × Bool
  take_down none s out = (s, out, true)
  take_down (some bytes) s out = flush_cleared s (writer.write_all bytes out)

  abbrev pub focus_lost_from :
      Option DrawnArtwork → ArtworkOnScreen → W → ArtworkOnScreen × W × Bool
  focus_lost_from none s out = (s, out, true)
  focus_lost_from (some _) s out = take_down (clear s.images) s out

  unfoldable pub focus_lost : ArtworkOnScreen → W → ArtworkOnScreen × W × Bool
  unfolding clear_as
  focus_lost s out = focus_lost_from s.drawn (record s { focused = false; drawn = none }) out

  module _ (codecs : Codecs) where
    abbrev pub replace :
        Option DrawnArtwork → ArtworkOnScreen → W × Bool → ArtworkOnScreen × W × Bool
    replace wanted s (out, false) = (s, out, false)
    replace none s (out, true) = recorded none s (writer.flush out)
    replace (some w) s (out, true) =
        put_image
          (draw codecs s.images w.artwork.content_type w.artwork.data_bytes (placement_of w)) w s
          out

    unfoldable pub sync : ArtworkOnScreen → Option Artwork → Rect → W → ArtworkOnScreen × W × Bool
    unfolding clear_as draw same_drawn
    sync s artwork area out =
        if not (draws s.images) || not s.focused
        then (s, out, true)
        else if same_drawn (wanted_artwork artwork area) s.drawn
        then (s, out, true)
        else replace (wanted_artwork artwork area) s (remove s.drawn s.images out)
