-- ===== src/Terminal/Screen.antt =====
-- The image that the terminal shows, and the one that `ArtworkOnScreen` has on record.
use openairplay.Prelude.{
  ◌≡◌, refl, sym, ap, subst, inl, inr, Bool, true, false, if◌then◌else◌, Bool-cases, Option, none,
  some, List, [], ◌∷◌, Bytes, arith,
}
use openairplay.Terminal.{Protocol, kitty, Graphics, Codecs, clear, clear_as, draw}
use openairplay.Terminal.Artwork.{
  Artwork, Rect, DrawnArtwork, ArtworkOnScreen, Writer, new, same_drawn, wanted_artwork,
  placement_of, write_escape, take_down, remove, put_image, replace, sync, focus_lost,
  focus_lost_from, focus_gained,
}

-- A writer that never fails and keeps what it got, the last in front.
abbrev pub log : Writer (List Bytes)
log = record { write_all = λ bytes out. (bytes ∷ out, true); flush = λ out. (out, true) }

-- What the escapes of a log leave on the screen: an image is drawn on an empty screen only.
pub data Shows (codecs : Codecs) (images : Graphics)
    : List Bytes → Option DrawnArtwork → Type 0 where
  blank : Shows codecs images [] none
  taken_off :
      {bytes : Bytes} {out : List Bytes} {drawn : Option DrawnArtwork}
      → clear images ≡ some bytes
      → Shows codecs images out drawn
      → Shows codecs images (bytes ∷ out) none
  shown :
      {bytes : Bytes} {out : List Bytes} {w : DrawnArtwork}
      → draw codecs images w.artwork.content_type w.artwork.data_bytes (placement_of w) ≡ some bytes
      → Shows codecs images out none
      → Shows codecs images (bytes ∷ out) (some w)

-- What happens to a display.
pub data ScreenEvent : Type 0 where
  redrawn : Option Artwork → Rect → ScreenEvent
  unfocused focused_again : ScreenEvent

abbrev pub Screen : Type 0
Screen = ArtworkOnScreen × List Bytes × Bool

module _ (codecs : Codecs) where
  abbrev pub handle_event : ScreenEvent → Screen → Screen
  handle_event (redrawn artwork area) (s, out, _) = sync log codecs s artwork area out
  handle_event unfocused (s, out, _) = focus_lost log s out
  handle_event focused_again (s, out, is_ok) = (focus_gained s, out, is_ok)

  unfoldable pub handle_all : List ScreenEvent → Screen → Screen
  handle_all [] screen = screen
  handle_all (event ∷ events) screen = handle_all events (handle_event event screen)

  -- On a kitty terminal the record is what is shown, and nothing is while the pane is not looked at.
  abbrev pub IsTrue : Screen → Type 0
  IsTrue (s, out, _) =
      (s.images.protocol ≡ kitty)
      × Shows codecs s.images out s.drawn
      × (s.focused ≡ false → s.drawn ≡ none)

  clear_shown :
      (images : Graphics) (drawn : Option DrawnArtwork) (out : List Bytes)
      → images.protocol ≡ kitty
      → Shows codecs images out drawn
      → (bytes : Bytes) × (clear images ≡ some bytes) × Shows codecs images (bytes ∷ out) none
  unfolding clear_as
  clear_shown images drawn out k h =
      let is_clear = ap (λ (p : Protocol). clear_as p images.tmux) k in
      (_, is_clear, taken_off is_clear h)

  remove-Shows :
      (drawn : Option DrawnArtwork) (images : Graphics) (out : List Bytes)
      → images.protocol ≡ kitty
      → Shows codecs images out drawn
      → (after : List Bytes) × (remove log drawn images out ≡ (after, true))
        × Shows codecs images after none
  remove-Shows none images out k h = (out, refl, h)
  remove-Shows (some w) images out k h =
      let (bytes, is_clear, wiped) = clear_shown images (some w) out k h in
      (bytes ∷ out, ap (λ (o : Option Bytes). write_escape log o out) is_clear, wiped)

  put_image-IsTrue :
      (o : Option Bytes) (w : DrawnArtwork) (s : ArtworkOnScreen) (out : List Bytes)
      → draw codecs s.images w.artwork.content_type w.artwork.data_bytes (placement_of w) ≡ o
      → s.images.protocol ≡ kitty
      → s.focused ≡ true
      → Shows codecs s.images out none
      → IsTrue (put_image log o w s out)
  put_image-IsTrue none w s out e k f h = (k, h, λ _. refl)
  put_image-IsTrue (some bytes) w s out e k f h = (k, shown e h, λ no. absurd (ground arith))

  replace-IsTrue :
      (wanted : Option DrawnArtwork) (s : ArtworkOnScreen) (out : List Bytes)
      → s.images.protocol ≡ kitty
      → s.focused ≡ true
      → Shows codecs s.images out none
      → IsTrue (replace log codecs wanted s (out, true))
  replace-IsTrue none s out k f h = (k, h, λ _. refl)
  replace-IsTrue (some w) s out k f h = put_image-IsTrue _ w s out refl k f h

  sync_away :
      (s : ArtworkOnScreen) (artwork : Option Artwork) (area : Rect) (out : List Bytes)
      → s.focused ≡ false
      → sync log codecs s artwork area out ≡ (s, out, true)
  unfolding sync
  sync_away s artwork area out h = ground arith

  sync_looked :
      (s : ArtworkOnScreen) (artwork : Option Artwork) (area : Rect) (out : List Bytes)
      → s.images.protocol ≡ kitty
      → s.focused ≡ true
      → sync log codecs s artwork area out ≡ (
          if same_drawn (wanted_artwork artwork area) s.drawn
          then (s, out, true)
          else replace log codecs (wanted_artwork artwork area) s (remove log s.drawn s.images out))
  unfolding sync
  sync_looked s artwork area out k h = rw (k, h)

  if_changed :
      (is_same : Bool) (same changed : Screen)
      → IsTrue same
      → IsTrue changed
      → IsTrue (if is_same then same else changed)
  if_changed true same changed h k = h
  if_changed false same changed h k = k

  replaced-IsTrue :
      (s : ArtworkOnScreen) (wanted : Option DrawnArtwork) (out : List Bytes)
      → s.images.protocol ≡ kitty
      → s.focused ≡ true
      → Shows codecs s.images out s.drawn
      → IsTrue (replace log codecs wanted s (remove log s.drawn s.images out))
  replaced-IsTrue s wanted out k f h =
      let (after, is_removed, wiped) = remove-Shows s.drawn s.images out k h in
      subst (λ (r : List Bytes × Bool). IsTrue (replace log codecs wanted s r)) (sym is_removed)
        (replace-IsTrue wanted s after k f wiped)

  sync-IsTrue :
      (s : ArtworkOnScreen) (artwork : Option Artwork) (area : Rect) (out : List Bytes)
      (is_ok : Bool)
      → IsTrue (s, out, is_ok)
      → IsTrue (sync log codecs s artwork area out)
  sync-IsTrue s artwork area out is_ok (k, h, f) = elim (Bool-cases s.focused) [
    | inl looked ↦ subst IsTrue (sym (sync_looked s artwork area out k looked)) (
        if_changed (same_drawn (wanted_artwork artwork area) s.drawn) _ _ (k, h, f)
          (replaced-IsTrue s (wanted_artwork artwork area) out k looked h))
    | inr away ↦ subst IsTrue (sym (sync_away s artwork area out away)) (k, h, f)
  ]

  focus_lost_from-IsTrue :
      (drawn : Option DrawnArtwork) (s : ArtworkOnScreen) (out : List Bytes)
      → s.drawn ≡ none
      → s.images.protocol ≡ kitty
      → Shows codecs s.images out drawn
      → IsTrue (focus_lost_from log drawn s out)
  focus_lost_from-IsTrue none s out d k h = (k, subst (Shows codecs s.images out) (sym d) h, λ _. d)
  focus_lost_from-IsTrue (some w) s out d k h =
      let (bytes, is_clear, wiped) = clear_shown s.images (some w) out k h in
      subst (λ (o : Option Bytes). IsTrue (take_down log o s out)) (sym is_clear)
        (k, subst (Shows codecs s.images (bytes ∷ out)) (sym d) wiped, λ _. d)

  focus_lost-IsTrue :
      (s : ArtworkOnScreen) (out : List Bytes) (is_ok : Bool)
      → IsTrue (s, out, is_ok)
      → IsTrue (focus_lost log s out)
  unfolding focus_lost
  focus_lost-IsTrue s out is_ok (k, h, _) =
      focus_lost_from-IsTrue s.drawn (record s { focused = false; drawn = none }) out refl k h

  handle_event-IsTrue :
      (event : ScreenEvent) (screen : Screen) → IsTrue screen → IsTrue (handle_event event screen)
  handle_event-IsTrue (redrawn artwork area) (s, out, is_ok) h =
      sync-IsTrue s artwork area out is_ok h
  handle_event-IsTrue unfocused (s, out, is_ok) h = focus_lost-IsTrue s out is_ok h
  handle_event-IsTrue focused_again (s, out, is_ok) (k, h, f) = (k, h, λ no. absurd (ground arith))

  handle_all_from :
      (events : List ScreenEvent) (screen : Screen)
      → IsTrue screen
      → IsTrue (handle_all events screen)
  unfolding handle_all
  handle_all_from [] screen h = h
  handle_all_from (event ∷ events) screen h =
      handle_all_from events (handle_event event screen) (handle_event-IsTrue event screen h)

  -- On a kitty terminal that takes every write, whatever is redrawn and however the focus comes and
  -- goes, the escapes written show the image that is on record and draw one only where none is
  -- shown, and none is shown or on record while the pane is not looked at.
  pub handle_all-IsTrue :
      (images : Graphics) (events : List ScreenEvent)
      → images.protocol ≡ kitty
      → IsTrue (handle_all events (new images, [], true))
  handle_all-IsTrue images events k =
      handle_all_from events (new images, [], true) (k, blank, λ _. refl)
