-- ===== src/Terminal/Lines.antt =====
-- openairplay2-tui/src/tui.rs: the numbers of the now-playing view.
use openairplay.Prelude.{
  ℕ, ◌+◌, ◌-◌, ◌/◌, ◌%◌, min, max, ◌==◌, leb, ltb, if◌then◌else◌, Option, none, some, ◌++◌, Bytes,
  ascii, to_decimal,
}
use openairplay.Terminal.Artwork.{Rect}
use openairplay.Terminal.NowPlaying.{Progress}

-- The position to show.
abbrev pub shown_position : Option Progress → Option (ℕ × ℕ)
shown_position none = none
shown_position (some p) =
    if p.duration == 0 then none else some (min p.elapsed p.duration, p.duration)

-- `center_block`
abbrev pub center_block : Rect → ℕ → Rect
center_block area height =
    if leb area.height height
    then area
    else record area { y = area.y + (area.height - height) / 2; height = height }

abbrev pub bar_width : ℕ → ℕ
bar_width screen = max 10 (min (screen / 3) 40)

-- `{:02}`
abbrev pub two_digits : ℕ → Bytes
two_digits n = if ltb n 10 then ascii "0" ++ to_decimal n else to_decimal n

unfoldable pub clock : ℕ → Bytes
unfolding to_decimal
clock ms =
    let secs = ms / 1000 in
    if ltb 0 (secs / 3600)
    then to_decimal (secs / 3600)
      ++ ascii ":"
      ++ two_digits (secs % 3600 / 60)
      ++ ascii ":"
      ++ two_digits (secs % 60)
    else to_decimal (secs % 3600 / 60) ++ ascii ":" ++ two_digits (secs % 60)
