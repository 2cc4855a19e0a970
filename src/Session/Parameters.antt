-- ===== src/Session/Parameters.antt =====
-- `get_parameter` and `set_parameter` in openairplay2/src/session.rs: the bodies as text. Reading and
-- printing an f32 are parameters, and so is `String::from_utf8_lossy`.
use openairplay.Prelude.{
  ℕ, Bool, ◌&&◌, ◌==◌, if◌then◌else◌, Option, none, some, List, [], ◌∷◌, ◌++◌, length, take, drop,
  is_empty, leb, Bytes, ascii, cr, lf, starts_with, same_bytes, eq_ignore_ascii_case, trim,
  parse_u32, parse_unsigned, extend_first,
}
use openairplay.Session.{Session, set_progress, set_volume, set_metadata, set_artwork}

abbrev pub dmap_content_type : Bytes
dmap_content_type = ascii "application/x-dmap-tagged"

-- `split` at an ASCII character.
unfoldable pub split : ℕ → Bytes → List Bytes
split sep [] = [] ∷ []
split sep (c ∷ s) = let parts = split sep s in if c == sep then [] ∷ parts else extend_first c parts

-- `str::lines`: a final line end begins no further line. The carriage return before a line end is
-- dropped.
abbrev drop_cr : Bytes → Bytes
drop_cr [] = []
drop_cr (c ∷ []) = if c == cr then [] else c ∷ []
drop_cr (c ∷ d ∷ s) = c ∷ drop_cr (d ∷ s)

abbrev pub ended_lines : List Bytes → List Bytes
ended_lines [] = []
ended_lines (line ∷ []) = if is_empty line then [] else line ∷ []
ended_lines (line ∷ next ∷ lines) = drop_cr line ∷ ended_lines (next ∷ lines)

abbrev pub lines : Bytes → List Bytes
lines text = ended_lines (split lf text)

abbrev pub strip_prefix : Bytes → Bytes → Option Bytes
strip_prefix p s = if starts_with s p then some (drop (length p) s) else none

-- The three timestamps of a `progress:` line; anything else is no progress.
abbrev pub timestamps : List Bytes → Option (ℕ × ℕ × ℕ)
timestamps (a ∷ b ∷ c ∷ []) = elim (parse_u32 (trim a)) [
  | none ↦ none
  | some start ↦ elim (parse_u32 (trim b)) [
    | none ↦ none
    | some current ↦ elim (parse_u32 (trim c)) [
      | none ↦ none
      | some end ↦ some (start, current, end)
    ]
  ]
]
timestamps _ = none

unfoldable pub parse_progress : Bytes → Option (ℕ × ℕ × ℕ)
unfolding split trim parse_unsigned
parse_progress value = timestamps (split 47 value)

-- The media type without its parameters.
abbrev pub media_type : Option Bytes → Option Bytes
media_type none = none
media_type (some ct) = elim (split 59 ct) [ [] ↦ some (trim ct) | part ∷ parts ↦ some (trim part) ]

-- `ct.get(..6)` and the comparison; the texts that begin so have a character's end there.
abbrev pub is_image : Bytes → Bool
is_image ct = leb 6 (length ct) && eq_ignore_ascii_case (take 6 ct) (ascii "image/")

module _ (from_utf8_lossy : Bytes → Bytes) (parse_f32 : Bytes → Option ℕ) where
  -- What follows `volume:` and what follows `progress:`, where a line begins so.
  abbrev pub apply_prefixed :
      Option Bytes → Option Bytes → Session from_utf8_lossy → Session from_utf8_lossy
  apply_prefixed (some v) p s = set_volume from_utf8_lossy (parse_f32 (trim v)) s
  apply_prefixed none (some p) s = set_progress from_utf8_lossy (parse_progress (trim p)) s
  apply_prefixed none none s = s

  -- One trimmed line of `text/parameters`.
  abbrev pub apply_line : Bytes → Session from_utf8_lossy → Session from_utf8_lossy
  apply_line line s =
      apply_prefixed (strip_prefix (ascii "volume:") line) (strip_prefix (ascii "progress:") line) s

  unfoldable pub apply_lines : List Bytes → Session from_utf8_lossy → Session from_utf8_lossy
  unfolding starts_with set_volume set_progress parse_progress
  apply_lines [] s = s
  apply_lines (line ∷ rest) s = apply_lines rest (apply_line (trim line) s)

  unfoldable pub set_text_parameters : Bytes → Session from_utf8_lossy → Session from_utf8_lossy
  unfolding apply_lines
  set_text_parameters body s = apply_lines (lines (from_utf8_lossy body)) s

  abbrev pub set_typed : Option Bytes → Bytes → Session from_utf8_lossy → Session from_utf8_lossy
  set_typed none body s = set_text_parameters body s
  set_typed (some ct) body s =
      if eq_ignore_ascii_case ct dmap_content_type
      then set_metadata from_utf8_lossy body s
      else if is_image ct
      then set_artwork from_utf8_lossy ct body s
      else set_text_parameters body s

  unfoldable pub set_parameter :
      Option Bytes → Bytes → Session from_utf8_lossy → Session from_utf8_lossy
  unfolding eq_ignore_ascii_case set_metadata set_artwork set_text_parameters
  set_parameter content_type body s = set_typed (media_type content_type) body s

module _ (from_utf8_lossy : Bytes → Bytes) (show_f32 : ℕ → Bytes) where
  unfoldable pub get_parameter : Bytes → Session from_utf8_lossy → Bytes
  unfolding trim same_bytes
  get_parameter body s =
      if same_bytes (trim (from_utf8_lossy body)) (ascii "volume")
      then ascii "volume: " ++ show_f32 s.volume_db ++ cr ∷ lf ∷ []
      else []
