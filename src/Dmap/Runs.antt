-- ===== src/Dmap/Runs.antt =====
-- Concrete runs of the DMAP walk, and its theorems at concrete inputs. The text conversion is the
-- identity here.
use openairplay.Prelude.{ℕ, ◌≡◌, refl, Option, none, some, List, [], ◌∷◌, ◌++◌, Bytes, arith}
use openairplay.Dmap.{default, tag_mlit, tag_minm, tag_asar, tag_asal, parse}
use openairplay.Dmap.Entries.{Entry, entries}
use openairplay.Dmap.Metadata.{track, parse-track}

abbrev text : Bytes → Bytes
text b = b

abbrev song : List Entry
song = (tag_minm, 83 ∷ []) ∷ (b'a' ∷ b's' ∷ b't' ∷ b'm' ∷ [], 1 ∷ 2 ∷ []) ∷ (tag_asar, 65 ∷ []) ∷ []

-- An album that claims a hundred bytes and has none.
abbrev truncated_album : Bytes
truncated_album = tag_asal ++ (0 ∷ 0 ∷ 0 ∷ 100 ∷ [])

parse-song :
    parse text (entries ((tag_mlit, entries song ++ truncated_album) ∷ []))
    ≡ some (record { title = some (83 ∷ []); artist = some (65 ∷ []); album = none })
unfolding parse
parse-song = refl

parse_not_dmap : parse text (1 ∷ 2 ∷ 3 ∷ []) ≡ none
unfolding parse
parse_not_dmap = refl

parse-track_example :
    parse text
      (entries ((tag_minm, []) ∷ (tag_mlit, entries song ++ truncated_album) ∷ []) ++ 7 ∷ [])
    ≡ some (track text default song)
unfolding openairplay.Prelude.same_bytes
parse-track_example =
    parse-track text ((tag_minm, []) ∷ []) [] song truncated_album (7 ∷ []) (omega arith) tt
      (omega arith) (refl, tt) tt (omega arith) (omega arith) tt
