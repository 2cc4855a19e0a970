-- ===== src/Dmap.antt =====
-- openairplay2/src/dmap.rs: the walk over DMAP entries `[tag:4][u32 length][payload]` and the track
-- metadata that it collects.
pub mod Entries
pub mod Metadata
mod Runs
use Prim.Native.Char.{code}
use openairplay.Prelude.{
  ℕ, zero, suc, ◌+◌, Bool, ltb, same_bytes, if◌then◌else◌, Option, none, some, List, [], ◌∷◌,
  length, take, drop, Bytes, from_be32,
}

-- `S` stands for the text type `String`, which `from_utf8_lossy` makes from bytes.
pub record TrackMetadata (S : Type 0) : Type 0 where
  pub title : Option S
  pub artist : Option S
  pub album : Option S

abbrev pub default : {S : Type 0} → TrackMetadata S
default = record { title = none; artist = none; album = none }

abbrev pub tag_mlit : Bytes
tag_mlit = b'm' ∷ b'l' ∷ b'i' ∷ b't' ∷ []

abbrev pub tag_minm : Bytes
tag_minm = b'm' ∷ b'i' ∷ b'n' ∷ b'm' ∷ []

abbrev pub tag_asar : Bytes
tag_asar = b'a' ∷ b's' ∷ b'a' ∷ b'r' ∷ []

abbrev pub tag_asal : Bytes
tag_asal = b'a' ∷ b's' ∷ b'a' ∷ b'l' ∷ []

-- `walk`, with the callback's captured state passed through. The fuel bounds the rounds: an entry
-- has eight bytes at least.
module _ {A : Type 0} (f : A → Bytes → Bytes → A) where
  unfoldable pub walk_loop : ℕ → Bytes → A → A
  walk_loop (suc fuel) (t0 ∷ t1 ∷ t2 ∷ t3 ∷ l0 ∷ l1 ∷ l2 ∷ l3 ∷ rest) acc =
      let tag = t0 ∷ t1 ∷ t2 ∷ t3 ∷ [] in
      let len = from_be32 l0 l1 l2 l3 in
      let more = walk_loop fuel (drop len rest) (f acc tag (take len rest)) in
      if ltb (length rest) len then acc else more
  walk_loop _ _ acc = acc

  unfoldable pub walk : Bytes → A → A
  unfolding walk_loop
  walk bytes acc = walk_loop (length bytes) bytes acc

module _ {S : Type 0} (from_utf8_lossy : Bytes → S) where
  -- The inner callback: one field of the track.
  unfoldable pub set_field : TrackMetadata S → Bytes → Bytes → TrackMetadata S
  unfolding same_bytes
  set_field m tag payload =
      if same_bytes tag tag_minm
      then record m { title = some (from_utf8_lossy payload) }
      else if same_bytes tag tag_asar
      then record m { artist = some (from_utf8_lossy payload) }
      else if same_bytes tag tag_asal
      then record m { album = some (from_utf8_lossy payload) }
      else m

  -- `get_or_insert_with(TrackMetadata::default)`
  abbrev pub or_default : Option (TrackMetadata S) → TrackMetadata S
  or_default none = default
  or_default (some m) = m

  -- The outer callback: an `mlit` container is walked in turn.
  unfoldable pub set_track : Option (TrackMetadata S) → Bytes → Bytes → Option (TrackMetadata S)
  unfolding walk set_field
  set_track meta tag payload =
      if same_bytes tag tag_mlit then some (walk set_field payload (or_default meta)) else meta

  unfoldable pub parse : Bytes → Option (TrackMetadata S)
  unfolding set_track
  parse body = walk set_track body none
