-- ===== src/Terminal/Kitty.antt =====
-- How an image travels to a kitty terminal.
use openairplay.Prelude.{ℕ, ◌≢◌, ◌≤◌, Bool, if◌then◌else◌, [], ◌++◌, Bytes, ascii, length}
use openairplay.Terminal.{chunk_len, unit}
use openairplay.Terminal.Passthrough.{forward_all}

-- The escapes of an image: in each a chunk of 1 to 4096 bytes, `m=1` in all but the last, and the
-- other keys in the first.
pub data Carries : Bytes → Bytes → Bytes → Type 0 where
  last_unit :
      {keys chunk : Bytes}
      → chunk ≢ []
      → length chunk ≤ chunk_len
      → Carries keys (unit keys (ascii "0") chunk) chunk
  unit_before :
      {keys chunk wire payload : Bytes}
      → chunk ≢ []
      → length chunk ≤ chunk_len
      → Carries [] wire payload
      → Carries keys (unit keys (ascii "1") chunk ++ wire) (chunk ++ payload)

-- What the terminal gets: under tmux, what tmux forwards of `n` envelopes.
abbrev pub received : Bool → ℕ → Bytes → Bytes
received tmux n wire = if tmux then forward_all n wire else wire
