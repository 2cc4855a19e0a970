-- ===== src/Terminal/Detect.antt =====
-- openairplay2-tui/src/images.rs: which escapes a terminal can be sent.
use openairplay.Prelude.{
  Bool, true, false, ◌||◌, if◌then◌else◌, Option, none, some, [], ◌∷◌, Bytes, ascii, same_bytes,
  starts_with, eq_ignore_ascii_case, trim,
}
use openairplay.Terminal.{Protocol, kitty, iterm2, text_only, Graphics}

unfoldable pub parse : Bytes → Option Protocol
unfolding same_bytes
parse value =
    if same_bytes value (ascii "kitty")
    then some kitty
    else if same_bytes value (ascii "iterm2")
    then some iterm2
    else if same_bytes value (ascii "none")
    then some text_only
    else none

pub data Multiplexer : Type 0 where
  no_multiplexer in_tmux in_screen : Multiplexer

abbrev pub in_multiplexer : Protocol → Multiplexer → Graphics
in_multiplexer protocol in_tmux = record { protocol = protocol; tmux = true }
in_multiplexer protocol in_screen = record { protocol = text_only; tmux = false }
in_multiplexer protocol no_multiplexer = record { protocol = protocol; tmux = false }

-- The environment, `std::env::var` in the program.
abbrev pub Env : Type 0
Env = Bytes → Option Bytes

-- `filter(|v| !v.is_empty())`
abbrev not_empty : Option Bytes → Option Bytes
not_empty (some []) = none
not_empty v = v

abbrev pub var : Env → Bytes → Option Bytes
var env name = not_empty (env name)

abbrev pub is_some : Option Bytes → Bool
is_some none = false
is_some (some _) = true

abbrev pub unwrap_or_default : Option Bytes → Bytes
unwrap_or_default none = []
unwrap_or_default (some v) = v

unfoldable pub multiplexer : Env → Multiplexer
unfolding starts_with
multiplexer env =
    if is_some (var env (ascii "TMUX"))
    then in_tmux
    else if is_some (var env (ascii "STY"))
    then in_screen
    else if starts_with (unwrap_or_default (var env (ascii "TERM"))) (ascii "tmux")
    then in_tmux
    else if starts_with (unwrap_or_default (var env (ascii "TERM"))) (ascii "screen")
    then in_screen
    else no_multiplexer

-- `str::contains`
unfoldable pub contains : Bytes → Bytes → Bool
unfolding starts_with
contains [] pat = starts_with [] pat
contains (c ∷ s) pat = starts_with (c ∷ s) pat || contains s pat

abbrev is_named : Option Bytes → Bytes → Bool
is_named none name = false
is_named (some v) name = eq_ignore_ascii_case v name

abbrev pub speaks_kitty : Env → Bool
speaks_kitty env =
    let term = unwrap_or_default (var env (ascii "TERM")) in
    let program = unwrap_or_default (var env (ascii "TERM_PROGRAM")) in
    contains term (ascii "kitty")
    || contains term (ascii "ghostty")
    || is_some (var env (ascii "KITTY_WINDOW_ID"))
    || is_some (var env (ascii "GHOSTTY_RESOURCES_DIR"))
    || is_some (var env (ascii "GHOSTTY_BIN_DIR"))
    || eq_ignore_ascii_case program (ascii "ghostty")
    || eq_ignore_ascii_case program (ascii "kitty")
    || eq_ignore_ascii_case program (ascii "WezTerm")

abbrev pub speaks_iterm2 : Env → Bool
speaks_iterm2 env =
    let program = unwrap_or_default (var env (ascii "TERM_PROGRAM")) in
    eq_ignore_ascii_case program (ascii "iTerm.app")
    || is_named (var env (ascii "LC_TERMINAL")) (ascii "iTerm2")
    || is_some (var env (ascii "KONSOLE_VERSION"))

-- `probe == Some(true)`
abbrev pub settled : Option Bool → Bool
settled (some true) = true
settled _ = false

unfoldable pub detect : Env → Option Bool → Protocol
detect env probe =
    if settled probe
    then kitty
    else if speaks_kitty env
    then kitty
    else if speaks_iterm2 env
    then iterm2
    else text_only

pub data Allowed : Type 0 where
  always when_visible never unknown : Allowed

-- `Passthrough::parse`
unfoldable pub parse_allowed : Bytes → Allowed
unfolding same_bytes trim
parse_allowed value =
    if same_bytes (trim value) (ascii "all")
    then always
    else if same_bytes (trim value) (ascii "on")
    then when_visible
    else if same_bytes (trim value) (ascii "off")
    then never
    else unknown
