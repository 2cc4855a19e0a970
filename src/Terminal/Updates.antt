-- ===== src/Terminal/Updates.antt =====
-- openairplay2-tui/src/client.rs and openairplay2-tui/src/discover.rs: what the display is told, with the
-- names of the language's library that its state uses.
use openairplay.Prelude.{
  ℕ, zero, suc, Bool, ◌||◌, if◌then◌else◌, Option, none, some, List, [], ◌∷◌, Bytes, ascii,
  starts_with,
}
use openairplay.Display.{Message}

-- `discover::Receiver`
pub record Receiver : Type 0 where
  pub name : Bytes
  pub url : Bytes
  pub password : Bool

pub data Discovery : Type 0 where
  receivers : List Receiver → Discovery
  unavailable : Bytes → Discovery

pub data Endpoint : Type 0 where
  to_url to_socket : Bytes → Endpoint

pub data Update (F : Type 0) : Type 0 where
  is_connected : Bytes → Update F
  message : Message Bytes F → Update F
  disconnected is_unauthorized no_local_receiver : Update F
  discovery : Discovery → Update F

-- `isize`, which holds the cursors of every list.
pub data ℤ : Type 0 where
  pos negsuc : ℕ → ℤ

unfoldable pub endpoint_parse : Bytes → Endpoint
unfolding starts_with
endpoint_parse value =
    if starts_with value (ascii "ws://") || starts_with value (ascii "wss://")
    then to_url value
    else to_socket value

abbrev pub map_option : {A B : Type 0} → (A → B) → Option A → Option B
map_option f none = none
map_option f (some a) = some (f a)

abbrev pub and_then : {A B : Type 0} → (A → Option B) → Option A → Option B
and_then f none = none
and_then f (some a) = f a

abbrev pub unwrap_or : {A : Type 0} → A → Option A → A
unwrap_or a none = a
unwrap_or _ (some a) = a

-- `slice::get`
unfoldable pub get_elem? : {A : Type 0} → List A → ℕ → Option A
get_elem? [] n = none
get_elem? (a ∷ rest) zero = some a
get_elem? (a ∷ rest) (suc n) = get_elem? rest n
