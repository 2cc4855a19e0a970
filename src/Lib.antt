-- ===== src/Lib.antt =====
-- A model of openairplay2, an AirPlay 2 audio receiver, and of what makes its parts correct.
--
-- The library crate (openairplay2/src) reads a control connection and an audio connection:
--   Tlv: the TLV8 codec of the pairing messages (openairplay2/src/tlv.rs).
--   Cipher: the encrypted control channel (openairplay2/src/cipher.rs). `decrypt_available` loops
--     over the input with its length as fuel; a round takes two bytes at least, and
--     Cipher.Pieces shows that the fuel never ends the loop early.
--   Buffered: the blocks and packets of the audio channel (openairplay2/src/buffered.rs), with the
--     same kind of fuel.
--   Dmap: the track metadata (openairplay2/src/dmap.rs), with the same kind of fuel.
--   Player: the playback queue (openairplay2/src/player.rs). The thread and the methods that others
--     call act on one `World` by turns, and a schedule is any list of turns. A turn of the thread
--     ends where it waits at `recv` or a write to the sink returns; the position in the track is in
--     Player.Timeline.
--   Pipeline: the reader of the audio connection (`buffered_audio` in openairplay2/src/session.rs),
--     from the bytes of TCP by way of Buffered to the packets that Player is given. The AAC decoder
--     is a parameter.
--   Http: the requests and responses of the control connection (openairplay2/src/http.rs).
--   Connection: `ControlConnection` (openairplay2/src/crypto_stream.rs), which reads requests in the
--     clear and, with Cipher, encrypted. The transport is a list of pieces. The loops have fuel: a
--     round of `fill_encrypted` reads a byte at least, `read_byte` takes two rounds, a body two rounds
--     for a byte, and a head ends at its bound; that this is enough is part of the refinement in
--     Connection.Requests, whose abstract stream (Connection.Stream) has no fuel.
--   Server: `handle_connection` with the dispatch (openairplay2/src/server.rs), which composes
--     Connection, Pairing, Session, FairPlay and Takeover. A turn is a request to read, the end of the
--     handshake's time, or the eviction by another sender.
--   Session: SETUP and the control verbs of a connection and the milestones that the host sees
--     (openairplay2/src/session.rs, openairplay2/src/events.rs); it drives Player and uses Dmap.
--     A session has what its control task sends; Session.Host is the channel to the host, on which the
--     reports of the playback thread come among that. Session.Parameters reads the text bodies,
--     Session.Setup the property lists, by way of the interface `Plist` to the crate; an f32 is the
--     number that its bits are.
--   FairPlay: `fp_setup` (openairplay2/src/fairplay.rs).
--   Takeover: the active-session slot (openairplay2/src/takeover.rs) and the connections that claim
--     it (openairplay2/src/server.rs, openairplay2/src/session.rs), as steps of any interleaving.
--   Pairing: the `pair-setup` exchange (openairplay2/src/pairing.rs) on top of Tlv, with the SRP
--     server as the interface `Srp`.
--   Srp: both sides of SRP-6a (openairplay2/src/srp.rs), which fill that interface.
--   Display: the state of a display and the messages that change it
--     (openairplay2-tui-protocol/src/lib.rs).
--   Terminal: the escapes that draw cover art (openairplay2-tui/src/images.rs), with the crates base64
--     and jpeg_decoder as the parameter `Codecs`. Terminal.Artwork is the image on the screen over any
--     writer, Terminal.NowPlaying what the screen shows and the picker (openairplay2-tui/src/tui.rs,
--     with the data of openairplay2-tui/src/client.rs and openairplay2-tui/src/discover.rs), which
--     takes the messages of Display. Terminal.Passthrough reads the envelope as tmux does.
--     Terminal.Detect decides which escapes a terminal can be sent, Terminal.Updates has what the
--     display is told and Terminal.Roster the receivers that are found on the network.
--     The fuel of `chunks` is the length of its text, and a chunk takes a byte at least.
--
-- ChaCha20-Poly1305 and HKDF are crates that the program calls: Aead has them as parameters with
-- the laws that their documentation promises, and Aead.Toy shows that the laws can hold. SHA-512 and
-- the bytes of a BigUint are parameters of Srp in the same way.
-- A byte is a number below 256, a byte string a list of them; u16, u32 and u64 are numbers, with the
-- wrap-around written out. Logging is left out throughout.
--
-- Not modelled: the accept loop of openairplay2/src/server.rs, and what is sockets, D-Bus, ALSA,
-- threads, key files, the text layout of the terminal display and what it reads from the terminal,
-- in the library and in the two programs that use it (openairplay2-receiver/src,
-- openairplay2-tui/src).
pub mod Prelude
pub mod Tlv
pub mod Aead
pub mod Cipher
pub mod Buffered
pub mod Dmap
pub mod Player
pub mod Takeover
pub mod Pairing
pub mod Pipeline
pub mod Session
pub mod Display
pub mod Srp
pub mod Http
pub mod Connection
pub mod FairPlay
pub mod Server
pub mod Terminal
