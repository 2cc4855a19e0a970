-- ===== src/Terminal/View.antt =====
-- The display's own state and the snapshot that the receiver keeps of the same messages.
use openairplay.Prelude.{◌≡◌, refl, Bool, true, false, Option, List, [], ◌∷◌, Bytes}
use openairplay.Display.{
  Message, Snapshot, snapshot, session_started, metadata, cover, volume, position, paused, flushed,
  session_ended,
}
use openairplay.Display
use openairplay.Terminal.NowPlaying.{
  NowPlaying, session_of, track_or_default, progress_of, decode_artwork, apply_message,
}
use openairplay.Terminal.Updates.{map_option, and_then}

abbrev pub is_empty : Bytes → Bool
is_empty [] = true
is_empty (_ ∷ _) = false

module _ {F : Type 0} (decode_base64 : Bytes → Option Bytes) where
  -- The display shows what a snapshot has, all but the volume.
  abbrev pub Agrees : NowPlaying F → Snapshot Bytes F → Type 0
  Agrees s t =
      (s.name ≡ t.receiver.name)
      × (s.session ≡ map_option session_of t.session)
      × (s.title ≡ (track_or_default t.track).title)
      × (s.artist ≡ (track_or_default t.track).artist)
      × (s.album ≡ (track_or_default t.track).album)
      × (s.progress ≡ map_option progress_of t.progress)
      × (s.artwork
          ≡ and_then (λ a. decode_artwork decode_base64 a.content_type a.data_base64) t.artwork)
      × (s.is_paused ≡ t.is_paused)

  apply_message-Agrees :
      (m : Message Bytes F) (s : NowPlaying F) (t : Snapshot Bytes F)
      → Agrees s t
      → Agrees (apply_message decode_base64 m s) (Display.apply is_empty m t)
  unfolding apply_message Display.apply decode_artwork
  apply_message-Agrees (snapshot other) s t h = (refl, refl, refl, refl, refl, refl, refl, refl)
  apply_message-Agrees (session_started rate channels peer) s t (n, se, ti, ar, al, pr, aw, pa) =
      (n, refl, ti, ar, al, pr, aw, refl)
  apply_message-Agrees (metadata title artist album) s t (n, se, ti, ar, al, pr, aw, pa) =
      (n, se, refl, refl, refl, pr, aw, pa)
  apply_message-Agrees (cover content_type []) s t (n, se, ti, ar, al, pr, aw, pa) =
      (n, se, ti, ar, al, pr, refl, pa)
  apply_message-Agrees (cover content_type (b ∷ bs)) s t (n, se, ti, ar, al, pr, aw, pa) =
      (n, se, ti, ar, al, pr, refl, pa)
  apply_message-Agrees (volume db) s t h = h
  apply_message-Agrees (position elapsed_ms duration_ms) s t (n, se, ti, ar, al, pr, aw, pa) =
      (n, se, ti, ar, al, refl, aw, pa)
  apply_message-Agrees (paused b) s t (n, se, ti, ar, al, pr, aw, pa) =
      (n, se, ti, ar, al, pr, aw, refl)
  apply_message-Agrees flushed s t h = h
  apply_message-Agrees session_ended s t (n, se, ti, ar, al, pr, aw, pa) =
      (n, refl, refl, refl, refl, refl, refl, refl)

  unfoldable pub apply_messages : List (Message Bytes F) → NowPlaying F → NowPlaying F
  unfolding apply_message
  apply_messages [] s = s
  apply_messages (m ∷ messages) s = apply_messages messages (apply_message decode_base64 m s)

  apply_messages_from :
      (messages : List (Message Bytes F)) (s : NowPlaying F) (t : Snapshot Bytes F)
      → Agrees s t
      → Agrees (apply_messages messages s) (Display.apply_all is_empty messages t)
  unfolding apply_messages Display.apply_all
  apply_messages_from [] s t h = h
  apply_messages_from (m ∷ messages) s t h =
      apply_messages_from messages (apply_message decode_base64 m s) (Display.apply is_empty m t)
        (apply_message-Agrees m s t h)

  -- A display that gets the receiver's snapshot and then the messages behind it shows what the
  -- snapshot becomes when the receiver folds the same messages into it: the receiver's name, the
  -- session, the track, the position, the cover art where it decodes, and whether it is paused.
  pub apply_messages-Agrees :
      (start : Snapshot Bytes F) (messages : List (Message Bytes F)) (s : NowPlaying F)
      → Agrees
          (apply_messages (snapshot start ∷ messages) s)
          (Display.apply_all is_empty messages start)
  unfolding apply_messages apply_message decode_artwork
  apply_messages-Agrees start messages s =
      apply_messages_from messages (apply_message decode_base64 (snapshot start) s) start
        (refl, refl, refl, refl, refl, refl, refl, refl)
