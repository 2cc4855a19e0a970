-- ===== src/Pipeline/Stream.antt =====
-- How TCP cuts the audio stream does not matter (openairplay2/src/session.rs).
use openairplay.Prelude.{
  ℕ, ◌+◌, ◌≤◌, ◌≡◌, refl, sym, ap, ◌∙◌, true, false, Bool, Option, none, some, List, [], ◌∷◌, ◌++◌,
  append_assoc, append-nil, length, length-append, drop, drop-append_le, drop-add, All, All-append,
  All-drop, Bytes, IsByte, arith,
}
use openairplay.Aead.{Aead}
use openairplay.Buffered.{AudioPacket, AudioDecryptor, decrypt, packet_seq, split_blocks}
use openairplay.Buffered.Blocks.{blocks, split_blocks-Splits, split_blocks-append}
use openairplay.Player.{Samples}
use openairplay.Pipeline.{
  skip_before_boundary, Decoder, Reader, deliver, opened, unless_skipped, with_seq, handle_packet,
  handle_packets, receive, receive_all,
}
use openairplay.Pipeline.Delivery.{concat}

used_bound : (a : Bytes) → All IsByte a → (split_blocks a).1 ≤ length a
used_bound a hb =
    let s = split_blocks-Splits a hb in
    let parts =
      ap length s.reads ∙ length-append (blocks (split_blocks a).0) (drop (split_blocks a).1 a) in
    omega (arith, parts, s.used)

module _ (aead : Aead) (decoder : Decoder) (decryptor : AudioDecryptor) where
  abbrev R : Type 0
  R = Reader aead decoder decryptor

  -- Handling packets neither reads nor changes the buffer.
  deliver-buf :
      (audio : AudioPacket) (d : Option Samples × decoder.State) (r : R) (x : Bytes)
      → deliver aead decoder decryptor audio d (record r { buf = x })
        ≡ record (deliver aead decoder decryptor audio d r) { buf = x }
  deliver-buf audio (none, codec) r x = refl
  deliver-buf audio (some [], codec) r x = refl
  deliver-buf audio (some (y ∷ ys), codec) r x = refl

  opened-buf :
      (audio : Option AudioPacket) (r : R) (x : Bytes)
      → opened aead decoder decryptor audio (record r { buf = x })
        ≡ record (opened aead decoder decryptor audio r) { buf = x }
  opened-buf none r x = refl
  opened-buf (some audio) r x = deliver-buf audio (decoder.decode audio.payload r.codec) r x

  unless_skipped-buf :
      (s : Bool × ℕ) (packet : Bytes) (r : R) (x : Bytes)
      → unless_skipped aead decoder decryptor s packet (record r { buf = x })
        ≡ record (unless_skipped aead decoder decryptor s packet r) { buf = x }
  unless_skipped-buf (true, boundary) packet r x = refl
  unless_skipped-buf (false, boundary) packet r x =
      opened-buf (decrypt aead decryptor packet) (record r { flush_until_seq = boundary }) x

  with_seq-buf :
      (seq : Option ℕ) (packet : Bytes) (r : R) (x : Bytes)
      → with_seq aead decoder decryptor seq packet (record r { buf = x })
        ≡ record (with_seq aead decoder decryptor seq packet r) { buf = x }
  with_seq-buf none packet r x = opened-buf (decrypt aead decryptor packet) r x
  with_seq-buf (some seq) packet r x =
      unless_skipped-buf (skip_before_boundary r.flush_until_seq r.flush_until_seq seq) packet r x

  handle_packets-buf :
      (packets : List Bytes) (r : R) (x : Bytes)
      → handle_packets aead decoder decryptor packets (record r { buf = x })
        ≡ record (handle_packets aead decoder decryptor packets r) { buf = x }
  unfolding handle_packets handle_packet
  handle_packets-buf [] r x = refl
  handle_packets-buf (packet ∷ packets) r x =
      ap (handle_packets aead decoder decryptor packets)
        (with_seq-buf (packet_seq packet) packet r x)
      ∙ handle_packets-buf packets (handle_packet aead decoder decryptor packet r) x

  handle_packets-append :
      (ps qs : List Bytes) (r : R)
      → handle_packets aead decoder decryptor (ps ++ qs) r
        ≡ handle_packets aead decoder decryptor qs (handle_packets aead decoder decryptor ps r)
  unfolding handle_packets
  handle_packets-append [] qs r = refl
  handle_packets-append (p ∷ ps) qs r =
      handle_packets-append ps qs (handle_packet aead decoder decryptor p r)

  -- What is left in the buffer.
  receive_rest :
      (a : Bytes) (r : R)
      → (receive aead decoder decryptor a r).buf ≡ drop (split_blocks (r.buf ++ a)).1 (r.buf ++ a)
  unfolding receive
  receive_rest a r =
      let left = drop (split_blocks (r.buf ++ a)).1 (r.buf ++ a) in
      ap (λ (r : R). r.buf) (handle_packets-buf (split_blocks (r.buf ++ a)).0 r left)

  -- What a read makes of the bytes that are then in the buffer.
  taken : List Bytes × ℕ → Bytes → R → R
  taken split buf r =
      handle_packets aead decoder decryptor split.0 (record r { buf = drop split.1 buf })

  taken-buf :
      (split : List Bytes × ℕ) (buf x : Bytes) (r : R)
      → taken split buf (record r { buf = x }) ≡ taken split buf r
  unfolding taken
  taken-buf split buf x r = refl

  taken-append :
      (p q : List Bytes) (m n : ℕ) (x b : Bytes) (r : R)
      → m ≤ length x
      → taken (p ++ q, m + n) (x ++ b) r ≡ taken (q, n) (drop m x ++ b) (taken (p, m) x r)
  unfolding taken
  taken-append p q m n x b r h =
      let whole = drop (m + n) (x ++ b) in
      let cut : whole ≡ drop n (drop m x ++ b) =
        drop-add m n (x ++ b) ∙ ap (drop n) (drop-append_le m x b h) in
      let left = drop m x in
      let end = drop n (left ++ b) in
      handle_packets-append p q (record r { buf = whole })
      ∙ ap
          (λ (y : Bytes).
            handle_packets aead decoder decryptor q
              (handle_packets aead decoder decryptor p (record r { buf = y })))
          cut
      ∙ ap (handle_packets aead decoder decryptor q) (
          handle_packets-buf p r end
          ∙ sym (ap (λ (r : R). record r { buf = end }) (handle_packets-buf p r left)))

  receive-taken :
      (a : Bytes) (r : R)
      → receive aead decoder decryptor a r ≡ taken (split_blocks (r.buf ++ a)) (r.buf ++ a) r
  unfolding receive taken
  receive-taken a r = refl

  pub receive-append :
      (a b : Bytes) (r : R)
      → All IsByte (r.buf ++ a)
      → receive aead decoder decryptor (a ++ b) r
        ≡ receive aead decoder decryptor b (receive aead decoder decryptor a r)
  receive-append a b r hb =
      let x = r.buf ++ a in
      let first = split_blocks x in
      let left = drop first.1 x in
      let next = split_blocks (left ++ b) in
      let r1 = receive aead decoder decryptor a r in
      receive-taken (a ++ b) r
      ∙ ap (λ (y : Bytes). taken (split_blocks y) y r) (sym (append_assoc r.buf a b))
      ∙ ap (λ (s : List Bytes × ℕ). taken s (x ++ b) r) (split_blocks-append x b hb)
      ∙ taken-append first.0 next.0 first.1 next.1 x b r (used_bound x hb)
      ∙ ap (λ (r' : R). taken next (left ++ b) r') (sym (receive-taken a r))
      ∙ sym (
          receive-taken b r1
          ∙ ap (λ (y : Bytes). taken (split_blocks (y ++ b)) (y ++ b) r1) (receive_rest a r))

  receive-IsByte :
      (a : Bytes) (r : R)
      → All IsByte (r.buf ++ a)
      → All IsByte (receive aead decoder decryptor a r).buf
  receive-IsByte a r hb =
      rw (receive_rest a r) (All-drop IsByte (split_blocks (r.buf ++ a)).1 (r.buf ++ a) hb)

  -- The reader ends in the same state, with the same packets delivered, however TCP cuts the stream
  -- into reads: all of it at once, or chunk by chunk.
  pub receive_all-concat :
      (chunk : Bytes) (chunks : List Bytes) (r : R)
      → All IsByte r.buf
      → All (All IsByte) (chunk ∷ chunks)
      → receive_all aead decoder decryptor (chunk ∷ chunks) r
        ≡ receive aead decoder decryptor (concat (chunk ∷ chunks)) r
  unfolding receive_all
  receive_all-concat chunk [] r hb (h, _) = rw append-nil
  receive_all-concat chunk (next ∷ chunks) r hb (h, hs) =
      let bytes = All-append IsByte r.buf chunk hb h in
      receive_all-concat next chunks (receive aead decoder decryptor chunk r)
        (receive-IsByte chunk r bytes) hs
      ∙ sym (receive-append chunk (concat (next ∷ chunks)) r bytes)
