-- ===== src/Connection/Transport.antt =====
-- Reads of the transport.
use openairplay.Prelude.{
  ℕ, suc, ◌≡◌, ◌≤◌, refl, sym, ap, ◌∙◌, List, [], ◌∷◌, ◌++◌, append_assoc, length, take, drop,
  take-append-drop, length-take, flatten, Bytes, arith,
}
use openairplay.Connection.{read}

-- What a read brings: the bytes that come next, and as few as are asked for. Nothing comes only at
-- the end.
pub data ReadResult (n : ℕ) (s : Bytes) : Bytes × List Bytes → Type 0 where
  ended : {reader : List Bytes} → s ≡ [] → flatten reader ≡ [] → ReadResult n s ([], reader)
  came :
      {reader : List Bytes} (b : ℕ) (bytes : Bytes)
      → s ≡ (b ∷ bytes) ++ flatten reader
      → length (b ∷ bytes) ≤ n
      → ReadResult n s (b ∷ bytes, reader)

pub read_lem :
    (n : ℕ) (reader : List Bytes) → ReadResult (suc n) (flatten reader) (read (suc n) reader)
unfolding read
read_lem n [] = ended refl refl
read_lem n ([] ∷ pieces) = read_lem n pieces
read_lem n ((b ∷ piece) ∷ pieces) =
    came b (take n piece)
      (ap (λ (p : Bytes). b ∷ (p ++ flatten pieces)) (sym (take-append-drop n piece))
        ∙ ap (λ (p : Bytes). b ∷ p) (append_assoc (take n piece) (drop n piece) (flatten pieces)))
      (omega (arith, length-take n piece))
