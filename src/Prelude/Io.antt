-- ===== src/Prelude/Io.antt =====
-- `io::Result` with the kind of its error. The fuel of a loop that reads is given with a proof that
-- it is enough, so `out_of_fuel` is no error of the program.
pub data IoError : Type 0 where
  invalid_data unexpected_eof out_of_fuel : IoError

pub data IoResult {ℓ} (A : Type ℓ) : Type ℓ where
  ok : A → IoResult A
  err : IoError → IoResult A

infixl 5 ◌>>=◌
abbrev pub ◌>>=◌ {ℓ κ} : {A : Type ℓ} {B : Type κ} → IoResult A → (A → IoResult B) → IoResult B
ok a >>= f = f a
err e >>= f = err e
