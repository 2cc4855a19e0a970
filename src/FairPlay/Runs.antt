-- ===== src/FairPlay/Runs.antt =====
-- `fp-setup` at concrete requests.
use openairplay.Prelude.{◌≡◌, refl, some, none, [], ◌∷◌, ◌++◌, replicate, Bytes}
use openairplay.FairPlay.{magic, reply2, reply_header, fp_setup}

abbrev first : Bytes
first = magic ++ 3 ∷ 1 ∷ 1 ∷ 0 ∷ 0 ∷ 0 ∷ 0 ∷ 4 ∷ 2 ∷ 0 ∷ 2 ∷ 0xBB ∷ []

abbrev second : Bytes
second = magic ++ 3 ∷ 1 ∷ 3 ∷ replicate 157 7

first_answered : fp_setup first ≡ some reply2
unfolding fp_setup
first_answered = refl

second_answered : fp_setup second ≡ some (reply_header ++ replicate 20 7)
unfolding fp_setup
second_answered = refl

no_fifth_mode : fp_setup (magic ++ 3 ∷ 1 ∷ 1 ∷ 0 ∷ 0 ∷ 0 ∷ 0 ∷ 4 ∷ 2 ∷ 0 ∷ 4 ∷ 0xBB ∷ []) ≡ none
unfolding fp_setup
no_fifth_mode = refl
