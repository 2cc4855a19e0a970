-- ===== src/Srp/Runs.antt =====
-- Concrete runs of SRP with a hash that changes nothing and one digit for a number, and its theorems
-- at concrete inputs.
use openairplay.Prelude.{ℕ, ◌%◌, ◌≡◌, refl, true, false, ◌==◌, [], ◌∷◌, replicate, Bytes}
use openairplay.Srp.{group, Crates, CratesLaws, constant_time_eq, new_server, new_client}
use openairplay.Srp.Agreement.{Agrees, parties_agree}
use openairplay.Srp.Completes.{IsComplete, pair_setup_completes}

abbrev first_digit : Bytes → ℕ
first_digit [] = 0
first_digit (x ∷ xs) = x

abbrev toy_crates : Crates
toy_crates = record {
  sha512 = λ bytes. bytes;
  to_bytes_be = λ n. n ∷ [];
  from_bytes_be = first_digit;
}

abbrev toy_crates_laws : CratesLaws toy_crates
toy_crates_laws = record { from_bytes-to_bytes = λ n. refl }

same_run : constant_time_eq (1 ∷ 2 ∷ []) (1 ∷ 2 ∷ []) ≡ true
unfolding constant_time_eq
same_run = refl

other_run : constant_time_eq (1 ∷ 2 ∷ []) (1 ∷ 3 ∷ []) ≡ false
unfolding constant_time_eq
other_run = refl

abbrev pin : Bytes
pin = b'1' ∷ b'2' ∷ []

abbrev random_s : Bytes
random_s = replicate 48 7

abbrev random_c : Bytes
random_c = replicate 32 3

client_key_safe : ((new_client toy_crates pin random_c).big_a % group.0 == 0) ≡ false
unfolding group
client_key_safe = refl

parties_agree_example :
    Agrees toy_crates toy_crates_laws
      (new_server toy_crates pin random_s)
      (new_client toy_crates pin random_c)
parties_agree_example =
    parties_agree toy_crates toy_crates_laws pin random_s random_c client_key_safe

pair_setup_completes_example : IsComplete toy_crates toy_crates_laws pin random_s random_c []
pair_setup_completes_example =
    pair_setup_completes toy_crates toy_crates_laws pin random_s random_c [] client_key_safe
