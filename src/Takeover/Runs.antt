-- ===== src/Takeover/Runs.antt =====
-- Concrete runs of the active-session slot, and its theorems at concrete inputs.
use openairplay.Prelude.{◌≡◌, refl, true, List, [], ◌∷◌}
use openairplay.Takeover.{Action, setups, closes, resumes, times_out, run, empty_slot, is_held_by}
use openairplay.Takeover.Exclusive.{guards, IsExclusive, AllTold, run-IsExclusive, run-AllTold}

-- another_connection_evicts_the_holder_and_waits_for_it
abbrev takeover : List Action
takeover = setups 1 ∷ setups 2 ∷ resumes 1 ∷ closes 1 ∷ resumes 1 ∷ []

takeover_awaits :
    guards (run (setups 1 ∷ setups 2 ∷ resumes 1 ∷ closes 1 ∷ []) empty_slot).claims ≡ 0
unfolding run
takeover_awaits = refl

takeover_held : is_held_by (run takeover empty_slot) 2 ≡ true
unfolding run is_held_by
takeover_held = refl

-- a_wedged_holder_only_delays_the_takeover: two connections have a guard then.
wedged : guards (run (setups 1 ∷ setups 2 ∷ times_out 1 ∷ []) empty_slot).claims ≡ 2
unfolding run
wedged = refl

run-IsExclusive_example : IsExclusive (run takeover empty_slot)
run-IsExclusive_example = run-IsExclusive takeover (refl, (refl, (refl, (refl, (refl, tt)))))

run-AllTold_example : AllTold (run takeover empty_slot) (run takeover empty_slot).claims
run-AllTold_example = run-AllTold takeover (refl, (refl, (refl, (refl, (refl, tt)))))
