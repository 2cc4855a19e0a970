-- ===== src/Player/Timeline.antt =====
-- openairplay2/src/player.rs: where playback is in the track, from RTP timestamps.
use openairplay.Prelude.{
  ℕ, sym, ap, ◌∙◌, Bool-cases, Option-cases, ◌+◌, ◌-◌, ◌*◌, ◌/◌, ◌%◌, ◌^◌, ◌<◌, ◌≡◌, refl, inl, inr,
  Bool, false, ltb, ◌==◌, if◌then◌else◌, Option, none, some, List, [], ◌∷◌, ◌++◌, arith,
}

pub record Track : Type 0 where
  pub start : ℕ
  pub end : ℕ

-- A duration is its nanoseconds.
abbrev pub frames_to_duration : ℕ → ℕ → ℕ
frames_to_duration frames rate = frames * 1_000_000_000 / rate

abbrev pub as_secs : ℕ → ℕ
as_secs duration = duration / 1_000_000_000

-- `u32::wrapping_sub`
abbrev pub wrapping_sub : ℕ → ℕ → ℕ
wrapping_sub a b = (a + 2 ^ 32 - b) % 2 ^ 32

unfoldable pub extent : Track → ℕ → ℕ → Option (ℕ × ℕ)
extent track ts rate =
    let played = wrapping_sub ts track.start in
    let total = wrapping_sub track.end track.start in
    if rate == 0
    then none
    else if ltb total played
    then none
    else some (frames_to_duration played rate, frames_to_duration total rate)

-- The events sent are kept in the order of sending.
pub record Position : Type 0 where
  pub rate : ℕ
  pub reported : Option ℕ
  pub events : List (ℕ × ℕ)

abbrev pub new : ℕ → Position
new rate = record { rate = rate; reported = none; events = [] }

abbrev pub same_second : Option ℕ → ℕ → Bool
same_second none second = false
same_second (some r) second = r == second

-- The report of one position, unless its second was reported last.
unfoldable pub report : ℕ × ℕ → Position → Position
report (elapsed, duration) p = if same_second p.reported (as_secs elapsed) then p else record p {
  reported = some (as_secs elapsed);
  events = p.events ++ (elapsed, duration) ∷ [];
}

-- `Position::played`, with the track that the shared anchor holds.
unfoldable pub played : Option Track → ℕ → Position → Position
unfolding report extent
played none ts p = p
played (some track) ts p = elim (extent track ts p.rate) [ none ↦ p | some e ↦ report e p ]

wrapping_sub_add :
    (start k : ℕ) → start < 2 ^ 32 → k < 2 ^ 32 → wrapping_sub ((start + k) % 2 ^ 32) start ≡ k
wrapping_sub_add start k hs hk = omega arith

positive : (rate : ℕ) → 0 < rate → (rate == 0) ≡ false
positive rate h = ground arith

-- `k` frames into a track, also where its timestamps wrap past 2 ^ 32, the position is `k` frames
-- at the stream's rate; outside the track, behind its end or before its start, there is none.
pub extent_exact :
    (start total k rate : ℕ)
    → start < 2 ^ 32
    → total < 2 ^ 32
    → k < 2 ^ 32
    → 0 < rate
    → extent (record { start = start; end = (start + total) % 2 ^ 32 }) ((start + k) % 2 ^ 32) rate
      ≡ (if ltb total k
          then none
          else some (frames_to_duration k rate, frames_to_duration total rate))
unfolding extent
extent_exact start total k rate hs ht hk hr =
    rw (wrapping_sub_add start k hs hk, wrapping_sub_add start total hs ht, positive rate hr)

-- The second that was reported last is that of the last event.
abbrev pub last_second : Option ℕ → List (ℕ × ℕ) → Option ℕ
last_second known [] = known
last_second known ((elapsed, duration) ∷ events) = last_second (some (as_secs elapsed)) events

-- No two events in a row report the same second.
abbrev pub IsPaced : Option ℕ → List (ℕ × ℕ) → Type 0
IsPaced known [] = Unit
IsPaced known ((elapsed, duration) ∷ events) =
    (same_second known (as_secs elapsed) ≡ false) × IsPaced (some (as_secs elapsed)) events

last_second-append :
    (known : Option ℕ) (events : List (ℕ × ℕ)) (e : ℕ × ℕ)
    → last_second known (events ++ e ∷ []) ≡ some (as_secs e.0)
last_second-append known [] e = refl
last_second-append known ((elapsed, duration) ∷ events) e =
    last_second-append (some (as_secs elapsed)) events e

IsPaced-append :
    (known : Option ℕ) (events : List (ℕ × ℕ)) (e : ℕ × ℕ)
    → IsPaced known events
    → same_second (last_second known events) (as_secs e.0) ≡ false
    → IsPaced known (events ++ e ∷ [])
IsPaced-append known [] e h k = (k, tt)
IsPaced-append known ((elapsed, duration) ∷ events) e (h, hs) k =
    (h, IsPaced-append (some (as_secs elapsed)) events e hs k)

abbrev pub IsConsistent : Position → Type 0
IsConsistent p = (p.reported ≡ last_second none p.events) × IsPaced none p.events

report-IsConsistent : (e : ℕ × ℕ) (p : Position) → IsConsistent p → IsConsistent (report e p)
unfolding report
report-IsConsistent (elapsed, duration) p (hr, hp) =
    elim (Bool-cases (same_second p.reported (as_secs elapsed))) [
      | inl same ↦ rw same (hr, hp)
      | inr differs ↦ rw differs (
        sym (last_second-append none p.events (elapsed, duration)),
        IsPaced-append none p.events (elapsed, duration) hp
            (ap (λ (r : Option ℕ). same_second r (as_secs elapsed)) (sym hr) ∙ differs),
      )
    ]

-- Whatever audio is played, positions are reported once for each second that is reached, and never
-- the same second twice in a row.
pub played-IsConsistent :
    (track : Option Track) (ts : ℕ) (p : Position)
    → IsConsistent p
    → IsConsistent (played track ts p)
unfolding played
played-IsConsistent none ts p h = h
played-IsConsistent (some track) ts p h = elim (Option-cases (extent track ts p.rate)) [
  | inl out ↦ rw (out, played) h
  | inr (e, at) ↦ rw (at, played) (report-IsConsistent e p h)
]
