-- ===== src/Runtime/Sessions.antt =====
-- spy_der/runtime/calendar.py: sessions and decision times. Instants are microseconds of UTC; the time zone
-- database is a parameter.
mod Tests
pub mod Decisions
pub mod Lookup
use iron_spyder.Prelude.{
  ℕ, zero, suc, ◌+◌, ◌-◌, ◌*◌, ◌<◌, ◌≤◌, ◌≡◌, Bool, true, false, not, ◌&&◌, Option, none, some,
  List, [], ◌∷◌, ltb, leb, if◌then◌else◌,
}
use iron_spyder.Prelude.Int.{ℤ, pos, negsuc, ◌-ℤ◌, leb_ℤ}
use iron_spyder.Float.{Float, to_minutes}
use iron_spyder.Runtime.Calendar.{is_trading_day, is_early_close}

-- `zoneinfo` for New York.
pub record Zone : Type 0 where
  -- the instant of a date and a minute of its day
  pub combine : ℕ → ℕ → ℕ
  -- the date of an instant
  pub eastern_day : ℕ → ℕ

-- Minutes after midnight.
abbrev pub regular_open : ℕ
regular_open = 570

abbrev pub regular_close : ℕ
regular_close = 960

abbrev pub early_close : ℕ
early_close = 780

unfoldable pub close_time : ℕ → ℕ
close_time day = if is_early_close day then early_close else regular_close

pub record Session : Type 0 where
  pub day : ℕ
  pub open_at : ℕ
  pub close_at : ℕ
  pub is_early : Bool

-- `Session.contains`
abbrev pub contains : Session → ℕ → Bool
contains s moment = leb s.open_at moment && ltb moment s.close_at

unfoldable pub session_for : Zone → ℕ → Option Session
session_for z day =
    if is_trading_day day
    then some (record {
      day = day;
      open_at = z.combine day regular_open;
      close_at = z.combine day (if is_early_close day then early_close else regular_close);
      is_early = is_early_close day;
    })
    else none

-- The first of the candidates whose session contains a moment.
unfoldable pub session_among : Zone → ℕ → List ℕ → Option Session
session_among z moment [] = none
session_among z moment (day ∷ days) =
    let rest = session_among z moment days in
    elim (session_for z day) [ none ↦ rest | some s ↦ if contains s moment then some s else rest ]

unfoldable pub current_session : Zone → ℕ → Option Session
current_session z moment =
    let day = z.eastern_day moment in session_among z moment (day ∷ (day - 1) ∷ [])

unfoldable pub is_market_open : Zone → ℕ → Bool
is_market_open z moment = elim (current_session z moment) [ none ↦ false | some _ ↦ true ]

-- The loop over `n` days from `day`.
unfoldable pub next_from : Zone → ℕ → ℕ → ℕ → Option Session
next_from z moment zero day = none
next_from z moment (suc n) day =
    let rest = next_from z moment n (day + 1) in
    elim (session_for z day) [
      | none ↦ rest
      | some s ↦ if ltb moment s.open_at then some s else rest
    ]

unfoldable pub next_session : Zone → ℕ → ℕ → Option Session
next_session z moment limit_days = next_from z moment (limit_days + 1) (z.eastern_day moment)

-- The days of the loop of `sessions_between`, `n` of them from `day`.
unfoldable pub sessions_from : Zone → ℕ → ℕ → List Session
sessions_from z zero day = []
sessions_from z (suc n) day =
    let rest = sessions_from z n (day + 1) in
    elim (session_for z day) [ none ↦ rest | some s ↦ s ∷ rest ]

unfoldable pub sessions_between : Zone → ℕ → ℕ → List Session
sessions_between z start end = sessions_from z (end + 1 - start) start

-- The loop of `decision_times`, on fuel.
unfoldable pub times_from : ℕ → ℕ → ℕ → ℕ → List ℕ
times_from zero interval close moment = []
times_from (suc n) interval close moment =
    let rest = times_from n interval close (moment + interval) in
    if ltb moment close then moment ∷ rest else []

-- `none` is the `ValueError`. Each round moves by a microsecond at least.
unfoldable pub decision_times : Session → ℤ → Option (List ℕ)
decision_times s (pos zero) = none
decision_times s (pos (suc n)) =
    some (times_from (s.close_at - s.open_at) (suc n) s.close_at s.open_at)
decision_times s (negsuc n) = none

module _ {W : Type 0} ⦃f : Float W⦄ where
  open f use {nought}

  -- `Session.duration_minutes`
  abbrev pub duration_minutes : Session → W
  duration_minutes s = to_minutes (pos s.close_at -ℤ pos s.open_at)

  -- `Session.minutes_to_close`
  unfoldable pub minutes_to_close : Session → ℕ → W
  minutes_to_close s moment =
      if leb s.close_at moment
      then nought
      else if leb moment s.open_at
      then duration_minutes s
      else to_minutes (pos s.close_at -ℤ pos moment)

  -- The function of this name, for any moment.
  unfoldable pub minutes_left : Zone → ℕ → W
  minutes_left z moment = elim (current_session z moment) [
    | none ↦ nought
    | some s ↦ minutes_to_close s moment
  ]
