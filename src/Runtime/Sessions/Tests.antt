-- ===== src/Runtime/Sessions/Tests.antt =====
-- Independence Day 2025 and the days around it, in a zone four hours behind.
use iron_spyder.Prelude.{
  ℕ, ◌+◌, ◌-◌, ◌*◌, ◌/◌, ◌≡◌, ◌↔◌, ◌≤◌, ◌<◌, refl, arith, true, false, some, List,
}
use iron_spyder.Prelude.Int.{pos}
use iron_spyder.Runtime.Calendar.{
  date, weekday, is_month, nth_weekday, early_closes, is_member, market_holidays, observed,
  easter_sunday, year_of, last_weekday,
}
use iron_spyder.Runtime.Calendar.Dates.{nth_weekday-bounds, early_closes-IsWorking}
use iron_spyder.Runtime.Sessions.{
  Zone, Session, current_session, next_session, decision_times, regular_open, early_close,
}
use iron_spyder.Runtime.Sessions.Decisions.{IsListed, IsDue, decision_times_complete}
use iron_spyder.Runtime.Sessions.Lookup.{
  IsZone, InSession, IsNext, current_session_iff, next_session-IsNext,
}

abbrev minute : ℕ
minute = 60_000_000

-- Daylight saving time throughout.
abbrev zone : Zone
zone = record {
  combine = λ day minutes. day * 86_400_000_000 + (minutes + 240) * minute;
  eastern_day = λ moment. (moment - 240 * minute) / 86_400_000_000;
}

zone-IsZone : IsZone zone
zone-IsZone = record {
  opens_first = λ day. omega arith;
  closes_last = λ day. omega arith;
  same_day = λ day moment low high. omega (arith, low, high);
}

july_third : date 2025 7 3 ≡ 739_435
unfolding date
july_third = refl

thanksgiving : nth_weekday 2025 11 3 4 ≡ some (date 2025 11 27)
unfolding date nth_weekday
thanksgiving = refl

-- The week before the first one.
none_th : nth_weekday 2025 11 3 0 ≡ some (date 2025 10 30)
unfolding date nth_weekday
none_th = refl

easter : easter_sunday 2025 ≡ date 2025 4 20
unfolding date easter_sunday
easter = refl

closes_early : is_member 739_435 (early_closes 2025) ≡ true
unfolding date early_closes is_member market_holidays observed nth_weekday last_weekday
    easter_sunday year_of
closes_early = refl

nth_weekday-bounds_example :
    ((day : ℕ)
      → nth_weekday 2025 11 3 4 ≡ some day
      → (weekday day ≡ 3) × (date 2025 11 1 + 7 * 4 ≤ day + 7) × (day < date 2025 11 1 + 7 * 4))
    × (is_month 2025 11 ≡ true → 1 ≤ 4 → 4 ≤ 4 → (day : ℕ) × (nth_weekday 2025 11 3 4 ≡ some day))
nth_weekday-bounds_example = nth_weekday-bounds 2025 11 3 4 (omega arith)

early_closes-IsWorking_example :
    (weekday 739_435 < 5) × (is_member 739_435 (market_holidays 2025) ≡ false)
early_closes-IsWorking_example = early_closes-IsWorking 2025 739_435 closes_early

-- 3 July 2025, from 9:30 to 13:00.
abbrev session : Session
session = record {
  day = 739_435;
  open_at = zone.combine 739_435 regular_open;
  close_at = zone.combine 739_435 early_close;
  is_early = true;
}

current_session_iff_example :
    (current_session zone (739_435 * 86_400_000_000 + 900 * minute) ≡ some session)
    ↔ InSession zone (739_435 * 86_400_000_000 + 900 * minute) session
current_session_iff_example =
    current_session_iff zone (739_435 * 86_400_000_000 + 900 * minute) session zone-IsZone

next_session-IsNext_example :
    IsNext zone session.close_at
      (zone.eastern_day session.close_at)
      (30 + 1)
      (next_session zone session.close_at 30)
next_session-IsNext_example = next_session-IsNext zone session.close_at 30

decision_times_complete_example :
    (times : List ℕ) × (decision_times session (pos (15 * minute)) ≡ some times)
    × ((t : ℕ) → IsListed t times ↔ IsDue (15 * minute) session.close_at session.open_at t)
decision_times_complete_example = decision_times_complete session (15 * minute) (omega arith)
