-- ===== src/Runtime/Calendar.antt =====
-- spy_der/runtime/calendar.py: the trading days of the exchange. A date is its ordinal, as `toordinal`
-- gives it, and `date` and its attributes are those of the standard library on ordinals.
pub mod Dates
use iron_spyder.Prelude.{
  ℕ, suc, ◌+◌, ◌-◌, ◌*◌, ◌/◌, ◌%◌, ◌≤◌, Bool, true, false, not, ◌&&◌, ◌||◌, Option, none, some,
  List, [], ◌∷◌, ◌++◌, when, ltb, leb, ◌==◌, if◌then◌else◌,
}

abbrev pub is_leap : ℕ → Bool
is_leap year = (year % 4 == 0) && (not (year % 100 == 0) || (year % 400 == 0))

-- The days of the months before one, in a year that is no leap year.
abbrev pub day_sums : List ℕ
day_sums = 0 ∷ 31 ∷ 59 ∷ 90 ∷ 120 ∷ 151 ∷ 181 ∷ 212 ∷ 243 ∷ 273 ∷ 304 ∷ 334 ∷ []

abbrev pub entry : List ℕ → ℕ → ℕ
entry [] n = 0
entry (x ∷ xs) n = let rest = entry xs (n - 1) in if n == 0 then x else rest

-- `date(year, month, day)`
unfoldable pub date : ℕ → ℕ → ℕ → ℕ
date year month day =
    let y = year - 1 in
    y * 365
    + y / 4
    - y / 100
    + y / 400
    + entry day_sums (month - 1)
    + (if ltb 2 month && is_leap year then 1 else 0)
    + day

-- Monday is 0.
abbrev pub weekday : ℕ → ℕ
weekday day = (day + 6) % 7

-- `day.year`
unfoldable pub year_of : ℕ → ℕ
year_of day =
    let r400 = (day - 1) % 146_097 in
    let r100 = r400 % 36_524 in
    let r4 = r100 % 1461 in
    let year = (day - 1) / 146_097 * 400 + r400 / 36_524 * 100 + r100 / 1461 * 4 + r4 / 365 + 1 in
    if (r400 / 36_524 == 4) || (r4 / 365 == 4) then year - 1 else year

unfoldable pub easter_sunday : ℕ → ℕ
easter_sunday year =
    let a = year % 19 in
    let b = year / 100 in
    let c = year % 100 in
    let d = b / 4 in
    let e = b % 4 in
    let f = (b + 8) / 25 in
    let g = (b + 1 - f) / 3 in
    let h = (19 * a + b + 15 - d - g) % 30 in
    let i = c / 4 in
    let k = c % 4 in
    let lunar = (32 + 2 * e + 2 * i - h - k) % 7 in
    let m = (a + 11 * h + 22 * lunar) / 451 in
    let n = h + lunar + 114 - 7 * m in date year (n / 31) (n % 31 + 1)

-- What `date` accepts for a year and a month; other numbers are a `ValueError`.
abbrev pub is_month : ℕ → ℕ → Bool
is_month year month = leb 1 year && leb year 9999 && (leb 1 month && leb month 12)

-- The ordinal of 31 December 9999, `date.max`.
abbrev pub last_ordinal : ℕ
last_ordinal = 3_652_059

-- A date a week before a number of days, and the `OverflowError` if there is none.
abbrev pub week_before : ℕ → Option ℕ
week_before days = if leb 8 days && leb days (last_ordinal + 7) then some (days - 7) else none

-- `none` is a `ValueError` or an `OverflowError`.
unfoldable pub nth_weekday : ℕ → ℕ → ℕ → ℕ → Option ℕ
nth_weekday year month wanted n =
    let first = date year month 1 in
    if is_month year month
    then week_before (first + (wanted + 7 - weekday first) % 7 + 7 * n)
    else none

-- The first day of the month after.
abbrev pub following : ℕ → ℕ → ℕ
following year month = date (year + (if month == 12 then 1 else 0)) (month % 12 + 1) 1

unfoldable pub last_weekday : ℕ → ℕ → ℕ → ℕ
last_weekday year month wanted =
    let last = following year month - 1 in last - (weekday last + 7 - wanted) % 7

unfoldable pub observed : ℕ → Option ℕ
observed day =
    if weekday day == 5
    then (if day == date (year_of day) 1 1 then none else some (day - 1))
    else if weekday day == 6
    then some (day + 1)
    else some day

-- `if observed is not None: days.add(observed)`
abbrev pub to_days : Option ℕ → List ℕ
to_days none = []
to_days (some day) = day ∷ []

abbrev pub juneteenth_first_year : ℕ
juneteenth_first_year = 2022

-- A set is a list, of which only membership counts. The year is that of a date, so that each of the dates
-- exists.
unfoldable pub market_holidays : ℕ → List ℕ
market_holidays year =
    to_days (observed (date year 1 1))
    ++ (to_days (observed (date year 7 4))
        ++ (to_days (observed (date year 12 25))
            ++ ((if leb juneteenth_first_year year then to_days (observed (date year 6 19)) else [])
                ++ (to_days (nth_weekday year 1 0 3)
                    ++ (to_days (nth_weekday year 2 0 3)
                        ++ (last_weekday year 5 0
                            ∷ (to_days (nth_weekday year 9 0 1)
                                ++ (to_days (nth_weekday year 11 3 4)
                                    ++ ((easter_sunday year - 2) ∷ [])))))))))

unfoldable pub is_member : ℕ → List ℕ → Bool
is_member day [] = false
is_member day (x ∷ xs) = if x == day then true else is_member day xs

-- The day before a holiday that closes early, if the holiday falls on a weekday.
abbrev pub eve : ℕ → ℕ → List ℕ → List ℕ
eve day holiday holidays =
    when (ltb (weekday day) 5 && ltb (weekday holiday) 5 && not (is_member day holidays)) day

-- The day after Thanksgiving.
abbrev pub day_after : Option ℕ → List ℕ → List ℕ
day_after none holidays = []
day_after (some day) holidays = when (not (is_member (day + 1) holidays)) (day + 1)

unfoldable pub early_closes : ℕ → List ℕ
early_closes year =
    let holidays = market_holidays year in
    day_after (nth_weekday year 11 3 4) holidays
    ++ (eve (date year 7 3) (date year 7 4) holidays
        ++ eve (date year 12 24) (date year 12 25) holidays)

unfoldable pub is_trading_day : ℕ → Bool
is_trading_day day = ltb (weekday day) 5 && not (is_member day (market_holidays (year_of day)))

unfoldable pub is_early_close : ℕ → Bool
is_early_close day = is_trading_day day && is_member day (early_closes (year_of day))
