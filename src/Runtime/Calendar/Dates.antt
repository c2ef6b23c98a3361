-- ===== src/Runtime/Calendar/Dates.antt =====
-- The weekdays of the dates that the rules give.
use mathlib.Core.Option.{some-injective}
use iron_spyder.Prelude.{
  ℕ, ◌+◌, ◌-◌, ◌*◌, ◌/◌, ◌%◌, ◌≤◌, ◌<◌, ◌≡◌, refl, sym, ◌⊎◌, inl, inr, Bool, true, false, ◌&&◌,
  Option, none, some, ltb, leb, true-of_and, if◌then◌else◌, List, [], ◌∷◌, ◌++◌, when, ◌==◌, arith,
  Bool-cases,
}
use iron_spyder.Runtime.Calendar.{
  date, weekday, nth_weekday, last_weekday, following, observed, is_member, market_holidays, eve,
  early_closes, year_of, entry, day_sums, is_month, last_ordinal, week_before, day_after, is_leap,
}

years-le : (y : ℕ) → y ≤ 9998 → y * 365 + y / 4 - y / 100 + y / 400 ≤ 3_651_695
years-le y h = omega (arith, h)

month-le : (m : ℕ) → m < 12 → entry day_sums m ≤ 334
month-le m h = ground arith

leap-le : (b : Bool) → (if b then 1 else 0) ≤ 1
leap-le true = omega arith
leap-le false = omega arith

-- The first of a month is a date, and early enough for 27 days more.
date-bounds :
    (year month : ℕ)
    → is_month year month ≡ true
    → (1 ≤ date year month 1) × (date year month 1 + 27 ≤ last_ordinal)
unfolding date
date-bounds year month h =
    let (years, months) =
      true-of_and (leb 1 year && leb year 9999) (leb 1 month && leb month 12) h in
    let late : year ≤ 9999 = ground (arith, years) in
    let most : month ≤ 12 = ground (arith, months) in
    let y = years-le (year - 1) (omega (arith, late)) in
    let m = month-le (month - 1) (omega (arith, most)) in
    let l = leap-le (ltb 2 month && is_leap year) in (omega arith, omega (arith, y, m, l))

week_before-some : (days day : ℕ) → week_before days ≡ some day → day + 7 ≡ days
week_before-some days day h = elim (Bool-cases (leb 8 days && leb days (last_ordinal + 7))) [
  | inl within ↦
      let e = some-injective _ _ (rw within at h) in
      let low : 8 ≤ days = ground (arith, within) in omega (arith, e, low)
  | inr outside ↦ cc (rw outside at h)
]

week_before-returns :
    (days : ℕ) → 8 ≤ days → days ≤ last_ordinal + 7 → (day : ℕ) × (week_before days ≡ some day)
week_before-returns days low high =
    let within : leb 8 days && leb days (last_ordinal + 7) ≡ true = ground (arith, low, high) in
    (days - 7, rw within refl)

-- For a weekday counted from 0 to 6: whatever date is returned is of that weekday, and lies from
-- 7 (n - 1) to 7 (n - 1) + 6 days after the first of the month, before it for n = 0. A date is returned
-- for every month of the years 1 to 9999 and n from 1 to 4.
pub nth_weekday-bounds :
    (year month wanted n : ℕ)
    → wanted < 7
    → ((day : ℕ)
        → nth_weekday year month wanted n ≡ some day
        → (weekday day ≡ wanted)
          × (date year month 1 + 7 * n ≤ day + 7)
          × (day < date year month 1 + 7 * n))
      × (is_month year month ≡ true
          → 1 ≤ n
          → n ≤ 4
          → (day : ℕ) × (nth_weekday year month wanted n ≡ some day))
unfolding nth_weekday
nth_weekday-bounds year month wanted n h =
    let first = date year month 1 in
    let days = first + (wanted + 7 - weekday first) % 7 + 7 * n in
    (
      λ day e. elim (Bool-cases (is_month year month)) [
        | inl fine ↦
            let same = week_before-some days day (rw fine at e) in
            (omega (arith, same, h), omega (arith, same), omega (arith, same))
        | inr bad ↦ cc (rw bad at e)
      ],
      λ fine low high.
          let (early, late) = date-bounds year month fine in
          let (day, e) =
            week_before-returns days (omega (arith, early, low)) (omega (arith, late, high)) in
          (day, rw fine e),
    )

-- The date is of the weekday asked for, and among the last seven days before the next month.
pub last_weekday-bounds :
    (year month wanted : ℕ)
    → wanted < 7
    → 7 ≤ following year month
    → (weekday (last_weekday year month wanted) ≡ wanted)
      × (last_weekday year month wanted < following year month)
      × (following year month ≤ last_weekday year month wanted + 7)
unfolding last_weekday
last_weekday-bounds year month wanted h early = (omega arith, omega arith, omega arith)

-- What is observed of a fixed date is a weekday at most one day away. Nothing is observed only of a first of
-- January that is a Saturday.
pub observed_lem :
    (day : ℕ)
    → (observed day ≡ none → (weekday day ≡ 5) × (day ≡ date (year_of day) 1 1))
      × ((d : ℕ) → observed day ≡ some d → (weekday d < 5) × (d ≤ day + 1) × (day ≤ d + 1))
unfolding observed
observed_lem day = elim (Bool-cases (weekday day == 5)) [
  | inl saturday ↦ elim (Bool-cases (day == date (year_of day) 1 1)) [
    | inl new_year ↦ (λ h. (ground arith, ground arith), λ d h. cc (rw (saturday, new_year) at h))
    | inr other ↦ (
      λ h. cc (rw (saturday, other) at h),
      λ d h.
          (let e = some-injective _ _ (rw (saturday, other) at h) in
            rw (sym e) (ground arith, omega arith, omega arith)),
    )
  ]
  | inr weekday_ ↦ elim (Bool-cases (weekday day == 6)) [
    | inl sunday ↦ (
      λ h. cc (rw (weekday_, sunday) at h),
      λ d h.
          (let e = some-injective _ _ (rw (weekday_, sunday) at h) in
            rw (sym e) (ground arith, omega arith, omega arith)),
    )
    | inr working ↦ (
      λ h. cc (rw (weekday_, working) at h),
      λ d h.
          (let e = some-injective _ _ (rw (weekday_, working) at h) in
            rw (sym e) (ground arith, omega arith, omega arith)),
    )
  ]
]

is_member-append :
    (day : ℕ) (xs ys : List ℕ)
    → is_member day (xs ++ ys) ≡ true
    → (is_member day xs ≡ true) ⊎ (is_member day ys ≡ true)
unfolding is_member
is_member-append day [] ys h = inr h
is_member-append day (x ∷ xs) ys h = elim (Bool-cases (x == day)) [
  | inl same ↦ inl (rw same refl)
  | inr other ↦ rw other (is_member-append day xs ys (rw other at h))
]

-- A day of a list of at most one.
is_member-when : (day x : ℕ) (b : Bool) → is_member day (when b x) ≡ true → (x ≡ day) × (b ≡ true)
unfolding is_member
is_member-when day x true h = ground arith
is_member-when day x false h = cc

abbrev IsWorking : ℕ → List ℕ → Type 0
IsWorking day holidays = (weekday day < 5) × (is_member day holidays ≡ false)

eve-IsWorking :
    (day x holiday : ℕ) (holidays : List ℕ)
    → is_member day (eve x holiday holidays) ≡ true
    → IsWorking day holidays
eve-IsWorking day x holiday holidays h =
    let (same, b) = is_member-when day x _ h in rw (sym same) (ground arith, ground arith)

-- A list of the one day after a Thursday.
day_after-IsWorking :
    (thanksgiving : Option ℕ) (day : ℕ) (holidays : List ℕ)
    → ((d : ℕ) → thanksgiving ≡ some d → weekday d ≡ 3)
    → is_member day (day_after thanksgiving holidays) ≡ true
    → IsWorking day holidays
unfolding is_member
day_after-IsWorking none day holidays thursday h = cc
day_after-IsWorking (some d) day holidays thursday h =
    let (same, b) = is_member-when day (d + 1) _ h in
    let e = thursday d refl in rw (sym same) (omega (arith, e), ground arith)

-- Every early close of a year is a weekday and no holiday of the year.
pub early_closes-IsWorking :
    (year day : ℕ)
    → is_member day (early_closes year) ≡ true
    → (weekday day < 5) × (is_member day (market_holidays year) ≡ false)
unfolding early_closes
early_closes-IsWorking year day h =
    let holidays = market_holidays year in
    let thanksgiving = nth_weekday year 11 3 4 in
    let thursday = λ (d : ℕ) (e : thanksgiving ≡ some d).
      (((nth_weekday-bounds year 11 3 4 (omega arith)).0 d e).0) in
    elim (is_member-append day (day_after thanksgiving holidays) _ h) [
      | inl friday ↦ day_after-IsWorking thanksgiving day holidays thursday friday
      | inr later ↦
          elim (is_member-append day (eve (date year 7 3) (date year 7 4) holidays) _ later) [
            | inl july ↦ eve-IsWorking day (date year 7 3) (date year 7 4) holidays july
            | inr december ↦ eve-IsWorking day (date year 12 24) (date year 12 25) holidays december
          ]
    ]
