-- ===== src/Fat/Times/Calendar.antt =====
-- `fat_time_fat2unix` counts the days of the calendar.
use userfs.Prelude.{
  ℕ, zero, suc, ◌+◌, ◌-◌, ◌*◌, ◌/◌, ◌%◌, ◌^◌, ◌<◌, ◌≡◌, refl, arith, Bool, true, false, get_or, ltb,
  ◌==◌, not, ◌&&◌, if◌then◌else◌, bit_and, ap, ◌∙◌, inl, inr, eq_cases, ne→==, ==_iff,
}
use userfs.Prelude.Bits.{and_mask}
use userfs.Fat.Times.{days_in_year, leap_days, fat_seconds, at_least_1, fat_time_fat2unix}

-- The calendar from 1980 on: year `y` is 1980 + y.
abbrev pub is_leap : ℕ → Bool
is_leap y = y % 4 == 0 && not (y == 120)

abbrev pub year_length : ℕ → ℕ
year_length y = if is_leap y then 366 else 365

-- The days from 1970 to the first of January of the year.
pub days_before_year : ℕ → ℕ
days_before_year zero = 3652
days_before_year (suc y) = days_before_year y + year_length y

-- The lengths of the months, and the days of the year before a month.
abbrev pub month_length : ℕ → ℕ → ℕ
month_length y m =
    if m == 2
    then (if is_leap y then 29 else 28)
    else (if m == 4
        then 30
        else if m == 6
        then 30
        else if m == 9
        then 30
        else if m == 11
        then 30
        else 31)

pub days_before_month : ℕ → ℕ → ℕ
days_before_month y zero = 0
days_before_month y (suc m) = if m == 0 then 0 else days_before_month y m + month_length y m

leap_mod : (y : ℕ) → bit_and y 3 ≡ y % 4
leap_mod y = and_mask 2 y 3 refl

-- The leap days before a year.
leaps_before : ℕ → ℕ
leaps_before y = if ltb 120 y then (y + 3) / 4 - 1 else (y + 3) / 4

leaps_step : (y : ℕ) → leaps_before (suc y) + 365 ≡ leaps_before y + year_length y
unfolding leaps_before
leaps_step y = ground arith

years : (y : ℕ) → days_before_year y ≡ y * 365 + leaps_before y + 3652
unfolding days_before_year leaps_before
years zero = refl
years (suc y) = omega (arith, years y, leaps_step y)

-- The table of the days before a month, with the leap day, against the sum of the lengths.
days_before : Bool → ℕ → ℕ
days_before leap zero = 0
days_before leap (suc m) =
    if m == 0
    then 0
    else days_before leap m
      + (if m == 2
          then (if leap then 29 else 28)
          else (if m == 4
              then 30
              else if m == 6
              then 30
              else if m == 9
              then 30
              else if m == 11
              then 30
              else 31))

days_before_same : (y m : ℕ) → days_before_month y m ≡ days_before (is_leap y) m
unfolding days_before_month days_before
days_before_same y zero = refl
days_before_same y (suc m) = rw (days_before_same y m) refl

abbrev extra : Bool → ℕ → ℕ
extra leap m = if leap && ltb 2 m then 1 else 0

-- A test that holds below a bound, run.
abbrev below : ℕ → (ℕ → Bool) → Bool
below zero test = true
below (suc n) test = test n && below n test

below_sound : (n m : ℕ) (test : ℕ → Bool) → below n test ≡ true → m < n → test m ≡ true
below_sound zero m test h lt = absurd (omega arith)
below_sound (suc n) m test h lt = elim (eq_cases m n) [
  | inl e ↦ ap test e ∙ here (test n) (below n test) h
  | inr ne ↦ below_sound n m test (rest (test n) (below n test) h) (omega arith)
]
  where
    here : (a b : Bool) → (a && b) ≡ true → a ≡ true
    here a b q = ground arith

    rest : (a b : Bool) → (a && b) ≡ true → b ≡ true
    rest a b q = ground arith

abbrev month_test : Bool → ℕ → Bool
month_test leap m = get_or days_in_year m 0 + extra leap m == days_before leap m

months_run : (leap : Bool) → below 13 (month_test leap) ≡ true
unfolding days_before
months_run true = refl
months_run false = refl

months :
    (leap : Bool) (m : ℕ) → m < 13 → get_or days_in_year m 0 + extra leap m ≡ days_before leap m
months leap m h =
    (==_iff (get_or days_in_year m 0 + extra leap m) (days_before leap m)).0
      (below_sound 13 m (month_test leap) (months_run leap) h)

plus_if : (b : Bool) (n : ℕ) → (if b then n + 1 else n) ≡ n + (if b then 1 else 0)
plus_if true n = refl
plus_if false n = omega arith

leap_days_lem : (y m : ℕ) → leap_days y m ≡ leaps_before y + extra (is_leap y) m
unfolding leap_days leaps_before
leap_days_lem y m = rw (leap_mod y) (plus_if (is_leap y && ltb 2 m) (leaps_before y))

-- The days before a day of the calendar.
day_count :
    (year month : ℕ)
    → month < 13
    → year * 365 + leap_days year month + get_or days_in_year month 0 + 3652
      ≡ days_before_year year + days_before_month year month
day_count year month h = omega (
  arith,
  years year,
  leap_days_lem year month,
  months (is_leap year) month h,
  days_before_same year month,
)

small_month : (m : ℕ) → m < 13 → at_least_1 m < 13
small_month m h = ground arith

abbrev calendar_seconds : ℕ → ℕ → ℕ
calendar_seconds time date =
    let year = date / 2 ^ 9 in
    let month = at_least_1 ((date / 2 ^ 5) % 16) in
    let day = at_least_1 (date % 32) in
    (days_before_year year + days_before_month year month + (day - 1)) * 86400
    + time / 2 ^ 11 * 3600
    + (time / 2 ^ 5) % 64 * 60
    + time % 32 * 2

seconds_lem :
    (time date : ℕ) → (date / 2 ^ 5) % 16 < 13 → fat_seconds time date ≡ calendar_seconds time date
unfolding fat_seconds
seconds_lem time date h =
    rw
      (
        and_mask 5 time 31 refl,
        and_mask 6 (time / 2 ^ 5) 63 refl,
        and_mask 4 (date / 2 ^ 5) 15 refl,
        and_mask 5 date 31 refl,
      )
      (omega (
        arith,
        day_count (date / 2 ^ 9) (at_least_1 ((date / 2 ^ 5) % 16))
            (small_month ((date / 2 ^ 5) % 16) h),
      ))

-- For a date with a month of the calendar, `fat_time_fat2unix` gives the second, from 1970 on, of the
-- day that the calendar of 1980 to 2107 gives it, with the hundredths.
pub fat_time_fat2unix_lem :
    (time date time_cs : ℕ)
    → (date / 2 ^ 5) % 16 < 13
    → let year = date / 2 ^ 9 in
      let month = at_least_1 ((date / 2 ^ 5) % 16) in
      let day = at_least_1 (date % 32) in
      (fat_time_fat2unix time date time_cs).tv_sec
      ≡ (days_before_year year + days_before_month year month + (day - 1)) * 86400
        + time / 2 ^ 11 * 3600
        + (time / 2 ^ 5) % 64 * 60
        + time % 32 * 2
        + time_cs / 100
unfolding fat_time_fat2unix
fat_time_fat2unix_lem time date time_cs h = elim (eq_cases time_cs 0) [
  | inl e ↦ rw e (omega (arith, seconds_lem time date h))
  | inr ne ↦ rw (ne→== time_cs 0 ne) (omega (arith, seconds_lem time date h))
]
