-- ===== src/Fat/Times.antt =====
-- Times of directory entries: `fat_time_fat2unix` and `fat_time_unix2fat` of src/fs/fat/src/misc.c. No
-- mount sets `tz_set`, so `fat_tz_offset` is 0 and is left out. Times are those from 1970 on.
pub mod Calendar
pub mod Stored
pub mod Tests
use userfs.Prelude.{
  ℕ, ◌+◌, ◌-◌, ◌*◌, ◌/◌, ◌%◌, ◌^◌, Bool, List, [], ◌∷◌, get_or, ltb, ◌==◌, not, ◌&&◌, if◌then◌else◌,
  bit_and, bit_or,
}

abbrev pub secs_per_min : ℕ
secs_per_min = 60

abbrev pub secs_per_hour : ℕ
secs_per_hour = 3600

abbrev pub secs_per_day : ℕ
secs_per_day = 86400

abbrev pub days_delta : ℕ
days_delta = 365 * 10 + 2

abbrev pub year_2100 : ℕ
year_2100 = 120

abbrev pub days_in_year : List ℕ
days_in_year = 0 ∷ 0 ∷ 31 ∷ 59 ∷ 90 ∷ 120 ∷ 151 ∷ 181 ∷ 212 ∷ 243 ∷ 273 ∷ 304 ∷ 334 ∷ 0 ∷ 0 ∷ 0 ∷ []

-- `IS_LEAP_YEAR`
abbrev pub is_leap_year : ℕ → Bool
is_leap_year y = bit_and y 3 == 0 && not (y == year_2100)

-- `struct ufs_timespec`
pub record Timespec : Type 0 where
  pub tv_sec : ℕ
  pub tv_nsec : ℕ

-- The fields of `date` and `time`; a month or a day 0 is taken as 1.
abbrev pub at_least_1 : ℕ → ℕ
at_least_1 n = if ltb n 1 then 1 else n

abbrev pub date_year : ℕ → ℕ
date_year date = date / 2 ^ 9

abbrev pub date_month : ℕ → ℕ
date_month date = at_least_1 (bit_and (date / 2 ^ 5) 15)

abbrev pub date_day : ℕ → ℕ
date_day date = at_least_1 (bit_and date 31)

-- `leap_day`
pub leap_days : ℕ → ℕ → ℕ
leap_days year month =
    let days = (year + 3) / 4 in
    let days' = if ltb year_2100 year then days - 1 else days in
    if is_leap_year year && ltb 2 month then days' + 1 else days'

-- `second`
pub fat_seconds : ℕ → ℕ → ℕ
fat_seconds time date =
    let year = date_year date in
    let month = date_month date in
    bit_and time 31 * 2
    + bit_and (time / 2 ^ 5) 63 * secs_per_min
    + time / 2 ^ 11 * secs_per_hour
    + (year * 365
        + leap_days year month
        + get_or days_in_year month 0
        + (date_day date - 1)
        + days_delta)
      * secs_per_day

-- `fat_time_fat2unix`
pub fat_time_fat2unix : ℕ → ℕ → ℕ → Timespec
fat_time_fat2unix time date time_cs =
    if time_cs == 0 then record { tv_sec = fat_seconds time date; tv_nsec = 0 } else record {
      tv_sec = fat_seconds time date + time_cs / 100;
      tv_nsec = time_cs % 100 * 10000000;
    }

-- The fields of `struct tm` that are read.
pub record Tm : Type 0 where
  pub tm_sec : ℕ
  pub tm_min : ℕ
  pub tm_hour : ℕ
  pub tm_mday : ℕ
  pub tm_mon : ℕ
  pub tm_year : ℕ

-- `*time`, `*date` and `*time_cs`
pub record FatTime : Type 0 where
  pub time : ℕ
  pub date : ℕ
  pub time_cs : ℕ

-- `gmtime` is `gmtime_r` of the C library.
module _ (gmtime : ℕ → Tm) where
  pub pack_time : Tm → ℕ
  pack_time tm = bit_or (bit_or (tm.tm_hour * 2 ^ 11) (tm.tm_min * 2 ^ 5)) (tm.tm_sec / 2) % 2 ^ 16

  pub pack_date : Tm → ℕ
  pack_date tm = bit_or (bit_or (tm.tm_year * 2 ^ 9) ((tm.tm_mon + 1) * 2 ^ 5)) tm.tm_mday % 2 ^ 16

  -- `fat_time_unix2fat`
  pub fat_time_unix2fat : Timespec → FatTime
  fat_time_unix2fat ts =
      let tm = gmtime ts.tv_sec in
      if ltb tm.tm_year 80
      then record { time = 0; date = bit_or (1 * 2 ^ 5) 1; time_cs = 0 }
      else if ltb 127 tm.tm_year
      then record {
        time = bit_or (bit_or (23 * 2 ^ 11) (59 * 2 ^ 5)) 29;
        date = bit_or (bit_or (127 * 2 ^ 9) (12 * 2 ^ 5)) 31;
        time_cs = 199;
      }
      else record {
        time = pack_time tm;
        date = pack_date tm;
        time_cs = (bit_and ts.tv_sec 1 * 100 + ts.tv_nsec / 10000000) % 256;
      }
