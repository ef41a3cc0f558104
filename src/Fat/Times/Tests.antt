-- ===== src/Fat/Times/Tests.antt =====
-- A stored time, and a time of the second of January 2024.
use userfs.Prelude.{ℕ, ◌+◌, ◌-◌, ◌*◌, ◌/◌, ◌%◌, ◌^◌, ◌≡◌, arith}
use userfs.Fat.Times.{Timespec, Tm, at_least_1, fat_time_fat2unix, fat_time_unix2fat}
use userfs.Fat.Times.Calendar.{days_before_year, days_before_month, fat_time_fat2unix_lem}
use userfs.Fat.Times.Stored.{unix2fat-late}

fat_time_fat2unix_example :
    let year = 0x5822 / 2 ^ 9 in
    let month = at_least_1 ((0x5822 / 2 ^ 5) % 16) in
    let day = at_least_1 (0x5822 % 32) in
    (fat_time_fat2unix 0x6000 0x5822 150).tv_sec
    ≡ (days_before_year year + days_before_month year month + (day - 1)) * 86400
      + 0x6000 / 2 ^ 11 * 3600
      + (0x6000 / 2 ^ 5) % 64 * 60
      + 0x6000 % 32 * 2
      + 150 / 100
fat_time_fat2unix_example = fat_time_fat2unix_lem 0x6000 0x5822 150 (omega arith)

-- The clock of a day, with its date.
abbrev clock : ℕ → Tm
clock s = record {
  tm_sec = s % 60;
  tm_min = s / 60 % 60;
  tm_hour = s / 3600 % 24;
  tm_mday = 2;
  tm_mon = 0;
  tm_year = 124;
}

abbrev now : Timespec
now = record { tv_sec = 1704164645; tv_nsec = 987654321 }

unix2fat-late_example :
    let tm = clock 1704164645 in
    let stored = fat_time_unix2fat clock now in
    let got = fat_time_fat2unix stored.time stored.date stored.time_cs in
    (got.tv_sec
      ≡ (days_before_year tm.tm_year
            + days_before_month tm.tm_year (tm.tm_mon + 1)
            + (tm.tm_mday - 1))
          * 86400
        + tm.tm_hour * 3600
        + tm.tm_min * 60
        + tm.tm_sec / 2 * 2
        + 1704164645 % 2)
    × (got.tv_nsec ≡ 987654321 / 10000000 * 10000000)
unix2fat-late_example =
    unix2fat-late clock now
      (omega arith, omega arith, omega arith, omega arith, omega arith, omega arith) (omega arith)
      (omega arith) (omega arith)
