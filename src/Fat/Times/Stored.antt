-- ===== src/Fat/Times/Stored.antt =====
-- What `fat_time_unix2fat` stores, and what `fat_time_fat2unix` reads back from it.
use userfs.Prelude.{
  ℕ, ◌+◌, ◌-◌, ◌*◌, ◌/◌, ◌%◌, ◌^◌, ◌≤◌, ◌<◌, ◌≡◌, refl, arith, bit_or, bit_and, ap, ◌∙◌, le→ltb,
  sym, eq_cases, ne→==, inl, inr,
}
use userfs.Prelude.Bits.{or_high_low, and_mask}
use userfs.Fat.Times.{Timespec, Tm, pack_time, pack_date, fat_time_unix2fat, fat_time_fat2unix}
use userfs.Fat.Times.Calendar.{days_before_year, days_before_month, fat_time_fat2unix_lem}

-- The ranges of the fields of `struct tm`.
abbrev pub IsTm : Tm → Type 0
IsTm tm =
    (tm.tm_sec ≤ 60)
    × (tm.tm_min < 60)
    × (tm.tm_hour < 24)
    × (1 ≤ tm.tm_mday)
    × (tm.tm_mday ≤ 31)
    × (tm.tm_mon < 12)

-- Three fields side by side.
or_fields :
    (a b c hi mid low : ℕ)
    → mid < 2 ^ b
    → low < 2 ^ c
    → mid * 2 ^ c < 2 ^ a
    → hi * 2 ^ a + mid * 2 ^ c ≡ (hi * 2 ^ (a - c) + mid) * 2 ^ c
    → bit_or (bit_or (hi * 2 ^ a) (mid * 2 ^ c)) low ≡ hi * 2 ^ a + mid * 2 ^ c + low
or_fields a b c hi mid low m l small even =
    ap (λ n. bit_or n low) (or_high_low a hi (mid * 2 ^ c) small ∙ even)
    ∙ or_high_low c (hi * 2 ^ (a - c) + mid) low l
    ∙ ap (λ n. n + low) (sym even)

module _ (gmtime : ℕ → Tm) where
  pack_time_lem :
      (tm : Tm)
      → IsTm tm
      → pack_time gmtime tm ≡ tm.tm_hour * 2 ^ 11 + tm.tm_min * 2 ^ 5 + tm.tm_sec / 2
  unfolding pack_time
  pack_time_lem tm (s, m, h, d1, d2, mon) =
      ap (λ n. n % 2 ^ 16)
        (or_fields 11 6 5 tm.tm_hour tm.tm_min (tm.tm_sec / 2) (omega arith) (omega arith)
          (omega arith) (omega arith))
      ∙ omega arith

  pack_date_lem :
      (tm : Tm)
      → IsTm tm
      → tm.tm_year ≤ 127
      → pack_date gmtime tm ≡ tm.tm_year * 2 ^ 9 + (tm.tm_mon + 1) * 2 ^ 5 + tm.tm_mday
  unfolding pack_date
  pack_date_lem tm (s, m, h, d1, d2, mon) y =
      ap (λ n. n % 2 ^ 16)
        (or_fields 9 4 5 tm.tm_year (tm.tm_mon + 1) tm.tm_mday (omega arith) (omega arith)
          (omega arith) (omega arith))
      ∙ omega arith

  -- What is read from a time and a date with known fields.
  read_back :
      (t d cs year month day hour minute half : ℕ)
      → d / 2 ^ 9 ≡ year
      → (d / 2 ^ 5) % 16 ≡ month
      → d % 32 ≡ day
      → 1 ≤ month
      → month ≤ 12
      → 1 ≤ day
      → t / 2 ^ 11 ≡ hour
      → (t / 2 ^ 5) % 64 ≡ minute
      → t % 32 ≡ half
      → (fat_time_fat2unix t d cs).tv_sec
        ≡ (days_before_year year + days_before_month year month + (day - 1)) * 86400
          + hour * 3600
          + minute * 60
          + half * 2
          + cs / 100
  read_back t d cs year month day hour minute half y mo da m1 m2 d1 h mi ha =
      fat_time_fat2unix_lem t d cs (omega arith)
      ∙ rw (y, mo, da, h, mi, ha, le→ltb month 1 m1, le→ltb day 1 d1) refl

  hundredths : (t d cs : ℕ) → (fat_time_fat2unix t d cs).tv_nsec ≡ cs % 100 * 10000000
  unfolding fat_time_fat2unix
  hundredths t d cs = elim (eq_cases cs 0) [ inl e ↦ rw e refl | inr ne ↦ rw (ne→== cs 0 ne) refl ]

  packed :
      (tm : Tm) (cs : ℕ)
      → IsTm tm
      → tm.tm_year ≤ 127
      → (fat_time_fat2unix (pack_time gmtime tm) (pack_date gmtime tm) cs).tv_sec
        ≡ (days_before_year tm.tm_year
              + days_before_month tm.tm_year (tm.tm_mon + 1)
              + (tm.tm_mday - 1))
            * 86400
          + tm.tm_hour * 3600
          + tm.tm_min * 60
          + tm.tm_sec / 2 * 2
          + cs / 100
  packed tm cs ranges hi =
      let (s, m, h, d1, d2, mon) = ranges in
      let t = pack_time_lem tm ranges in
      let d = pack_date_lem tm ranges hi in
      read_back (pack_time gmtime tm) (pack_date gmtime tm) cs tm.tm_year (tm.tm_mon + 1) tm.tm_mday
        tm.tm_hour tm.tm_min (tm.tm_sec / 2) (omega (arith, d)) (omega (arith, d))
        (omega (arith, d)) (omega arith) (omega arith) d1 (omega (arith, t)) (omega (arith, t))
        (omega (arith, t))

  -- A time whose broken-down year, counted from 1900, is between 80 and 127 is stored with that number
  -- as the year, which the entry counts from 1980: what is read back is the same month, day, hour,
  -- minute and even second of the year 80 years later, with the odd second of `tv_sec`, and `tv_nsec`,
  -- which is below a second, down to the hundredths.
  pub unix2fat-late :
      (ts : Timespec)
      → let tm = gmtime ts.tv_sec in
        let stored = fat_time_unix2fat gmtime ts in
        let got = fat_time_fat2unix stored.time stored.date stored.time_cs in
        IsTm tm
        → 80 ≤ tm.tm_year
        → tm.tm_year ≤ 127
        → ts.tv_nsec < 1000000000
        → (got.tv_sec
            ≡ (days_before_year tm.tm_year
                  + days_before_month tm.tm_year (tm.tm_mon + 1)
                  + (tm.tm_mday - 1))
                * 86400
              + tm.tm_hour * 3600
              + tm.tm_min * 60
              + tm.tm_sec / 2 * 2
              + ts.tv_sec % 2)
          × (got.tv_nsec ≡ ts.tv_nsec / 10000000 * 10000000)
  unfolding fat_time_unix2fat
  unix2fat-late ts ranges lo hi small =
      rw (le→ltb (gmtime ts.tv_sec).tm_year 80 lo, le→ltb 127 (gmtime ts.tv_sec).tm_year hi)
        (
          packed (gmtime ts.tv_sec) cs ranges hi ∙ ap (λ n. seconds + n) (omega (arith, value)),
          hundredths (pack_time gmtime (gmtime ts.tv_sec)) (pack_date gmtime (gmtime ts.tv_sec)) cs
              ∙ omega (arith, value),
        )
    where
      cs : ℕ
      cs = (bit_and ts.tv_sec 1 * 100 + ts.tv_nsec / 10000000) % 256

      value : cs ≡ ts.tv_sec % 2 * 100 + ts.tv_nsec / 10000000
      value = omega (arith, small, and_mask 1 ts.tv_sec 1 refl)

      seconds : ℕ
      seconds =
          (days_before_year (gmtime ts.tv_sec).tm_year
              + days_before_month (gmtime ts.tv_sec).tm_year ((gmtime ts.tv_sec).tm_mon + 1)
              + ((gmtime ts.tv_sec).tm_mday - 1))
            * 86400
          + (gmtime ts.tv_sec).tm_hour * 3600
          + (gmtime ts.tv_sec).tm_min * 60
          + (gmtime ts.tv_sec).tm_sec / 2 * 2
