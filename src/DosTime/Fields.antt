-- ===== src/DosTime/Fields.antt =====
-- The fields of the packed dates and times, read back as a TOS program reads them.
use tosemu.Base.{◌+◌, ◌-◌, ◌*◌, ◌/◌, ◌%◌, ◌^◌, ◌≤◌, ◌<◌, ◌≡◌, ◌∙◌, arith, sub32, u32_mod}
use tosemu.Base.Bits.{bit_or-shifted}
use tosemu.Platform.{Tm}
use tosemu.DosTime.{pack_time, pack_date, pack_datime}

-- What localtime documents of its result, for a year that a DOS date can hold: 1980 to 2107.
pub record IsDosTime (t : Tm) : Type 0 where
  pub sec : t.tm_sec < 62
  pub min : t.tm_min < 60
  pub hour : t.tm_hour < 24
  pub mday : (1 ≤ t.tm_mday) × (t.tm_mday ≤ 31)
  pub mon : t.tm_mon < 12
  pub year : (80 ≤ t.tm_year) × (t.tm_year < 208)

module _ (t : Tm) (v : IsDosTime t) where
  time_sum : pack_time t ≡ t.tm_sec / 2 + t.tm_min * 2 ^ 5 + t.tm_hour * 2 ^ 11
  unfolding pack_time
  time_sum =
      let e = bit_or-shifted 5 (t.tm_sec / 2) t.tm_min (omega (arith, v.sec)) in
      rw e (
        bit_or-shifted 11 (t.tm_sec / 2 + t.tm_min * 2 ^ 5) t.tm_hour (omega (arith, v.sec, v.min)))

  -- The packed time of a valid `struct tm` fits 16 bits and holds the seconds in units of two in
  -- bits 0 to 4, the minutes in bits 5 to 10 and the hours in bits 11 to 15.
  pub pack_time-fields :
      (pack_time t < 2 ^ 16)
      × (pack_time t % 2 ^ 5 ≡ t.tm_sec / 2)
      × (pack_time t / 2 ^ 5 % 2 ^ 6 ≡ t.tm_min)
      × (pack_time t / 2 ^ 11 ≡ t.tm_hour)
  pack_time-fields = rw time_sum (omega (arith, v.sec, v.min, v.hour))

  years : sub32 t.tm_year 80 * 2 ^ 9 % u32_mod ≡ (t.tm_year - 80) * 2 ^ 9
  years = omega (arith, v.year)

  date_sum : pack_date t ≡ t.tm_mday + (t.tm_mon + 1) * 2 ^ 5 + (t.tm_year - 80) * 2 ^ 9
  unfolding pack_date
  date_sum =
      let e = bit_or-shifted 5 t.tm_mday (t.tm_mon + 1) (omega (arith, v.mday)) in
      rw (years, e)
        (bit_or-shifted 9 (t.tm_mday + (t.tm_mon + 1) * 2 ^ 5) (t.tm_year - 80)
          (omega (arith, v.mday, v.mon)))

  -- The packed date of a valid `struct tm` from 1980 to 2107 fits 16 bits and holds the day in
  -- bits 0 to 4, the month from 1 in bits 5 to 8 and the years since 1980 in bits 9 to 15.
  pub pack_date-fields :
      (pack_date t < 2 ^ 16)
      × (pack_date t % 2 ^ 5 ≡ t.tm_mday)
      × (pack_date t / 2 ^ 5 % 2 ^ 4 ≡ t.tm_mon + 1)
      × (pack_date t / 2 ^ 9 + 80 ≡ t.tm_year)
  pack_date-fields = rw date_sum (omega (arith, v.mday, v.mon, v.year))

  -- The value that Fdatime stores, of a valid `struct tm` from 1980 to 2107, is the packed date in
  -- the high word and the packed time in the low word.
  pub pack_datime-halves : pack_datime t ≡ pack_date t * 2 ^ 16 + pack_time t
  unfolding pack_datime
  pack_datime-halves =
      let shifted : sub32 t.tm_year 80 * 2 ^ 25 % u32_mod ≡ (t.tm_year - 80) * 2 ^ 25 =
        omega (arith, v.year) in
      let low = t.tm_sec / 2 + t.tm_min * 2 ^ 5 + t.tm_hour * 2 ^ 11 in
      let e1 = bit_or-shifted 5 (t.tm_sec / 2) t.tm_min (omega (arith, v.sec)) in
      let e2 =
        bit_or-shifted 11 (t.tm_sec / 2 + t.tm_min * 2 ^ 5) t.tm_hour
          (omega (arith, v.sec, v.min)) in
      let e3 = bit_or-shifted 16 low t.tm_mday (omega (arith, v.sec, v.min, v.hour)) in
      let e4 =
        bit_or-shifted 21 (low + t.tm_mday * 2 ^ 16) (t.tm_mon + 1)
          (omega (arith, v.sec, v.min, v.hour, v.mday)) in
      let e5 =
        bit_or-shifted 25 (low + t.tm_mday * 2 ^ 16 + (t.tm_mon + 1) * 2 ^ 21) (t.tm_year - 80)
          (omega (arith, v.sec, v.min, v.hour, v.mday, v.mon)) in
      rw (shifted, e1, e2, e3, e4) (e5 ∙ omega (arith, date_sum, time_sum))
