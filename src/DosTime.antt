-- ===== src/DosTime.antt =====
-- The packed dates and times of GEMDOS: gemdos.c (Tgetdate, Tgettime) and gemdosfile.c (Fdatime, and the
-- fields of the DTA). `tm_year` counts from 1900, and the year's shift wraps in 32 bits.
pub mod Fields
use tosemu.Base.{ℕ, ◌+◌, ◌*◌, ◌/◌, ◌%◌, ◌^◌, bit_or, sub32, u32_mod}
use tosemu.Platform.{Tm}

-- (lt->tm_sec / 2) | (lt->tm_min << 5) | (lt->tm_hour << 11)
unfoldable pub pack_time : Tm → ℕ
pack_time lt = bit_or (bit_or (lt.tm_sec / 2) (lt.tm_min * 2 ^ 5)) (lt.tm_hour * 2 ^ 11)

-- lt->tm_mday | ((lt->tm_mon+1) << 5) | ((lt->tm_year-80) << 9)
unfoldable pub pack_date : Tm → ℕ
pack_date lt =
    bit_or (bit_or lt.tm_mday ((lt.tm_mon + 1) * 2 ^ 5)) (sub32 lt.tm_year 80 * 2 ^ 9 % u32_mod)

-- The 32-bit value of Fdatime: the date in the high half.
unfoldable pub pack_datime : Tm → ℕ
pack_datime lt =
    bit_or
      (bit_or
        (bit_or (bit_or (bit_or (lt.tm_sec / 2) (lt.tm_min * 2 ^ 5)) (lt.tm_hour * 2 ^ 11))
          (lt.tm_mday * 2 ^ 16))
        ((lt.tm_mon + 1) * 2 ^ 21))
      (sub32 lt.tm_year 80 * 2 ^ 25 % u32_mod)
