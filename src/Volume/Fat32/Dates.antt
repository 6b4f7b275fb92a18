-- ===== src/Volume/Fat32/Dates.antt =====
-- src/bas/volume/fat32/fat32_utils.cpp: times in the form of a directory entry. The C library's localtime and
-- mktime are parameters.
pub mod RoundTrip
pub mod Tests
use bas_cpp.Prelude.{
  ℕ, ◌+◌, ◌-◌, ◌*◌, ◌/◌, ◌%◌, ◌^◌, ◌≡◌, Bool, true, false, ◌&&◌, ◌||◌, not, Option, none, some,
  if◌then◌else◌, ◌==◌, ltb, leb,
}

-- struct tm, as far as it is used; the year counts from 1900, the month from 0. `isdst` is only set,
-- to -1, by fatDosDateTime.
pub record Tm : Type 0 where
  pub sec : ℕ
  pub min : ℕ
  pub hour : ℕ
  pub mday : ℕ
  pub mon : ℕ
  pub year : ℕ

-- The C library's clock: a time_t is a number.
pub record Calendar : Type 0 where
  pub localtime : ℕ → Option Tm
  pub mktime : Tm → ℕ

-- `dosTime` and `dosDate`, each of 16 bits. The fields of a struct tm are apart from one another, so the
-- `|` of the source is a sum; a year before 1980 wraps.
unfoldable pub dos_time : Tm → ℕ
dos_time tm = (tm.hour * 2 ^ 11 + tm.min * 2 ^ 5 + tm.sec / 2) % 2 ^ 16

unfoldable pub dos_date : Tm → ℕ
dos_date tm = ((tm.year + 1900 + 2 ^ 16 - 1980) * 2 ^ 9 + (tm.mon + 1) * 2 ^ 5 + tm.mday) % 2 ^ 16

abbrev pub encode_tm : Option Tm → ℕ × ℕ
encode_tm none = (0, 0)
encode_tm (some tm) = (dos_time tm, dos_date tm)

-- The bounds that fatDosDateTime checks.
pub is_dos_time : ℕ → ℕ → ℕ → ℕ → ℕ → Bool
is_dos_time sec min hour day month = not (
    ltb month 1
    || ltb 12 month
    || ltb day 1
    || ltb 31 day
    || ltb 23 hour
    || ltb 59 min
    || ltb 59 sec)

module _ (cal : Calendar) where
  open cal use {localtime, mktime}

  -- encodeDosDateTime; the time, then the date.
  unfoldable pub encode_dos_date_time : ℕ → ℕ × ℕ
  encode_dos_date_time t = encode_tm (localtime t)

  -- fatDosDateTime
  pub fat_dos_date_time : ℕ → ℕ → ℕ
  fat_dos_date_time dos_time dos_date =
      let sec = dos_time % 2 ^ 5 * 2 in
      let min = (dos_time / 2 ^ 5) % 2 ^ 6 in
      let hour = (dos_time / 2 ^ 11) % 2 ^ 5 in
      let day = dos_date % 2 ^ 5 in
      let month = (dos_date / 2 ^ 5) % 2 ^ 4 in
      let year = dos_date / 2 ^ 9 + 1980 in
      if (dos_time == 0) && (dos_date == 0)
      then 0
      else if is_dos_time sec min hour day month
      then mktime (record {
        sec = sec;
        min = min;
        hour = hour;
        mday = day;
        mon = month - 1;
        year = year - 1900;
      })
      else 0
