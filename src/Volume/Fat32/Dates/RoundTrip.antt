-- ===== src/Volume/Fat32/Dates/RoundTrip.antt =====
-- A time that is written into a directory entry and read again.
use bas_cpp.Prelude.{
  ℕ, ◌+◌, ◌-◌, ◌*◌, ◌/◌, ◌%◌, ◌^◌, ◌<◌, ◌≡◌, refl, true, false, ◌&&◌, some, arith, ◌==◌,
}
use bas_cpp.Volume.Fat32.Dates.{
  Tm, Calendar, dos_time, dos_date, is_dos_time, encode_dos_date_time, fat_dos_date_time,
}

-- The ranges of struct tm, without a leap second.
pub record IsCivil (tm : Tm) : Type 0 where
  pub sec_lt : tm.sec < 60
  pub min_lt : tm.min < 60
  pub hour_lt : tm.hour < 24
  pub mday_gt : 0 < tm.mday
  pub mday_lt : tm.mday < 32
  pub mon_lt : tm.mon < 12

-- The second rounded down to an even one, and the year brought into the 128 years from 1980 on.
abbrev pub rounded : Tm → Tm
rounded tm = record tm { sec = tm.sec / 2 * 2; year = (tm.year + 48) % 128 + 80 }

module _ (tm : Tm) (h : IsCivil tm) where
  dos_time-fields :
      (dos_time tm % 2 ^ 5 ≡ tm.sec / 2)
      × ((dos_time tm / 2 ^ 5) % 2 ^ 6 ≡ tm.min)
      × ((dos_time tm / 2 ^ 11) % 2 ^ 5 ≡ tm.hour)
  unfolding dos_time
  dos_time-fields =
      let s = h.sec_lt in
      let m = h.min_lt in
      let o = h.hour_lt in (omega (arith, s, m, o), omega (arith, s, m, o), omega (arith, s, m, o))

  dos_date-fields :
      (dos_date tm % 2 ^ 5 ≡ tm.mday)
      × ((dos_date tm / 2 ^ 5) % 2 ^ 4 ≡ tm.mon + 1)
      × (dos_date tm / 2 ^ 9 ≡ (tm.year + 48) % 128)
  unfolding dos_date
  dos_date-fields =
      let d = h.mday_lt in
      let m = h.mon_lt in (omega (arith, d, m), omega (arith, d, m), omega (arith, d, m))

  in_bounds : is_dos_time (tm.sec / 2 * 2) tm.min tm.hour tm.mday (tm.mon + 1) ≡ true
  unfolding is_dos_time
  in_bounds =
      let s = h.sec_lt in
      let m = h.min_lt in
      let o = h.hour_lt in
      let d = h.mday_gt in let d' = h.mday_lt in let n = h.mon_lt in ground arith

-- A time that localtime takes apart into fields in their ranges is read back from a directory entry as
-- mktime of the same fields, with the second rounded down to an even one and the year brought into
-- 1980 to 2107: exactly the same year from 1980 to 2107, and another one before and after.
pub fat_dos_date_time-encode :
    (cal : Calendar) (t : ℕ) (tm : Tm)
    → cal.localtime t ≡ some tm
    → IsCivil tm
    → fat_dos_date_time cal (encode_dos_date_time cal t).0 (encode_dos_date_time cal t).1
      ≡ cal.mktime (rounded tm)
unfolding encode_dos_date_time fat_dos_date_time
fat_dos_date_time-encode cal t tm e h =
    let (s, m, o) = dos_time-fields tm h in
    let (d, n, y) = dos_date-fields tm h in
    let some_day = h.mday_gt in
    let nonzero : ((dos_time tm == 0) && (dos_date tm == 0)) ≡ false =
      ground (arith, d, some_day) in
    let mon : tm.mon + 1 - 1 ≡ tm.mon = omega arith in
    let year : (tm.year + 48) % 128 + 1980 - 1900 ≡ (tm.year + 48) % 128 + 80 = omega arith in
    rw (e, nonzero, s, m, o, d, n, y, in_bounds tm h, mon, year) refl
