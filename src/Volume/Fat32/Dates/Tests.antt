-- ===== src/Volume/Fat32/Dates/Tests.antt =====
-- Times written and read with a clock that knows one day only.
use bas_cpp.Prelude.{◌+◌, ◌*◌, ◌/◌, ◌%◌, ◌≡◌, refl, some, arith}
use bas_cpp.Volume.Fat32.Dates.{
  Tm, Calendar, encode_dos_date_time, fat_dos_date_time, dos_time, dos_date, is_dos_time,
}
use bas_cpp.Volume.Fat32.Dates.RoundTrip.{rounded, fat_dos_date_time-encode}

abbrev pub one_day : Calendar
one_day = record {
  localtime = λ t. some (record {
    sec = t % 60;
    min = t / 60 % 60;
    hour = t / 3600 % 24;
    mday = 24;
    mon = 11;
    year = 125;
  });
  mktime = λ tm. tm.hour * 3600 + tm.min * 60 + tm.sec;
}

abbrev evening : Tm
evening = record { sec = 59; min = 30; hour = 18; mday = 24; mon = 11; year = 125 }

fat_dos_date_time-encode_example :
    fat_dos_date_time one_day
      (encode_dos_date_time one_day 66659).0
      (encode_dos_date_time one_day 66659).1
    ≡ one_day.mktime (rounded evening)
fat_dos_date_time-encode_example = fat_dos_date_time-encode one_day 66659 evening refl (record {
  sec_lt = omega arith;
  min_lt = omega arith;
  hour_lt = omega arith;
  mday_gt = omega arith;
  mday_lt = omega arith;
  mon_lt = omega arith;
})

-- A second is lost where it is odd.
odd_second :
    fat_dos_date_time one_day
      (encode_dos_date_time one_day 66659).0
      (encode_dos_date_time one_day 66659).1
    ≡ 66658
unfolding encode_dos_date_time fat_dos_date_time dos_time dos_date is_dos_time
odd_second = refl
