-- ===== src/Clock/Examples.antt =====
-- The seconds at some dates.
use desiros.Base.{arith, ◌+◌, ◌-◌, ◌*◌, ◌%◌, ◌≡◌, refl, some}
use desiros.Clock.{
  month_day, seconds_from, Tm, secs_day, leapyear, leap_days, cycles, ytab, yday_loop, day_loop,
  seconds_of, clock_mktime, bcd2binary,
}
use desiros.Clock.Dates.{days_since, capped, clock_mktime_lem}

-- 59 decimal digits of a register.
fifty_nine : bcd2binary 0x59 ≡ 59
unfolding bcd2binary
fifty_nine = refl

-- The 366th day of 2012, counted in its last month: 2013-01-01 12:30:59, as the 32nd of December.
abbrev overflowing : Tm
overflowing = record {
  tm_sec = 59;
  tm_min = 30;
  tm_hour = 12;
  tm_mday = 32;
  tm_mon = 11;
  tm_year = 112;
}

new_year : clock_mktime overflowing ≡ some 1357043459
unfolding clock_mktime month_day seconds_from day_loop seconds_of leap_days cycles yday_loop ytab
    leapyear
new_year = refl

clock_mktime_lem_example :
    clock_mktime overflowing
    ≡ some (
        capped (
          days_since 42 (overflowing.tm_mon % 12) (overflowing.tm_mday - 1) * secs_day
          + ((overflowing.tm_hour * 60 + overflowing.tm_min) * 60 + overflowing.tm_sec)))
clock_mktime_lem_example = clock_mktime_lem overflowing 42 (omega arith) refl

-- 2012-03-00 is 2012-02-29.
last_of_february :
    clock_mktime (record overflowing { tm_mday = 0; tm_mon = 2 })
    ≡ clock_mktime (record overflowing { tm_mday = 29; tm_mon = 1 })
unfolding clock_mktime month_day seconds_from day_loop seconds_of leap_days cycles yday_loop ytab
    leapyear
last_of_february = refl
