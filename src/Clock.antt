-- ===== src/Clock.antt =====
-- The clock, clock.c: two decimal digits of the real-time clock's registers, and the seconds since
-- 1970 of a date. The fields of a date are natural numbers, so that the corrections of negative fields
-- are not taken, but for the one of the day 0; signed numbers do not overflow.
pub mod Years
pub mod Dates
mod Examples
use desiros.Base.{
  ℕ, zero, suc, ◌+◌, ◌-◌, ◌*◌, ◌/◌, ◌%◌, ◌^◌, Bool, true, false, ◌&&◌, ◌||◌, not, List, [], ◌∷◌,
  Option, none, some, get_or, ltb, leb, ◌==◌, if◌then◌else◌,
}

-- `struct tm`, the fields that `clock_mktime` reads; years since 1900, months from 0.
pub record Tm : Type 0 where
  pub tm_sec : ℕ
  pub tm_min : ℕ
  pub tm_hour : ℕ
  pub tm_mday : ℕ
  pub tm_mon : ℕ
  pub tm_year : ℕ

abbrev pub year0 : ℕ
year0 = 1900

abbrev pub epoch_yr : ℕ
epoch_yr = 1970

abbrev pub secs_day : ℕ
secs_day = 24 * 60 * 60

abbrev pub time_max : ℕ
time_max = 0xFFFFFFFF

abbrev pub long_max : ℕ
long_max = 2 ^ 31 - 1

unfoldable pub leapyear : ℕ → Bool
leapyear year = ((year % 4) == 0) && (not ((year % 100) == 0) || ((year % 400) == 0))

unfoldable pub ytab : Bool → ℕ → ℕ
ytab leap month =
    get_or (31 ∷ (if leap then 29 else 28) ∷ 31 ∷ 30 ∷ 31 ∷ 30 ∷ 31 ∷ 31 ∷ 30 ∷ 31 ∷ 30 ∷ 31 ∷ [])
      month 0

unfoldable pub bcd2binary : ℕ → ℕ
bcd2binary n = (10 * (n / 16 % 16) + n % 16) % 256

-- The loop that brings the day of the month into its month, on fuel: years since 1900, month, day.
unfoldable pub day_loop : ℕ → ℕ → ℕ → ℕ → Option (ℕ × ℕ × ℕ)
day_loop zero year mon day = none
day_loop (suc n) year mon day =
    let size = ytab (leapyear (year0 + year)) mon in
    let rest =
      if mon + 1 == 12
      then day_loop n (year + 1) 0 (day - size)
      else day_loop n year (mon + 1) (day - size) in
    if leb size day then rest else some (year, mon, day)

-- A condition as a number, and `n && n < m`.
abbrev pub one_if : Bool → ℕ
one_if b = if b then 1 else 0

abbrev pub before_in_cycle : ℕ → ℕ → ℕ
before_in_cycle n m = one_if (not (n == 0) && ltb n m)

-- The sum of one of the three lines that count leap days.
unfoldable pub cycles : ℕ → ℕ → ℕ
cycles y m = (y - epoch_yr) / m + before_in_cycle (y % m) (epoch_yr % m)

-- The leap days from 1970 up to a year.
unfoldable pub leap_days : ℕ → ℕ
leap_days y = cycles y 4 - cycles y 100 + cycles y 400

-- The loop over the months of a year before the month.
unfoldable pub yday_loop : Bool → ℕ → ℕ
yday_loop leap zero = 0
yday_loop leap (suc month) = yday_loop leap month + ytab leap month

-- From the normalised date on; -1 is `time_max`.
unfoldable pub seconds_of : ℕ → ℕ → ℕ → ℕ → ℕ → ℕ → ℕ
seconds_of year mon day hour min sec =
    let tm_year = year + year0 in
    let years = tm_year - epoch_yr in
    let days = years * 365 + leap_days tm_year + (yday_loop (leapyear tm_year) mon + day) in
    let seconds = (hour * 60 + min) * 60 + sec in
    if ltb year (epoch_yr - year0)
    then time_max
    else if ltb (long_max / 365) years
        || (ltb (long_max - years * 365) (years / 4 + 1)
            || ltb ((time_max - seconds) / secs_day) days)
    then time_max
    else seconds + days * secs_day

-- The year, the month and the day from 0 on, by the day from 1 on: day 0 is the last of the month before.
unfoldable pub month_day : ℕ → ℕ → ℕ → ℕ × ℕ × ℕ
month_day year mon (suc day) = (year, mon, day)
month_day year mon zero =
    if mon == 0
    then (year - 1, 11, ytab (leapyear (year0 + (year - 1))) 11 - 1)
    else (year, mon - 1, ytab (leapyear (year0 + year)) (mon - 1) - 1)

-- From a year, a month and a day that may exceed it on; `none` is missing fuel.
unfoldable pub seconds_from : ℕ × ℕ × ℕ → ℕ → ℕ → ℕ → Option ℕ
seconds_from (year, mon, day) hour min sec = elim (day_loop (suc day) year mon day) [
  | none ↦ none
  | some (y, m, d) ↦ some (seconds_of y m d hour min sec)
]

unfoldable pub clock_mktime : Tm → Option ℕ
unfolding seconds_from month_day
clock_mktime t =
    let min = t.tm_min + t.tm_sec / 60 in
    let hour = t.tm_hour + min / 60 in
    seconds_from (month_day (t.tm_year + t.tm_mon / 12) (t.tm_mon % 12) (hour / 24 + t.tm_mday))
      (hour % 24) (min % 60) (t.tm_sec % 60)

-- `clock_init`: the date in the registers of the real-time clock, whose month is not 0.
unfoldable pub clock_init : (ℕ → ℕ) → Option ℕ
clock_init rtc = clock_mktime (record {
  tm_sec = bcd2binary (rtc 0x00);
  tm_min = bcd2binary (rtc 0x02);
  tm_hour = bcd2binary (rtc 0x04);
  tm_mday = bcd2binary (rtc 0x07);
  tm_mon = bcd2binary (rtc 0x08) - 1;
  tm_year = bcd2binary (rtc 0x09) + 100;
})
