-- ===== src/Clock/Dates.antt =====
-- `clock_mktime` counts the seconds since 1970.
use desiros.Base.{
  ℕ, zero, suc, ◌+◌, ◌-◌, ◌*◌, ◌/◌, ◌%◌, ◌≤◌, ◌<◌, ◌≡◌, refl, ap, ◌∙◌, Bool, true, false, ◌||◌,
  Bool-cases, inl, inr, Option, some, ◌==◌, ltb, leb, leb→le, ==→eq, ==→ne, le→ltb, lt→ltb,
  if◌then◌else◌, arith,
}
use desiros.Clock.{
  Tm, secs_day, time_max, long_max, leapyear, leap_days, ytab, yday_loop, day_loop, seconds_of,
  clock_mktime, month_day, seconds_from,
}
use desiros.Clock.Years.{year_size, days_before, leap_days_lem, whole_year}

-- The days from 1970 to a day of a month of the year 1970 + `k`, counted one by one.
abbrev pub days_since : ℕ → ℕ → ℕ → ℕ
days_since k mon day = days_before k + yday_loop (leapyear (1970 + k)) mon + day

month_days : (leap : Bool) (mon : ℕ) → mon < 12 → 28 ≤ ytab leap mon
unfolding ytab
month_days true zero l = omega arith
month_days true (suc zero) l = omega arith
month_days true (suc (suc zero)) l = omega arith
month_days true (suc (suc (suc zero))) l = omega arith
month_days true (suc (suc (suc (suc zero)))) l = omega arith
month_days true (suc (suc (suc (suc (suc zero))))) l = omega arith
month_days true (suc (suc (suc (suc (suc (suc zero)))))) l = omega arith
month_days true (suc (suc (suc (suc (suc (suc (suc zero))))))) l = omega arith
month_days true (suc (suc (suc (suc (suc (suc (suc (suc zero)))))))) l = omega arith
month_days true (suc (suc (suc (suc (suc (suc (suc (suc (suc zero))))))))) l = omega arith
month_days true (suc (suc (suc (suc (suc (suc (suc (suc (suc (suc zero)))))))))) l = omega arith
month_days true (suc (suc (suc (suc (suc (suc (suc (suc (suc (suc (suc zero))))))))))) l =
    omega arith
month_days false zero l = omega arith
month_days false (suc zero) l = omega arith
month_days false (suc (suc zero)) l = omega arith
month_days false (suc (suc (suc zero))) l = omega arith
month_days false (suc (suc (suc (suc zero)))) l = omega arith
month_days false (suc (suc (suc (suc (suc zero))))) l = omega arith
month_days false (suc (suc (suc (suc (suc (suc zero)))))) l = omega arith
month_days false (suc (suc (suc (suc (suc (suc (suc zero))))))) l = omega arith
month_days false (suc (suc (suc (suc (suc (suc (suc (suc zero)))))))) l = omega arith
month_days false (suc (suc (suc (suc (suc (suc (suc (suc (suc zero))))))))) l = omega arith
month_days false (suc (suc (suc (suc (suc (suc (suc (suc (suc (suc zero)))))))))) l = omega arith
month_days false (suc (suc (suc (suc (suc (suc (suc (suc (suc (suc (suc zero))))))))))) l =
    omega arith
month_days leap (suc (suc (suc (suc (suc (suc (suc (suc (suc (suc (suc (suc m)))))))))))) l =
    absurd (omega (arith, l))

-- The loop brings the day into its month, and the date stays the same day.
record Normal (k mon day : ℕ) (out : Option (ℕ × ℕ × ℕ)) : Type 0 where
  years : ℕ
  month : ℕ
  rest : ℕ
  result : out ≡ some (70 + years, month, rest)
  same : days_since years month rest ≡ days_since k mon day
  later : k ≤ years

next_month :
    (k mon day : ℕ)
    → mon < 11
    → ytab (leapyear (1970 + k)) mon ≤ day
    → days_since k (mon + 1) (day - ytab (leapyear (1970 + k)) mon) ≡ days_since k mon day
unfolding yday_loop
next_month k mon day l h = let e : mon + 1 ≡ suc mon = omega arith in rw e (omega (arith, h))

yday_loop_last : (leap : Bool) → yday_loop leap 12 ≡ yday_loop leap 11 + ytab leap 11
unfolding yday_loop
yday_loop_last leap = refl

yday_loop_none : (leap : Bool) → yday_loop leap 0 ≡ 0
unfolding yday_loop
yday_loop_none leap = refl

days_before_next : (k : ℕ) → days_before (k + 1) ≡ days_before k + year_size (1970 + k)
unfolding days_before
days_before_next k = let e : k + 1 ≡ suc k = omega arith in rw e refl

next_year :
    (k day : ℕ)
    → ytab (leapyear (1970 + k)) 11 ≤ day
    → days_since (k + 1) 0 (day - ytab (leapyear (1970 + k)) 11) ≡ days_since k 11 day
next_year k day h = omega (
  arith,
  h,
  yday_loop_none (leapyear (1970 + (k + 1))),
  yday_loop_last (leapyear (1970 + k)),
  whole_year (leapyear (1970 + k)),
  days_before_next k,
)

year_over :
    (k mon day : ℕ)
    → mon ≡ 11
    → ytab (leapyear (1970 + k)) mon ≤ day
    → days_since (k + 1) 0 (day - ytab (leapyear (1970 + k)) mon) ≡ days_since k mon day
year_over k mon day z h = rw z (next_year k day (rw (← z) h))

Normal-from :
    (k mon day k1 mon1 day1 : ℕ) (out : Option (ℕ × ℕ × ℕ))
    → days_since k1 mon1 day1 ≡ days_since k mon day
    → k ≤ k1
    → Normal k1 mon1 day1 out
    → Normal k mon day out
Normal-from k mon day k1 mon1 day1 out e l h = record {
  years = h.years;
  month = h.month;
  rest = h.rest;
  result = h.result;
  same = h.same ∙ e;
  later = omega (arith, l, h.later);
}

day_loop_lem :
    (n k mon day : ℕ) → mon < 12 → day < n → Normal k mon day (day_loop n (70 + k) mon day)
unfolding day_loop
day_loop_lem zero k mon day l h = ground (arith, h)
day_loop_lem (suc n) k mon day l h =
    let e : 1900 + (70 + k) ≡ 1970 + k = omega arith in
    let size : 28 ≤ ytab (leapyear (1970 + k)) mon = month_days (leapyear (1970 + k)) mon l in
    elim (Bool-cases (leb (ytab (leapyear (1970 + k)) mon) day)) [
      | inr x ↦
          rw (day_loop, e, x)
            (record {
              years = k;
              month = mon;
              rest = day;
              result = refl;
              same = refl;
              later = omega arith;
            })
      | inl x ↦
          let fits : ytab (leapyear (1970 + k)) mon ≤ day =
            leb→le (ytab (leapyear (1970 + k)) mon) day x in
          let left : ℕ = day - ytab (leapyear (1970 + k)) mon in
          elim (Bool-cases ((mon + 1) == 12)) [
            | inl y ↦
                let z : mon ≡ 11 = omega (arith, ==→eq (mon + 1) 12 y) in
                let f : 70 + k + 1 ≡ 70 + (k + 1) = omega arith in
                rw (day_loop, e, x, y, f)
                  (Normal-from k mon day (k + 1) 0 left (day_loop n (70 + (k + 1)) 0 left)
                    (year_over k mon day z fits) (omega arith)
                    (day_loop_lem n (k + 1) 0 left (omega arith) (omega (arith, size, fits, h))))
            | inr y ↦
                let z : mon < 11 = omega (arith, l, ==→ne (mon + 1) 12 y) in
                rw (day_loop, e, x, y)
                  (Normal-from k mon day k (mon + 1) left (day_loop n (70 + k) (mon + 1) left)
                    (next_month k mon day z fits) (omega arith)
                    (day_loop_lem n k (mon + 1) left (omega (arith, z))
                      (omega (arith, size, fits, h))))
          ]
    ]

-- The seconds of a number of days and a time of day, if they fit in 32 bits.
abbrev pub capped : ℕ → ℕ
capped total = if leb total time_max then total else time_max

any_true : (a b : Bool) → (a || (b || true)) ≡ true
any_true true b = refl
any_true false true = refl
any_true false false = refl

seconds_of_lem :
    (k mon day hour min sec : ℕ)
    → (hour * 60 + min) * 60 + sec < secs_day
    → seconds_of (70 + k) mon day hour min sec
      ≡ capped (days_since k mon day * secs_day + ((hour * 60 + min) * 60 + sec))
unfolding seconds_of
seconds_of_lem k mon day hour min sec l =
    let s : ℕ = (hour * 60 + min) * 60 + sec in
    let e : 70 + k + 1900 ≡ 1970 + k = omega arith in
    let years : 1970 + k - 1970 ≡ k = omega arith in
    let d : k * 365 + leap_days (1970 + k) + (yday_loop (leapyear (1970 + k)) mon + day)
        ≡ days_since k mon day =
      omega (arith, leap_days_lem k) in
    let year : ltb (70 + k) 70 ≡ false = ground arith in
    let whole : k * 365 ≤ days_since k mon day = omega (arith, leap_days_lem k) in
    elim (Bool-cases (leb (days_since k mon day * secs_day + s) time_max)) [
      | inl y ↦
          let fits : days_since k mon day * secs_day + s ≤ time_max =
            leb→le (days_since k mon day * secs_day + s) time_max y in
          let t1 : ltb (long_max / 365) k ≡ false =
            le→ltb (long_max / 365) k (omega (arith, fits, whole)) in
          let t2 : ltb (long_max - k * 365) (k / 4 + 1) ≡ false =
            le→ltb (long_max - k * 365) (k / 4 + 1) (omega (arith, fits, whole)) in
          let t3 : ltb ((time_max - s) / secs_day) (days_since k mon day) ≡ false =
            le→ltb ((time_max - s) / secs_day) (days_since k mon day) (omega (arith, fits)) in
          rw (seconds_of, e, years, d, year, t1, t2, t3, y) (omega arith)
      | inr y ↦
          let over : time_max < days_since k mon day * secs_day + s = ground (arith, y) in
          let t3 : ltb ((time_max - s) / secs_day) (days_since k mon day) ≡ true =
            lt→ltb ((time_max - s) / secs_day) (days_since k mon day) (omega (arith, over, l)) in
          rw
            (
              seconds_of,
              e,
              years,
              d,
              year,
              t3,
              y,
              any_true (ltb (long_max / 365) k) (ltb (long_max - k * 365) (k / 4 + 1)),
            )
            refl
    ]

-- clock_mktime of a date, whose fields may exceed their units, whose day of the month is at least 1 and
-- whose month lies in or after 1970,
-- ends, and gives the seconds from the start of 1970 to the date, with the days counted year by year
-- and month by month; 2 ^ 32 - 1, which is -1, when they do not fit in 32 bits.
pub clock_mktime_lem :
    (t : Tm) (k : ℕ)
    → 1 ≤ t.tm_mday
    → t.tm_year + t.tm_mon / 12 ≡ 70 + k
    → clock_mktime t
      ≡ some (
          capped (
            days_since k (t.tm_mon % 12) (t.tm_mday - 1) * secs_day
            + ((t.tm_hour * 60 + t.tm_min) * 60 + t.tm_sec)))
unfolding clock_mktime month_day seconds_from
clock_mktime_lem t k first y =
    let min : ℕ = t.tm_min + t.tm_sec / 60 in
    let hour : ℕ = t.tm_hour + min / 60 in
    let day : ℕ = hour / 24 + (t.tm_mday - 1) in
    let n = day_loop_lem (suc day) k (t.tm_mon % 12) day (omega arith) (omega arith) in
    let clock : (hour % 24 * 60 + min % 60) * 60 + t.tm_sec % 60 < secs_day = omega arith in
    let total : days_since n.years n.month n.rest * secs_day
          + ((hour % 24 * 60 + min % 60) * 60 + t.tm_sec % 60)
        ≡ days_since k (t.tm_mon % 12) (t.tm_mday - 1) * secs_day
          + ((t.tm_hour * 60 + t.tm_min) * 60 + t.tm_sec) =
      omega (arith, n.same) in
    let positive : hour / 24 + t.tm_mday ≡ suc day = omega (arith, first) in
    let start : month_day (t.tm_year + t.tm_mon / 12) (t.tm_mon % 12) (hour / 24 + t.tm_mday)
        ≡ (70 + k, t.tm_mon % 12, day) =
      rw (y, positive) refl in
    ap (λ x. seconds_from x (hour % 24) (min % 60) (t.tm_sec % 60)) start
    ∙ rw (seconds_from, n.result)
        (ap some (
          seconds_of_lem n.years n.month n.rest (hour % 24) (min % 60) (t.tm_sec % 60) clock
          ∙ ap capped total))
