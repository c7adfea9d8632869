-- ===== src/Clock/Years.antt =====
-- The days before a year and before a month, counted one by one.
use desiros.Base.{
  ℕ, zero, suc, ◌+◌, ◌*◌, ◌%◌, ◌≤◌, ◌≡◌, refl, Bool, true, false, ◌==◌, if◌then◌else◌, arith,
}
use desiros.Clock.{leapyear, cycles, leap_days, yday_loop, ytab, one_if}

-- The days of a year, and of the `n` years from 1970 on.
abbrev pub year_size : ℕ → ℕ
year_size year = if leapyear year then 366 else 365

unfoldable pub days_before : ℕ → ℕ
days_before zero = 0
days_before (suc n) = days_before n + year_size (1970 + n)

-- Each line counts the multiples from 1970 on.
cycles_four :
    (n : ℕ) → cycles (1970 + suc n) 4 ≡ cycles (1970 + n) 4 + one_if (((1970 + n) % 4) == 0)
unfolding cycles
cycles_four n = ground arith

cycles_hundred :
    (n : ℕ) → cycles (1970 + suc n) 100 ≡ cycles (1970 + n) 100 + one_if (((1970 + n) % 100) == 0)
unfolding cycles
cycles_hundred n = ground arith

cycles_four_hundred :
    (n : ℕ) → cycles (1970 + suc n) 400 ≡ cycles (1970 + n) 400 + one_if (((1970 + n) % 400) == 0)
unfolding cycles
cycles_four_hundred n = ground arith

first_hundred : cycles 1970 100 ≡ 0
unfolding cycles
first_hundred = refl

hundred-le-four : (n : ℕ) → cycles (1970 + n) 100 ≤ cycles (1970 + n) 4
hundred-le-four zero = omega (arith, first_hundred)
hundred-le-four (suc n) = ground (arith, cycles_four n, cycles_hundred n, hundred-le-four n)

leap_days-next :
    (n : ℕ) → leap_days (1970 + suc n) ≡ leap_days (1970 + n) + one_if (leapyear (1970 + n))
unfolding leap_days leapyear
leap_days-next n =
    ground (arith, cycles_four n, cycles_hundred n, cycles_four_hundred n, hundred-le-four n)

pub leap_days_lem : (n : ℕ) → n * 365 + leap_days (1970 + n) ≡ days_before n
unfolding days_before leap_days cycles
leap_days_lem zero = refl
leap_days_lem (suc n) = ground (arith, leap_days_lem n, leap_days-next n)

-- The months of a year make up the year.
pub whole_year : (leap : Bool) → yday_loop leap 12 ≡ (if leap then 366 else 365)
unfolding yday_loop ytab
whole_year true = refl
whole_year false = refl
