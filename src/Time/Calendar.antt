-- ===== src/Time/Calendar.antt =====
-- The proleptic Gregorian calendar: day numbers, counted from 0 at 0001-01-01, and dates.
pub mod Order
use kc_jit_public.Base.{
  ℕ, zero, suc, ◌+◌, ◌-◌, ◌%◌, Bool, true, false, not, ◌||◌, ◌&&◌, ltb, eqb, if◌then◌else◌,
}

pub is_leap : ℕ → Bool
is_leap y = eqb (y % 4) 0 && (not (eqb (y % 100) 0) || eqb (y % 400) 0)

unfoldable pub days_in_year : ℕ → ℕ
unfolding is_leap
days_in_year y = if is_leap y then 366 else 365

unfoldable pub days_in_month : ℕ → ℕ → ℕ
unfolding is_leap
days_in_month y m =
    if eqb m 2
    then (if is_leap y then 29 else 28)
    else if eqb m 4 || eqb m 6 || eqb m 9 || eqb m 11
    then 30
    else 31

-- How many years, or months, a number of days fills: the lengths are `len i`, `len (i + 1)`, and
-- so on. The result is the last unit reached, and the days left in it.
unfoldable pub spend : (ℕ → ℕ) → ℕ → ℕ → ℕ → ℕ × ℕ
spend len zero i d = (i, d)
spend len (suc more) i d =
    let rest = spend len more (suc i) (d - len i) in if ltb d (len i) then (i, d) else rest

-- The days of `n` units from `i` on.
unfoldable pub total : (ℕ → ℕ) → ℕ → ℕ → ℕ
total len zero i = 0
total len (suc n) i = len i + total len n (suc i)

-- The year of a day number, of the years 1 to 9999, and the day's number in that year.
unfoldable pub year_of : ℕ → ℕ × ℕ
unfolding spend days_in_year
year_of d = spend days_in_year 9998 1 d

-- The month of a day of the year, and the day's number in that month, from 0.
unfoldable pub month_of : ℕ → ℕ → ℕ × ℕ
unfolding spend days_in_month
month_of y d = spend (days_in_month y) 11 1 d
