-- ===== src/Time/Parse/RoundTrip.antt =====
-- What `Format` writes, `time.Parse` reads back.
use kc_jit_public.Base.{
  ℕ, zero, suc, ◌+◌, ◌-◌, ◌*◌, ◌/◌, ◌%◌, ◌≤◌, ◌<◌, ◌≡◌, refl, sym, ap, ◌∙◌, inl, inr, true, false,
  ◌&&◌, [], ◌∷◌, some, arith, ltb, leb, eqb, Bool-cases,
}
use native.Mathlib.Nat.{mod-lt, div-add-mod'}
use mathlib.Core.Path.{subst}
use kc_jit_public.Time.{second, Instant}
use kc_jit_public.Time.Calendar.{days_in_year, days_in_month, total, year_of, month_of}
use kc_jit_public.Time.Calendar.Order.{spend-total}
use kc_jit_public.Time.Format.{
  Bytes, two, pow10, fraction, point, month_day, year_month_day, date_text, time_text, clock_text,
  format,
}
use kc_jit_public.Time.Format.Order.{end_of_years}
use kc_jit_public.Time.Format.Fields.{year_of-lt, year_of-le, month_of-le, month_of-in, month_of-lt}
use kc_jit_public.Time.Parse.{
  is_digit, read_two, read_digits, read_point, day_number, read_date, read_time, parse,
}

read_two-two : (n : ℕ) (s : Bytes) → n < 100 → read_two (two n s) ≡ some (n, s)
unfolding read_two two
read_two-two n s h = ground arith

time_sum : (s : ℕ) → s / 3600 * 3600 + s % 3600 / 60 * 60 + s % 60 ≡ s
time_sum s = omega arith

time_ranges :
    (s : ℕ) → s < 86400 → (ltb (s / 3600) 24 && ltb (s % 3600 / 60) 60 && ltb (s % 60) 60) ≡ true
time_ranges s h = ground arith

read_time-time_text :
    (s : ℕ) (rest : Bytes) → s < 86400 → read_time (time_text s rest) ≡ some (s, rest)
unfolding read_time time_text
read_time-time_text s rest h =
    rw
      (
        read_two-two (s / 3600) (b':' ∷ two (s % 3600 / 60) (b':' ∷ two (s % 60) rest))
            (omega arith),
        read_two-two (s % 3600 / 60) (b':' ∷ two (s % 60) rest) (omega arith),
        read_two-two (s % 60) rest (omega arith),
        time_ranges s h,
        time_sum s,
      )
      refl

pow10_positive : (k : ℕ) → 0 < pow10 k
pow10_positive zero = omega arith
pow10_positive (suc k) = omega (arith, pow10_positive k)

div_lt_ten : (n p : ℕ) → n < 10 * p → n / p * p + n % p ≡ n → n / p < 10
div_lt_ten n p h e = elim (Bool-cases (ltb (n / p) 10)) [
  | inl small ↦ ground arith
  | inr large ↦ absurd (too_large (n / p) p (n % p) n (ground arith) h e)
]
  where
    too_large : (q p r n : ℕ) → 10 ≤ q → n < 10 * p → q * p + r ≡ n → ⊥
    too_large q p r n big h e = grind arith

digit_of : (q : ℕ) → q < 10 → (is_digit (48 + q) ≡ true) × ((48 + q) - 48 ≡ q)
digit_of q h = (ground arith, omega arith)

-- The digits of a fraction, followed by no digit, are read as the fraction.
read_digits-fraction :
    (k n c : ℕ) (s : Bytes)
    → is_digit c ≡ false
    → n < pow10 k
    → read_digits k (fraction k n (c ∷ s)) ≡ (n, c ∷ s)
unfolding read_digits fraction
read_digits-fraction zero n c s d h = ap (λ x. (x, c ∷ s)) (omega arith)
read_digits-fraction (suc k) n c s d h = elim (Bool-cases (eqb n 0)) [
  | inl none_left ↦ rw (none_left, d) (ap (λ x. (x, c ∷ s)) (ground arith))
  | inr more ↦
      let p = pow10 k in
      let sum = div-add-mod' n p in
      let (digit, back) = digit_of (n / p) (div_lt_ten n p h sum) in
      rw (more, digit, read_digits-fraction k (n % p) c s d (mod-lt n (pow10_positive k)), back)
        (ap (λ x. (x, c ∷ s)) sum)
]

fraction-head :
    (k n : ℕ) (rest : Bytes)
    → eqb n 0 ≡ false
    → fraction (suc k) n rest ≡ (b'0' + n / pow10 k) ∷ fraction k (n % pow10 k) rest
unfolding fraction
fraction-head k n rest h = rw h refl

point_whole : (rest : Bytes) → point 0 rest ≡ rest
unfolding point
point_whole rest = refl

point-fraction : (n : ℕ) (rest : Bytes) → eqb n 0 ≡ false → point n rest ≡ b'.' ∷ fraction 9 n rest
unfolding point
point-fraction n rest h = rw h refl

read_point_digits :
    (d : ℕ) (s : Bytes)
    → is_digit d ≡ true
    → read_point (b'.' ∷ d ∷ s) ≡ some (read_digits 9 (d ∷ s))
unfolding read_point
read_point_digits d s h = rw h refl

read_point_whole : read_point (b'Z' ∷ []) ≡ some (0, b'Z' ∷ [])
unfolding read_point
read_point_whole = refl

first_digit : (n : ℕ) → n < second → n / pow10 8 < 10
first_digit n h = omega arith

year_of-total :
    (d : ℕ) → (k : ℕ) × ((year_of d).0 ≡ suc k) × (total days_in_year k 1 + (year_of d).1 ≡ d)
unfolding year_of
year_of-total d =
    let (k, reached, sum) = spend-total days_in_year 9998 1 d in (k, omega (arith, reached), sum)

month_of-total :
    (y d : ℕ)
    → (j : ℕ) × ((month_of y d).0 ≡ suc j) × (total (days_in_month y) j 1 + (month_of y d).1 ≡ d)
unfolding month_of
month_of-total y d =
    let (j, reached, sum) = spend-total (days_in_month y) 11 1 d in (j, omega (arith, reached), sum)

read_point-point : (n : ℕ) → n < second → read_point (point n (b'Z' ∷ [])) ≡ some (n, b'Z' ∷ [])
read_point-point n h = elim (Bool-cases (eqb n 0)) [
  | inl none_left ↦
      let zero_left : n ≡ 0 = ground arith in
      subst (λ x. read_point (point x (b'Z' ∷ [])) ≡ some (x, b'Z' ∷ [])) (sym zero_left)
        (ap read_point (point_whole (b'Z' ∷ [])) ∙ read_point_whole)
  | inr more ↦
      let head = fraction-head 8 n (b'Z' ∷ []) more in
      let (digit, back) = digit_of (n / pow10 8) (first_digit n h) in
      ap read_point (point-fraction n (b'Z' ∷ []) more)
      ∙ (ap (λ s. read_point (b'.' ∷ s)) head
          ∙ (read_point_digits (b'0' + n / pow10 8) (fraction 8 (n % pow10 8) (b'Z' ∷ [])) digit
              ∙ (ap (λ s. some (read_digits 9 s)) (sym head)
                  ∙ ap some (read_digits-fraction 9 n b'Z' [] refl h))))
]

in_range :
    (y m e long : ℕ)
    → 1 ≤ y
    → 1 ≤ m
    → m ≤ 12
    → e < long
    → (leb 1 y && leb 1 m && leb m 12 && leb 1 (e + 1) && leb (e + 1) long) ≡ true
in_range y m e long hy hm le lt = ground arith

day_number-some :
    (y m e k j d days : ℕ)
    → y ≡ suc k
    → total days_in_year k 1 + d ≡ days
    → m ≡ suc j
    → total (days_in_month y) j 1 + e ≡ d
    → m ≤ 12
    → e < days_in_month y m
    → day_number y m (e + 1) ≡ some days
unfolding day_number
day_number-some y m e k j d days hy hk hm hj le lt =
    let years : y - 1 ≡ k = omega arith in
    let months : m - 1 ≡ j = omega arith in
    let day : e + 1 - 1 ≡ e = omega arith in
    rw (in_range y m e (days_in_month y m) (omega arith) (omega arith) le lt, years, months, day)
      (ap some (omega (arith, hk, hj)))

hundreds : (y : ℕ) → y / 100 * 100 + y % 100 ≡ y
hundreds y = omega arith

read_date-two :
    (y m e days : ℕ) (rest : Bytes)
    → y < 10000
    → m < 100
    → e + 1 < 100
    → day_number y m (e + 1) ≡ some days
    → read_date (two (y / 100) (two (y % 100) (b'-' ∷ two m (b'-' ∷ two (e + 1) rest))))
      ≡ some (days, rest)
unfolding read_date
read_date-two y m e days rest hy hm he found =
    rw
      (
        read_two-two (y / 100) (two (y % 100) (b'-' ∷ two m (b'-' ∷ two (e + 1) rest)))
            (omega arith),
        read_two-two (y % 100) (b'-' ∷ two m (b'-' ∷ two (e + 1) rest)) (omega arith),
        read_two-two m (b'-' ∷ two (e + 1) rest) hm,
        read_two-two (e + 1) rest he,
        hundreds y,
        found,
      )
      refl

-- The date of a day before the year 10000 has that day's number.
day_number-date :
    (days : ℕ)
    → days < 3652059
    → let y = (year_of days).0 in
      let d = (year_of days).1 in day_number y (month_of y d).0 ((month_of y d).1 + 1) ≡ some days
day_number-date days h =
    let y = (year_of days).0 in
    let d = (year_of days).1 in
    let (k, hy, hk) = year_of-total days in
    let (j, hm, hj) = month_of-total y d in
    day_number-some y (month_of y d).0 (month_of y d).1 k j d days hy hk hm hj (month_of-le y d)
      (month_of-in y d (year_of-lt days h))

read_date-date_text :
    (days : ℕ) (rest : Bytes) → days < 3652059 → read_date (date_text days rest) ≡ some (days, rest)
unfolding date_text year_month_day month_day
read_date-date_text days rest h =
    let y = (year_of days).0 in
    let d = (year_of days).1 in
    read_date-two y (month_of y d).0 (month_of y d).1 days rest (omega (arith, year_of-le days))
      (omega (arith, month_of-le y d)) (omega (arith, month_of-lt y d (year_of-lt days h)))
      (day_number-date days h)

parse-parts :
    (s s₂ s₃ : Bytes) (days secs nanos : ℕ)
    → read_date s ≡ some (days, b'T' ∷ s₂)
    → read_time s₂ ≡ some (secs, s₃)
    → read_point s₃ ≡ some (nanos, b'Z' ∷ [])
    → parse s ≡ some ((days * 86400 + secs) * second + nanos)
unfolding parse
parse-parts s s₂ s₃ days secs nanos hd ht hp = rw (hd, ht, hp) refl

format-parts :
    (t : Instant)
    → format t
      ≡ date_text
          (t / second / 86400)
          (b'T' ∷ time_text (t / second % 86400) (point (t % second) (b'Z' ∷ [])))
unfolding format clock_text
format-parts t = refl

parts_sum :
    (t : Instant) → (t / second / 86400 * 86400 + t / second % 86400) * second + t % second ≡ t
parts_sum t = omega arith

-- An instant before the year 10000 is read back from the text that `Format` makes of it.
pub parse-format : (t : Instant) → t < end_of_years → parse (format t) ≡ some t
parse-format t h =
    let frac = point (t % second) (b'Z' ∷ []) in
    let clock = time_text (t / second % 86400) frac in
    ap parse (format-parts t)
    ∙ (parse-parts (date_text (t / second / 86400) (b'T' ∷ clock)) clock frac (t / second / 86400)
          (t / second % 86400) (t % second)
          (read_date-date_text (t / second / 86400) (b'T' ∷ clock) (omega arith))
          (read_time-time_text (t / second % 86400) frac (omega arith))
          (read_point-point (t % second) (omega arith))
        ∙ ap some (parts_sum t))
