-- ===== src/Time/Format/Fields.antt =====
-- The order of the parts of a formatted instant, as texts: a later field comes later.
use kc_jit_public.Base.{
  ℕ, ◌+◌, ◌*◌, ◌/◌, ◌%◌, ◌≤◌, ◌<◌, ◌≡◌, refl, inl, inr, true, false, ◌∷◌, arith,
}
use kc_jit_public.Time.Calendar.{days_in_year, days_in_month, total, year_of, month_of}
use kc_jit_public.Time.Calendar.Order.{Before, spend-le, spend-Before, spend-lt}
use kc_jit_public.Time.Format.{
  Bytes, text_le, two, month_day, year_month_day, date_text, time_text, clock_text,
}

-- Strictly before, in the order of texts.
abbrev pub TextLt : Bytes → Bytes → Type 0
TextLt s t = (text_le s t ≡ true) × (text_le t s ≡ false)

cons-TextLt : (c : ℕ) (s t : Bytes) → TextLt s t → TextLt (c ∷ s) (c ∷ t)
unfolding text_le
cons-TextLt c s t h = ground arith

two-TextLt_same : (a : ℕ) (s t : Bytes) → TextLt s t → TextLt (two a s) (two a t)
unfolding two
two-TextLt_same a s t h = cons-TextLt _ _ _ (cons-TextLt _ s t h)

two-TextLt : (a b : ℕ) (s t : Bytes) → a < b → b < 100 → TextLt (two a s) (two b t)
unfolding two text_le
two-TextLt a b s t h k = ground arith

-- The quotients decide the order of two numbers, or the remainders do.
split_100 : (a b : ℕ) → a < b → Before (a / 100, a % 100) (b / 100, b % 100)
split_100 a b h = ground arith

split_hour : (a b : ℕ) → a < b → Before (a / 3600, a % 3600) (b / 3600, b % 3600)
split_hour a b h = ground arith

split_minute : (a b : ℕ) → a < b → Before (a / 60, a % 60) (b / 60, b % 60)
split_minute a b h = ground arith

split_day : (a b : ℕ) → a < b → Before (a / 86400, a % 86400) (b / 86400, b % 86400)
split_day a b h = ground arith

-- Two numbers of two digits, one after the other, with a fixed byte or none between them.
two-two-TextLt :
    (a b c d : ℕ) (s t : Bytes)
    → Before (a, b) (c, d)
    → c < 100
    → d < 100
    → TextLt (two a (two b s)) (two c (two d t))
two-two-TextLt a b c d s t (inl h) k l = two-TextLt a c _ _ h k
two-two-TextLt a b c d s t (inr (same, h)) k l =
    rw same (two-TextLt_same c _ _ (two-TextLt b d s t h l))

month_day-TextLt :
    (p q : ℕ × ℕ) (s t : Bytes)
    → Before p q
    → q.0 < 100
    → q.1 < 99
    → TextLt (month_day p s) (month_day q t)
unfolding month_day
month_day-TextLt (m, d) (n, e) s t (inl h) k l = two-TextLt m n _ _ h k
month_day-TextLt (m, d) (n, e) s t (inr (same, h)) k l = rw same (
    two-TextLt_same n _ _
      (cons-TextLt _ _ _ (two-TextLt (d + 1) (e + 1) s t (omega arith) (omega arith))))

months_fill_year : (y : ℕ) → total (days_in_month y) 12 1 ≡ days_in_year y
unfolding total days_in_month days_in_year
months_fill_year y = ground arith

years_fill : total days_in_year 9999 1 ≡ 3652059
unfolding total days_in_year
years_fill = refl

pub year_of-lt : (d : ℕ) → d < 3652059 → (year_of d).1 < days_in_year (year_of d).0
unfolding year_of
year_of-lt d h = spend-lt days_in_year 9998 1 d (rw years_fill h)

pub year_of-le : (d : ℕ) → (year_of d).0 ≤ 9999
unfolding year_of
year_of-le d = spend-le days_in_year 9998 1 d

year_of-Before : (d e : ℕ) → d < e → Before (year_of d) (year_of e)
unfolding year_of
year_of-Before = spend-Before days_in_year 9998 1

pub month_of-le : (y d : ℕ) → (month_of y d).0 ≤ 12
unfolding month_of
month_of-le y d = spend-le (days_in_month y) 11 1 d

days_in_month-le : (y m : ℕ) → days_in_month y m ≤ 31
unfolding days_in_month
days_in_month-le y m = ground arith

pub month_of-in :
    (y d : ℕ) → d < days_in_year y → (month_of y d).1 < days_in_month y (month_of y d).0
unfolding month_of
month_of-in y d h = spend-lt (days_in_month y) 11 1 d (rw (months_fill_year y) h)

pub month_of-lt : (y d : ℕ) → d < days_in_year y → (month_of y d).1 < 31
unfolding month_of
month_of-lt y d h = omega (
  arith,
  days_in_month-le y (month_of y d).0,
  spend-lt (days_in_month y) 11 1 d (rw (months_fill_year y) h),
)

month_of-Before : (y d e : ℕ) → d < e → Before (month_of y d) (month_of y e)
unfolding month_of
month_of-Before y = spend-Before (days_in_month y) 11 1

year_month_day-TextLt :
    (p q : ℕ × ℕ) (s t : Bytes)
    → Before p q
    → q.0 ≤ 9999
    → q.1 < days_in_year q.0
    → TextLt (year_month_day p s) (year_month_day q t)
unfolding year_month_day
year_month_day-TextLt (y, d) (z, e) s t (inl h) k l =
    two-two-TextLt _ _ _ _ _ _ (split_100 y z h) (omega arith) (omega arith)
year_month_day-TextLt (y, d) (z, e) s t (inr (same, h)) k l = rw same (
    two-TextLt_same _ _ _ (
      two-TextLt_same _ _ _ (
        cons-TextLt _ _ _ (
          month_day-TextLt (month_of z d) (month_of z e) s t (month_of-Before z d e h)
            (omega (arith, month_of-le z e)) (omega (arith, month_of-lt z e l))))))

date_text-TextLt :
    (d e : ℕ) (s t : Bytes) → d < e → e < 3652059 → TextLt (date_text d s) (date_text e t)
unfolding date_text
date_text-TextLt d e s t h k =
    year_month_day-TextLt (year_of d) (year_of e) s t (year_of-Before d e h) (year_of-le e)
      (year_of-lt e k)

month_day-TextLt_same :
    (p : ℕ × ℕ) (s t : Bytes) → TextLt s t → TextLt (month_day p s) (month_day p t)
unfolding month_day
month_day-TextLt_same (m, d) s t h =
    two-TextLt_same m _ _ (cons-TextLt _ _ _ (two-TextLt_same (d + 1) s t h))

date_text-TextLt_same : (d : ℕ) (s t : Bytes) → TextLt s t → TextLt (date_text d s) (date_text d t)
unfolding date_text year_month_day
date_text-TextLt_same d s t h =
    let (y, e) = year_of d in
    two-TextLt_same _ _ _
      (two-TextLt_same _ _ _ (cons-TextLt _ _ _ (month_day-TextLt_same (month_of y e) s t h)))

minute_TextLt :
    (a b : ℕ) (s t : Bytes)
    → Before (a / 60, a % 60) (b / 60, b % 60)
    → b < 3600
    → TextLt (two (a / 60) (b':' ∷ two (a % 60) s)) (two (b / 60) (b':' ∷ two (b % 60) t))
minute_TextLt a b s t (inl h) k = two-TextLt _ _ _ _ h (omega arith)
minute_TextLt a b s t (inr (same, h)) k =
    rw same (two-TextLt_same _ _ _ (cons-TextLt _ _ _ (two-TextLt _ _ s t h (omega arith))))

seconds_of_hour : (a : ℕ) → a % 60 ≡ a % 3600 % 60
seconds_of_hour a = omega arith

hour_TextLt :
    (a b : ℕ) (s t : Bytes)
    → Before (a / 3600, a % 3600) (b / 3600, b % 3600)
    → b < 86400
    → TextLt (time_text a s) (time_text b t)
unfolding time_text
hour_TextLt a b s t (inl h) k = two-TextLt _ _ _ _ h (omega arith)
hour_TextLt a b s t (inr (same, h)) k =
    rw (same, seconds_of_hour a, seconds_of_hour b)
      (two-TextLt_same _ _ _
        (cons-TextLt _ _ _ (minute_TextLt _ _ s t (split_minute _ _ h) (omega arith))))

time_text-TextLt :
    (a b : ℕ) (s t : Bytes) → a < b → b < 86400 → TextLt (time_text a s) (time_text b t)
time_text-TextLt a b s t h = hour_TextLt a b s t (split_hour a b h)

pub clock_text-TextLt :
    (a b : ℕ) (s t : Bytes) → a < b → b < 86400 * 3652059 → TextLt (clock_text a s) (clock_text b t)
unfolding clock_text
clock_text-TextLt a b s t h k = elim (split_day a b h) [
  | inl later ↦ date_text-TextLt _ _ _ _ later (omega arith)
  | inr (same, after) ↦ rw same (
      date_text-TextLt_same _ _ _
        (cons-TextLt _ _ _ (time_text-TextLt _ _ s t after (omega arith))))
]

time_text-TextLt_same : (a : ℕ) (s t : Bytes) → TextLt s t → TextLt (time_text a s) (time_text a t)
unfolding time_text
time_text-TextLt_same a s t h =
    two-TextLt_same _ _ _
      (cons-TextLt _ _ _ (two-TextLt_same _ _ _ (cons-TextLt _ _ _ (two-TextLt_same _ s t h))))

pub clock_text-TextLt_same :
    (a : ℕ) (s t : Bytes) → TextLt s t → TextLt (clock_text a s) (clock_text a t)
unfolding clock_text
clock_text-TextLt_same a s t h =
    date_text-TextLt_same _ _ _ (cons-TextLt _ _ _ (time_text-TextLt_same _ s t h))
