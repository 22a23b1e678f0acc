-- ===== src/Time/Format.antt =====
-- `t.UTC().Format(time.RFC3339Nano)`, as the bytes of the text, and SQLite's order of such texts.
pub mod Fields
pub mod Order
use kc_jit_public.Base.{
  ℕ, zero, suc, ◌+◌, ◌*◌, ◌/◌, ◌%◌, Bool, true, false, List, [], ◌∷◌, ltb, eqb, if◌then◌else◌,
}
use kc_jit_public.Time.{second, Instant}
use kc_jit_public.Time.Calendar.{year_of, month_of}

abbrev pub Bytes : Type 0
Bytes = List ℕ

-- The order of SQLite's texts, byte by byte (collation BINARY).
unfoldable pub text_le : Bytes → Bytes → Bool
text_le [] t = true
text_le (c ∷ s) [] = false
text_le (c ∷ s) (d ∷ t) = if ltb c d then true else if ltb d c then false else text_le s t

-- Each printer puts its digits before a given rest.
unfoldable pub two : ℕ → Bytes → Bytes
two n rest = (b'0' + n / 10) ∷ (b'0' + n % 10) ∷ rest

abbrev pub pow10 : ℕ → ℕ
pow10 zero = 1
pow10 (suc k) = 10 * pow10 k

-- A fraction of `k` digits without its trailing zeros.
unfoldable pub fraction : ℕ → ℕ → Bytes → Bytes
fraction zero n rest = rest
fraction (suc k) n rest =
    let later = fraction k (n % pow10 k) rest in
    if eqb n 0 then rest else (b'0' + n / pow10 k) ∷ later

-- The fraction of a second: nothing if it is 0.
unfoldable pub point : ℕ → Bytes → Bytes
unfolding fraction
point n rest = if eqb n 0 then rest else b'.' ∷ fraction 9 n rest

unfoldable pub month_day : ℕ × ℕ → Bytes → Bytes
unfolding two
month_day (m, d) rest = two m (b'-' ∷ two (d + 1) rest)

unfoldable pub year_month_day : ℕ × ℕ → Bytes → Bytes
unfolding two month_day
year_month_day (y, d) rest = two (y / 100) (two (y % 100) (b'-' ∷ month_day (month_of y d) rest))

-- `2006-01-02` of a day number.
unfoldable pub date_text : ℕ → Bytes → Bytes
unfolding year_month_day
date_text days rest = year_month_day (year_of days) rest

-- `15:04:05` of a number of seconds since midnight.
unfoldable pub time_text : ℕ → Bytes → Bytes
unfolding two
time_text s rest = two (s / 3600) (b':' ∷ two (s % 3600 / 60) (b':' ∷ two (s % 60) rest))

-- `2006-01-02T15:04:05` of a number of seconds.
unfoldable pub clock_text : ℕ → Bytes → Bytes
unfolding date_text time_text
clock_text s rest = date_text (s / 86400) (b'T' ∷ time_text (s % 86400) rest)

unfoldable pub format : Instant → Bytes
unfolding clock_text point
format t = clock_text (t / second) (point (t % second) (b'Z' ∷ []))
