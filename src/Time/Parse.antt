-- ===== src/Time/Parse.antt =====
-- `time.Parse(time.RFC3339Nano, s)`, for the texts that `Format` makes of an instant in UTC: other
-- zones, a fraction of more than nine digits and the year 0 are refused here.
pub mod RoundTrip
use kc_jit_public.Base.{
  ℕ, zero, suc, ◌+◌, ◌-◌, ◌*◌, Bool, ◌&&◌, Option, none, some, [], ◌∷◌, ltb, leb, eqb,
  if◌then◌else◌,
}
use kc_jit_public.Time.{second, Instant}
use kc_jit_public.Time.Calendar.{days_in_year, days_in_month, total}
use kc_jit_public.Time.Format.{Bytes, pow10}

infixl 5 ◌>>=◌
abbrev pub ◌>>=◌ {ℓ κ} : {A : Type ℓ} {B : Type κ} → Option A → (A → Option B) → Option B
none >>= f = none
some a >>= f = f a

-- A reader takes a value off the front of a text.
abbrev pub Reader : Type 0 → Type 0
Reader A = Bytes → Option (A × Bytes)

abbrev pub is_digit : ℕ → Bool
is_digit c = leb b'0' c && leb c b'9'

unfoldable pub read_two : Reader ℕ
read_two (a ∷ b ∷ s) =
    if is_digit a && is_digit b then some ((a - b'0') * 10 + (b - b'0'), s) else none
read_two _ = none

unfoldable pub expect : ℕ → Bytes → Option Bytes
expect c [] = none
expect c (d ∷ s) = if eqb c d then some s else none

-- The digits of a fraction, at most `k` of them, as units of the last place.
unfoldable pub read_digits : ℕ → Bytes → ℕ × Bytes
read_digits zero s = (0, s)
read_digits (suc k) [] = (0, [])
read_digits (suc k) (c ∷ s) =
    let rest = read_digits k s in
    if is_digit c then ((c - b'0') * pow10 k + rest.0, rest.1) else (0, c ∷ s)

-- A point is followed by a digit; a text with no point has no fraction.
unfoldable pub read_point : Reader ℕ
unfolding read_digits
read_point (c ∷ d ∷ s) =
    if eqb c b'.'
    then (if is_digit d then some (read_digits 9 (d ∷ s)) else none)
    else some (0, c ∷ d ∷ s)
read_point s = some (0, s)

-- The day number of a date that the calendar has.
unfoldable pub day_number : ℕ → ℕ → ℕ → Option ℕ
unfolding total days_in_year days_in_month
day_number y m d =
    if leb 1 y && leb 1 m && leb m 12 && leb 1 d && leb d (days_in_month y m)
    then some (total days_in_year (y - 1) 1 + total (days_in_month y) (m - 1) 1 + (d - 1))
    else none

unfoldable pub read_date : Reader ℕ
unfolding read_two expect day_number
read_date s = do
  (c, s₁) ← read_two s
  (y, s₂) ← read_two s₁
  s₃ ← expect b'-' s₂
  (m, s₄) ← read_two s₃
  s₅ ← expect b'-' s₄
  (d, s₆) ← read_two s₅
  days ← day_number (c * 100 + y) m d
  some (days, s₆)

unfoldable pub read_time : Reader ℕ
unfolding read_two expect
read_time s = do
  (h, s₁) ← read_two s
  s₂ ← expect b':' s₁
  (m, s₃) ← read_two s₂
  s₄ ← expect b':' s₃
  (sec, s₅) ← read_two s₄
  if ltb h 24 && ltb m 60 && ltb sec 60 then some (h * 3600 + m * 60 + sec, s₅) else none

abbrev at_end : Instant → Bytes → Option Instant
at_end t [] = some t
at_end t (c ∷ s) = none

unfoldable pub parse : Bytes → Option Instant
unfolding read_date read_time read_point
parse s = do
  (days, s₁) ← read_date s
  s₂ ← expect b'T' s₁
  (secs, s₃) ← read_time s₂
  (nanos, s₄) ← read_point s₃
  s₅ ← expect b'Z' s₄
  at_end ((days * 86400 + secs) * second + nanos) s₅
