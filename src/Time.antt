-- ===== src/Time.antt =====
-- Go's `time.Time` in UTC: an instant is the number of nanoseconds since the zero time,
-- 0001-01-01T00:00:00Z. `time.Duration` is a signed number of nanoseconds.
pub mod Calendar
pub mod Format
pub mod Parse
use kc_jit_public.Base.{ℕ, suc, ◌+◌, ◌-◌, ◌*◌}
use kc_jit_public.Base.Int.{ℤ, pos, negsuc}

abbrev pub Instant : Type 0
Instant = ℕ

abbrev pub Duration : Type 0
Duration = ℤ

abbrev pub second : ℕ
second = 1000000000

abbrev pub minute : ℕ
minute = 60 * second

abbrev pub hour : ℕ
hour = 60 * minute

-- `t.Add(d)`, for results that are not before the zero time.
abbrev pub add : Instant → Duration → Instant
add t (pos d) = t + d
add t (negsuc d) = t - suc d
