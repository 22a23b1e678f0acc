-- ===== src/Time/Format/Order.antt =====
-- SQLite's order of formatted instants against the order of the instants.
use kc_jit_public.Base.{ℕ, ◌+◌, ◌*◌, ◌/◌, ◌%◌, ◌≤◌, ◌<◌, ◌≡◌, true, false, [], ◌∷◌, arith}
use kc_jit_public.Time.{second, Instant}
use kc_jit_public.Time.Format.{text_le, point, format}
use kc_jit_public.Time.Format.Fields.{TextLt, clock_text-TextLt, clock_text-TextLt_same}

-- 10000-01-01T00:00:00Z, the first instant whose year has more than four digits.
abbrev pub end_of_years : Instant
end_of_years = 86400 * 3652059 * second

-- Of two instants before the year 10000, the one in the earlier second comes first as a text.
pub format-TextLt :
    (t u : Instant) → t / second < u / second → u < end_of_years → TextLt (format t) (format u)
unfolding format
format-TextLt t u h k = clock_text-TextLt (t / second) (u / second) _ _ h (omega arith)

-- A text that is not after another stands for an instant that is at most in the same second.
text_le-second :
    (t u : Instant)
    → t < end_of_years
    → text_le (format t) (format u) ≡ true
    → t / second ≤ u / second
text_le-second t u k h = ground (arith, λ (p : u / second < t / second). (format-TextLt u t p k).1)

-- A text that is after another stands for an instant that is at least in the same second.
pub not_text_le-second :
    (t u : Instant)
    → u < end_of_years
    → text_le (format t) (format u) ≡ false
    → u / second ≤ t / second
not_text_le-second t u k h =
    ground (arith, λ (p : t / second < u / second). (format-TextLt t u p k).0)

dot-TextLt_z : (n : ℕ) → 0 < n → TextLt (point n (b'Z' ∷ [])) (b'Z' ∷ [])
unfolding point text_le
dot-TextLt_z n h = ground arith

-- Within one second the order can turn round: an instant with a fraction comes before the whole
-- second that it follows.
pub format_fraction_first :
    (s n : ℕ) → 0 < n → n < second → TextLt (format (s * second + n)) (format (s * second))
unfolding format point
format_fraction_first s n h k =
    let whole : (s * second + n) / second ≡ s = omega arith in
    let part : (s * second + n) % second ≡ n = omega arith in
    let whole' : s * second / second ≡ s = omega arith in
    let part' : s * second % second ≡ 0 = omega arith in
    rw (whole, part, whole', part') (clock_text-TextLt_same s _ _ (dot-TextLt_z n h))
