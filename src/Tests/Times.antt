-- ===== src/Tests/Times.antt =====
-- Instants and texts of 2026-01-02.
use kc_jit_public.Base.{◌≡◌, some, ◌+◌, ◌*◌, arith}
use kc_jit_public.Time.{second, Instant}
use kc_jit_public.Time.Format.{format}
use kc_jit_public.Time.Parse.{parse}
use kc_jit_public.Time.Parse.RoundTrip.{parse-format}
use kc_jit_public.Time.Format.Fields.{TextLt}
use kc_jit_public.Time.Format.Order.{format-TextLt, format_fraction_first}
use kc_jit_public.Tests.Setup.{start}

abbrev later : Instant
later = start + 90 * second + 250000000

format-TextLt_example : TextLt (format start) (format later)
format-TextLt_example = format-TextLt start later (omega arith) (omega arith)

format_fraction_first_example :
    TextLt (format (63902908800 * second + 250000000)) (format (63902908800 * second))
format_fraction_first_example =
    format_fraction_first 63902908800 250000000 (omega arith) (omega arith)

parse-format_example : parse (format later) ≡ some later
parse-format_example = parse-format later (omega arith)
