-- ===== src/Text/Atoi.antt =====
-- `strconv.Atoi` on a 64-bit machine.
use Prim.Native.Char.{code}
use kc_jit_public.Base.{
  ℕ, ◌+◌, ◌-◌, ◌*◌, String, ◌&&◌, Option, none, some, ltb, leb, eqb, if◌then◌else◌,
}
use kc_jit_public.Base.Int.{ℤ, pos, negsuc}

-- The digits after a number already read.
unfoldable pub digits : ℕ → String → Option ℕ
digits n String.[] = some n
digits n (String.◌∷◌ c s) =
    let rest = digits (n * 10 + (code c - b'0')) s in
    if leb b'0' (code c) && leb (code c) b'9' then rest else none

abbrev some_digits : String → Option ℕ
some_digits String.[] = none
some_digits (String.◌∷◌ c s) = digits 0 (String.◌∷◌ c s)

-- A number that no `int` holds is an error.
abbrev positive : Option ℕ → Option ℤ
positive none = none
positive (some n) = if ltb n 9223372036854775808 then some (pos n) else none

abbrev negative : Option ℕ → Option ℤ
negative none = none
negative (some n) =
    if eqb n 0
    then some (pos 0)
    else if leb n 9223372036854775808
    then some (negsuc (n - 1))
    else none

unfoldable pub atoi : String → Option ℤ
unfolding digits
atoi String.[] = none
atoi (String.◌∷◌ c s) =
    if eqb (code c) b'-'
    then negative (some_digits s)
    else if eqb (code c) b'+'
    then positive (some_digits s)
    else positive (some_digits (String.◌∷◌ c s))
