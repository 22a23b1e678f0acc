-- ===== src/World/Keeps.antt =====
-- Invariants of actions: rules for the ways to build an action.
use kc_jit_public.Base.{String, Bool, true, false, Result, ok, err, if◌then◌else◌}
use kc_jit_public.World.{World, Act}
use kc_jit_public.World.Try.{
  Step, stop, next, Try, continue, ◌>>=◌, lift, yield_value, fail, stop_if, or_stop,
}

-- The action keeps the condition, whether it goes on or stops.
pub record Keeps {K A : Type 0} (P : World K → Type 0) (m : Act K A) : Type 0 where
  pub at : (w : World K) → P w → P (m w).1

module _ {K E A : Type 0} (P : World K → Type 0) where
  pub Keeps-lift : (m : Act K A) → Keeps P m → Keeps P (lift {E = E} m)
  unfolding lift
  Keeps-lift m k = record { at = k.at }

  pub Keeps-yield : (a : A) → Keeps P (yield_value {K = K} {E = E} a)
  unfolding yield_value
  Keeps-yield a = record { at = λ w p. p }

  pub Keeps-fail : (e : E) → Keeps P (fail {K = K} {A = A} e)
  unfolding fail
  Keeps-fail e = record { at = λ w p. p }

  pub Keeps-or_stop : (f : String → E) (r : Result A) → Keeps P (or_stop {K = K} f r)
  unfolding or_stop
  Keeps-or_stop f (ok a) = record { at = λ w p. p }
  Keeps-or_stop f (err m) = record { at = λ w p. p }

pub Keeps-stop_if :
    {K E : Type 0} (P : World K → Type 0) (b : Bool) (e : E) → Keeps P (stop_if {K = K} b e)
unfolding stop_if
Keeps-stop_if P true e = record { at = λ w p. p }
Keeps-stop_if P false e = record { at = λ w p. p }

pub Keeps-if :
    {K A : Type 0} (P : World K → Type 0) (b : Bool) (m n : Act K A)
    → Keeps P m
    → Keeps P n
    → Keeps P (if b then m else n)
Keeps-if P true m n km kn = km
Keeps-if P false m n km kn = kn

module _ {K E A B : Type 0} (P : World K → Type 0) where
  Keeps-continue :
      (f : A → Try K E B) (s : Step E A) → ((a : A) → Keeps P (f a)) → Keeps P (continue f s)
  unfolding continue
  Keeps-continue f (stop e) k = record { at = λ w p. p }
  Keeps-continue f (next a) k = record { at = (k a).at }

  pub Keeps-bind :
      (m : Try K E A) (f : A → Try K E B)
      → Keeps P m
      → ((a : A) → Keeps P (f a))
      → Keeps P (m >>= f)
  unfolding ◌>>=◌
  Keeps-bind m f km k = record { at = λ w p. (Keeps-continue f (m w).0 k).at (m w).1 (km.at w p) }

pub ruleset keeps_rules =
    (Keeps-lift, Keeps-yield, Keeps-fail, Keeps-or_stop, Keeps-stop_if, Keeps-if, Keeps-bind)
