-- ===== src/Authority/Refusals.antt =====
-- The responses that a handler stops with are errors: their codes are 400 or more.
use kc_jit_public.Base.{
  ℕ, ◌≤◌, String, ◌≡◌, refl, ap, Bool, true, false, Result, ok, err, arith, leb, if◌then◌else◌,
}
use kc_jit_public.World.{World, Act}
use kc_jit_public.World.Try.{
  Step, stop, next, continue, ◌>>=◌, lift, yield_value, fail, stop_if, or_stop,
}
use kc_jit_public.World.Went.{Went}
use kc_jit_public.Api.{Response, Body, write_err, Handler, respond, answer}

abbrev pub IsRefusal : {A : Type 0} → Step Response A → Type 0
IsRefusal (stop r) = 400 ≤ r.code
IsRefusal (next a) = Unit

pub record Refuses {K A : Type 0} (m : Handler K A) : Type 0 where
  pub at : (w : World K) → IsRefusal (m w).0

module _ {K A : Type 0} where
  pub Refuses-lift : (m : Act K A) → Refuses (lift {E = Response} m)
  unfolding lift
  Refuses-lift m = record { at = λ w. tt }

  pub Refuses-yield : (a : A) → Refuses (yield_value {K = K} a)
  unfolding yield_value
  Refuses-yield a = record { at = λ w. tt }

  pub Refuses-fail :
      (code : ℕ) (m : String)
      → leb 400 code ≡ true
      → Refuses (fail {K = K} {A = A} (write_err code m))
  unfolding fail
  Refuses-fail code m h = record { at = λ w. ground arith }

  pub Refuses-or_stop :
      (code : ℕ) (r : Result A) → leb 400 code ≡ true → Refuses (or_stop {K = K} (write_err code) r)
  unfolding or_stop
  Refuses-or_stop code (ok a) h = record { at = λ w. tt }
  Refuses-or_stop code (err m) h = record { at = λ w. ground arith }

  pub Refuses-if :
      (b : Bool) (m n : Handler K A) → Refuses m → Refuses n → Refuses (if b then m else n)
  Refuses-if true m n hm hn = hm
  Refuses-if false m n hm hn = hn

pub Refuses-stop_if :
    {K : Type 0} (b : Bool) (code : ℕ) (m : String)
    → leb 400 code ≡ true
    → Refuses (stop_if {K = K} b (write_err code m))
unfolding stop_if
Refuses-stop_if true code m h = record { at = λ w. ground arith }
Refuses-stop_if false code m h = record { at = λ w. tt }

module _ {K A B : Type 0} where
  Refuses-continue :
      (f : A → Handler K B) (s : Step Response A) (w : World K)
      → IsRefusal s
      → ((a : A) → Refuses (f a))
      → IsRefusal (continue f s w).0
  unfolding continue
  Refuses-continue f (stop r) w h k = h
  Refuses-continue f (next a) w h k = (k a).at w

  pub Refuses-bind :
      (m : Handler K A) (f : A → Handler K B)
      → Refuses m
      → ((a : A) → Refuses (f a))
      → Refuses (m >>= f)
  unfolding ◌>>=◌
  Refuses-bind m f h k = record { at = λ w. Refuses-continue f (m w).0 (m w).1 (h.at w) k }

module _ {A : Type 0} (f : A → Body) where
  Went-of_step :
      (code : ℕ) (s : Step Response A)
      → IsRefusal s
      → leb 400 code ≡ false
      → (respond code f s).code ≡ code
      → (a : A) × (s ≡ next a)
  Went-of_step code (stop r) h low e = absurd (ground arith)
  Went-of_step code (next a) h low e = (a, refl)

  -- An answer with the code of success is that of a handler that went on to its end.
  pub Went-of_answer :
      {K : Type 0} (code : ℕ) (m : Handler K A)
      → Refuses m
      → leb 400 code ≡ false
      → (w : World K) → (answer code f m w).0.code ≡ code
      → (a : A) × Went m w a (answer code f m w).1
  Went-of_answer code m h low w e =
      let (a, here) = Went-of_step code (m w).0 (h.at w) low e in (a, ap (λ s. (s, (m w).1)) here)

pub ruleset refuses_rules = (
  Refuses-lift, Refuses-yield, Refuses-fail, Refuses-or_stop, Refuses-if, Refuses-stop_if,
  Refuses-bind,
)
