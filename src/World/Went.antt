-- ===== src/World/Went.antt =====
-- Inversion: what an action that went on to its end has done on its way.
use kc_jit_public.Base.{String, ◌≡◌, refl, Bool, true, false, Result, ok, err, if◌then◌else◌}
use kc_jit_public.World.{World, Act}
use kc_jit_public.World.Try.{
  Step, stop, next, Try, continue, ◌>>=◌, ◌>>◌, lift, yield_value, fail, stop_if, or_stop,
}

-- `m` went on with the value and left the world.
abbrev pub Went : {K E A : Type 0} → Try K E A → World K → A → World K → Type 0
Went {K} {E} {A} m w a w' = ◌≡◌ {A = Step E A × World K} (m w) (next a, w')

module _ {K E A B : Type 0} where
  Went-continue :
      (f : A → Try K E B) (s : Step E A) {w w' : World K} {b : B}
      → Went (continue f s) w b w'
      → (a : A) × (s ≡ next a) × Went (f a) w b w'
  unfolding continue
  Went-continue f (stop e) h = cc
  Went-continue f (next a) h = (a, refl, h)

  -- Both parts of a sequence went on.
  pub Went-bind :
      (m : Try K E A) (f : A → Try K E B) {w w' : World K} {b : B}
      → Went (m >>= f) w b w'
      → (a : A) × ((m w).0 ≡ next a) × Went (f a) (m w).1 b w'
  unfolding ◌>>=◌
  Went-bind m f {w} h = Went-continue f (m w).0 h

  pub Went-lift :
      (m : Act K A) (f : A → Try K E B) {w w' : World K} {b : B}
      → Went (lift {E = E} m >>= f) w b w'
      → Went (f (m w).0) (m w).1 b w'
  unfolding ◌>>=◌ continue lift
  Went-lift m f h = h

  pub Went-or_stop :
      (e : String → E) (r : Result A) (f : A → Try K E B) {w w' : World K} {b : B}
      → Went (or_stop e r >>= f) w b w'
      → (a : A) × (r ≡ ok a) × Went (f a) w b w'
  unfolding ◌>>=◌ continue or_stop
  Went-or_stop e (ok a) f h = (a, refl, h)
  Went-or_stop e (err m) f h = cc

module _ {K E B : Type 0} where
  pub Went-stop_if :
      (b : Bool) (e : E) (n : Try K E B) {w w' : World K} {v : B}
      → Went (stop_if b e >> n) w v w'
      → (b ≡ false) × Went n w v w'
  unfolding ◌>>=◌ continue stop_if
  Went-stop_if true e n h = cc
  Went-stop_if false e n h = (refl, h)

  pub Went-if :
      (b : Bool) (m n : Try K E B) {w w' : World K} {v : B}
      → ((v : B) (w' : World K) → ¬ Went m w v w')
      → Went (if b then m else n) w v w'
      → (b ≡ false) × Went n w v w'
  Went-if true m n {w' = w'} {v = v} never h = absurd (never v w' h)
  Went-if false m n never h = (refl, h)

  pub Went-yield :
      (b : B) {w w' : World K} {v : B} → Went {E = E} (yield_value b) w v w' → (b ≡ v) × (w ≡ w')
  unfolding yield_value
  Went-yield b h = (cc, cc)

  pub not-Went-fail : (e : E) (w w' : World K) (v : B) → ¬ Went (fail {K = K} {A = B} e) w v w'
  unfolding fail
  not-Went-fail e w w' v h = cc
