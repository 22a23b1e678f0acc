-- ===== src/World/Try.antt =====
-- Actions that may stop early: a handler that has written its response, or a function that has
-- returned an error.
use kc_jit_public.Base.{String, Bool, true, false, Result, ok, err}
use kc_jit_public.World.{Act}

pub data Step (E A : Type 0) : Type 0 where
  stop : E → Step E A
  next : A → Step E A

abbrev pub Try : Type 0 → Type 0 → Type 0 → Type 0
Try K E A = Act K (Step E A)

module _ {K E A B : Type 0} where
  unfoldable pub continue : (A → Try K E B) → Step E A → Try K E B
  continue f (stop e) w = (stop e, w)
  continue f (next a) w = f a w

  infixl 5 ◌>>=◌ ◌>>◌
  unfoldable pub ◌>>=◌ : Try K E A → (A → Try K E B) → Try K E B
  unfolding continue
  ◌>>=◌ m f w = continue f (m w).0 (m w).1

  abbrev pub ◌>>◌ : Try K E A → Try K E B → Try K E B
  m >> n = m >>= λ _. n

module _ {K E : Type 0} where
  -- A call whose answer is used, or ignored, without an early return.
  unfoldable pub lift : {A : Type 0} → Act K A → Try K E A
  lift m w = (next (m w).0, (m w).1)

  unfoldable pub yield_value : {A : Type 0} → A → Try K E A
  yield_value a w = (next a, w)

  unfoldable pub fail : {A : Type 0} → E → Try K E A
  fail e w = (stop e, w)

  -- `if b { …; return }`.
  unfoldable pub stop_if : Bool → E → Try K E (Unit {0})
  stop_if true e w = (stop e, w)
  stop_if false e w = (next tt, w)

  -- `if err != nil { …; return }`.
  unfoldable pub or_stop : {A : Type 0} → (String → E) → Result A → Try K E A
  or_stop f (ok a) w = (next a, w)
  or_stop f (err m) w = (stop (f m), w)
