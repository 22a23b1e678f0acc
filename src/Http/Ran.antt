-- ===== src/Http/Ran.antt =====
-- What a chain of calls has done when it ended without an error.
use kc_jit_public.Base.{
  ◌<◌, String, ◌≡◌, refl, sym, ap, ◌∙◌, inl, inr, Result, ok, err, leb, Bool-cases, arith,
}
use kc_jit_public.Http.{HttpAnswer, accept, Method, after, ◌>>=◌}

pub after_ran :
    {S A B : Type 0} (f : A → Method S B) (r : Result A) (s : S) {b : B}
    → (after f r s).0 ≡ ok b
    → (a : A) × (r ≡ ok a) × ((f a s).0 ≡ ok b)
after_ran f (ok a) s h = (a, refl, h)
after_ran f (err e) s h = absurd cc

-- The same for a chain whose first call is known to leave a certain state where it is answered.
pub bind_ran :
    {S A B : Type 0} (m : Method S A) (f : A → Method S B) (s s' : S) {b : B}
    → ((a : A) → (m s).0 ≡ ok a → (m s).1 ≡ s')
    → ((m >>= f) s).0 ≡ ok b
    → (a : A) × ((m s).0 ≡ ok a) × ((m >>= f) s ≡ f a s') × ((f a s').0 ≡ ok b)
bind_ran m f s s' left h =
    let (a, e, h') = after_ran f (m s).0 (m s).1 h in
    let here : (m >>= f) s ≡ f a s' = ap (λ r. after f r (m s).1) e ∙ ap (f a) (left a e) in
    (a, e, here, sym (ap (λ x. x.0) here) ∙ h)

-- What holds of the state, and is kept by what follows, holds after it.
pub after_keeps :
    {S A B : Type 0} (P : S → Type 0) (f : A → Method S B) (r : Result A) (s : S)
    → P s
    → ((a : A) → P (f a s).1)
    → P (after f r s).1
after_keeps P f (ok a) s h k = k a
after_keeps P f (err e) s h k = h

-- What follows leaves the state as it is.
pub after_same :
    {S A B : Type 0} (f : A → Method S B) (r : Result A) (s : S)
    → ((a : A) → (f a s).1 ≡ s)
    → (after f r s).1 ≡ s
after_same f r s = after_keeps (λ s'. s' ≡ s) f r s refl

-- A method that leaves what holds of the state as it is, however it ends.
pub record Preserves {S A : Type 0} (P : S → Type 0) (m : Method S A) : Type 0 where
  pub at : (s : S) → P s → P (m s).1

pub Preserves-bind :
    {S A B : Type 0} {P : S → Type 0} (m : Method S A) (f : A → Method S B)
    → Preserves P m
    → ((a : A) → Preserves P (f a))
    → Preserves P (m >>= f)
Preserves-bind {P = P} m f g k = record {
  at = λ s h. after_keeps P f (m s).0 (m s).1 (g.at s h) λ a. (k a).at (m s).1 (g.at s h);
}

pub accept-ok :
    (prefix : String) (a : HttpAnswer) {body : String}
    → accept prefix a ≡ ok body
    → (a.code < 300) × (a.body ≡ body)
accept-ok prefix a h = elim (Bool-cases (leb 300 a.code)) [
  | inl e ↦ let h' = rw e at h in absurd cc
  | inr e ↦ let h' = rw e at h in (ground arith, cc)
]

pub accept-success : (prefix : String) (a : HttpAnswer) → a.code < 300 → accept prefix a ≡ ok a.body
accept-success prefix a h = ground arith
