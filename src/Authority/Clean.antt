-- ===== src/Authority/Clean.antt =====
-- Actions that leave the database and the messages as they were when they stop early.
use kc_jit_public.Base.{String, ◌≡◌, refl, ◌∙◌, Bool, true, false, Result, ok, err, if◌then◌else◌}
use kc_jit_public.Store.{Db, Fault}
use kc_jit_public.World.{
  Env, World, Act, time_now, query, in_group, add_to_group, remove_from_group,
}
use kc_jit_public.World.Try.{
  Step, stop, next, Try, continue, ◌>>=◌, lift, yield_value, fail, stop_if, or_stop,
}
use kc_jit_public.Auth.{Headers}
use kc_jit_public.Api.{Service, new_id, actor_of}

-- The tables and the messages are the same.
abbrev pub Unchanged : {K : Type 0} → World K → World K → Type 0
Unchanged w w' = (w'.db ≡ w.db) × (w'.posts ≡ w.posts)

-- It has stopped with a response of a certain kind.
abbrev pub StopsAt : {E A : Type 0} → (E → Type 0) → Step E A → Type 0
StopsAt P (stop e) = P e
StopsAt P (next a) = ⊥

-- The action changes nothing, however it ends.
pub record Quiet {ℓ} {K : Type 0} {A : Type ℓ} (m : Act K A) : Type 0 where
  pub at : (w : World K) → Unchanged w (m w).1

-- The action changes nothing when it stops with a response of the kind.
pub record Clean {K E A : Type 0} (P : E → Type 0) (m : Try K E A) : Type 0 where
  pub at : (w : World K) → StopsAt P (m w).0 → Unchanged w (m w).1

-- The action does not stop with a response of the kind.
pub record Passes {K E A : Type 0} (P : E → Type 0) (m : Try K E A) : Type 0 where
  pub at : (w : World K) → StopsAt P (m w).0 → ⊥

module _ {K E A : Type 0} where
  pub Quiet-lift : (m : Act K A) → Quiet m → Quiet (lift {E = E} m)
  unfolding lift
  Quiet-lift m q = record { at = q.at }

  pub Quiet-yield : (a : A) → Quiet (yield_value {K = K} {E = E} a)
  unfolding yield_value
  Quiet-yield a = record { at = λ w. (refl, refl) }

  pub Quiet-or_stop : (f : String → E) (r : Result A) → Quiet (or_stop {K = K} f r)
  unfolding or_stop
  Quiet-or_stop f (ok a) = record { at = λ w. (refl, refl) }
  Quiet-or_stop f (err m) = record { at = λ w. (refl, refl) }

pub Quiet-stop_if : {K E : Type 0} (b : Bool) (e : E) → Quiet (stop_if {K = K} b e)
unfolding stop_if
Quiet-stop_if true e = record { at = λ w. (refl, refl) }
Quiet-stop_if false e = record { at = λ w. (refl, refl) }

pub Quiet-if :
    {K A : Type 0} (b : Bool) (m n : Act K A) → Quiet m → Quiet n → Quiet (if b then m else n)
Quiet-if true m n qm qn = qm
Quiet-if false m n qm qn = qn

module _ {K E A B : Type 0} where
  Quiet-continue :
      (f : A → Try K E B) (s : Step E A) → ((a : A) → Quiet (f a)) → Quiet (continue f s)
  unfolding continue
  Quiet-continue f (stop e) k = record { at = λ w. (refl, refl) }
  Quiet-continue f (next a) k = record { at = (k a).at }

  pub Quiet-bind :
      (m : Try K E A) (f : A → Try K E B) → Quiet m → ((a : A) → Quiet (f a)) → Quiet (m >>= f)
  unfolding ◌>>=◌
  Quiet-bind m f q k = record {
    at = λ w.
        let (d, p) = q.at w in
        let (d', p') = (Quiet-continue f (m w).0 k).at (m w).1 in (d' ∙ d, p' ∙ p);
  }

module _ {K : Type 0} (env : Env K) where
  pub Quiet-time_now : Quiet (time_now env)
  unfolding time_now
  Quiet-time_now = record { at = λ w. (refl, refl) }

  pub Quiet-new_id : Quiet (new_id env)
  unfolding new_id
  Quiet-new_id = record { at = λ w. (refl, refl) }

  pub Quiet-query : {A : Type 0} (f : Fault → Db → A) → Quiet (query env f)
  unfolding query
  Quiet-query f = record { at = λ w. (refl, refl) }

  pub Quiet-in_group : (user group : String) → Quiet (in_group env user group)
  unfolding in_group
  Quiet-in_group user group = record { at = λ w. (refl, refl) }

  pub Quiet-add_to_group : (user group : String) → Quiet (add_to_group env user group)
  unfolding add_to_group
  Quiet-add_to_group user group = record { at = λ w. (refl, refl) }

  pub Quiet-remove_from_group : (user group : String) → Quiet (remove_from_group env user group)
  unfolding remove_from_group
  Quiet-remove_from_group user group = record { at = λ w. (refl, refl) }

  pub Quiet-actor_of : (svc : Service) (h : Headers) → Quiet (actor_of env svc h)
  unfolding actor_of
  Quiet-actor_of svc h = record { at = λ w. (refl, refl) }

pub ruleset quiet_rules = (
  Quiet-lift, Quiet-yield, Quiet-or_stop, Quiet-stop_if, Quiet-if, Quiet-bind, Quiet-time_now,
  Quiet-new_id, Quiet-query, Quiet-in_group, Quiet-add_to_group, Quiet-remove_from_group,
  Quiet-actor_of,
)

module _ {K E : Type 0} (P : E → Type 0) where
  pub Clean-if :
      {A : Type 0} (b : Bool) (m n : Try K E A)
      → Clean P m
      → Clean P n
      → Clean P (if b then m else n)
  Clean-if true m n cm cn = cm
  Clean-if false m n cm cn = cn

  pub Clean-Quiet : {A : Type 0} (m : Try K E A) → Quiet m → Clean P m
  Clean-Quiet m q = record { at = λ w s. q.at w }

  pub Clean-Passes : {A : Type 0} (m : Try K E A) → Passes P m → Clean P m
  Clean-Passes m p = record { at = λ w s. absurd (p.at w s) }

  pub Passes-lift : {A : Type 0} (m : Act K A) → Passes P (lift {E = E} m)
  unfolding lift
  Passes-lift m = record { at = λ w s. s }

  pub Passes-yield : {A : Type 0} (a : A) → Passes P (yield_value {K = K} {E = E} a)
  unfolding yield_value
  Passes-yield a = record { at = λ w s. s }

  -- An answer without an error.
  pub Passes-or_stop : {A : Type 0} (f : String → E) (a : A) → Passes P (or_stop {K = K} f (ok a))
  unfolding or_stop
  Passes-or_stop f a = record { at = λ w s. s }

  pub Passes-fail : {A : Type 0} (e : E) → (P e → ⊥) → Passes P (fail {K = K} {A = A} e)
  unfolding fail
  Passes-fail e never = record { at = λ w s. never s }

  module _ {A B : Type 0} where
    Passes-continue :
        (f : A → Try K E B) (s : Step E A)
        → (StopsAt P s → ⊥)
        → ((a : A) → Passes P (f a))
        → Passes P (continue f s)
    unfolding continue
    Passes-continue f (stop e) never k = record { at = λ w s. never s }
    Passes-continue f (next a) never k = record { at = (k a).at }

    pub Passes-bind :
        (m : Try K E A) (f : A → Try K E B)
        → Passes P m
        → ((a : A) → Passes P (f a))
        → Passes P (m >>= f)
    unfolding ◌>>=◌
    Passes-bind m f p k = record { at = λ w. (Passes-continue f (m w).0 (p.at w) k).at (m w).1 }

    Clean-continue :
        (f : A → Try K E B) (s : Step E A) → ((a : A) → Clean P (f a)) → Clean P (continue f s)
    unfolding continue
    Clean-continue f (stop e) k = record { at = λ w s. (refl, refl) }
    Clean-continue f (next a) k = record { at = (k a).at }

    pub Clean-bind :
        (m : Try K E A) (f : A → Try K E B)
        → Quiet m
        → ((a : A) → Clean P (f a))
        → Clean P (m >>= f)
    unfolding ◌>>=◌
    Clean-bind m f q k = record {
      at = λ w s.
          let (d, p) = q.at w in
          let (d', p') = (Clean-continue f (m w).0 k).at (m w).1 s in (d' ∙ d, p' ∙ p);
    }

pub ruleset passes_rules = (Passes-lift, Passes-yield, Passes-or_stop, Passes-bind)
