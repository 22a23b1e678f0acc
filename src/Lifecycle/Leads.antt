-- ===== src/Lifecycle/Leads.antt =====
-- Rules for actions that change the table by steps, from tables that meet a condition.
use mathlib.Core.Path.{subst}
use kc_jit_public.Base.{
  ◌≡◌, refl, sym, ap, inl, inr, Bool, true, false, List, [], ◌∷◌, ◌++◌, none, some, Option-cases,
  if◌then◌else◌,
}
use kc_jit_public.Store.{Db, Fault, Row, Request}
use kc_jit_public.Store.Requests.{find, to_row, create, update, update_rows}
use kc_jit_public.World.{Env, World, Act, exec}
use kc_jit_public.World.Try.{
  Step, stop, next, Try, continue, ◌>>=◌, ◌>>◌, lift, yield_value, stop_if,
}
use kc_jit_public.Api.{Service}
use kc_jit_public.Lifecycle.{Change, Changes, none_made, and_then}
use kc_jit_public.Lifecycle.Rules.{rows_of, Same}

abbrev next_or : {E A : Type 0} → A → Step E A → A
next_or a (stop e) = a
next_or a (next b) = b

next-injective : {E A : Type 0} {a b : A} → ◌≡◌ {A = Step E A} (next a) (next b) → a ≡ b
next-injective {a} e = ap (next_or a) e

-- When the action goes on with a value, the value meets a condition.
pub record Passes {K E A : Type 0} (Q : A → Type 0) (m : Try K E A) : Type 0 where
  pub at : (w : World K) (a : A) → (m w).0 ≡ next a → Q a

module _ {K E B : Type 0} (Q : B → Type 0) where
  pub Passes-yield : (b : B) → Q b → Passes Q (yield_value {K = K} {E = E} b)
  unfolding yield_value
  Passes-yield b q = record { at = λ w c e. subst Q (next-injective e) q }

  pub Passes-stop_if :
      (b : Bool) (e : E) (n : Try K E B) → (b ≡ false → Passes Q n) → Passes Q (stop_if b e >> n)
  unfolding ◌>>=◌ continue stop_if
  Passes-stop_if true e n k = record { at = λ w c h. cc }
  Passes-stop_if false e n k = record { at = (k refl).at }

  module _ {A : Type 0} where
    Passes-continue :
        (f : A → Try K E B) (s : Step E A) → ((a : A) → Passes Q (f a)) → Passes Q (continue f s)
    unfolding continue
    Passes-continue f (stop e) k = record { at = λ w c h. cc }
    Passes-continue f (next a) k = record { at = (k a).at }

    pub Passes-bind :
        (m : Try K E A) (f : A → Try K E B) → ((a : A) → Passes Q (f a)) → Passes Q (m >>= f)
    unfolding ◌>>=◌
    Passes-bind m f k = record { at = λ w. (Passes-continue f (m w).0 k).at (m w).1 }

pub record Leads {K A : Type 0} (svc : Service) (P : List Row → Type 0) (m : Act K A) : Type 0 where
  pub at : (w : World K) → P (rows_of w) → Changes svc (rows_of w) (rows_of (m w).1)

-- A table that is the same is reached by no step.
pub no_change : (svc : Service) {rows rows' : List Row} → rows' ≡ rows → Changes svc rows rows'
no_change svc {rows} e = subst (Changes svc rows) (sym e) none_made

module _ {K : Type 0} (svc : Service) (P : List Row → Type 0) where
  pub Leads-Same : {A : Type 0} (m : Act K A) → Same m → Leads svc P m
  Leads-Same m s = record { at = λ w p. no_change svc (s.at w) }

  pub Leads-lift : {E A : Type 0} (m : Act K A) → Leads svc P m → Leads svc P (lift {E = E} m)
  unfolding lift
  Leads-lift m s = record { at = s.at }

  module _ {E A B : Type 0} where
    Leads-continue :
        (f : A → Try K E B) (s : Step E A)
        → ((a : A) → s ≡ next a → Leads svc P (f a))
        → Leads svc P (continue f s)
    unfolding continue
    Leads-continue f (stop e) k = record { at = λ w p. none_made }
    Leads-continue f (next a) k = record { at = (k a refl).at }

    pub Leads-bind-Same :
        (m : Try K E A) (f : A → Try K E B)
        → Same m
        → ((a : A) → Leads svc P (f a))
        → Leads svc P (m >>= f)
    unfolding ◌>>=◌
    Leads-bind-Same m f s k = record {
      at = λ w p.
          subst (λ rows. Changes svc rows (rows_of ((m >>= f) w).1)) (s.at w)
            ((Leads-continue f (m w).0 (λ a e. k a)).at (m w).1 (subst P (sym (s.at w)) p));
    }

    Same-continue_next :
        (f : A → Try K E B) (s : Step E A) → ((a : A) → Same (f a)) → Same (continue f s)
    unfolding continue
    Same-continue_next f (stop e) k = record { at = λ w. refl }
    Same-continue_next f (next a) k = record { at = (k a).at }

    pub Leads-then-Same :
        (m : Try K E A) (f : A → Try K E B)
        → Leads svc P m
        → ((a : A) → Same (f a))
        → Leads svc P (m >>= f)
    unfolding ◌>>=◌
    Leads-then-Same m f l k = record {
      at = λ w p.
          subst (Changes svc (rows_of w)) (sym ((Same-continue_next f (m w).0 k).at (m w).1))
            (l.at w p);
    }

    -- The rest may rely on what a guard has made sure of when it goes on.
    pub Leads-bind_after :
        (Q : A → Type 0) (m : Try K E A) (f : A → Try K E B)
        → Same m
        → Passes Q m
        → ((a : A) → Q a → Leads svc P (f a))
        → Leads svc P (m >>= f)
    unfolding ◌>>=◌
    Leads-bind_after Q m f s q k = record {
      at = λ w p.
          subst (λ rows. Changes svc rows (rows_of ((m >>= f) w).1)) (s.at w)
            ((Leads-continue f (m w).0 (λ a e. k a (q.at w a e))).at (m w).1
              (subst P (sym (s.at w)) p));
    }

  module _ {E B : Type 0} where
    pub Leads-stop_if :
        (b : Bool) (e : E) (n : Try K E B)
        → (b ≡ false → Leads svc P n)
        → Leads svc P (stop_if b e >> n)
    unfolding ◌>>=◌ continue stop_if
    Leads-stop_if true e n k = record { at = λ w p. none_made }
    Leads-stop_if false e n k = record { at = (k refl).at }

    pub Leads-if :
        (b : Bool) (m n : Try K E B)
        → (b ≡ true → Leads svc P m)
        → (b ≡ false → Leads svc P n)
        → Leads svc P (if b then m else n)
    Leads-if true m n km kn = km refl
    Leads-if false m n km kn = kn refl

  module _ (env : Env K) where
    update-Changes :
        (fault : Fault) (req : Request) (db : Db)
        → Changes svc db.requests (update_rows req db.requests)
        → Changes svc db.requests (update fault req db).1.requests
    unfolding update
    update-Changes (some m) req db c = none_made
    update-Changes none req db c = elim (Option-cases (find req.id db.requests)) [
      | inl missing ↦ rw (missing) none_made
      | inr (row, found) ↦ rw (found) c
    ]

    -- An `UPDATE` makes one step, or none.
    pub Leads-update :
        (req : Request)
        → ((rows : List Row) → P rows → Change svc rows (update_rows req rows))
        → Leads svc P (exec env λ fault. update fault req)
    unfolding exec
    Leads-update req step = record {
      at = λ w p.
          update-Changes (env.fault w.readings) req w.db (and_then none_made (step (rows_of w) p));
    }

    create-Changes :
        (fault : Fault) (req : Request) (db : Db)
        → (find req.id db.requests ≡ none → Change svc db.requests (db.requests ++ to_row req ∷ []))
        → Changes svc db.requests (create fault req db).1.requests
    unfolding create
    create-Changes (some m) req db c = none_made
    create-Changes none req db c = elim (Option-cases (find req.id db.requests)) [
      | inl fresh ↦ rw (fresh) (and_then none_made (c fresh))
      | inr (row, taken) ↦ rw (taken) none_made
    ]

    pub Leads-create :
        (req : Request)
        → ((rows : List Row) → find req.id rows ≡ none → Change svc rows (rows ++ to_row req ∷ []))
        → Leads svc P (exec env λ fault. create fault req)
    unfolding exec
    Leads-create req step = record {
      at = λ w p. create-Changes (env.fault w.readings) req w.db (step (rows_of w));
    }
