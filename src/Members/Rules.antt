-- ===== src/Members/Rules.antt =====
-- Actions that change neither the table nor the group, and rules for what follows on a call.
use kc_jit_public.Base.{
  String, ◌≡◌, refl, Bool, true, false, List, Result, ok, err, arith, if◌then◌else◌,
}
use kc_jit_public.Store.{Db, Fault, Row, Request}
use kc_jit_public.World.{Env, World, Act, time_now, query, in_group}
use kc_jit_public.World.Try.{Step, stop, next, Try, continue, ◌>>=◌, ◌>>◌, lift, stop_if, or_stop}
use kc_jit_public.World.Keeps.{Keeps, keeps_rules}
use kc_jit_public.Notify as Notify
use kc_jit_public.Notify.{Notifier}
use kc_jit_public.Auth.{Headers}
use kc_jit_public.Api.{Service, new_id, actor_of, audit}
use kc_jit_public.Stable.Parts.{Keeps-send}
use kc_jit_public.Lifecycle.Rules.{
  Same, Same-time_now, Same-new_id, Same-query, Same-actor_of, Same-audit, Same-notify_once,
}
use kc_jit_public.Members.{Honest, Admits}

-- The action leads from the one condition to the other.
pub record Leaves {K A : Type 0} (P P' : World K → Type 0) (m : Act K A) : Type 0 where
  pub at : (w : World K) → P w → P' (m w).1

module _ {K : Type 0} (P P' : World K → Type 0) where
  pub Leaves-Keeps :
      {A : Type 0} (m : Act K A) → ((w : World K) → P w → P' w) → Keeps P m → Leaves P P' m
  Leaves-Keeps m weak k = record { at = λ w p. weak (m w).1 (k.at w p) }

  pub Leaves-lift : {E A : Type 0} (m : Act K A) → Leaves P P' m → Leaves P P' (lift {E = E} m)
  unfolding lift
  Leaves-lift m l = record { at = l.at }

  module _ {E A B : Type 0} where
    Leaves-continue :
        (f : A → Try K E B) (s : Step E A)
        → ((w : World K) → P w → P' w)
        → ((a : A) → Leaves P P' (f a))
        → Leaves P P' (continue f s)
    unfolding continue
    Leaves-continue f (stop e) weak k = record { at = weak }
    Leaves-continue f (next a) weak k = record { at = (k a).at }

    -- After a part that keeps the first condition.
    pub Leaves-after :
        (m : Try K E A) (f : A → Try K E B)
        → ((w : World K) → P w → P' w)
        → Keeps P m
        → ((a : A) → Leaves P P' (f a))
        → Leaves P P' (m >>= f)
    unfolding ◌>>=◌
    Leaves-after m f weak s k = record {
      at = λ w p. (Leaves-continue f (m w).0 weak k).at (m w).1 (s.at w p);
    }

    Keeps-continue :
        (f : A → Try K E B) (s : Step E A) → ((a : A) → Keeps P' (f a)) → Keeps P' (continue f s)
    unfolding continue
    Keeps-continue f (stop e) k = record { at = λ w p. p }
    Keeps-continue f (next a) k = record { at = (k a).at }

    -- Before a part that keeps the last condition.
    pub Leaves-before :
        (m : Try K E A) (f : A → Try K E B)
        → Leaves P P' m
        → ((a : A) → Keeps P' (f a))
        → Leaves P P' (m >>= f)
    unfolding ◌>>=◌
    Leaves-before m f l k = record {
      at = λ w p. (Keeps-continue f (m w).0 k).at (m w).1 (l.at w p);
    }

  module _ {E B : Type 0} where
    pub Leaves-stop_if :
        (b : Bool) (e : E) (n : Try K E B)
        → ((w : World K) → P w → P' w)
        → (b ≡ false → Leaves P P' n)
        → Leaves P P' (stop_if b e >> n)
    unfolding ◌>>=◌ continue stop_if
    Leaves-stop_if true e n weak k = record { at = weak }
    Leaves-stop_if false e n weak k = record { at = (k refl).at }

    pub Leaves-if :
        (b : Bool) (m n : Try K E B)
        → Leaves P P' m
        → Leaves P P' n
        → Leaves P P' (if b then m else n)
    Leaves-if true m n km kn = km
    Leaves-if false m n km kn = kn

-- Two actions in a row.
pub Leaves-seq :
    {K E A B : Type 0} (P P₁ P' : World K → Type 0) (m : Act K A) (f : A → Try K E B)
    → Leaves P P₁ m
    → ((a : A) → Leaves P₁ P' (f a))
    → Leaves P P' (lift m >>= f)
unfolding ◌>>=◌ continue lift
Leaves-seq P P₁ P' m f l k = record { at = λ w p. (k (m w).0).at (m w).1 (l.at w p) }

-- A call, and what follows where it answers no error.
module _ {K E A B : Type 0} (P P' : World K → Type 0) (Q : A → World K → Type 0)
    (m : Act K (Result A)) (e : String → E) (f : A → Try K E B)
    (failed : (w : World K) (x : String) → P w → (m w).0 ≡ err x → P' (m w).1)
    (answered : (w : World K) (a : A) → P w → (m w).0 ≡ ok a → Q a (m w).1)
    (k : (a : A) → Leaves (Q a) P' (f a)) where
  call-continue :
      (r : Result A) (w : World K)
      → ((x : String) → r ≡ err x → P' w)
      → ((a : A) → r ≡ ok a → Q a w)
      → P' ((or_stop e r >>= f) w).1
  unfolding ◌>>=◌ continue or_stop
  call-continue (err x) w bad good = bad x refl
  call-continue (ok a) w bad good = (k a).at w (good a refl)

  pub Leaves-call : Leaves P P' (lift m >>= λ r. or_stop e r >>= f)
  unfolding ◌>>=◌ continue lift
  Leaves-call = record {
    at = λ w p.
        call-continue (m w).0 (m w).1 (λ x bad. failed w x p bad) (λ a good. answered w a p good);
  }

-- The action leaves the table and Keycloak as they are.
pub record Still {K A : Type 0} (m : Act K A) : Type 0 where
  pub rows : Same m
  pub kc : (w : World K) → (m w).1.kc ≡ w.kc

module _ {K : Type 0} (env : Env K) (svc : Service) (h : Honest env svc) (Q : List Row → Type 0)
    (G : List Row → String → Type 0) where
  abbrev Stays : {A : Type 0} → Act K A → Type 0
  Stays m = Keeps (Admits env svc h Q G) m

  Stays-Still : {A : Type 0} (m : Act K A) → Still m → Stays m
  Stays-Still m s = record {
    at = λ w p. record {
      keyed = rw (s.rows.at w) p.keyed;
      holds = rw (s.rows.at w) p.holds;
      covers = λ v member. rw (s.rows.at w) (p.covers v (rw (s.kc w) at member));
    };
  }

  pub Stays-time_now : Stays (time_now env)
  unfolding time_now
  Stays-time_now = Stays-Still _ (record { rows = Same-time_now env; kc = λ w. refl })

  pub Stays-new_id : Stays (new_id env)
  unfolding new_id
  Stays-new_id = Stays-Still _ (record { rows = Same-new_id env; kc = λ w. refl })

  pub Stays-query : {A : Type 0} (f : Fault → Db → A) → Stays (query env f)
  unfolding query
  Stays-query f = Stays-Still _ (record { rows = Same-query env f; kc = λ w. refl })

  pub Stays-actor_of : (s : Service) (hs : Headers) → Stays (actor_of env s hs)
  unfolding actor_of
  Stays-actor_of s hs = Stays-Still _ (record { rows = Same-actor_of env s hs; kc = λ w. refl })

  pub Stays-in_group : (user group : String) → Stays (in_group env user group)
  unfolding in_group
  Stays-in_group user group = record {
    at = λ w p. record {
      keyed = p.keyed;
      holds = p.holds;
      covers = λ v member. p.covers v (h.asks user group v w.kc member);
    };
  }

  pub Stays-audit :
      (s : Service) (action who subject request_id justification detail : String) (bg : Bool)
      → Stays (audit env s action who subject request_id justification detail bg)
  unfolding audit
  Stays-audit s action who subject request_id justification detail bg = Stays-Still _ (record {
    rows = Same-audit env s action who subject request_id justification detail bg;
    kc = λ w. ground arith;
  })

  Stays-notify_once :
      (n : Notifier) (request_id kind text : String)
      → Stays (Notify.notify_once env n request_id kind text)
  unfolding Notify.notify_once
  Stays-notify_once n request_id kind text =
      Stays-Still _
        (record { rows = Same-notify_once env n request_id kind text; kc = λ w. ground arith })

  pub Stays-pending_approvers :
      (n : Notifier) (r : Request) → Stays (Notify.pending_approvers env n r)
  unfolding Notify.pending_approvers
  Stays-pending_approvers n r = Stays-notify_once n _ _ _

  pub Stays-approved : (n : Notifier) (r : Request) → Stays (Notify.approved env n r)
  unfolding Notify.approved
  Stays-approved n r = Stays-notify_once n _ _ _

  pub Stays-request_expired : (n : Notifier) (r : Request) → Stays (Notify.request_expired env n r)
  unfolding Notify.request_expired
  Stays-request_expired n r = Stays-notify_once n _ _ _

  pub Stays-released :
      (n : Notifier) (r : Request) (reason : String) → Stays (Notify.released env n r reason)
  unfolding Notify.released
  Stays-released n r reason = Stays-notify_once n _ _ _

pub ruleset stays_rules = (
  keeps_rules, Stays-time_now, Stays-new_id, Stays-query, Stays-actor_of, Stays-in_group,
  Stays-audit, Stays-pending_approvers, Stays-approved, Stays-request_expired, Stays-released,
  Keeps-send,
)
