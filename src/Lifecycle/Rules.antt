-- ===== src/Lifecycle/Rules.antt =====
-- Rules for actions: which leave the table `requests` alone, and which change it by steps.
use kc_jit_public.Base.{
  String, ◌≡◌, refl, ◌∙◌, Bool, true, false, List, Option, none, some, Result, ok, err, arith,
  if◌then◌else◌,
}
use kc_jit_public.Store.{Db, Fault, Row, Request}
use kc_jit_public.World.{
  Env, World, Act, time_now, query, in_group, add_to_group, remove_from_group,
}
use kc_jit_public.World.Try.{
  Step, stop, next, Try, continue, ◌>>=◌, lift, yield_value, fail, stop_if, or_stop,
}
use kc_jit_public.Notify as Notify
use kc_jit_public.Notify.{Notifier}
use kc_jit_public.Auth.{Headers}
use kc_jit_public.Api.{Service, send_or_not, new_id, actor_of, audit}

abbrev pub rows_of : {K : Type 0} → World K → List Row
rows_of w = w.db.requests

-- The action leaves the table `requests` as it is.
pub record Same {ℓ} {K : Type 0} {A : Type ℓ} (m : Act K A) : Type 0 where
  pub at : (w : World K) → rows_of (m w).1 ≡ rows_of w

module _ {K E A : Type 0} where
  pub Same-lift : (m : Act K A) → Same m → Same (lift {E = E} m)
  unfolding lift
  Same-lift m s = record { at = s.at }

  pub Same-yield : (a : A) → Same (yield_value {K = K} {E = E} a)
  unfolding yield_value
  Same-yield a = record { at = λ w. refl }

  pub Same-fail : (e : E) → Same (fail {K = K} {A = A} e)
  unfolding fail
  Same-fail e = record { at = λ w. refl }

  pub Same-or_stop : (f : String → E) (r : Result A) → Same (or_stop {K = K} f r)
  unfolding or_stop
  Same-or_stop f (ok a) = record { at = λ w. refl }
  Same-or_stop f (err m) = record { at = λ w. refl }

pub Same-stop_if : {K E : Type 0} (b : Bool) (e : E) → Same (stop_if {K = K} b e)
unfolding stop_if
Same-stop_if true e = record { at = λ w. refl }
Same-stop_if false e = record { at = λ w. refl }

pub Same-if :
    {K A : Type 0} (b : Bool) (m n : Act K A) → Same m → Same n → Same (if b then m else n)
Same-if true m n sm sn = sm
Same-if false m n sm sn = sn

module _ {K E A B : Type 0} where
  Same-continue : (f : A → Try K E B) (s : Step E A) → ((a : A) → Same (f a)) → Same (continue f s)
  unfolding continue
  Same-continue f (stop e) k = record { at = λ w. refl }
  Same-continue f (next a) k = record { at = (k a).at }

  pub Same-bind :
      (m : Try K E A) (f : A → Try K E B) → Same m → ((a : A) → Same (f a)) → Same (m >>= f)
  unfolding ◌>>=◌
  Same-bind m f s k = record { at = λ w. (Same-continue f (m w).0 k).at (m w).1 ∙ s.at w }

module _ {K : Type 0} (env : Env K) where
  pub Same-time_now : Same (time_now env)
  unfolding time_now
  Same-time_now = record { at = λ w. refl }

  pub Same-new_id : Same (new_id env)
  unfolding new_id
  Same-new_id = record { at = λ w. refl }

  pub Same-query : {A : Type 0} (f : Fault → Db → A) → Same (query env f)
  unfolding query
  Same-query f = record { at = λ w. refl }

  pub Same-in_group : (user group : String) → Same (in_group env user group)
  unfolding in_group
  Same-in_group user group = record { at = λ w. refl }

  pub Same-add_to_group : (user group : String) → Same (add_to_group env user group)
  unfolding add_to_group
  Same-add_to_group user group = record { at = λ w. refl }

  pub Same-remove_from_group : (user group : String) → Same (remove_from_group env user group)
  unfolding remove_from_group
  Same-remove_from_group user group = record { at = λ w. refl }

  pub Same-actor_of : (svc : Service) (h : Headers) → Same (actor_of env svc h)
  unfolding actor_of
  Same-actor_of svc h = record { at = λ w. refl }

  pub Same-audit :
      (svc : Service) (action who subject request_id justification detail : String) (bg : Bool)
      → Same (audit env svc action who subject request_id justification detail bg)
  unfolding audit
  Same-audit svc action who subject request_id justification detail bg = record {
    at = λ w. ground arith;
  }

  pub Same-notify_once :
      (n : Notifier) (request_id kind text : String)
      → Same (Notify.notify_once env n request_id kind text)
  unfolding Notify.notify_once
  Same-notify_once n request_id kind text = record { at = λ w. ground arith }

  pub Same-pending_approvers :
      (n : Notifier) (r : Request) → Same (Notify.pending_approvers env n r)
  unfolding Notify.pending_approvers
  Same-pending_approvers n r = Same-notify_once n _ _ _

  pub Same-approved : (n : Notifier) (r : Request) → Same (Notify.approved env n r)
  unfolding Notify.approved
  Same-approved n r = Same-notify_once n _ _ _

  pub Same-request_expired : (n : Notifier) (r : Request) → Same (Notify.request_expired env n r)
  unfolding Notify.request_expired
  Same-request_expired n r = Same-notify_once n _ _ _

  pub Same-released :
      (n : Notifier) (r : Request) (reason : String) → Same (Notify.released env n r reason)
  unfolding Notify.released
  Same-released n r reason = Same-notify_once n _ _ _

pub Same-send :
    {K : Type 0} (n : Option Notifier) (f : Notifier → Act K Bool)
    → ((m : Notifier) → Same (f m))
    → Same (send_or_not n f)
Same-send none f k = record { at = λ w. refl }
Same-send (some n) f k = record { at = (k n).at }

pub ruleset same_rules = (
  Same-lift, Same-if, Same-yield, Same-fail, Same-or_stop, Same-stop_if, Same-bind, Same-time_now,
  Same-new_id, Same-query, Same-in_group, Same-add_to_group, Same-remove_from_group, Same-actor_of,
  Same-audit, Same-pending_approvers, Same-approved, Same-request_expired, Same-released, Same-send,
)
