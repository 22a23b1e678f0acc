-- ===== src/Stable/Parts.antt =====
-- The parts of the handlers under a stable condition.
use kc_jit_public.Base.{suc, String, Bool, Option, none, some}
use kc_jit_public.Store.{Db, Fault, Request}
use kc_jit_public.Store.Requests.{create, update}
use kc_jit_public.World.{
  Env, World, Act, time_now, exec, query, in_group, add_to_group, remove_from_group,
}
use kc_jit_public.World.Keeps.{Keeps, keeps_rules}
use kc_jit_public.Notify as N
use kc_jit_public.Notify.{Notifier}
use kc_jit_public.Auth.{Headers}
use kc_jit_public.Api.{Service, send_or_not, new_id, actor_of, audit}
use kc_jit_public.Stable.{Stable}

module _ {K : Type 0} {env : Env K} {svc : Service} {P : World K → Type 0}
    (s : Stable env svc P) where
  pub Keeps-time_now : Keeps P (time_now env)
  unfolding time_now
  Keeps-time_now = record { at = λ w h. s.reads w (suc w.readings) w.kc h }

  pub Keeps-new_id : Keeps P (new_id env)
  unfolding new_id
  Keeps-new_id = record { at = λ w h. s.reads w (suc w.readings) w.kc h }

  pub Keeps-query : {A : Type 0} (f : Fault → Db → A) → Keeps P (query env f)
  unfolding query
  Keeps-query f = record { at = λ w h. s.reads w (suc w.readings) w.kc h }

  pub Keeps-in_group : (user group : String) → Keeps P (in_group env user group)
  unfolding in_group
  Keeps-in_group user group = record { at = λ w h. s.reads w w.readings _ h }

  pub Keeps-add_to_group : (user group : String) → Keeps P (add_to_group env user group)
  unfolding add_to_group
  Keeps-add_to_group user group = record { at = λ w h. s.reads w w.readings _ h }

  pub Keeps-remove_from_group : (user group : String) → Keeps P (remove_from_group env user group)
  unfolding remove_from_group
  Keeps-remove_from_group user group = record { at = λ w h. s.reads w w.readings _ h }

  pub Keeps-actor_of : (h : Headers) → Keeps P (actor_of env svc h)
  unfolding actor_of
  Keeps-actor_of h = record { at = λ w k. s.reads w (suc w.readings) w.kc k }

  pub Keeps-update : (req : Request) → Keeps P (exec env λ fault. update fault req)
  Keeps-update = s.updates

  pub Keeps-create : (req : Request) → Keeps P (exec env λ fault. create fault req)
  Keeps-create = s.creates

  pub Keeps-audit :
      (action who subject request_id justification detail : String) (bg : Bool)
      → Keeps P (audit env svc action who subject request_id justification detail bg)
  Keeps-audit = s.audits

  pub Keeps-pending_approvers : (n : Notifier) (r : Request) → Keeps P (N.pending_approvers env n r)
  unfolding N.pending_approvers
  Keeps-pending_approvers n r = s.notifies n _ _ _

  pub Keeps-approved : (n : Notifier) (r : Request) → Keeps P (N.approved env n r)
  unfolding N.approved
  Keeps-approved n r = s.notifies n _ _ _

  pub Keeps-request_expired : (n : Notifier) (r : Request) → Keeps P (N.request_expired env n r)
  unfolding N.request_expired
  Keeps-request_expired n r = s.notifies n _ _ _

  pub Keeps-released :
      (n : Notifier) (r : Request) (reason : String) → Keeps P (N.released env n r reason)
  unfolding N.released
  Keeps-released n r reason = s.notifies n _ _ _

pub Keeps-send :
    {K : Type 0} {P : World K → Type 0} (n : Option Notifier) (f : Notifier → Act K Bool)
    → ((m : Notifier) → Keeps P (f m))
    → Keeps P (send_or_not n f)
Keeps-send none f k = record { at = λ w h. h }
Keeps-send (some n) f k = record { at = (k n).at }

pub ruleset stable_rules = (
  keeps_rules, Keeps-time_now, Keeps-new_id, Keeps-query, Keeps-in_group, Keeps-add_to_group,
  Keeps-remove_from_group, Keeps-actor_of, Keeps-update, Keeps-create, Keeps-audit,
  Keeps-pending_approvers, Keeps-approved, Keeps-request_expired, Keeps-released, Keeps-send,
)
