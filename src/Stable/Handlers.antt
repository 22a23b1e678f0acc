-- ===== src/Stable/Handlers.antt =====
-- The handlers keep a stable condition.
use kc_jit_public.Base.{String, Bool, true, false, Result}
use kc_jit_public.Time.{Instant}
use kc_jit_public.Store.{Request}
use kc_jit_public.World.{Env, World}
use kc_jit_public.World.Keeps.{
  Keeps, Keeps-bind, Keeps-lift, Keeps-or_stop, Keeps-stop_if, Keeps-yield,
}
use kc_jit_public.Auth.{Headers}
use kc_jit_public.Api.{Service, write_err}
use kc_jit_public.Api.Create.{
  CreateRequestBody, create_guard, create_noted, create_stored, create_of, handle_create,
}
use kc_jit_public.Api.Approve.{
  Decoded, approve_guard, too_late_noted, too_late, grant_noted, grant, approve_found, approve_of,
  handle_approve,
}
use kc_jit_public.Api.Release.{
  may_release, release_noted, release, release_found, release_by, handle_release,
}
use kc_jit_public.Api.Reads.{
  QueryValues, note_break_glass, me_of, handle_audit, handle_list, handle_get,
}
use kc_jit_public.Stable.{Stable}
use kc_jit_public.Stable.Parts.{
  Keeps-in_group, Keeps-new_id, Keeps-add_to_group, stable_rules, Keeps-actor_of, Keeps-time_now,
  Keeps-query, Keeps-remove_from_group, Keeps-update, Keeps-create, Keeps-audit,
  Keeps-pending_approvers, Keeps-approved, Keeps-send, Keeps-request_expired, Keeps-released,
}

module _ {K : Type 0} {env : Env K} {svc : Service} {P : World K → Type 0}
    (s : Stable env svc P) where
  Stable-note_break_glass : (actor : String) (b : Bool) → Keeps P (note_break_glass env svc actor b)
  unfolding note_break_glass
  Stable-note_break_glass actor false = record { at = λ w h. h }
  Stable-note_break_glass actor true = record { at = (Keeps-audit s _ _ _ _ _ _ _).at }

  pub Stable-me_of : (h : Headers) → Keeps P (me_of env svc h)
  unfolding me_of
  Stable-me_of h = search (stable_rules, Stable-note_break_glass) depth 16

  Stable-create_guard :
      (h : Headers) (body : Result CreateRequestBody) → Keeps P (create_guard env svc h body)
  unfolding create_guard
  Stable-create_guard h body = search stable_rules depth 16

  Stable-create_noted :
      (a : String) (req : Request) (r : Result Unit) → Keeps P (create_noted env svc a req r)
  unfolding create_noted
  Stable-create_noted a req r = Keeps-bind P _ _ (Keeps-or_stop P _ r) λ done.
      Keeps-bind P _ _ (Keeps-lift P _ (Keeps-in_group s _ _)) λ asked.
        Keeps-bind P _ _ (Keeps-lift P _ (Keeps-audit s _ _ _ _ _ _ _)) λ noted.
          Keeps-bind P _ _
            (Keeps-lift P _ (Keeps-send svc.notify _ λ n. Keeps-pending_approvers s n req))
            λ sent. Keeps-yield P req

  Stable-create_stored : (a u j : String) → Keeps P (create_stored env svc a u j)
  unfolding create_stored
  Stable-create_stored a u j = Keeps-bind P _ _ (Keeps-lift P _ (Keeps-time_now s)) λ now.
      Keeps-bind P _ _ (Keeps-lift P _ (Keeps-new_id s)) λ id.
        Keeps-bind P _ _ (Keeps-lift P _ (Keeps-create s _))
          λ written. Stable-create_noted a _ written

  Stable-approve_guard :
      (h : Headers) (body : Decoded String) → Keeps P (approve_guard env svc h body)
  unfolding approve_guard
  Stable-approve_guard h body = search stable_rules depth 16

  Stable-too_late : (req : Request) → Keeps P (too_late env svc req)
  unfolding too_late too_late_noted
  Stable-too_late req =
      search (stable_rules, Keeps-update s, Keeps-audit s, Keeps-request_expired s) depth 16

  Stable-grant_noted :
      (actor notes : String) (req req' : Request) (r : Result Unit)
      → Keeps P (grant_noted env svc actor notes req req' r)
  unfolding grant_noted
  Stable-grant_noted actor notes req req' r = Keeps-bind P _ _ (Keeps-or_stop P _ r) λ done.
      Keeps-bind P _ _ (Keeps-lift P _ (Keeps-in_group s _ _)) λ asked.
        Keeps-bind P _ _ (Keeps-lift P _ (Keeps-audit s _ _ _ _ _ _ _)) λ noted.
          Keeps-bind P _ _ (Keeps-lift P _ (Keeps-audit s _ _ _ _ _ _ _)) λ noted'.
            Keeps-bind P _ _ (Keeps-lift P _ (Keeps-send svc.notify _ λ n. Keeps-approved s n req'))
              λ sent. Keeps-yield P req'

  Stable-grant :
      (actor notes : String) (now : Instant) (req : Request)
      → Keeps P (grant env svc actor notes now req)
  unfolding grant
  Stable-grant actor notes now req =
      Keeps-bind P _ _ (Keeps-lift P _ (Keeps-add_to_group s _ _)) λ added.
        Keeps-bind P _ _ (Keeps-or_stop P _ added) λ done.
          Keeps-bind P _ _ (Keeps-lift P _ (Keeps-update s _))
            λ written. Stable-grant_noted actor notes req _ written

  Stable-approve_found : (id actor notes : String) → Keeps P (approve_found env svc id actor notes)
  unfolding approve_found
  Stable-approve_found id actor notes =
      search (stable_rules, Stable-too_late, Stable-grant) depth 16

  Stable-release_noted :
      (req : Request) (actor action : String) (r : Result Unit)
      → Keeps P (release_noted env svc req actor action r)
  unfolding release_noted
  Stable-release_noted req actor action r = Keeps-bind P _ _ (Keeps-or_stop P _ r) λ done.
      Keeps-bind P _ _ (Keeps-lift P _ (Keeps-audit s _ _ _ _ _ _ _)) λ noted.
        Keeps-bind P _ _ (Keeps-lift P _ (Keeps-send svc.notify _ λ n. Keeps-released s n req _))
          λ sent. Keeps-yield P req

  Stable-release :
      (req : Request) (actor action : String) → Keeps P (release env svc req actor action)
  unfolding release
  Stable-release req actor action =
      Keeps-bind P _ _ (Keeps-lift P _ (Keeps-remove_from_group s _ _)) λ removed.
        Keeps-bind P _ _ (Keeps-or_stop P _ removed) λ done.
          Keeps-bind P _ _ (Keeps-lift P _ (Keeps-time_now s)) λ now.
            Keeps-bind P _ _ (Keeps-lift P _ (Keeps-update s _))
              λ written. Stable-release_noted _ actor action written

  Stable-may_release : (actor : String) (req : Request) → Keeps P (may_release env svc actor req)
  unfolding may_release
  Stable-may_release actor req = search stable_rules depth 16

  Stable-release_found : (id actor : String) → Keeps P (release_found env svc id actor)
  unfolding release_found
  Stable-release_found id actor = Keeps-bind _ _ _ (Keeps-lift _ _ (Keeps-query s _)) λ found.
      Keeps-bind _ _ _ (Keeps-or_stop _ (write_err 404) found) λ req.
        Keeps-bind _ _ _ (Keeps-stop_if _ _ _) λ open_still.
          Keeps-bind _ _ _ (Stable-may_release actor req)
            λ allowed. record { at = (Stable-release req actor "early_release").at }

  pub Stable-handle_create :
      (h : Headers) (body : Result CreateRequestBody) → Keeps P (handle_create env svc h body)
  unfolding handle_create create_of
  Stable-handle_create h body = record {
    at = (Keeps-bind _ _ _ (Stable-create_guard h body) λ p. Stable-create_stored p.0 p.1 p.2).at;
  }

  pub Stable-handle_approve :
      (h : Headers) (body : Decoded String) (id : String)
      → Keeps P (handle_approve env svc h body id)
  unfolding handle_approve approve_of
  Stable-handle_approve h body id = record {
    at = (Keeps-bind _ _ _ (Stable-approve_guard h body) λ p. Stable-approve_found id p.0 p.1).at;
  }

  pub Stable-handle_release : (h : Headers) (id : String) → Keeps P (handle_release env svc h id)
  unfolding handle_release release_by
  Stable-handle_release h id = record {
    at = (Keeps-bind _ _ _ (Keeps-lift _ _ (Keeps-actor_of s h)) (Stable-release_found id)).at;
  }

  pub Stable-handle_audit : (q : QueryValues) → Keeps P (handle_audit env svc q)
  unfolding handle_audit
  Stable-handle_audit q = record {
    at = (Keeps-bind _ _ _ (Keeps-lift _ _ (Keeps-query s _)) (Keeps-or_stop _ (write_err 500))).at;
  }

  pub Stable-handle_list : Keeps P (handle_list env svc)
  unfolding handle_list
  Stable-handle_list = record {
    at = (Keeps-bind _ _ _ (Keeps-lift _ _ (Keeps-query s _)) (Keeps-or_stop _ (write_err 500))).at;
  }

  pub Stable-handle_get : (id : String) → Keeps P (handle_get env svc id)
  unfolding handle_get
  Stable-handle_get id = record {
    at = (Keeps-bind _ _ _ (Keeps-lift _ _ (Keeps-query s _)) (Keeps-or_stop _ (write_err 404))).at;
  }
