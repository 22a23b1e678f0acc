-- ===== src/Stable/Serve.antt =====
-- Every event keeps a stable condition.
use kc_jit_public.Base.{List, [], ◌∷◌, Result, ok, err}
use kc_jit_public.Store.{Request}
use kc_jit_public.World.{Env, World, time_now}
use kc_jit_public.World.Keeps.{Keeps}
use kc_jit_public.Api.{Service}
use kc_jit_public.Api.Approve.{expire_of}
use kc_jit_public.Api.Release.{release_of}
use kc_jit_public.Api.Reads.{handle_me}
use kc_jit_public.Api.Reconcile.{
  expire_noted, expire_one, expire_all, revoke_noted, revoke_removed, revoke_one, revoke_all,
  reconcile,
}
use kc_jit_public.Router.{
  Route, me, list, create, audit, get, approve, release as released, HttpRequest, Event, http, tick,
  route, dispatch, handle, serve,
}
use kc_jit_public.Stable.{Stable}
use kc_jit_public.Stable.Parts.{
  stable_rules, Keeps-time_now, Keeps-remove_from_group, Keeps-update, Keeps-audit, Keeps-send,
  Keeps-request_expired, Keeps-released,
}
use kc_jit_public.Stable.Handlers.{
  Stable-me_of, Stable-handle_create, Stable-handle_approve, Stable-handle_release,
  Stable-handle_audit, Stable-handle_list, Stable-handle_get,
}

module _ {K : Type 0} {env : Env K} {svc : Service} {P : World K → Type 0}
    (s : Stable env svc P) where
  pub dispatch-Keeps : (to : Route) (r : HttpRequest) → Keeps P (dispatch env svc to r)
  unfolding dispatch handle_me
  dispatch-Keeps me r = record { at = (Stable-me_of s r.headers).at }
  dispatch-Keeps list r = record { at = (Stable-handle_list s).at }
  dispatch-Keeps create r = record { at = (Stable-handle_create s r.headers r.create_body).at }
  dispatch-Keeps (get id) r = record { at = (Stable-handle_get s id).at }
  dispatch-Keeps (approve id) r = record {
    at = (Stable-handle_approve s r.headers r.approve_body id).at;
  }
  dispatch-Keeps (released id) r = record { at = (Stable-handle_release s r.headers id).at }
  dispatch-Keeps audit r = record { at = (Stable-handle_audit s r.query).at }
  dispatch-Keeps _ r = record { at = λ w h. h }

  Stable-expire_noted : (req : Request) (r : Result Unit) → Keeps P (expire_noted env svc req r)
  unfolding expire_noted
  Stable-expire_noted req (err m) = record { at = λ w h. h }
  Stable-expire_noted req (ok u) = record {
    at = λ w h.
        (Keeps-send svc.notify _ (λ n. Keeps-request_expired s n (expire_of req))).at _
          ((Keeps-audit s _ _ _ _ _ _ _).at w h);
  }

  pub Stable-expire_one : (req : Request) → Keeps P (expire_one env svc req)
  unfolding expire_one
  Stable-expire_one req = record {
    at = λ w h. (Stable-expire_noted req _).at _ ((Keeps-update s (expire_of req)).at w h);
  }

  Stable-expire_all : (reqs : List Request) → Keeps P (expire_all env svc reqs)
  unfolding expire_all
  Stable-expire_all [] = record { at = λ w h. h }
  Stable-expire_all (req ∷ reqs) = record {
    at = λ w h. (Stable-expire_all reqs).at _ ((Stable-expire_one req).at w h);
  }

  Stable-revoke_noted : (req : Request) (r : Result Unit) → Keeps P (revoke_noted env svc req r)
  unfolding revoke_noted
  Stable-revoke_noted req (err m) = record { at = λ w h. h }
  Stable-revoke_noted req (ok u) = record {
    at = λ w h.
        (Keeps-send svc.notify _ (λ n. Keeps-released s n req "expire")).at _
          ((Keeps-audit s _ _ _ _ _ _ _).at w h);
  }

  Stable-revoke_removed : (req : Request) (r : Result Unit) → Keeps P (revoke_removed env svc req r)
  unfolding revoke_removed
  Stable-revoke_removed req (err m) = record { at = λ w h. h }
  Stable-revoke_removed req (ok u) = record {
    at = λ w h. (Stable-revoke_noted _ _).at _ (
        (Keeps-update s (release_of (time_now env w).0 req)).at (time_now env w).1
          ((Keeps-time_now s).at w h));
  }

  pub Stable-revoke_one : (req : Request) → Keeps P (revoke_one env svc req)
  unfolding revoke_one
  Stable-revoke_one req = record {
    at = λ w h.
        (Stable-revoke_removed req _).at _
          ((Keeps-remove_from_group s req.username svc.cfg.group_active).at w h);
  }

  Stable-revoke_all : (reqs : List Request) → Keeps P (revoke_all env svc reqs)
  unfolding revoke_all
  Stable-revoke_all [] = record { at = λ w h. h }
  Stable-revoke_all (req ∷ reqs) = record {
    at = λ w h. (Stable-revoke_all reqs).at _ ((Stable-revoke_one req).at w h);
  }

  Stable-reconcile : Keeps P (reconcile env svc)
  unfolding reconcile
  Stable-reconcile = search (stable_rules, Stable-expire_all, Stable-revoke_all) depth 16

  handle-Keeps : (e : Event) (w : World K) → P w → P (handle env svc e w)
  unfolding handle
  handle-Keeps (http r) = (dispatch-Keeps (route r.method r.path) r).at
  handle-Keeps tick = Stable-reconcile.at

  pub serve-Keeps : (es : List Event) (w : World K) → P w → P (serve env svc es w)
  unfolding serve
  serve-Keeps [] w h = h
  serve-Keeps (e ∷ es) w h = serve-Keeps es (handle env svc e w) (handle-Keeps e w h)
