-- ===== src/Lifecycle/Serve.antt =====
-- Whatever happens, the table of requests changes by steps of the lifecycle alone.
use kc_jit_public.Base.{String, Bool, true, false, refl, List, [], ◌∷◌}
use kc_jit_public.Store.Keys.{Keyed}
use kc_jit_public.World.{Env, World}
use kc_jit_public.Auth.{Headers}
use kc_jit_public.Api.{Service, write_err}
use kc_jit_public.Api.Reads.{
  QueryValues, note_break_glass, me_of, handle_me, handle_audit, handle_list, handle_get,
}
use kc_jit_public.Router.{
  Route, me, list, create, audit, get, approve, release, HttpRequest, Event, http, tick, route,
  dispatch, handle, serve,
}
use kc_jit_public.Lifecycle.{Changes, Changes-trans, none_made}
use kc_jit_public.Lifecycle.Rules.{
  rows_of, Same, same_rules, Same-audit, Same-bind, Same-lift, Same-query, Same-or_stop,
}
use kc_jit_public.Lifecycle.Leads.{no_change}
use kc_jit_public.Lifecycle.Keyed.{Changes-Keyed}
use kc_jit_public.Lifecycle.Handlers.{
  handle_create-Leads, handle_approve-Leads, handle_release-Leads,
}
use kc_jit_public.Lifecycle.Reconcile.{reconcile-Leads}

module _ {K : Type 0} (env : Env K) (svc : Service) where
  Same-note_break_glass : (actor : String) (b : Bool) → Same (note_break_glass env svc actor b)
  unfolding note_break_glass
  Same-note_break_glass actor false = record { at = λ w. refl }
  Same-note_break_glass actor true = record { at = (Same-audit env svc _ _ _ _ _ _ _).at }

  Same-me_of : (h : Headers) → Same (me_of env svc h)
  unfolding me_of
  Same-me_of h = search (same_rules, Same-note_break_glass) depth 15

  Same-handle_me : (h : Headers) → Same (handle_me env svc h)
  unfolding handle_me
  Same-handle_me h = record { at = (Same-me_of h).at }

  Same-handle_audit : (q : QueryValues) → Same (handle_audit env svc q)
  unfolding handle_audit
  Same-handle_audit q = record {
    at = (Same-bind _ _ (Same-lift _ (Same-query env _)) (Same-or_stop (write_err 500))).at;
  }

  Same-handle_list : Same (handle_list env svc)
  unfolding handle_list
  Same-handle_list = record {
    at = (Same-bind _ _ (Same-lift _ (Same-query env _)) (Same-or_stop (write_err 500))).at;
  }

  Same-handle_get : (id : String) → Same (handle_get env svc id)
  unfolding handle_get
  Same-handle_get id = record {
    at = (Same-bind _ _ (Same-lift _ (Same-query env _)) (Same-or_stop (write_err 404))).at;
  }

  dispatch-Changes :
      (to : Route) (r : HttpRequest) (w : World K)
      → Changes svc (rows_of w) (rows_of (dispatch env svc to r w).1)
  unfolding dispatch
  dispatch-Changes me r w = no_change svc ((Same-handle_me r.headers).at w)
  dispatch-Changes list r w = no_change svc (Same-handle_list.at w)
  dispatch-Changes create r w = (handle_create-Leads env svc r.headers r.create_body).at w tt
  dispatch-Changes (get id) r w = no_change svc ((Same-handle_get id).at w)
  dispatch-Changes (approve id) r w =
      (handle_approve-Leads env svc r.headers r.approve_body id).at w tt
  dispatch-Changes (release id) r w = (handle_release-Leads env svc r.headers id).at w tt
  dispatch-Changes audit r w = no_change svc ((Same-handle_audit r.query).at w)
  dispatch-Changes _ r w = none_made

  handle-Changes :
      (e : Event) (w : World K)
      → Keyed (rows_of w)
      → Changes svc (rows_of w) (rows_of (handle env svc e w))
  unfolding handle
  handle-Changes (http r) w k = dispatch-Changes (route r.method r.path) r w
  handle-Changes tick w k = (reconcile-Leads env svc).at w k

  -- From a table whose ids are distinct, any history of HTTP requests and ticks changes the table of
  -- requests only by steps of the lifecycle, and the ids stay distinct. This holds whatever Keycloak,
  -- the engine, the clock and the webhook answer.
  pub serve-Changes :
      (es : List Event) (w : World K)
      → Keyed (rows_of w)
      → Changes svc (rows_of w) (rows_of (serve env svc es w))
        × Keyed (rows_of (serve env svc es w))
  unfolding serve
  serve-Changes [] w k = (none_made, k)
  serve-Changes (e ∷ es) w k =
      let first = handle-Changes e w k in
      let (rest, keyed) = serve-Changes es (handle env svc e w) (Changes-Keyed svc first k) in
      (Changes-trans svc first rest, keyed)
