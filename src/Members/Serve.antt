-- ===== src/Members/Serve.antt =====
-- Whatever happens, one event after the other, the members of the group are covered by grants.
use kc_jit_public.Base.{String, Bool, true, false, List, [], ◌∷◌}
use kc_jit_public.World.{Env, World}
use kc_jit_public.World.Keeps.{Keeps, Keeps-bind, Keeps-lift, Keeps-or_stop}
use kc_jit_public.Auth.{Headers}
use kc_jit_public.Api.{Service, write_err}
use kc_jit_public.Api.Reads.{
  QueryValues, note_break_glass, me_of, handle_me, handle_audit, handle_list, handle_get,
}
use kc_jit_public.Router.{
  Route, me, list, create, audit, get, approve, release, HttpRequest, Event, http, tick, route,
  dispatch, handle, serve,
}
use kc_jit_public.Members.{Honest, Backed}
use kc_jit_public.Members.Rules.{stays_rules, Stays-audit, Stays-query}
use kc_jit_public.Members.Handlers.{handle_create-Safe, handle_approve-Safe, handle_release-Safe}
use kc_jit_public.Members.Reconcile.{reconcile-Safe}

module _ {K : Type 0} (env : Env K) (svc : Service) (h : Honest env svc) where
  abbrev Safe : World K → Type 0
  Safe = Backed env svc h

  Keeps-note_break_glass :
      (actor : String) (b : Bool) → Keeps Safe (note_break_glass env svc actor b)
  unfolding note_break_glass
  Keeps-note_break_glass actor false = record { at = λ w p. p }
  Keeps-note_break_glass actor true = record {
    at = (Stays-audit env svc h _ _ svc _ _ _ _ _ _ _).at;
  }

  Keeps-me_of : (hs : Headers) → Keeps Safe (me_of env svc hs)
  unfolding me_of
  Keeps-me_of hs = search (stays_rules, Keeps-note_break_glass) depth 15

  Keeps-handle_audit : (q : QueryValues) → Keeps Safe (handle_audit env svc q)
  unfolding handle_audit
  Keeps-handle_audit q = record {
    at =
        (Keeps-bind _ _ _ (Keeps-lift _ _ (Stays-query env svc h _ _ _))
          (Keeps-or_stop _ (write_err 500))).at;
  }

  Keeps-handle_list : Keeps Safe (handle_list env svc)
  unfolding handle_list
  Keeps-handle_list = record {
    at =
        (Keeps-bind _ _ _ (Keeps-lift _ _ (Stays-query env svc h _ _ _))
          (Keeps-or_stop _ (write_err 500))).at;
  }

  Keeps-handle_get : (id : String) → Keeps Safe (handle_get env svc id)
  unfolding handle_get
  Keeps-handle_get id = record {
    at =
        (Keeps-bind _ _ _ (Keeps-lift _ _ (Stays-query env svc h _ _ _))
          (Keeps-or_stop _ (write_err 404))).at;
  }

  dispatch-Safe :
      (to : Route) (r : HttpRequest) (w : World K) → Safe w → Safe (dispatch env svc to r w).1
  unfolding dispatch handle_me
  dispatch-Safe me r w p = (Keeps-me_of r.headers).at w p
  dispatch-Safe list r w p = Keeps-handle_list.at w p
  dispatch-Safe create r w p = (handle_create-Safe env svc h r.headers r.create_body).at w p
  dispatch-Safe (get id) r w p = (Keeps-handle_get id).at w p
  dispatch-Safe (approve id) r w p =
      (handle_approve-Safe env svc h r.headers r.approve_body id).at w p
  dispatch-Safe (release id) r w p = (handle_release-Safe env svc h r.headers id).at w p
  dispatch-Safe audit r w p = (Keeps-handle_audit r.query).at w p
  dispatch-Safe _ r w p = p

  handle-Safe : (e : Event) (w : World K) → Safe w → Safe (handle env svc e w)
  unfolding handle
  handle-Safe (http r) w p = dispatch-Safe (route r.method r.path) r w p
  handle-Safe tick w p = (reconcile-Safe env svc h).at w p

  -- From a table with distinct ids, and an active group whose members each have an approved request,
  -- every history of HTTP requests and ticks, one after the other, ends with such a table and such a
  -- group, where the engine runs every statement and Keycloak's calls do what they answer: a question
  -- adds nobody, an addition adds the user and nobody else, and nobody if it answers an error, and a
  -- removal adds nobody and, if it answers no error, takes the user out.
  pub serve-Backed : (es : List Event) (w : World K) → Safe w → Safe (serve env svc es w)
  unfolding serve
  serve-Backed [] w p = p
  serve-Backed (e ∷ es) w p = serve-Backed es (handle env svc e w) (handle-Safe e w p)
