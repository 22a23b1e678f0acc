-- ===== src/Members/Handlers.antt =====
-- The handlers keep the members of the group covered by grants.
use kc_jit_public.Base.{String, ◌≡◌, refl, List, Result}
use kc_jit_public.Time.{Instant}
use kc_jit_public.Store.{Row, Request, Status, pending, approved}
use kc_jit_public.Store.Requests.{get}
use kc_jit_public.World.{Env, World, query}
use kc_jit_public.World.Try.{Try, ◌>>=◌, lift, or_stop}
use kc_jit_public.World.Keeps.{Keeps, Keeps-lift}
use kc_jit_public.Auth.{Headers}
use kc_jit_public.Api.{Service, Response, write_err}
use kc_jit_public.Api.Create.{
  CreateRequestBody, new_request, create_guard, create_noted, create_stored, create_of,
  handle_create,
}
use kc_jit_public.Api.Approve.{
  Decoded, grant_of, approve_guard, too_late_noted, too_late, grant_noted, grant, approve_found,
  approve_of, handle_approve,
}
use kc_jit_public.Api.Release.{
  may_release, release_of, release_noted, release, release_found, release_by, handle_release,
}
use kc_jit_public.Lifecycle.{Holds}
use kc_jit_public.Lifecycle.Queries.{get-Holds}
use kc_jit_public.Lifecycle.Handlers.{eq_of_same_status}
use kc_jit_public.Members.{Honest, HasGrant, Admits, Backed}
use kc_jit_public.Members.Rows.{Read}
use kc_jit_public.Members.Rules.{
  Leaves, Leaves-lift, Leaves-after, Leaves-before, Leaves-stop_if, Leaves-if, Leaves-call,
  stays_rules, Stays-time_now, Stays-new_id, Stays-actor_of,
}
use kc_jit_public.Members.Calls.{
  NotUser, expire-Leaves, grant-Leaves, release-Leaves, create-Leaves, add-Leaves, remove-Leaves,
}

module _ {K : Type 0} (env : Env K) (svc : Service) (h : Honest env svc) where
  abbrev Safe : World K → Type 0
  Safe = Backed env svc h

  -- The request has been read, and nothing was done since.
  abbrev Found : Request → World K → Type 0
  Found req = Admits env svc h (λ rows. Holds rows req) HasGrant

  abbrev FoundAs : Status → Request → World K → Type 0
  FoundAs status req = Admits env svc h (Read status req) HasGrant

  pub Admits-Backed :
      {Q : List Row → Type 0} (w : World K) → Admits env svc h Q HasGrant w → Backed env svc h w
  Admits-Backed w p = record { keyed = p.keyed; holds = tt; covers = p.covers }

  found_as :
      {A : Type 0} (status : Status) (req : Request) (m : Try K Response A)
      → req.status ≡ status
      → Leaves (FoundAs status req) Safe m
      → Leaves (Found req) Safe m
  found_as status req m has l = record {
    at = λ w p. l.at w (record {
      keyed = p.keyed;
      holds = record { held = p.holds; has = has };
      covers = p.covers;
    });
  }

  Leaves-get :
      {B : Type 0} (e : String → Response) (id : String) (f : Request → Try K Response B)
      → ((req : Request) → Leaves (Found req) Safe (f req))
      → Leaves Safe Safe (lift (query env λ fault. get fault id) >>= λ found. or_stop e found >>= f)
  unfolding query
  Leaves-get e id f k =
      Leaves-call Safe Safe Found _ e f
        (λ w x p bad. record { keyed = p.keyed; holds = tt; covers = p.covers })
        (λ w req p good. record {
          keyed = p.keyed;
          holds = get-Holds (env.fault w.readings) id w.db req good;
          covers = p.covers;
        })
        k

  Keeps-too_late_noted : (req : Request) → Keeps Safe (too_late_noted env svc req)
  unfolding too_late_noted
  Keeps-too_late_noted req = search stays_rules

  too_late-Leaves : (req : Request) → Leaves (FoundAs pending req) Safe (too_late env svc req)
  unfolding too_late
  too_late-Leaves req =
      Leaves-before _ _ _ _ (Leaves-lift _ _ _ (expire-Leaves env svc h req))
        (λ a. Keeps-too_late_noted req)

  Keeps-grant_noted :
      (actor notes : String) (req req' : Request) (written : Result Unit)
      → Keeps Safe (grant_noted env svc actor notes req req' written)
  unfolding grant_noted
  Keeps-grant_noted actor notes req req' written = search stays_rules depth 9

  grant-Safe :
      (actor notes : String) (now : Instant) (req : Request)
      → Leaves (FoundAs pending req) Safe (grant env svc actor notes now req)
  unfolding grant
  grant-Safe actor notes now req = add-Leaves env svc h (Read pending req) req (write_err 502) _ (
      Leaves-before _ _ _ _
        (Leaves-lift _ _ _
          (grant-Leaves env svc h req (grant_of svc actor notes now req) refl refl))
        (Keeps-grant_noted actor notes req (grant_of svc actor notes now req)))

  approve_found-Safe :
      (id actor notes : String) → Leaves Safe Safe (approve_found env svc id actor notes)
  unfolding approve_found
  approve_found-Safe id actor notes = Leaves-get (write_err 404) id _ λ req.
      Leaves-stop_if _ _ _ _ _ Admits-Backed λ is_pending.
        found_as pending req _ (eq_of_same_status req.status pending is_pending) (
          Leaves-after _ _ _ _ Admits-Backed (Keeps-lift _ _ (Stays-time_now env svc h _ _))
            λ now. Leaves-if _ _ _ _ _ (too_late-Leaves req) (grant-Safe actor notes now req))

  Keeps-approve_guard :
      (hs : Headers) (body : Decoded String) → Keeps Safe (approve_guard env svc hs body)
  unfolding approve_guard
  Keeps-approve_guard hs body = search stays_rules depth 15

  pub handle_approve-Safe :
      (hs : Headers) (body : Decoded String) (id : String)
      → Leaves Safe Safe (handle_approve env svc hs body id)
  unfolding handle_approve approve_of
  handle_approve-Safe hs body id = record {
    at =
        (Leaves-after Safe Safe _ _ (λ w p. p) (Keeps-approve_guard hs body)
          λ p. approve_found-Safe id p.0 p.1).at;
  }

  Keeps-create_noted :
      (actor : String) (req : Request) (written : Result Unit)
      → Keeps Safe (create_noted env svc actor req written)
  unfolding create_noted
  Keeps-create_noted actor req written = search stays_rules depth 9

  create_stored-Safe :
      (actor username justification : String)
      → Leaves Safe Safe (create_stored env svc actor username justification)
  unfolding create_stored
  create_stored-Safe actor username justification =
      Leaves-after _ _ _ _ (λ w p. p) (Keeps-lift _ _ (Stays-time_now env svc h _ _))
        λ now.
          Leaves-after _ _ _ _ (λ w p. p) (Keeps-lift _ _ (Stays-new_id env svc h _ _))
            λ id.
              Leaves-before _ _ _ _ (Leaves-lift _ _ _ (create-Leaves env svc h _))
                (Keeps-create_noted actor (new_request svc id username justification now))

  Keeps-create_guard :
      (hs : Headers) (body : Result CreateRequestBody) → Keeps Safe (create_guard env svc hs body)
  unfolding create_guard
  Keeps-create_guard hs body = search stays_rules depth 15

  pub handle_create-Safe :
      (hs : Headers) (body : Result CreateRequestBody)
      → Leaves Safe Safe (handle_create env svc hs body)
  unfolding handle_create create_of
  handle_create-Safe hs body = record {
    at =
        (Leaves-after Safe Safe _ _ (λ w p. p) (Keeps-create_guard hs body)
          λ p. create_stored-Safe p.0 p.1 p.2).at;
  }

  Keeps-release_noted :
      (req : Request) (actor action : String) (written : Result Unit)
      → Keeps Safe (release_noted env svc req actor action written)
  unfolding release_noted
  Keeps-release_noted req actor action written = search stays_rules depth 9

  release-Safe :
      (req : Request) (actor action : String)
      → Leaves (FoundAs approved req) Safe (release env svc req actor action)
  unfolding release
  release-Safe req actor action =
      remove-Leaves env svc h (Read approved req) req (λ m. m) _
        (Leaves-after (Admits env svc h (Read approved req) (NotUser req)) Safe _ _
          (λ w p. record {
            keyed = p.keyed;
            holds = tt;
            covers = λ v member. (p.covers v member).0;
          })
          (Keeps-lift _ _ (Stays-time_now env svc h _ _))
          λ now.
            Leaves-before _ _ _ _
              (Leaves-lift _ _ _
                (release-Leaves env svc h _ req (release_of now req) refl (λ rows r. tt)))
              (Keeps-release_noted (release_of now req) actor action))

  Keeps-may_release :
      (actor : String) (req r : Request)
      → Keeps (FoundAs approved r) (may_release env svc actor req)
  unfolding may_release
  Keeps-may_release actor req r = search stays_rules depth 9

  release_found-Safe : (id actor : String) → Leaves Safe Safe (release_found env svc id actor)
  unfolding release_found
  release_found-Safe id actor = Leaves-get (write_err 404) id _ λ req.
      Leaves-stop_if _ _ _ _ _ Admits-Backed λ is_approved.
        found_as approved req _ (eq_of_same_status req.status approved is_approved) (
          Leaves-after _ _ _ _ Admits-Backed (Keeps-may_release actor req req)
            λ allowed. record { at = (release-Safe req actor "early_release").at })

  pub handle_release-Safe :
      (hs : Headers) (id : String) → Leaves Safe Safe (handle_release env svc hs id)
  unfolding handle_release release_by
  handle_release-Safe hs id = record {
    at =
        (Leaves-after Safe Safe _ _ (λ w p. p)
          (Keeps-lift _ _ (Stays-actor_of env svc h _ _ svc hs)) (release_found-Safe id)).at;
  }
