-- ===== src/Lifecycle/Handlers.antt =====
-- The handlers change the table by steps of the lifecycle.
use kc_jit_public.Base.{String, ◌≡◌, false, not, List, Result, arith, ltb}
use kc_jit_public.Text.{byte_len, is_empty}
use kc_jit_public.Time.{Instant}
use kc_jit_public.Store.{Row, Request, Status, pending, approved, same_status}
use kc_jit_public.World.{Env}
use kc_jit_public.Auth.{Headers}
use kc_jit_public.Api.{Service, write_err}
use kc_jit_public.Api.Create.{
  CreateRequestBody, new_request, create_guard, create_noted, create_stored, create_of,
  handle_create,
}
use kc_jit_public.Api.Approve.{
  Decoded, min_approval_notes_len, grant_of, approve_guard, too_late_noted, too_late, grant_noted,
  grant, approve_found, approve_of, handle_approve,
}
use kc_jit_public.Api.Release.{
  may_release, release_of, release_noted, release, release_found, release_by, handle_release,
}
use kc_jit_public.Lifecycle.{Holds, Change, Changes}
use kc_jit_public.Lifecycle as L
use kc_jit_public.Lifecycle.Rules.{
  Same, same_rules, Same-lift, Same-time_now, Same-add_to_group, Same-actor_of, Same-or_stop,
  Same-new_id, Same-remove_from_group,
}
use kc_jit_public.Lifecycle.Leads.{
  Leads, Passes, Passes-bind, Passes-stop_if, Passes-yield, Leads-bind_after, Leads-lift,
  Leads-bind-Same, Leads-then-Same, Leads-stop_if, Leads-if, Leads-update, Leads-create,
}
use kc_jit_public.Lifecycle.Queries.{Leads-get}

pub eq_of_same_status : (s t : Status) → not (same_status s t) ≡ false → s ≡ t
eq_of_same_status s t h = ground arith

-- Any table.
abbrev pub Anything : List Row → Type 0
Anything rows = Unit

module _ {K : Type 0} (env : Env K) (svc : Service) where
  Same-too_late_noted : (req : Request) → Same (too_late_noted env svc req)
  unfolding too_late_noted
  Same-too_late_noted req = search same_rules

  too_late-Leads :
      (req : Request)
      → req.status ≡ pending
      → Leads svc (λ rows. Holds rows req) (too_late env svc req)
  unfolding too_late
  too_late-Leads req is_pending =
      Leads-then-Same svc _ _ _
        (Leads-lift svc _ _ (Leads-update svc _ env _ (λ rows h. L.expire req h is_pending)))
        (λ a. Same-too_late_noted req)

  pub Same-grant_noted :
      (actor notes : String) (req req' : Request) (written : Result Unit)
      → Same (grant_noted env svc actor notes req req' written)
  unfolding grant_noted
  Same-grant_noted actor notes req req' written = search same_rules depth 9

  grant-Leads :
      (actor notes : String) (now : Instant) (req : Request)
      → req.status ≡ pending
      → is_empty actor ≡ false
      → ltb (byte_len notes) min_approval_notes_len ≡ false
      → Leads svc (λ rows. Holds rows req) (grant env svc actor notes now req)
  unfolding grant
  grant-Leads actor notes now req is_pending named long =
      Leads-bind-Same svc _ _ _ (Same-lift _ (Same-add_to_group env _ _)) λ added.
        Leads-bind-Same svc _ _ _ (Same-or_stop (write_err 502) added) λ done.
          Leads-then-Same svc _ _ _
            (Leads-lift svc _ _ (
              Leads-update svc _ env _
                (λ rows h. L.grant req actor notes now h is_pending named long)))
            (Same-grant_noted actor notes req (grant_of svc actor notes now req))

  approve_found-Leads :
      (id actor notes : String)
      → is_empty actor ≡ false
      → ltb (byte_len notes) min_approval_notes_len ≡ false
      → Leads svc Anything (approve_found env svc id actor notes)
  unfolding approve_found
  approve_found-Leads id actor notes named long =
      Leads-get svc _ env _ _
        (λ req. Leads-stop_if svc _ _ _ _ λ is_pending.
          Leads-bind-Same svc _ _ _ (Same-lift _ (Same-time_now env)) λ now.
            Leads-if svc _ _ _ _
              (λ late. too_late-Leads req (eq_of_same_status req.status pending is_pending))
              (λ in_time.
                grant-Leads actor notes now req (eq_of_same_status req.status pending is_pending)
                  named long))
        id

  approve_guard-Passes :
      (h : Headers) (body : Decoded String)
      → Passes
          (λ p. (is_empty p.0 ≡ false) × (ltb (byte_len p.1) min_approval_notes_len ≡ false))
          (approve_guard env svc h body)
  unfolding approve_guard
  approve_guard-Passes h body = Passes-bind _ _ _ λ actor. Passes-stop_if _ _ _ _ λ named.
      Passes-bind _ _ _ λ asked. Passes-bind _ _ _ λ member. Passes-stop_if _ _ _ _ λ allowed.
        Passes-bind _ _ _ λ raw.
          Passes-stop_if _ _ _ _
            λ given. Passes-stop_if _ _ _ _ λ long. Passes-yield _ _ (named, long)

  pub Same-approve_guard :
      (h : Headers) (body : Decoded String) → Same (approve_guard env svc h body)
  unfolding approve_guard
  Same-approve_guard h body = search same_rules depth 15

  pub handle_approve-Leads :
      (h : Headers) (body : Decoded String) (id : String)
      → Leads svc Anything (handle_approve env svc h body id)
  unfolding handle_approve approve_of
  handle_approve-Leads h body id = record {
    at =
        (Leads-bind_after svc _ _ _ _ (Same-approve_guard h body) (approve_guard-Passes h body)
          λ p q. approve_found-Leads id p.0 p.1 q.0 q.1).at;
  }

  pub Same-create_noted :
      (actor : String) (req : Request) (written : Result Unit)
      → Same (create_noted env svc actor req written)
  unfolding create_noted
  Same-create_noted actor req written = search same_rules depth 9

  create_stored-Leads :
      (actor username justification : String)
      → Leads svc Anything (create_stored env svc actor username justification)
  unfolding create_stored
  create_stored-Leads actor username justification =
      Leads-bind-Same svc _ _ _ (Same-lift _ (Same-time_now env)) λ now.
        Leads-bind-Same svc _ _ _ (Same-lift _ (Same-new_id env)) λ id.
          Leads-then-Same svc _ _ _
            (Leads-lift svc _ _ (
              Leads-create svc _ env _
                (λ rows fresh. L.submit id username justification now fresh)))
            (Same-create_noted actor (new_request svc id username justification now))

  pub Same-create_guard :
      (h : Headers) (body : Result CreateRequestBody) → Same (create_guard env svc h body)
  unfolding create_guard
  Same-create_guard h body = search same_rules depth 15

  pub handle_create-Leads :
      (h : Headers) (body : Result CreateRequestBody)
      → Leads svc Anything (handle_create env svc h body)
  unfolding handle_create create_of
  handle_create-Leads h body = record {
    at =
        (Leads-bind-Same svc _ _ _ (Same-create_guard h body)
          λ p. create_stored-Leads p.0 p.1 p.2).at;
  }

  pub Same-release_noted :
      (req : Request) (actor action : String) (written : Result Unit)
      → Same (release_noted env svc req actor action written)
  unfolding release_noted
  Same-release_noted req actor action written = search same_rules depth 9

  release-Leads :
      (req : Request) (actor action : String)
      → req.status ≡ approved
      → Leads svc (λ rows. Holds rows req) (release env svc req actor action)
  unfolding release
  release-Leads req actor action is_approved =
      Leads-bind-Same svc _ _ _ (Same-lift _ (Same-remove_from_group env _ _)) λ removed.
        Leads-bind-Same svc _ _ _ (Same-or_stop (λ m. m) removed) λ done.
          Leads-bind-Same svc _ _ _ (Same-lift _ (Same-time_now env)) λ now.
            Leads-then-Same svc _ _ _
              (Leads-lift svc _ _
                (Leads-update svc _ env _ (λ rows h. L.release req now h is_approved)))
              (Same-release_noted (release_of now req) actor action)

  pub Same-may_release : (actor : String) (req : Request) → Same (may_release env svc actor req)
  unfolding may_release
  Same-may_release actor req = search same_rules depth 9

  release_found-Leads : (id actor : String) → Leads svc Anything (release_found env svc id actor)
  unfolding release_found
  release_found-Leads id actor =
      Leads-get svc _ env _ _
        (λ req. Leads-stop_if svc _ _ _ _ λ is_approved.
          Leads-bind-Same svc _ _ _ (Same-may_release actor req) λ allowed. record {
            at =
                (release-Leads req actor "early_release"
                  (eq_of_same_status req.status approved is_approved)).at;
          })
        id

  pub handle_release-Leads :
      (h : Headers) (id : String) → Leads svc Anything (handle_release env svc h id)
  unfolding handle_release release_by
  handle_release-Leads h id = record {
    at =
        (Leads-bind-Same svc _ _ _ (Same-lift _ (Same-actor_of env svc h))
          (release_found-Leads id)).at;
  }
