-- ===== src/Lifecycle/Reconcile.antt =====
-- `Reconcile` changes the table by steps of the lifecycle.
use kc_jit_public.Base.{
  suc, ◌≡◌, refl, sym, ◌∙◌, ◌⊎◌, inl, inr, List, [], ◌∷◌, none, some, Result, ok, err, Option-cases,
}
use mathlib.Core.Path.{subst}
use kc_jit_public.Time.{Instant}
use kc_jit_public.Store.{Row, Request, pending, approved, Db, Fault}
use kc_jit_public.Store.Requests.{find, update, update_rows, pending_expired, active_expired}
use kc_jit_public.Store.Keys.{Keyed}
use kc_jit_public.World.{Env, World, time_now, exec, remove_from_group}
use kc_jit_public.Api.{Service}
use kc_jit_public.Api.Approve.{expire_of}
use kc_jit_public.Api.Release.{release_of}
use kc_jit_public.Api.Reconcile.{
  expire_noted, expire_one, expire_all, revoke_noted, revoke_removed, revoke_one, revoke_all,
  reconcile,
}
use kc_jit_public.Lifecycle.{Changes, Changes-trans, none_made, and_then, expire, release}
use kc_jit_public.Lifecycle.Rules.{
  rows_of, Same, Same-lift, Same-time_now, Same-audit, Same-send, Same-request_expired,
  Same-released,
}
use kc_jit_public.Lifecycle.Leads.{Leads, no_change, Leads-lift, Leads-bind-Same}
use kc_jit_public.Lifecycle.Queries.{Leads-query, Leads-seq}
use kc_jit_public.Lifecycle.Keyed.{Changes-Keyed}
use kc_jit_public.Lifecycle.Loops.{Pending, Pending-update_rows, by_status_before-Pending}

update-rows :
    (fault : Fault) (req : Request) (db : Db)
    → ((update fault req db).1.requests ≡ db.requests)
      ⊎ ((update fault req db).1.requests ≡ update_rows req db.requests)
unfolding update
update-rows (some m) req db = inl refl
update-rows none req db = elim (Option-cases (find req.id db.requests)) [
  | inl missing ↦ inl (rw missing refl)
  | inr (row, found) ↦ inr (rw found refl)
]

module _ {K : Type 0} (env : Env K) (svc : Service) where
  pub Same-expire_noted : (req : Request) (r : Result Unit) → Same (expire_noted env svc req r)
  unfolding expire_noted
  Same-expire_noted req (err m) = record { at = λ w. refl }
  Same-expire_noted req (ok u) = record {
    at = λ w.
        (Same-send svc.notify _ (λ n. Same-request_expired env n (expire_of req))).at _
        ∙ (Same-audit env svc _ _ _ _ _ _ _).at w;
  }

  expire_one-rows :
      (req : Request) (w : World K)
      → (rows_of (expire_one env svc req w).1 ≡ rows_of w)
        ⊎ (rows_of (expire_one env svc req w).1 ≡ update_rows (expire_of req) (rows_of w))
  unfolding expire_one exec
  expire_one-rows req w =
      let fault = env.fault w.readings in
      rw ((Same-expire_noted req (update fault (expire_of req) w.db).0).at _)
        (update-rows fault (expire_of req) w.db)

  expire_all-Changes :
      (reqs : List Request) (w : World K)
      → Pending pending (rows_of w) reqs
      → Changes svc (rows_of w) (rows_of (expire_all env svc reqs w).1)
  unfolding expire_all
  expire_all-Changes [] w h = none_made
  expire_all-Changes (req ∷ reqs) w h = elim (expire_one-rows req w) [
    | inl same ↦
        Changes-trans svc (no_change svc same)
          (expire_all-Changes reqs (expire_one env svc req w).1 (rw same h.3))
    | inr written ↦
        Changes-trans svc
          (subst (Changes svc (rows_of w)) (sym written) (and_then none_made (expire req h.0 h.1)))
          (expire_all-Changes reqs (expire_one env svc req w).1
            (rw written (Pending-update_rows pending (rows_of w) reqs (expire_of req) h.2 h.3)))
  ]

  pub Same-revoke_noted : (req : Request) (r : Result Unit) → Same (revoke_noted env svc req r)
  unfolding revoke_noted
  Same-revoke_noted req (err m) = record { at = λ w. refl }
  Same-revoke_noted req (ok u) = record {
    at = λ w.
        (Same-send svc.notify _ (λ n. Same-released env n req "expire")).at _
        ∙ (Same-audit env svc _ _ _ _ _ _ _).at w;
  }

  -- A round that revokes a grant writes it once, or not at all.
  abbrev Revoked : Request → List Row → List Row → Type 0
  Revoked req rows rows' =
      (rows' ≡ rows) ⊎ ((now : Instant) × (rows' ≡ update_rows (release_of now req) rows))

  stamped :
      {rows rows' : List Row} (req : Request) (now : Instant)
      → (rows' ≡ rows) ⊎ (rows' ≡ update_rows (release_of now req) rows)
      → Revoked req rows rows'
  stamped req now (inl same) = inl same
  stamped req now (inr written) = inr (now, written)

  revoke_removed-rows :
      (req : Request) (r : Result Unit) (w : World K)
      → Revoked req (rows_of w) (rows_of (revoke_removed env svc req r w).1)
  unfolding revoke_removed exec time_now
  revoke_removed-rows req (err m) w = inl refl
  revoke_removed-rows req (ok u) w =
      let now = env.now w.readings in
      let fault = env.fault (suc w.readings) in
      stamped req now (
        rw
          ((Same-revoke_noted (release_of now req) (update fault (release_of now req) w.db).0).at _)
          (update-rows fault (release_of now req) w.db))

  revoke_one-rows :
      (req : Request) (w : World K) → Revoked req (rows_of w) (rows_of (revoke_one env svc req w).1)
  unfolding revoke_one remove_from_group
  revoke_one-rows req w = revoke_removed-rows req _ _

  revoke_all-Changes :
      (reqs : List Request) (w : World K)
      → Pending approved (rows_of w) reqs
      → Changes svc (rows_of w) (rows_of (revoke_all env svc reqs w).1)
  unfolding revoke_all
  revoke_all-Changes [] w h = none_made
  revoke_all-Changes (req ∷ reqs) w h = elim (revoke_one-rows req w) [
    | inl same ↦
        Changes-trans svc (no_change svc same)
          (revoke_all-Changes reqs (revoke_one env svc req w).1 (rw same h.3))
    | inr (now, written) ↦
        Changes-trans svc
          (subst (Changes svc (rows_of w)) (sym written)
            (and_then none_made (release req now h.0 h.1)))
          (revoke_all-Changes reqs (revoke_one env svc req w).1 (
            rw written
              (Pending-update_rows approved (rows_of w) reqs (release_of now req) h.2 h.3)))
  ]

  expire_all-Leads :
      (reqs : List Request)
      → Leads svc (λ rows. Keyed rows × Pending pending rows reqs) (expire_all env svc reqs)
  expire_all-Leads reqs = record { at = λ w h. expire_all-Changes reqs w h.1 }

  revoke_all-Leads :
      (reqs : List Request)
      → Leads svc (λ rows. Keyed rows × Pending approved rows reqs) (revoke_all env svc reqs)
  revoke_all-Leads reqs = record { at = λ w h. revoke_all-Changes reqs w h.1 }

  -- A tick of the worker, on a table with distinct ids.
  pub reconcile-Leads : Leads svc Keyed (reconcile env svc)
  unfolding reconcile pending_expired active_expired
  reconcile-Leads = Leads-bind-Same svc _ _ _ (Same-lift _ (Same-time_now env)) λ now.
      Leads-query svc Keyed env (λ m. m) _ _ (λ reqs rows. Keyed rows × Pending pending rows reqs)
        (λ fault db reqs k found. (k, by_status_before-Pending fault pending _ now db reqs k found))
        λ due.
          Leads-seq svc _ Keyed _ _ (Leads-lift svc _ _ (expire_all-Leads due))
            (λ rows rows' c h. Changes-Keyed svc c h.0)
            λ done.
              Leads-query svc Keyed env (λ m. m) _ _
                (λ reqs rows. Keyed rows × Pending approved rows reqs)
                (λ fault db reqs k found.
                  (k, by_status_before-Pending fault approved _ now db reqs k found))
                λ over. Leads-lift svc _ _ (revoke_all-Leads over)
