-- ===== src/Interleaved/Overtaken.antt =====
-- An expiry that was read before the request was answered otherwise.
use kc_jit_public.Base.{
  String, ◌≡◌, refl, ap, ◌∙◌, inl, List, ◌∷◌, Option, none, some, Result, ok, err, arith,
}
use kc_jit_public.Time.{Instant}
use kc_jit_public.Store.{Row, Request}
use kc_jit_public.Store.Requests.{find, update, update_rows, set_columns}
use kc_jit_public.Store.Keys.{Keyed, map_row, find-update_rows_self, update_rows-Keyed}
use kc_jit_public.Store.Written.{update-rows_run}
use kc_jit_public.World.{Env, World, exec, time_now}
use kc_jit_public.Notify as N
use kc_jit_public.Notify.{Notifier}
use kc_jit_public.Api.{Service, send_or_not, audit}
use kc_jit_public.Api.Approve.{expire_of}
use kc_jit_public.Api.Reconcile.{expire_noted, expire_one}
use kc_jit_public.Router.{Event, serve}
use kc_jit_public.Lifecycle.Rules.{rows_of}
use kc_jit_public.Lifecycle.Reconcile.{Same-expire_noted}
use kc_jit_public.Lifecycle.Ended.{serve_ended}
use kc_jit_public.Interleaved.{expiring, work}

module _ {K : Type 0} (env : Env K) (svc : Service) where
  notify_once-kc :
      (n : Notifier) (request_id kind text : String) (w : World K)
      → (N.notify_once env n request_id kind text w).1.kc ≡ w.kc
  unfolding N.notify_once N.send_marked exec
  notify_once-kc n request_id kind text w = ground arith

  send-kc :
      (n : Option Notifier) (r : Request) (w : World K)
      → (send_or_not n (λ m. N.request_expired env m r) w).1.kc ≡ w.kc
  unfolding N.request_expired
  send-kc none r w = refl
  send-kc (some n) r w = notify_once-kc n _ _ _ w

  expire_noted-kc :
      (req : Request) (r : Result (Unit {0})) (w : World K)
      → (expire_noted env svc req r w).1.kc ≡ w.kc
  unfolding expire_noted audit time_now exec
  expire_noted-kc req (err m) w = refl
  expire_noted-kc req (ok u) w = send-kc svc.notify (expire_of req) _

  -- A turn of the loop over the requests that ran out, when the engine runs its statement, writes the
  -- row of a table with distinct ids, whatever this row has become since the request was read, a grant
  -- too. It asks Keycloak nothing, and after every further history the row is the expired one, with
  -- the columns as they were read.
  pub stale_expiry :
      (req : Request) (reqs : List Request) (now : Instant) (w : World K) (row : Row)
      (es : List Event)
      → Keyed (rows_of w)
      → find req.id (rows_of w) ≡ some row
      → env.fault w.readings ≡ none
      → ((work env svc (expiring now (req ∷ reqs)) w).world.kc ≡ w.kc)
        × (find req.id
              (rows_of (serve env svc es (work env svc (expiring now (req ∷ reqs)) w).world))
            ≡ some (set_columns (expire_of req) row))
  unfolding work expire_one exec set_columns
  stale_expiry req reqs now w row es keyed found runs =
      let w' = (exec env (λ fault. update fault (expire_of req)) w).1 in
      let written = (update (env.fault w.readings) (expire_of req) w.db).0 in
      let rows : rows_of (expire_one env svc req w).1 ≡ update_rows (expire_of req) (rows_of w) =
        (Same-expire_noted env svc req written).at w'
        ∙ rw runs (update-rows_run (expire_of req) w.db) in
      let here : find req.id (rows_of (expire_one env svc req w).1)
          ≡ some (set_columns (expire_of req) row) =
        rw rows (
          find-update_rows_self (expire_of req) (rows_of w)
          ∙ ap (map_row (set_columns (expire_of req))) found) in
      (
        expire_noted-kc req written w',
        serve_ended env svc es (expire_one env svc req w).1 req.id (set_columns (expire_of req) row)
            (rw rows (update_rows-Keyed (expire_of req) (rows_of w) keyed)) here (inl refl),
      )
