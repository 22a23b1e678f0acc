-- ===== src/Settled/Reconcile.antt =====
-- A round of `Reconcile` in which the engine and Keycloak answer without errors.
use kc_jit_public.Base.{ℕ, suc, String, ◌≡◌, refl, ◌∙◌, List, [], ◌∷◌, Option, none, some, ok, All}
use kc_jit_public.Time.{Instant}
use kc_jit_public.Time.Format.{Bytes, format}
use kc_jit_public.Store.{Row, Request, Db, pending, approved}
use kc_jit_public.Store.Requests.{
  scan_all, update, update_rows, by_status_before, pending_expired, active_expired,
}
use kc_jit_public.World.{Env, World, time_now, exec, query, remove_from_group}
use kc_jit_public.World.Try.{Step, next, continue, ◌>>=◌, lift, or_stop}
use kc_jit_public.Api.{Service}
use kc_jit_public.Api.Approve.{expire_of}
use kc_jit_public.Api.Release.{release_of}
use kc_jit_public.Api.Reconcile.{
  expire_one, expire_all, revoke_removed, revoke_one, revoke_all, reconcile,
}
use kc_jit_public.Store.Scans.{All-filter}
use kc_jit_public.Lifecycle.Rules.{rows_of}
use kc_jit_public.Lifecycle.Reconcile.{Same-expire_noted, Same-revoke_noted}
use kc_jit_public.Store.Written.{update-rows_run}
use kc_jit_public.Settled.Rows.{
  IsReadable, update_rows-IsReadable, scan_all-ok, due, Covered, IsSettled, scan_all-Covered,
  update_rows-Covered, update_rows-IsSettled, Covered-IsSettled, filter-IsSettled,
}

-- The columns that the two queries compare.
abbrev request_end : Row → Option Bytes
request_end row = some row.request_expires_at

abbrev grant_end : Row → Option Bytes
grant_end row = row.active_expires_at

-- The engine runs every statement, and Keycloak takes a user out of a group whenever it is asked.
pub record Answers {K : Type 0} (env : Env K) : Type 0 where
  pub runs : (n : ℕ) → env.fault n ≡ none
  pub removes :
      (user group : String) (kc : K) → (env.groups.remove_from_group user group kc).0 ≡ ok tt

module _ {K : Type 0} (env : Env K) (svc : Service) (h : Answers env) (now : Instant) where
  -- The conditions of the two queries.
  abbrev Waits : List Row → Type 0
  Waits = IsSettled pending request_end (format now)

  abbrev Runs : List Row → Type 0
  Runs = IsSettled approved grant_end (format now)

  expire_one-rows_run :
      (req : Request) (w : World K)
      → rows_of (expire_one env svc req w).1 ≡ update_rows (expire_of req) (rows_of w)
  unfolding expire_one exec
  expire_one-rows_run req w =
      (Same-expire_noted env svc req (update (env.fault w.readings) (expire_of req) w.db).0).at _
      ∙ rw (h.runs w.readings) (update-rows_run (expire_of req) w.db)

  revoke_one-rows_run :
      (req : Request) (w : World K)
      → rows_of (revoke_one env svc req w).1
        ≡ update_rows (release_of (env.now w.readings) req) (rows_of w)
  unfolding revoke_one revoke_removed exec time_now remove_from_group
  revoke_one-rows_run req w =
      let now' = env.now w.readings in
      let written : (update (env.fault (suc w.readings)) (release_of now' req) w.db).1.requests
          ≡ update_rows (release_of now' req) (rows_of w) =
        rw (h.runs (suc w.readings)) (update-rows_run (release_of now' req) w.db) in
      rw (h.removes req.username svc.cfg.group_active w.kc) (
        (Same-revoke_noted env svc (release_of now' req)
            (update (env.fault (suc w.readings)) (release_of now' req) w.db).0).at
          _
        ∙ written)

  expire_all-IsSettled :
      (reqs : List Request) (w : World K)
      → All IsReadable (rows_of w)
      → Covered pending request_end (format now) reqs (rows_of w)
      → All IsReadable (rows_of (expire_all env svc reqs w).1)
        × Waits (rows_of (expire_all env svc reqs w).1)
  unfolding expire_all
  expire_all-IsSettled [] w r c =
      (r, Covered-IsSettled pending request_end (format now) (rows_of w) c)
  expire_all-IsSettled (req ∷ reqs) w r c =
      let w' = (expire_one env svc req w).1 in
      let same = expire_one-rows_run req w in
      expire_all-IsSettled reqs w' (rw same (update_rows-IsReadable (expire_of req) (rows_of w) r))
        (rw same (
          update_rows-Covered pending request_end (format now) (expire_of req) reqs (rows_of w) refl
            c))

  revoke_all-IsSettled :
      (reqs : List Request) (w : World K)
      → Waits (rows_of w)
      → Covered approved grant_end (format now) reqs (rows_of w)
      → Waits (rows_of (revoke_all env svc reqs w).1) × Runs (rows_of (revoke_all env svc reqs w).1)
  unfolding revoke_all
  revoke_all-IsSettled [] w s c =
      (s, Covered-IsSettled approved grant_end (format now) (rows_of w) c)
  revoke_all-IsSettled (req ∷ reqs) w s c =
      let w' = (revoke_one env svc req w).1 in
      let same = revoke_one-rows_run req w in
      revoke_all-IsSettled reqs w'
        (rw same (
          update_rows-IsSettled pending request_end (format now)
            (release_of (env.now w.readings) req) (rows_of w) refl s))
        (rw same (
          update_rows-Covered approved grant_end (format now) (release_of (env.now w.readings) req)
            reqs (rows_of w) refl c))

  settled-queries :
      (db : Db)
      → Waits db.requests
      → Runs db.requests
      → (pending_expired none now db ≡ ok []) × (active_expired none now db ≡ ok [])
  unfolding pending_expired active_expired by_status_before scan_all
  settled-queries db waits runs = (
    rw (filter-IsSettled pending request_end (format now) db.requests waits) refl,
    rw (filter-IsSettled approved grant_end (format now) db.requests runs) refl,
  )

module _ {K : Type 0} (env : Env K) (svc : Service) where
  -- The world after the first loop, and after the second query.
  abbrev expired_all : List Request → World K → World K
  expired_all reqs w = (expire_all env svc reqs (record w { readings = suc (suc w.readings) })).1

  abbrev queried : List Request → World K → World K
  queried reqs w = record (expired_all reqs w) { readings = suc (expired_all reqs w).readings }

  -- A round goes on to its end when both queries answer.
  reconcile-run :
      (waiting over : List Request) (w : World K)
      → pending_expired (env.fault (suc w.readings)) (env.now w.readings) w.db ≡ ok waiting
      → active_expired
          (env.fault (expired_all waiting w).readings)
          (env.now w.readings)
          (expired_all waiting w).db
        ≡ ok over
      → ◌≡◌ {A = Step String Unit × World K}
          (reconcile env svc w)
          (next tt, (revoke_all env svc over (queried waiting w)).1)
  unfolding reconcile ◌>>=◌ continue lift or_stop query time_now
  reconcile-run waiting over w found found' = rw (found, found') refl

  -- When the engine runs every statement, Keycloak takes users out of groups, and the times of all rows
  -- can be read, a round of `Reconcile` ends without an error, and at the time that it read neither
  -- query finds a row any more.
  pub reconcile_settles :
      (h : Answers env) (w : World K)
      → All IsReadable (rows_of w)
      → ((reconcile env svc w).0 ≡ next tt)
        × (pending_expired none (env.now w.readings) (reconcile env svc w).1.db ≡ ok [])
        × (active_expired none (env.now w.readings) (reconcile env svc w).1.db ≡ ok [])
  unfolding pending_expired active_expired by_status_before
  reconcile_settles h w readable =
      let now = env.now w.readings in
      let w₁ : World K = record w { readings = suc (suc w.readings) } in
      let (waiting, found) =
        scan_all-ok _
          (All-filter (due pending request_end (format now)) IsReadable (rows_of w) readable) in
      let cov = scan_all-Covered pending request_end (format now) (rows_of w) waiting found in
      let (readable', waits) = expire_all-IsSettled env svc h now waiting w₁ readable cov in
      let w₂ = expired_all waiting w in
      let (over, found') =
        scan_all-ok _
          (All-filter (due approved grant_end (format now)) IsReadable (rows_of w₂) readable') in
      let cov' = scan_all-Covered approved grant_end (format now) (rows_of w₂) over found' in
      let (waits', runs') =
        revoke_all-IsSettled env svc h now over (queried waiting w) waits cov' in
      let run =
        reconcile-run waiting over w (rw (h.runs (suc w.readings)) found)
          (rw (h.runs w₂.readings) found') in
      let (none_waits, none_runs) =
        settled-queries env svc h now (revoke_all env svc over (queried waiting w)).1.db waits'
          runs' in
      rw run (refl, none_waits, none_runs)
