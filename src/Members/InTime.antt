-- ===== src/Members/InTime.antt =====
-- A round of the worker leaves in the group only users whose grant has time to go.
use mathlib.Core.Path.{subst}
use mathlib.Core.Option.{some-injective}
use kc_jit_public.Base.{
  String, ◌/◌, ◌≤◌, ◌<◌, ◌≡◌, refl, Bool, true, false, ◌&&◌, List, [], ◌∷◌, none, some, ok, arith,
  ◌==◌, filter, All, Bool-cases, inl, inr,
}
use kc_jit_public.Time.{second, Instant, add}
use kc_jit_public.Time.Format.{format}
use kc_jit_public.Time.Format.Order.{end_of_years, not_text_le-second}
use kc_jit_public.Store.{Row, Db, approved, same_status}
use kc_jit_public.Store.Requests.{find, not_after, scan_all, by_status_before, active_expired}
use kc_jit_public.Store.Scans.{scan_all-cons}
use kc_jit_public.World.{Env, World}
use kc_jit_public.World.Try.{next}
use kc_jit_public.Api.{Service}
use kc_jit_public.Api.Reconcile.{reconcile}
use kc_jit_public.Router.{Event, tick, serve, handle}
use kc_jit_public.Lifecycle.Rules.{rows_of}
use kc_jit_public.Lifecycle.Complete.{IsComplete, serve-Complete}
use kc_jit_public.Settled.Rows.{IsReadable}
use kc_jit_public.Settled.Reconcile.{Answers, reconcile_settles}
use kc_jit_public.Members.{Honest, Backed, HasGrant}
use kc_jit_public.Members.Serve.{serve-Backed}

-- The user has a grant, which ends the configured time after its approval, and in no earlier second
-- than the instant.
pub record InTime (svc : Service) (now : Instant) (rows : List Row) (v : String) : Type 0 where
  pub grant : HasGrant rows v
  pub begun : Instant
  pub approved_at : grant.row.approved_at ≡ some (format begun)
  pub active_expires_at : grant.row.active_expires_at ≡ some (format (add begun svc.cfg.active_ttl))
  pub runs : now / second ≤ add begun svc.cfg.active_ttl / second

All-find :
    (P : Row → Type 0) (id : String) (rows : List Row) {row : Row}
    → All P rows
    → find id rows ≡ some row
    → P row
unfolding find
All-find P id [] h found = cc
All-find P id (r ∷ rows) {row} h found = elim (Bool-cases (r.id == id)) [
  | inl this ↦ subst P (some-injective r row (rw this at found)) h.0
  | inr other ↦ All-find P id rows {row = row} h.1 (ground arith)
]

scan_all-nil : (rows : List Row) → scan_all rows ≡ ok [] → rows ≡ []
unfolding scan_all
scan_all-nil [] h = refl
scan_all-nil (row ∷ rows) h = let (r, rs, here, later, both) = scan_all-cons row rows [] h in cc

filter-nil :
    (p : Row → Bool) (rows : List Row) → filter p rows ≡ [] → All (λ row. p row ≡ false) rows
filter-nil p [] h = tt
filter-nil p (row ∷ rows) h = elim (Bool-cases (p row)) [
  | inl kept ↦ cc (rw kept at h)
  | inr left ↦ (left, filter-nil p rows (rw left at h))
]

-- A grant that the query does not find has time to go.
not_expired :
    (now : Instant) (db : Db) (id : String) (row : Row)
    → active_expired none now db ≡ ok []
    → find id db.requests ≡ some row
    → row.status ≡ approved
    → not_after row.active_expires_at (format now) ≡ false
unfolding active_expired by_status_before
not_expired now db id row h found granted =
    let over : Row → Bool =
      λ (r : Row). same_status r.status approved && not_after r.active_expires_at (format now) in
    let late =
      All-find (λ r. over r ≡ false) id db.requests
        (filter-nil over db.requests (scan_all-nil (filter over db.requests) h)) found in
    rw granted at late

module _ {K : Type 0} (env : Env K) (svc : Service) (h : Honest env svc) where
  -- After every history of HTTP requests and ticks, one after the other, from a table with distinct ids
  -- whose rows are complete and an active group whose members each have an approved request, where the
  -- times of all rows can be read, the engine runs every statement and Keycloak's calls do what they
  -- answer and take users out whenever they are asked: a round of `Reconcile` ends without an error, and
  -- who is in the group then has an approved request, which ends the configured time after its
  -- approval and in no earlier second than the time that the round has read, if this is before the year
  -- 10000.
  pub round-InTime :
      Answers env
      → (es : List Event) (w : World K) (v : String) → Backed env svc h w
      → All (IsComplete svc) (rows_of w)
      → All IsReadable (rows_of (serve env svc es w))
      → env.now (serve env svc es w).readings < end_of_years
      → h.is_active (reconcile env svc (serve env svc es w)).1.kc v ≡ true
      → ((reconcile env svc (serve env svc es w)).0 ≡ next tt)
        × InTime svc
            (env.now (serve env svc es w).readings)
            (rows_of (reconcile env svc (serve env svc es w)).1)
            v
  unfolding serve handle
  round-InTime a es w v b complete readable early member =
      let w₁ = serve env svc es w in
      let b₁ = serve-Backed env svc h es w b in
      let g = (serve-Backed env svc h (tick ∷ []) w₁ b₁).covers v member in
      let full : All (IsComplete svc) (rows_of (reconcile env svc w₁).1) =
        serve-Complete env svc (tick ∷ []) w₁ b₁.keyed
          (serve-Complete env svc es w b.keyed complete) in
      let columns = (All-find (IsComplete svc) g.row.id _ full g.found).grant_columns g.granted in
      let (went, waits, over) = reconcile_settles env svc a w₁ readable in
      let late =
        not_expired (env.now w₁.readings) (reconcile env svc w₁).1.db g.row.id g.row over g.found
          g.granted in
      (
        went,
        record {
          grant = g;
          begun = columns.now;
          approved_at = columns.approved_at;
          active_expires_at = columns.active_expires_at;
          runs = not_text_le-second _ _ early (rw columns.active_expires_at at late);
        },
      )
