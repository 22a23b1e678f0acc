-- ===== src/Lifecycle/Complete.antt =====
-- What the columns of a row say, by its status.
use kc_jit_public.Base.{
  String, ◌≡◌, refl, ◌≢◌, ◌⊎◌, inl, inr, false, List, [], ◌∷◌, some, arith, ◌==◌, All, All-append,
  Bool-cases,
}
use kc_jit_public.Text.{is_empty}
use kc_jit_public.Time.{Instant, add}
use kc_jit_public.Time.Format.{format}
use kc_jit_public.Store.{Request, Row, pending, approved, expired, released, denied}
use kc_jit_public.Store.Requests.{null_str, to_row, set_columns, update_rows}
use kc_jit_public.Store.Keys.{Keyed}
use kc_jit_public.World.{Env, World}
use kc_jit_public.Api.{Service}
use kc_jit_public.Router.{Event, serve}
use kc_jit_public.Lifecycle.{Change, Changes, submit, expire, grant, release, none_made, and_then}
use kc_jit_public.Lifecycle.Rules.{rows_of}
use kc_jit_public.Lifecycle.Serve.{serve-Changes}

-- The columns of a grant: when it was approved and by whom, and when it runs out, which is the
-- configured time after the approval.
pub record IsGrant (svc : Service) (row : Row) : Type 0 where
  pub now : Instant
  pub approver : String
  pub named : is_empty approver ≡ false
  pub approved_at : row.approved_at ≡ some (format now)
  pub approved_by : row.approved_by ≡ some approver
  pub active_expires_at : row.active_expires_at ≡ some (format (add now svc.cfg.active_ttl))

-- A granted row has the columns of a grant, and no request is ever denied.
pub record IsComplete (svc : Service) (row : Row) : Type 0 where
  pub grant_columns : row.status ≡ approved → IsGrant svc row
  pub not_denied : row.status ≢ denied

All-update_rows :
    (P : Row → Type 0) (r : Request) (rows : List Row)
    → ((row : Row) → P row → P (set_columns r row))
    → All P rows
    → All P (update_rows r rows)
unfolding update_rows
All-update_rows P r [] k h = tt
All-update_rows P r (row ∷ rows) k h = elim (Bool-cases (row.id == r.id)) [
  | inl this ↦ rw this (k row h.0, All-update_rows P r rows k h.1)
  | inr other ↦ rw other (h.0, All-update_rows P r rows k h.1)
]

module _ (svc : Service) where
  not_granted :
      (row : Row)
      → (row.status ≡ pending) ⊎ ((row.status ≡ expired) ⊎ (row.status ≡ released))
      → IsComplete svc row
  not_granted row h = record {
    grant_columns = λ e. absurd (ground arith);
    not_denied = λ e. ground arith;
  }

  null_str_named : (s : String) → is_empty s ≡ false → null_str s ≡ some s
  unfolding null_str
  null_str_named s h = rw h

  Change-Complete :
      {rows rows' : List Row}
      → Change svc rows rows'
      → All (IsComplete svc) rows
      → All (IsComplete svc) rows'
  unfolding to_row set_columns
  Change-Complete {rows} (submit id u j now fresh) h =
      All-append (IsComplete svc) rows _ h (not_granted _ (inl refl), tt)
  Change-Complete {rows} (expire req held p) h =
      All-update_rows (IsComplete svc) _ rows (λ row k. not_granted _ (inr (inl refl))) h
  Change-Complete {rows} (grant req actor notes now held p named long) h =
      All-update_rows (IsComplete svc) _ rows
        (λ row k. record {
          grant_columns = λ e. record {
            now = now;
            approver = actor;
            named = named;
            approved_at = refl;
            approved_by = null_str_named actor named;
            active_expires_at = refl;
          };
          not_denied = λ e. cc;
        })
        h
  Change-Complete {rows} (release req now held p) h =
      All-update_rows (IsComplete svc) _ rows (λ row k. not_granted _ (inr (inr refl))) h

  Changes-Complete :
      {rows rows' : List Row}
      → Changes svc rows rows'
      → All (IsComplete svc) rows
      → All (IsComplete svc) rows'
  Changes-Complete none_made h = h
  Changes-Complete (and_then cs c) h = Change-Complete c (Changes-Complete cs h)

-- From a table with distinct ids whose rows are complete (the empty table, for one), any history of
-- the service ends in such a table: each granted row names its approver and the instant at which the
-- grant runs out, so that the revocation query can find it, and no row is denied.
pub serve-Complete :
    {K : Type 0} (env : Env K) (svc : Service) (es : List Event) (w : World K)
    → Keyed (rows_of w)
    → All (IsComplete svc) (rows_of w)
    → All (IsComplete svc) (rows_of (serve env svc es w))
serve-Complete env svc es w keyed h = Changes-Complete svc (serve-Changes env svc es w keyed).0 h
