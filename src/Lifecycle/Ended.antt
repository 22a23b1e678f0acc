-- ===== src/Lifecycle/Ended.antt =====
-- A request that has expired or was released is over: nothing writes its row again.
use kc_jit_public.Base.{String, ◌≡◌, refl, sym, ap, ◌∙◌, ◌⊎◌, List, some, arith}
use mathlib.Core.Option.{some-injective}
use kc_jit_public.Store.{Request, Row, Status, pending, approved, expired, released}
use kc_jit_public.Store.Requests.{find, update_rows}
use kc_jit_public.Store.Keys.{Keyed, find-append, find-update_rows_ne}
use kc_jit_public.Store.Scans.{scan_request-status}
use kc_jit_public.World.{Env, World}
use kc_jit_public.Api.{Service}
use kc_jit_public.Router.{Event, serve}
use kc_jit_public.Lifecycle.{
  Holds, Change, Changes, submit, expire, grant, release, none_made, and_then,
}
use kc_jit_public.Lifecycle.Rules.{rows_of}
use kc_jit_public.Lifecycle.Serve.{serve-Changes}

abbrev pub IsEnded : Status → Type 0
IsEnded s = (s ≡ expired) ⊎ (s ≡ released)

-- The row of the request that is held has the request's status.
Holds-status :
    (id : String) (row : Row) (rows : List Row) (req : Request)
    → Holds rows req
    → req.id ≡ id
    → find id rows ≡ some row
    → row.status ≡ req.status
Holds-status id row rows req h same found =
    let one : h.row ≡ row =
      some-injective h.row row (sym h.found ∙ (ap (λ i. find i rows) same ∙ found)) in
    rw (← one) (sym (scan_request-status h.row req h.scanned))

-- A statement on a request that goes on does not touch one that has ended.
update-Ended :
    (id : String) (row : Row) (rows : List Row) (req written : Request)
    → Holds rows req
    → written.id ≡ req.id
    → ¬ IsEnded req.status
    → IsEnded row.status
    → find id rows ≡ some row
    → find id (update_rows written rows) ≡ some row
update-Ended id row rows req written h same open_still ended found =
    find-update_rows_ne id written rows
      (λ this. open_still (rw (Holds-status id row rows req h (sym same ∙ this) found) at ended))
    ∙ found

pending-not-Ended : (s : Status) → s ≡ pending → ¬ IsEnded s
pending-not-Ended s p h = ground arith

approved-not-Ended : (s : Status) → s ≡ approved → ¬ IsEnded s
approved-not-Ended s p h = ground arith

module _ (svc : Service) where
  Change-Ended :
      {rows rows' : List Row} (id : String) (row : Row)
      → Change svc rows rows'
      → IsEnded row.status
      → find id rows ≡ some row
      → find id rows' ≡ some row
  Change-Ended {rows} id row (submit new u j now fresh) e found = rw find-append (rw found refl)
  Change-Ended {rows} id row (expire req h p) e found =
      update-Ended id row rows req _ h refl (pending-not-Ended _ p) e found
  Change-Ended {rows} id row (grant req actor notes now h p named long) e found =
      update-Ended id row rows req _ h refl (pending-not-Ended _ p) e found
  Change-Ended {rows} id row (release req now h p) e found =
      update-Ended id row rows req _ h refl (approved-not-Ended _ p) e found

  Changes-Ended :
      {rows rows' : List Row} (id : String) (row : Row)
      → Changes svc rows rows'
      → IsEnded row.status
      → find id rows ≡ some row
      → find id rows' ≡ some row
  Changes-Ended id row none_made e found = found
  Changes-Ended id row (and_then cs c) e found =
      Change-Ended id row c e (Changes-Ended id row cs e found)

-- From a table with distinct ids, the row of a request that has expired or was released is the same,
-- in every column, after any further history of the service.
pub serve_ended :
    {K : Type 0} (env : Env K) (svc : Service) (es : List Event) (w : World K) (id : String)
    (row : Row)
    → Keyed (rows_of w)
    → find id (rows_of w) ≡ some row
    → IsEnded row.status
    → find id (rows_of (serve env svc es w)) ≡ some row
serve_ended env svc es w id row keyed found ended =
    Changes-Ended svc id row (serve-Changes env svc es w keyed).0 ended found
