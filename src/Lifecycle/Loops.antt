-- ===== src/Lifecycle/Loops.antt =====
-- What a query of the store has found stays true of the table while a loop goes through it, since
-- no two requests have one id.
use kc_jit_public.Base.{
  ◌≡◌, ◌≢◌, ◌∙◌, Bool, true, ◌&&◌, List, [], ◌∷◌, Option, none, some, Result, ok, arith, &&_true,
  filter, All,
}
use kc_jit_public.Store.{Row, Request, Status, same_status, Db, Fault}
use kc_jit_public.Time.{Instant}
use kc_jit_public.Time.Format.{Bytes, format}
use kc_jit_public.Store.Requests.{scan_all, update_rows, not_after, by_status_before}
use kc_jit_public.Store.Keys.{Keyed, IsFoundIn, All-IsFoundIn, find-update_rows_ne}
use kc_jit_public.Lifecycle.{Holds}
use kc_jit_public.Store.Scans.{
  scan_all-cons, scan_request-id, scan_request-status, All-apart, filter-Keyed, All-filter,
  filter_passes,
}

-- Each request is in the table with a given status, and no later one of the list has its id.
abbrev pub Pending : Status → List Row → List Request → Type 0
Pending status rows [] = Unit
Pending status rows (req ∷ reqs) =
    Holds rows req
    × (req.status ≡ status)
    × All (λ other. req.id ≢ other.id) reqs
    × Pending status rows reqs

Holds-update_rows :
    (rows : List Row) (req written : Request)
    → written.id ≢ req.id
    → Holds rows req
    → Holds (update_rows written rows) req
Holds-update_rows rows req written other h = record {
  row = h.row;
  found = find-update_rows_ne req.id written rows other ∙ h.found;
  scanned = h.scanned;
}

-- A statement on one request leaves the others of the list as they were read.
pub Pending-update_rows :
    (status : Status) (rows : List Row) (reqs : List Request) (written : Request)
    → All (λ other. written.id ≢ other.id) reqs
    → Pending status rows reqs
    → Pending status (update_rows written rows) reqs
Pending-update_rows status rows [] written apart h = tt
Pending-update_rows status rows (req ∷ reqs) written apart h = (
  Holds-update_rows rows req written apart.0 h.0,
  h.1,
  h.2,
  Pending-update_rows status rows reqs written apart.1 h.3,
)

scan_all-Pending :
    (status : Status) (rows part : List Row) (reqs : List Request)
    → All (IsFoundIn rows) part
    → All (λ row. row.status ≡ status) part
    → Keyed part
    → scan_all part ≡ ok reqs
    → Pending status rows reqs
unfolding scan_all
scan_all-Pending status rows [] reqs found kept keyed h =
    elim reqs as (λ l. ◌≡◌ {A = Result (List Request)} (ok []) (ok l) → Pending status rows l) [
      | [] ↦ λ e. tt
      | r ∷ rs ↦ λ e. cc
    ]
      h
scan_all-Pending status rows (row ∷ part) reqs found kept keyed h =
    let (r, rs, here, later, both) = scan_all-cons row part reqs h in
    rw both (
      record { row = row; found = rw (scan_request-id row r here) found.0; scanned = here },
      scan_request-status row r here ∙ kept.0,
      rw (scan_request-id row r here) (All-apart row.id part rs keyed.0 later),
      scan_all-Pending status rows part rs found.1 kept.1 keyed.1 later,
    )

eq_of_same : (s t : Status) → same_status s t ≡ true → s ≡ t
eq_of_same s t h = ground arith

All-status :
    (status : Status) (q : Row → Bool) (rows : List Row)
    → All (λ row. (same_status row.status status && q row) ≡ true) rows
    → All (λ row. row.status ≡ status) rows
All-status status q [] h = tt
All-status status q (row ∷ rows) h =
    (eq_of_same row.status status (&&_true _ _ h.0).0, All-status status q rows h.1)

-- What `byStatusBefore` answers.
pub by_status_before-Pending :
    (fault : Fault) (status : Status) (col : Row → Option Bytes) (now : Instant) (db : Db)
    (reqs : List Request)
    → Keyed db.requests
    → by_status_before fault status col now db ≡ ok reqs
    → Pending status db.requests reqs
unfolding by_status_before
by_status_before-Pending (some m) status col now db reqs keyed h = cc
by_status_before-Pending none status col now db reqs keyed h =
    let late : (Row → Bool) = λ (row : Row). not_after (col row) (format now) in
    let asked : (Row → Bool) = λ (row : Row). same_status row.status status && late row in
    scan_all-Pending status db.requests (filter asked db.requests) reqs
      (All-filter asked (IsFoundIn db.requests) db.requests (All-IsFoundIn db.requests keyed))
      (All-status status late (filter asked db.requests) (filter_passes asked db.requests))
      (filter-Keyed asked db.requests keyed) h
