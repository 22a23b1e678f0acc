-- ===== src/Lifecycle.antt =====
-- What the service promises of the table `requests`: it changes only by the steps of one request's
-- life. The steps are stated on the table, without the handlers that take them.
pub mod Rules
pub mod Leads
pub mod Queries
pub mod Handlers
pub mod Loops
pub mod Keyed
pub mod Reconcile
pub mod Serve
pub mod History
pub mod Ended
pub mod Complete
use kc_jit_public.Base.{String, ◌≡◌, ◌++◌, false, List, [], ◌∷◌, Option, none, some, ok, ltb}
use kc_jit_public.Text.{byte_len, is_empty}
use kc_jit_public.Time.{Instant}
use kc_jit_public.Store.{Request, Row, pending, approved}
use kc_jit_public.Store.Requests.{to_row, scan_request, find, update_rows}
use kc_jit_public.Api.{Service}
use kc_jit_public.Api.Create.{new_request, min_justification_len}
use kc_jit_public.Api.Approve.{grant_of, expire_of, min_approval_notes_len}
use kc_jit_public.Api.Release.{release_of}

-- The row of a request, and that it reads back as the request.
pub record Holds (rows : List Row) (req : Request) : Type 0 where
  pub row : Row
  pub found : find req.id rows ≡ some row
  pub scanned : scan_request row ≡ ok req

module _ (svc : Service) where
  -- A new request is pending, and its id is new. Only a pending request expires or is granted, and a
  -- grant has an approver and notes. Only a granted request is released.
  pub data Change (rows : List Row) : List Row → Type 0 where
    submit :
        (id username justification : String) (now : Instant)
        → find id rows ≡ none
        → Change rows (rows ++ to_row (new_request svc id username justification now) ∷ [])
    expire :
        (req : Request)
        → Holds rows req
        → req.status ≡ pending
        → Change rows (update_rows (expire_of req) rows)
    grant :
        (req : Request) (actor notes : String) (now : Instant)
        → Holds rows req
        → req.status ≡ pending
        → is_empty actor ≡ false
        → ltb (byte_len notes) min_approval_notes_len ≡ false
        → Change rows (update_rows (grant_of svc actor notes now req) rows)
    release :
        (req : Request) (now : Instant)
        → Holds rows req
        → req.status ≡ approved
        → Change rows (update_rows (release_of now req) rows)

  pub data Changes (rows : List Row) : List Row → Type 0 where
    none_made : Changes rows rows
    and_then : {mid last : List Row} → Changes rows mid → Change mid last → Changes rows last

  pub Changes-trans :
      {first mid last : List Row} → Changes first mid → Changes mid last → Changes first last
  Changes-trans h none_made = h
  Changes-trans h (and_then k c) = and_then (Changes-trans h k) c
