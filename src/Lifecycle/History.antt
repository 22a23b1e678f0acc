-- ===== src/Lifecycle/History.antt =====
-- The history of one request: its status moves forward only, what it was asked for stays, and once
-- it has ended its row is never written again.
use kc_jit_public.Base.{
  String, ◌≡◌, refl, sym, ap, ◌∙◌, inl, inr, List, [], ◌∷◌, ◌++◌, some, ◌==◌, eq_iff, Bool-cases,
}
use mathlib.Core.Option.{some-injective}
use kc_jit_public.Store.{Request, Row, Status, pending, approved, expired, released}
use kc_jit_public.Store.Requests.{find, set_columns, update_rows}
use kc_jit_public.Store.Keys.{find-append, find-update_rows}
use kc_jit_public.Store.Scans.{scan_request-status}
use kc_jit_public.Store.Keys.{Keyed}
use kc_jit_public.World.{Env, World}
use kc_jit_public.Api.{Service}
use kc_jit_public.Router.{Event, serve}
use kc_jit_public.Lifecycle.{
  Holds, Change, Changes, submit, expire, grant, release, none_made, and_then,
}
use kc_jit_public.Lifecycle.Rules.{rows_of}
use kc_jit_public.Lifecycle.Serve.{serve-Changes}

-- One move of a request's status.
pub data Move : Status → Status → Type 0 where
  approval : Move pending approved
  expiry : Move pending expired
  ending : Move approved released

pub data Moves : Status → Status → Type 0 where
  here : {s : Status} → Moves s s
  onward : {s t u : Status} → Moves s t → Move t u → Moves s u

-- What a later row has kept of an earlier one.
pub record Later (row row' : Row) : Type 0 where
  pub username : row'.username ≡ row.username
  pub justification : row'.justification ≡ row.justification
  pub created_at : row'.created_at ≡ row.created_at
  pub request_expires_at : row'.request_expires_at ≡ row.request_expires_at
  pub moves : Moves row.status row'.status

-- The row with an id, after what was done, is a later form of the row before.
pub record Kept (id : String) (row : Row) (rows : List Row) : Type 0 where
  pub now : Row
  pub found : find id rows ≡ some now
  pub later : Later row now

Later_of_update :
    (r : Request) (row : Row) → Move row.status r.status → Later row (set_columns r row)
unfolding set_columns
Later_of_update r row m = record {
  username = refl;
  justification = refl;
  created_at = refl;
  request_expires_at = refl;
  moves = onward here m;
}

Later_refl : (row : Row) → Later row row
Later_refl row = record {
  username = refl;
  justification = refl;
  created_at = refl;
  request_expires_at = refl;
  moves = here;
}

Moves-trans : {s t u : Status} → Moves s t → Moves t u → Moves s u
Moves-trans p here = p
Moves-trans p (onward q m) = onward (Moves-trans p q) m

Later-trans : {a b c : Row} → Later a b → Later b c → Later a c
Later-trans h k = record {
  username = k.username ∙ h.username;
  justification = k.justification ∙ h.justification;
  created_at = k.created_at ∙ h.created_at;
  request_expires_at = k.request_expires_at ∙ h.request_expires_at;
  moves = Moves-trans h.moves k.moves;
}

-- An update of the request that is held moves the row with its id, and no other row.
update-Kept :
    (id : String) (row : Row) (rows : List Row) (req written : Request)
    → Holds rows req
    → written.id ≡ req.id
    → Move req.status written.status
    → find id rows ≡ some row
    → Kept id row (update_rows written rows)
update-Kept id row rows req written h same move found = elim (Bool-cases (written.id == id)) [
  | inl this ↦
      let ids : req.id ≡ id = sym same ∙ (eq_iff written.id id).0 this in
      let one : h.row ≡ row =
        some-injective h.row row (sym h.found ∙ (ap (λ i. find i rows) ids ∙ found)) in
      record {
        now = set_columns written row;
        found = rw find-update_rows (rw (this, found) refl);
        later =
            Later_of_update written row
              (rw (← one, ← scan_request-status h.row req h.scanned) move);
      }
  | inr other ↦ record {
    now = row;
    found = rw find-update_rows (rw (other, found) refl);
    later = Later_refl row;
  }
]

submit-Kept :
    (id : String) (row new : Row) (rows : List Row)
    → find id rows ≡ some row
    → Kept id row (rows ++ new ∷ [])
submit-Kept id row new rows found = record {
  now = row;
  found = rw find-append (rw found refl);
  later = Later_refl row;
}

module _ (svc : Service) where
  Change-Kept :
      {rows rows' : List Row} (id : String) (row : Row)
      → Change svc rows rows'
      → find id rows ≡ some row
      → Kept id row rows'
  Change-Kept {rows} id row (submit new u j now fresh) found = submit-Kept id row _ rows found
  Change-Kept {rows} id row (expire req h p) found =
      update-Kept id row rows req _ h refl (rw p expiry) found
  Change-Kept {rows} id row (grant req actor notes now h p named long) found =
      update-Kept id row rows req _ h refl (rw p approval) found
  Change-Kept {rows} id row (release req now h p) found =
      update-Kept id row rows req _ h refl (rw p ending) found

  pub Changes-Kept :
      {rows rows' : List Row} (id : String) (row : Row)
      → Changes svc rows rows'
      → find id rows ≡ some row
      → Kept id row rows'
  Changes-Kept id row none_made found = record { now = row; found = found; later = Later_refl row }
  Changes-Kept id row (and_then cs c) found =
      let before = Changes-Kept id row cs found in
      let after = Change-Kept id before.now c before.found in
      record { now = after.now; found = after.found; later = Later-trans before.later after.later }

-- From a table with distinct ids, any history of the service keeps each request: its row is still
-- found under its id, with the same user, justification, creation and expiry, and its status has
-- moved along pending → approved → released or pending → expired, or not at all.
pub serve-Kept :
    {K : Type 0} (env : Env K) (svc : Service) (es : List Event) (w : World K) (id : String)
    (row : Row)
    → Keyed (rows_of w)
    → find id (rows_of w) ≡ some row
    → Kept id row (rows_of (serve env svc es w))
serve-Kept env svc es w id row keyed found =
    Changes-Kept svc id row (serve-Changes env svc es w keyed).0 found
