-- ===== src/Members/Rows.antt =====
-- What the statements do to the grants of users.
use kc_jit_public.Base.{String, ◌≡◌, ◌≢◌, refl, sym, ap, ◌∙◌, List, [], ◌∷◌, ◌++◌, ok, arith}
use mathlib.Core.Option.{some-injective}
use kc_jit_public.Store.{Row, Request, Status, pending, approved}
use kc_jit_public.Store.Requests.{find, scan_request, set_columns, update_rows}
use kc_jit_public.Store.Keys.{
  map_row, find-id, find-append, find-update_rows_ne, find-update_rows_self,
}
use kc_jit_public.Store.Scans.{scan_request-status}
use kc_jit_public.Lifecycle.{Holds}
use kc_jit_public.Members.{HasGrant}

scan_request-username :
    (row : Row) (req : Request) → scan_request row ≡ ok req → req.username ≡ row.username
unfolding scan_request
scan_request-username row req h = ground arith

-- The request is in the table as it was read, with a status.
pub record Read (status : Status) (req : Request) (rows : List Row) : Type 0 where
  pub held : Holds rows req
  pub has : req.status ≡ status

pub HasGrant-append :
    (rows : List Row) (row : Row) (v : String) → HasGrant rows v → HasGrant (rows ++ row ∷ []) v
HasGrant-append rows row v g = record {
  row = g.row;
  found = rw (find-append, g.found) refl;
  owner = g.owner;
  granted = g.granted;
}

-- A statement on another row leaves the grant.
HasGrant-update_other :
    (req : Request) (rows : List Row) (v : String) (g : HasGrant rows v)
    → req.id ≢ g.row.id
    → HasGrant (update_rows req rows) v
HasGrant-update_other req rows v g other = record {
  row = g.row;
  found = find-update_rows_ne g.row.id req rows other ∙ g.found;
  owner = g.owner;
  granted = g.granted;
}

-- A request that is held and has the id of a grant was read from it.
Holds-row :
    (req : Request) (rows : List Row) (v : String) (h : Holds rows req) (g : HasGrant rows v)
    → req.id ≡ g.row.id
    → h.row ≡ g.row
Holds-row req rows v h g same =
    some-injective h.row g.row (sym h.found ∙ (ap (λ i. find i rows) same ∙ g.found))

pub HasGrant-update_pending :
    (req written : Request) (rows : List Row) (v : String)
    → written.id ≡ req.id
    → Read pending req rows
    → HasGrant rows v
    → HasGrant (update_rows written rows) v
HasGrant-update_pending req written rows v same r g = HasGrant-update_other written rows v g λ e.
    let one = Holds-row req rows v r.held g (sym same ∙ e) in
    let read = scan_request-status r.held.row req r.held.scanned in
    let waits = r.has in let granted = g.granted in absurd (ground arith)

pub HasGrant-update_released :
    (req written : Request) (rows : List Row) (v : String)
    → written.id ≡ req.id
    → Read approved req rows
    → HasGrant rows v
    → v ≢ req.username
    → HasGrant (update_rows written rows) v
HasGrant-update_released req written rows v same r g other =
    HasGrant-update_other written rows v g λ e.
      let one = Holds-row req rows v r.held g (sym same ∙ e) in
      other (
        sym g.owner
        ∙ (ap (λ row. row.username) (sym one)
            ∙ sym (scan_request-username r.held.row req r.held.scanned)))

pub HasGrant-granted :
    (req written : Request) (rows : List Row)
    → written.id ≡ req.id
    → written.status ≡ approved
    → Holds rows req
    → HasGrant (update_rows written rows) req.username
unfolding set_columns
HasGrant-granted req written rows same granted h = record {
  row = set_columns written h.row;
  found =
      ap (λ i. find i (update_rows written rows)) (find-id req.id rows h.found ∙ sym same)
      ∙ (find-update_rows_self written rows
          ∙ ap (map_row (set_columns written)) (ap (λ i. find i rows) same ∙ h.found));
  owner = sym (scan_request-username h.row req h.scanned);
  granted = granted;
}
