-- ===== src/Settled/Rows.antt =====
-- The rows that a loop over the answer of a query has still to write.
use kc_jit_public.Base.{
  String, ◌≡◌, refl, sym, ◌⊎◌, inl, inr, Bool, true, false, ◌&&◌, List, [], ◌∷◌, Option, some, ok,
  arith, ◌==◌, eq_iff, filter, All, Bool-cases, Result-cases,
}
use mathlib.Core.Path.{subst}
use kc_jit_public.Time.{Instant}
use kc_jit_public.Time.Format.{Bytes}
use kc_jit_public.Time.Parse.{parse}
use kc_jit_public.Store.{Row, Request, Status, same_status}
use kc_jit_public.Store.Requests.{scan_request, scan_all, set_columns, update_rows, not_after}
use kc_jit_public.Store.Scans.{scan_request-id, scan_all-cons}

-- The two times of a row that may not be NULL can be read.
pub record IsReadable (row : Row) : Type 0 where
  pub created : Instant
  pub expires : Instant
  pub read_created : parse row.created_at ≡ some created
  pub read_expires : parse row.request_expires_at ≡ some expires

set_columns-IsReadable : (r : Request) (row : Row) → IsReadable row → IsReadable (set_columns r row)
unfolding set_columns
set_columns-IsReadable r row h = record {
  created = h.created;
  expires = h.expires;
  read_created = h.read_created;
  read_expires = h.read_expires;
}

scan_request-ok : (row : Row) → IsReadable row → (req : Request) × (scan_request row ≡ ok req)
unfolding scan_request
scan_request-ok row h = elim (Result-cases (scan_request row)) [
  | inl readable ↦ readable
  | inr (m, failed) ↦
      let first = h.read_created in let second = h.read_expires in absurd (ground arith)
]

pub update_rows-IsReadable :
    (r : Request) (rows : List Row) → All IsReadable rows → All IsReadable (update_rows r rows)
unfolding update_rows
update_rows-IsReadable r [] h = tt
update_rows-IsReadable r (row ∷ rows) h = elim (Bool-cases (row.id == r.id)) [
  | inl this ↦ rw this (set_columns-IsReadable r row h.0, update_rows-IsReadable r rows h.1)
  | inr other ↦ rw other (h.0, update_rows-IsReadable r rows h.1)
]

pub scan_all-ok :
    (rows : List Row) → All IsReadable rows → (reqs : List Request) × (scan_all rows ≡ ok reqs)
unfolding scan_all
scan_all-ok [] h = ([], refl)
scan_all-ok (row ∷ rows) h =
    let (r, here) = scan_request-ok row h.0 in
    let (rs, later) = scan_all-ok rows h.1 in (r ∷ rs, rw (here, later) refl)

-- Some request of the list has the id.
abbrev pub HasId : String → List Request → Type 0
HasId id [] = ⊥
HasId id (r ∷ rs) = (r.id ≡ id) ⊎ HasId id rs

HasId-weaken :
    (r : Request) (reqs : List Request) (rows : List Row)
    → All (λ row. HasId row.id reqs) rows
    → All (λ row. HasId row.id (r ∷ reqs)) rows
HasId-weaken r reqs [] h = tt
HasId-weaken r reqs (row ∷ rows) h = (inr h.0, HasId-weaken r reqs rows h.1)

scan_all-HasId :
    (rows : List Row) (reqs : List Request)
    → scan_all rows ≡ ok reqs
    → All (λ row. HasId row.id reqs) rows
scan_all-HasId [] reqs h = tt
scan_all-HasId (row ∷ rows) reqs h =
    let (r, rs, here, later, both) = scan_all-cons row rows reqs h in
    subst (λ l. All (λ row. HasId row.id l) (row ∷ rows)) (sym both)
      (inl (scan_request-id row r here), HasId-weaken r rs rows (scan_all-HasId rows rs later))

All-filter_back :
    (p : Row → Bool) (P : Row → Type 0) (rows : List Row)
    → All P (filter p rows)
    → All (λ row. p row ≡ true → P row) rows
All-filter_back p P [] h = tt
All-filter_back p P (row ∷ rows) h = elim (Bool-cases (p row)) [
  | inl kept ↦ let both = rw kept at h in ((λ passed. both.0), All-filter_back p P rows both.1)
  | inr left ↦ ((λ passed. absurd (ground arith)), All-filter_back p P rows (rw left at h))
]

module _ (status : Status) (col : Row → Option Bytes) (stamp : Bytes) where
  -- The condition of the query.
  abbrev pub due : Row → Bool
  due row = same_status row.status status && not_after (col row) stamp

  -- Every row that is due is still to be written.
  abbrev pub Covered : List Request → List Row → Type 0
  Covered reqs = All (λ row. due row ≡ true → HasId row.id reqs)

  -- No row is due.
  abbrev pub IsSettled : List Row → Type 0
  IsSettled = All (λ row. due row ≡ false)

  pub scan_all-Covered :
      (rows : List Row) (reqs : List Request)
      → scan_all (filter due rows) ≡ ok reqs
      → Covered reqs rows
  scan_all-Covered rows reqs h =
      All-filter_back due _ rows (scan_all-HasId (filter due rows) reqs h)

  pub update_rows-Covered :
      (r : Request) (reqs : List Request) (rows : List Row)
      → same_status r.status status ≡ false
      → Covered (r ∷ reqs) rows
      → Covered reqs (update_rows r rows)
  unfolding update_rows set_columns
  update_rows-Covered r reqs [] gone h = tt
  update_rows-Covered r reqs (row ∷ rows) gone h = elim (Bool-cases (row.id == r.id)) [
    | inl this ↦ rw this ((λ d. absurd (ground arith)), update_rows-Covered r reqs rows gone h.1)
    | inr other ↦
        rw other (
          (λ d. ground (arith, h.0 d, eq_iff row.id r.id)),
          update_rows-Covered r reqs rows gone h.1,
        )
  ]

  pub update_rows-IsSettled :
      (r : Request) (rows : List Row)
      → same_status r.status status ≡ false
      → IsSettled rows
      → IsSettled (update_rows r rows)
  unfolding update_rows set_columns
  update_rows-IsSettled r [] gone h = tt
  update_rows-IsSettled r (row ∷ rows) gone h = elim (Bool-cases (row.id == r.id)) [
    | inl this ↦ rw this (ground arith, update_rows-IsSettled r rows gone h.1)
    | inr other ↦ rw other (h.0, update_rows-IsSettled r rows gone h.1)
  ]

  pub Covered-IsSettled : (rows : List Row) → Covered [] rows → IsSettled rows
  Covered-IsSettled [] h = tt
  Covered-IsSettled (row ∷ rows) h = (
    elim (Bool-cases (due row)) [ inl still ↦ absurd (h.0 still) | inr over ↦ over ],
    Covered-IsSettled rows h.1,
  )

  pub filter-IsSettled : (rows : List Row) → IsSettled rows → filter due rows ≡ []
  filter-IsSettled [] h = refl
  filter-IsSettled (row ∷ rows) h = rw h.0 (filter-IsSettled rows h.1)
