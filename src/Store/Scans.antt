-- ===== src/Store/Scans.antt =====
-- What the scans of rows keep of them, and what a query's condition leaves of a table.
use kc_jit_public.Base.{
  String, ◌≡◌, ◌≢◌, refl, inl, inr, Bool, true, List, [], ◌∷◌, none, Result, ok, arith, eq_iff,
  filter, All, Bool-cases, Result-cases,
}
use kc_jit_public.Store.{Row, Request}
use kc_jit_public.Store.Requests.{find, scan_request, scan_all}
use kc_jit_public.Store.Keys.{Keyed}

pub scan_request-id : (row : Row) (req : Request) → scan_request row ≡ ok req → req.id ≡ row.id
unfolding scan_request
scan_request-id row req h = ground arith

pub scan_request-status :
    (row : Row) (req : Request) → scan_request row ≡ ok req → req.status ≡ row.status
unfolding scan_request
scan_request-status row req h = ground arith

-- A scan that succeeds has read the first row and the others.
pub scan_all-cons :
    (row : Row) (rows : List Row) (reqs : List Request)
    → scan_all (row ∷ rows) ≡ ok reqs
    → (r : Request) × (rs : List Request) × (scan_request row ≡ ok r)
      × (scan_all rows ≡ ok rs)
      × (reqs ≡ r ∷ rs)
unfolding scan_all
scan_all-cons row rows reqs h = elim (Result-cases (scan_request row)) [
  | inl (r, here) ↦ elim (Result-cases (scan_all rows)) [
    | inl (rs, later) ↦ (r, rs, here, later, ground arith)
    | inr (m, failed) ↦ absurd (ground arith)
  ]
  | inr (m, failed) ↦ absurd (ground arith)
]

-- A request that was read has an id of the table.
pub All-apart :
    (id : String) (rows : List Row) (reqs : List Request)
    → find id rows ≡ none
    → scan_all rows ≡ ok reqs
    → All (λ other. id ≢ other.id) reqs
unfolding find scan_all
All-apart id [] reqs missing h =
    elim reqs
        as (λ l. ◌≡◌ {A = Result (List Request)} (ok []) (ok l) → All (λ other. id ≢ other.id) l) [
          | [] ↦ λ e. tt
          | r ∷ rs ↦ λ e. cc
        ]
      h
All-apart id (row ∷ rows) reqs missing h =
    let (r, rs, here, later, both) = scan_all-cons row rows reqs h in
    rw both (
      λ same. ground (arith, eq_iff row.id id, scan_request-id row r here),
      All-apart id rows rs (ground arith) later,
    )

filter-none :
    (p : Row → Bool) (id : String) (rows : List Row)
    → find id rows ≡ none
    → find id (filter p rows) ≡ none
unfolding find
filter-none p id [] h = refl
filter-none p id (row ∷ rows) h = ground (arith, filter-none p id rows)

pub filter-Keyed : (p : Row → Bool) (rows : List Row) → Keyed rows → Keyed (filter p rows)
filter-Keyed p [] h = tt
filter-Keyed p (row ∷ rows) h = elim (Bool-cases (p row)) [
  | inl kept ↦ rw kept (filter-none p row.id rows h.0, filter-Keyed p rows h.1)
  | inr left ↦ rw left (filter-Keyed p rows h.1)
]

module _ {ℓ} {A : Type ℓ} (p : A → Bool) where
  pub All-filter {κ} : (P : A → Type κ) (xs : List A) → All P xs → All P (filter p xs)
  All-filter P [] h = tt
  All-filter P (x ∷ xs) h = elim (Bool-cases (p x)) [
    | inl kept ↦ rw kept (h.0, All-filter P xs h.1)
    | inr left ↦ rw left (All-filter P xs h.1)
  ]

  -- Every element that a filter leaves passes its test.
  pub filter_passes : (xs : List A) → All (λ x. p x ≡ true) (filter p xs)
  filter_passes [] = tt
  filter_passes (x ∷ xs) = elim (Bool-cases (p x)) [
    | inl kept ↦ rw kept (kept, filter_passes xs)
    | inr left ↦ rw left (filter_passes xs)
  ]
