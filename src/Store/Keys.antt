-- ===== src/Store/Keys.antt =====
-- The primary key of the table `requests`: what `WHERE id = ?` finds, before and after a statement.
use kc_jit_public.Base.{
  String, ◌≡◌, refl, ◌≢◌, inl, inr, List, [], ◌∷◌, ◌++◌, Option, none, some, arith, ◌==◌, eq_iff,
  eq_refl, All, Bool-cases, if◌then◌else◌,
}
use kc_jit_public.Store.{Request, Row}
use kc_jit_public.Store.Requests.{find, set_columns, update_rows}

-- No two rows have one id.
abbrev pub Keyed : List Row → Type 0
Keyed [] = Unit
Keyed (row ∷ rows) = (find row.id rows ≡ none) × Keyed rows

abbrev pub map_row : (Row → Row) → Option Row → Option Row
map_row f none = none
map_row f (some row) = some (f row)

abbrev pub or_else : Option Row → Option Row → Option Row
or_else none other = other
or_else (some row) other = some row

pub find-id : (id : String) (rows : List Row) {row : Row} → find id rows ≡ some row → row.id ≡ id
unfolding find
find-id id [] h = cc
find-id id (r ∷ rows) {row} h = elim (Bool-cases (r.id == id)) [
  | inl same ↦ ground (arith, eq_iff r.id id)
  | inr other ↦ find-id id rows {row = row} (ground arith)
]

pub find-append :
    (id : String) (rows : List Row) (row : Row)
    → find id (rows ++ row ∷ []) ≡ or_else (find id rows) (if row.id == id then some row else none)
unfolding find
find-append id [] row = refl
find-append id (r ∷ rows) row = ground (arith, find-append id rows row)

-- `UPDATE … WHERE id = ?` changes what is found under that id, and nothing else.
pub find-update_rows :
    (id : String) (r : Request) (rows : List Row)
    → find id (update_rows r rows)
      ≡ (if r.id == id then map_row (set_columns r) (find id rows) else find id rows)
unfolding find update_rows set_columns
find-update_rows id r [] = ground arith
find-update_rows id r (row ∷ rows) =
    ground (arith, find-update_rows id r rows, eq_iff row.id r.id, eq_iff row.id id, eq_iff r.id id)

pub find-update_rows_ne :
    (id : String) (r : Request) (rows : List Row)
    → r.id ≢ id
    → find id (update_rows r rows) ≡ find id rows
find-update_rows_ne id r rows h = rw find-update_rows (ground (arith, eq_iff r.id id))

pub find-update_rows_self :
    (r : Request) (rows : List Row)
    → find r.id (update_rows r rows) ≡ map_row (set_columns r) (find r.id rows)
find-update_rows_self r rows = rw (find-update_rows, eq_refl)

pub find-update_rows-none :
    (id : String) (r : Request) (rows : List Row)
    → find id rows ≡ none
    → find id (update_rows r rows) ≡ none
find-update_rows-none id r rows h = rw (find-update_rows, h) (ground arith)

pub update_rows-Keyed : (r : Request) (rows : List Row) → Keyed rows → Keyed (update_rows r rows)
unfolding update_rows set_columns
update_rows-Keyed r [] h = tt
update_rows-Keyed r (row ∷ rows) h =
    (ground (arith, find-update_rows-none row.id r rows h.0), update_rows-Keyed r rows h.1)

pub append-Keyed :
    (rows : List Row) (row : Row) → Keyed rows → find row.id rows ≡ none → Keyed (rows ++ row ∷ [])
unfolding find
append-Keyed [] row h fresh = (refl, tt)
append-Keyed (r ∷ rows) row h fresh = (
  rw find-append (ground (arith, eq_iff r.id row.id, eq_iff row.id r.id)),
  append-Keyed rows row h.1 (ground arith),
)

-- Under distinct ids each row is found by its own id.
abbrev pub IsFoundIn : List Row → Row → Type 0
IsFoundIn rows row = find row.id rows ≡ some row

All-IsFoundIn-cons :
    (r : Row) (rows part : List Row)
    → find r.id rows ≡ none
    → All (IsFoundIn rows) part
    → All (IsFoundIn (r ∷ rows)) part
unfolding find
All-IsFoundIn-cons r rows [] fresh h = tt
All-IsFoundIn-cons r rows (row ∷ part) fresh h =
    (ground (arith, eq_iff r.id row.id), All-IsFoundIn-cons r rows part fresh h.1)

pub All-IsFoundIn : (rows : List Row) → Keyed rows → All (IsFoundIn rows) rows
unfolding find
All-IsFoundIn [] h = tt
All-IsFoundIn (r ∷ rows) h =
    (rw eq_refl refl, All-IsFoundIn-cons r rows rows h.0 (All-IsFoundIn rows h.1))
