-- ===== src/Store/Written.antt =====
-- What a statement on the table `requests` that answers without an error has done.
use kc_jit_public.Base.{
  arith, List, sym, ◌≡◌, refl, inl, inr, [], ◌∷◌, ◌++◌, none, some, ok, Option-cases,
}
use kc_jit_public.Store.{Row, Request, Db, Fault}
use kc_jit_public.Store.Requests.{to_row, find, create, update, update_rows}

pub update_ok :
    (fault : Fault) (req : Request) (db : Db)
    → (update fault req db).0 ≡ ok tt
    → (update fault req db).1.requests ≡ update_rows req db.requests
unfolding update
update_ok (some m) req db h = cc
update_ok none req db h = elim (Option-cases (find req.id db.requests)) [
  | inl missing ↦ cc (rw missing at h)
  | inr (row, found) ↦ rw found refl
]

pub create_ok :
    (fault : Fault) (req : Request) (db : Db)
    → (create fault req db).0 ≡ ok tt
    → (find req.id db.requests ≡ none)
      × ((create fault req db).1.requests ≡ db.requests ++ to_row req ∷ [])
unfolding create
create_ok (some m) req db h = cc
create_ok none req db h = elim (Option-cases (find req.id db.requests)) [
  | inl fresh ↦ (fresh, rw fresh refl)
  | inr (row, taken) ↦ cc (rw taken at h)
]

-- A statement that the engine runs writes the row with its id, if there is one.
update_rows_missing :
    (r : Request) (rows : List Row) → find r.id rows ≡ none → update_rows r rows ≡ rows
unfolding find update_rows
update_rows_missing r [] h = refl
update_rows_missing r (row ∷ rows) h = ground (arith, update_rows_missing r rows)

pub update-rows_run :
    (req : Request) (db : Db) → (update none req db).1.requests ≡ update_rows req db.requests
unfolding update
update-rows_run req db = elim (Option-cases (find req.id db.requests)) [
  | inl missing ↦ rw missing (sym (update_rows_missing req db.requests missing))
  | inr (row, found) ↦ rw found refl
]
