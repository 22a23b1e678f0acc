-- ===== src/Store/Requests.antt =====
-- internal/store/store.go: the statements on the table `requests`.
use kc_jit_public.Base.{
  String, Bool, false, ◌&&◌, List, [], ◌∷◌, ◌++◌, Option, none, some, Result, ok, err, ◌>>=◌, ◌==◌,
  ◌^^◌, filter, if◌then◌else◌,
}
use kc_jit_public.Text.{is_empty}
use kc_jit_public.Time.{Instant}
use kc_jit_public.Time.Format.{Bytes, format, text_le}
use kc_jit_public.Time.Parse.{parse}
use kc_jit_public.Store.{Status, pending, approved, same_status, Request, Row, Db, Fault}

unfoldable pub null_time : Option Instant → Option Bytes
null_time none = none
null_time (some t) = some (format t)

unfoldable pub null_str : String → Option String
null_str s = if is_empty s then none else some s

-- A NULL reads as the empty text.
abbrev pub null_string : Option String → String
null_string none = ""
null_string (some s) = s

unfoldable pub parse_null_time : Option Bytes → Option Instant
parse_null_time none = none
parse_null_time (some []) = none
parse_null_time (some (c ∷ s)) = parse (c ∷ s)

-- The message of `time.Parse` is not modelled further.
abbrev pub bad_time : String
bad_time = "parsing time"

abbrev pub or_bad_time : Option Instant → Result Instant
or_bad_time none = err bad_time
or_bad_time (some t) = ok t

-- The columns that `Create` binds.
unfoldable pub to_row : Request → Row
unfolding null_time null_str
to_row r = record {
  id = r.id;
  username = r.username;
  justification = r.justification;
  status = r.status;
  created_at = format r.created_at;
  request_expires_at = format r.request_expires_at;
  approved_at = null_time r.approved_at;
  approved_by = null_str r.approved_by;
  active_expires_at = null_time r.active_expires_at;
  released_at = null_time r.released_at;
  approval_notes = r.approval_notes;
}

unfoldable pub scan_request : Row → Result Request
unfolding parse_null_time
scan_request row = do
  created ← or_bad_time (parse row.created_at)
  req_exp ← or_bad_time (parse row.request_expires_at)
  ok (record {
    id = row.id;
    username = row.username;
    justification = row.justification;
    status = row.status;
    created_at = created;
    request_expires_at = req_exp;
    approved_at = parse_null_time row.approved_at;
    approved_by = null_string row.approved_by;
    approval_notes = row.approval_notes;
    active_expires_at = parse_null_time row.active_expires_at;
    released_at = parse_null_time row.released_at;
  })

-- The first row with the key, `WHERE id = ?`.
unfoldable pub find : String → List Row → Option Row
find id [] = none
find id (row ∷ rows) = if row.id == id then some row else find id rows

abbrev pub duplicate_id : String
duplicate_id = "UNIQUE constraint failed: requests.id"

abbrev pub no_rows : String
no_rows = "sql: no rows in result set"

abbrev insert : Option Row → Request → Db → Result (Unit {0}) × Db
insert (some _) r db = (err duplicate_id, db)
insert none r db = (ok tt, record db { requests = db.requests ++ to_row r ∷ [] })

unfoldable pub create : Fault → Request → Db → Result (Unit {0}) × Db
unfolding to_row find
create (some m) r db = (err m, db)
create none r db = insert (find r.id db.requests) r db

abbrev scan_found : Option Row → Result Request
scan_found none = err no_rows
scan_found (some row) = scan_request row

unfoldable pub get : Fault → String → Db → Result Request
unfolding find scan_request
get (some m) id db = err m
get none id db = scan_found (find id db.requests)

-- The loop over the rows of a query: the first row that cannot be read ends it.
unfoldable pub scan_all : List Row → Result (List Request)
unfolding scan_request
scan_all [] = ok []
scan_all (row ∷ rows) =
    let rest = scan_all rows in scan_request row >>= λ r. rest >>= λ rs. ok (r ∷ rs)

-- `ORDER BY created_at DESC`, on the texts; the order among equal texts is that of insertion here.
unfoldable pub insert_desc : Row → List Row → List Row
insert_desc row [] = row ∷ []
insert_desc row (other ∷ rows) =
    if text_le other.created_at row.created_at
    then row ∷ other ∷ rows
    else other ∷ insert_desc row rows

unfoldable pub order_desc : List Row → List Row
unfolding insert_desc
order_desc [] = []
order_desc (row ∷ rows) = insert_desc row (order_desc rows)

unfoldable pub list : Fault → Db → Result (List Request)
unfolding order_desc scan_all
list (some m) db = err m
list none db = scan_all (order_desc db.requests)

-- The columns that `Update` sets: the others stay.
unfoldable pub set_columns : Request → Row → Row
unfolding null_time null_str
set_columns r row = record row {
  status = r.status;
  approved_at = null_time r.approved_at;
  approved_by = null_str r.approved_by;
  active_expires_at = null_time r.active_expires_at;
  released_at = null_time r.released_at;
  approval_notes = r.approval_notes;
}

unfoldable pub update_rows : Request → List Row → List Row
unfolding set_columns
update_rows r [] = []
update_rows r (row ∷ rows) =
    (if row.id == r.id then set_columns r row else row) ∷ update_rows r rows

abbrev updated : Option Row → Request → Db → Result (Unit {0}) × Db
updated none r db = (err ("request " ^^ r.id ^^ " not found"), db)
updated (some _) r db = (ok tt, record db { requests = update_rows r db.requests })

-- The number of rows affected is 0 exactly where no row has the id.
unfoldable pub update : Fault → Request → Db → Result (Unit {0}) × Db
unfolding update_rows find
update (some m) r db = (err m, db)
update none r db = updated (find r.id db.requests) r db

-- `WHERE status = ? AND col IS NOT NULL AND col <= ?`.
abbrev pub not_after : Option Bytes → Bytes → Bool
not_after none stamp = false
not_after (some s) stamp = text_le s stamp

unfoldable pub by_status_before :
    Fault → Status → (Row → Option Bytes) → Instant → Db → Result (List Request)
unfolding scan_all
by_status_before (some m) status col now db = err m
by_status_before none status col now db =
    scan_all (
      filter (λ row. same_status row.status status && not_after (col row) (format now)) db.requests)

unfoldable pub pending_expired : Fault → Instant → Db → Result (List Request)
unfolding by_status_before
pending_expired fault = by_status_before fault pending (λ row. some row.request_expires_at)

unfoldable pub active_expired : Fault → Instant → Db → Result (List Request)
unfolding by_status_before
active_expired fault = by_status_before fault approved (λ row. row.active_expires_at)
