-- ===== src/Store/Open.antt =====
-- `Open` and the migrations of internal/store: the tables of a database file, of whatever age, are
-- made up to those that the store uses.
pub mod Kept
pub mod Full
use Prim.Native.Char.{code}
use kc_jit_public.Base.{
  ℕ, suc, String, Bool, true, false, not, ◌&&◌, ◌||◌, List, [], ◌∷◌, map, Option, none, some,
  Result, ok, err, eqb, if◌then◌else◌, ◌==◌,
}
use kc_jit_public.Text.{lower}
use kc_jit_public.Time.Format.{Bytes}
use kc_jit_public.Http.{Method, ◌>>=◌, pure}
use kc_jit_public.Store.{Status, Row, AuditRow, Db, Fault}

-- A row of the table `requests` of an older file, which has no column `approval_notes`.
pub record OldRow : Type 0 where
  pub id : String
  pub username : String
  pub justification : String
  pub status : Status
  pub created_at : Bytes
  pub request_expires_at : Bytes
  pub approved_at : Option Bytes
  pub approved_by : Option String
  pub active_expires_at : Option Bytes
  pub released_at : Option Bytes

pub data Requests : Type 0 where
  without_notes : List OldRow → Requests
  with_notes : List Row → Requests

-- The tables that a file has, and the names of its indices. A table of the ledger has the largest id
-- that was given out beside it.
pub record File : Type 0 where
  pub requests : Option Requests
  pub audit_events : Option (List AuditRow × ℕ)
  pub notifications : Option (List (String × String))
  pub indices : List String

-- A file as it is made.
abbrev pub new_file : File
new_file = record { requests = none; audit_events = none; notifications = none; indices = [] }

-- What the engine answers, by the number of the statement, and its error where a column is there
-- already.
pub record Engine : Type 0 where
  pub fault : ℕ → Fault
  pub duplicate_column : String

pub record Opening : Type 0 where
  pub file : File
  pub statements : ℕ

-- The row with the default of the new column.
abbrev pub add_notes : OldRow → Row
add_notes r = record {
  id = r.id;
  username = r.username;
  justification = r.justification;
  status = r.status;
  created_at = r.created_at;
  request_expires_at = r.request_expires_at;
  approved_at = r.approved_at;
  approved_by = r.approved_by;
  active_expires_at = r.active_expires_at;
  released_at = r.released_at;
  approval_notes = "";
}

abbrev pub or_new {ℓ} : {A : Type ℓ} → A → Option A → Option A
or_new a none = some a
or_new a (some b) = some b

abbrev pub add_name : String → List String → List String
add_name name [] = name ∷ []
add_name name (x ∷ xs) = if x == name then x ∷ xs else x ∷ add_name name xs

-- `CREATE TABLE IF NOT EXISTS`, for each of the three tables, and `CREATE INDEX IF NOT EXISTS`.
abbrev pub create_requests : File → Result File
create_requests f = ok (record f { requests = or_new (with_notes []) f.requests })

abbrev pub create_audit_events : File → Result File
create_audit_events f = ok (record f { audit_events = or_new ([], 0) f.audit_events })

abbrev pub create_notifications : File → Result File
create_notifications f = ok (record f { notifications = or_new [] f.notifications })

abbrev pub create_index : String → File → Result File
create_index name f = ok (record f { indices = add_name name f.indices })

-- `ALTER TABLE requests ADD COLUMN approval_notes TEXT NOT NULL DEFAULT ''`.
abbrev pub alter_requests : String → Option Requests → Result Requests
alter_requests duplicate none = err "no such table: requests"
alter_requests duplicate (some (without_notes rows)) = ok (with_notes (map add_notes rows))
alter_requests duplicate (some (with_notes rows)) = err duplicate

abbrev pub with_requests : File → Result Requests → Result File
with_requests f (ok r) = ok (record f { requests = some r })
with_requests f (err e) = err e

-- `strings.HasPrefix` and `strings.Contains` on texts whose characters are folded first.
unfoldable pub has_prefix : (ℕ → ℕ) → String → String → Bool
has_prefix fold s String.[] = true
has_prefix fold String.[] (String.◌∷◌ d t) = false
has_prefix fold (String.◌∷◌ c s) (String.◌∷◌ d t) =
    eqb (fold (code c)) (code d) && has_prefix fold s t

unfoldable pub contains : (ℕ → ℕ) → String → String → Bool
unfolding has_prefix
contains fold String.[] t = has_prefix fold String.[] t
contains fold (String.◌∷◌ c s) t = has_prefix fold (String.◌∷◌ c s) t || contains fold s t

-- `unicode.ToLower`, as far as the letters of "duplicate" are the lower case of something.
abbrev pub to_lower : ℕ → ℕ
to_lower c = if eqb c 0x130 then b'i' else lower c

abbrev pub effect : Fault → Result File → Opening → Result (Unit {0}) × Opening
effect (some e) r s = (err e, record s { statements = suc s.statements })
effect none (err e) s = (err e, record s { statements = suc s.statements })
effect none (ok f) s = (ok tt, record { file = f; statements = suc s.statements })

-- The error of adding a column that is there already is passed over.
unfoldable pub pass_duplicate : Result (Unit {0}) → Result (Unit {0})
unfolding contains
pass_duplicate (ok u) = ok u
pass_duplicate (err e) =
    if not (contains (λ c. c) e "duplicate column")
    then (if not (contains to_lower e "duplicate") then err e else ok tt)
    else ok tt

abbrev pub rows_with_notes : Option Requests → List Row
rows_with_notes none = []
rows_with_notes (some (without_notes rows)) = map add_notes rows
rows_with_notes (some (with_notes rows)) = rows

abbrev pub ledger_of : Option (List AuditRow × ℕ) → List AuditRow × ℕ
ledger_of none = ([], 0)
ledger_of (some l) = l

abbrev pub keys_of : Option (List (String × String)) → List (String × String)
keys_of none = []
keys_of (some ks) = ks

-- The tables of a file as the store reads them.
abbrev pub db_of : File → Db
db_of f = record {
  requests = rows_with_notes f.requests;
  audit_events = (ledger_of f.audit_events).0;
  audit_seq = (ledger_of f.audit_events).1;
  notified = keys_of f.notifications;
}

abbrev pub opened : Result (Unit {0}) × Opening → Result Db × File
opened (ok u, s) = (ok (db_of s.file), s.file)
opened (err e, s) = (err e, s.file)

module _ (engine : Engine) where
  -- One statement of an `Exec`; the first one that fails ends it.
  unfoldable pub statement : (File → Result File) → Method Opening (Unit {0})
  statement f s = effect (engine.fault s.statements) (f s.file) s

  unfoldable pub migrate_audit : Method Opening (Unit {0})
  unfolding statement
  migrate_audit = do
    _ ← statement create_audit_events
    _ ← statement (create_index "idx_audit_at")
    statement (create_index "idx_audit_request")

  unfoldable pub migrate_notify : Method Opening (Unit {0})
  unfolding statement
  migrate_notify = statement create_notifications

  unfoldable pub migrate_approval_notes : Method Opening (Unit {0})
  unfolding statement pass_duplicate
  migrate_approval_notes s =
      let (r, s') =
        statement (λ f. with_requests f (alter_requests engine.duplicate_column f.requests)) s in
      (pass_duplicate r, s')

  unfoldable pub migrate : Method Opening (Unit {0})
  unfolding statement migrate_audit migrate_notify migrate_approval_notes
  migrate = do
    _ ← statement create_requests
    _ ← statement (create_index "idx_requests_status")
    _ ← migrate_audit
    _ ← migrate_notify
    migrate_approval_notes

  -- `Open`, of a file that `sql.Open` takes; on an error the handle is closed.
  unfoldable pub open_store : File → Result Db × File
  unfolding migrate
  open_store f = opened (migrate (record { file = f; statements = 0 }))
