-- ===== src/Store.antt =====
-- internal/store: the SQLite tables and the statements that the store runs on them.
-- A table is the list of its rows in the order of insertion. A statement that the engine refuses,
-- for instance because the disk is full, leaves the tables as they were and answers an error: each
-- operation takes what the engine answers, `none` where it runs the statement.
pub mod Requests
pub mod Keys
pub mod Scans
pub mod Written
pub mod Listing
pub mod RoundTrip
pub mod Audit
pub mod Notifications
pub mod Open
use kc_jit_public.Base.{ℕ, String, Bool, List, [], ◌∷◌, ◌++◌, Option, none, some, Result, ok, err}
use kc_jit_public.Time.{Instant}
use kc_jit_public.Time.Format.{Bytes}

pub data Status : Type 0 where
  pending approved expired released denied : Status

pub Status-discrete : Discrete Status
Status-discrete = hlevel

abbrev pub same_status : Status → Status → Bool
same_status pending pending = Bool.true
same_status approved approved = Bool.true
same_status expired expired = Bool.true
same_status released released = Bool.true
same_status denied denied = Bool.true
same_status _ _ = Bool.false

-- The text of a status, as the column holds it.
abbrev pub status_text : Status → String
status_text pending = "pending"
status_text approved = "approved"
status_text expired = "expired"
status_text released = "released"
status_text denied = "denied"

pub record Request : Type 0 where
  pub id : String
  pub username : String
  pub justification : String
  pub status : Status
  pub created_at : Instant
  pub request_expires_at : Instant
  pub approved_at : Option Instant
  pub approved_by : String
  pub approval_notes : String
  pub active_expires_at : Option Instant
  pub released_at : Option Instant

-- A row of the table `requests`. Instants are texts, and a column that may be NULL is an option.
pub record Row : Type 0 where
  pub id : String
  pub username : String
  pub justification : String
  pub status : Status
  pub created_at : Bytes
  pub request_expires_at : Bytes
  pub approved_at : Option Bytes
  pub approved_by : Option String
  pub active_expires_at : Option Bytes
  pub released_at : Option Bytes
  pub approval_notes : String

-- An event of the ledger. `at` is `none` for the zero time.
pub record AuditEvent : Type 0 where
  pub id : ℕ
  pub at : Option Instant
  pub action : String
  pub actor : String
  pub subject : String
  pub request_id : String
  pub justification : String
  pub detail : String
  pub break_glass : Bool

-- A row of the table `audit_events`; the column `break_glass` holds 0 or 1.
pub record AuditRow : Type 0 where
  pub id : ℕ
  pub at : Bytes
  pub action : String
  pub actor : String
  pub subject : String
  pub request_id : String
  pub justification : String
  pub detail : String
  pub break_glass : ℕ

-- `notified` holds the keys (request_id, kind) of the table `notifications`; `audit_seq` is the
-- largest id that `AUTOINCREMENT` has given out.
pub record Db : Type 0 where
  pub requests : List Row
  pub audit_events : List AuditRow
  pub audit_seq : ℕ
  pub notified : List (String × String)

-- The tables that `migrate` creates.
abbrev pub empty_db : Db
empty_db = record { requests = []; audit_events = []; audit_seq = 0; notified = [] }

-- What the engine answers in place of running a statement.
abbrev pub Fault : Type 0
Fault = Option String
