-- ===== src/Store/Audit.antt =====
-- internal/store/audit.go: the ledger.
use kc_jit_public.Base.{
  ℕ, suc, String, Bool, true, false, not, ◌&&◌, ◌||◌, List, [], ◌∷◌, ◌++◌, Option, none, some,
  Result, ok, err, ◌>>=◌, ◌==◌, eqb, ltb, filter, take, if◌then◌else◌,
}
use mathlib.Core.List.{reverse}
use kc_jit_public.Base.Int.{ℤ, pos, negsuc}
use kc_jit_public.Text.{is_empty}
use kc_jit_public.Time.{Instant}
use kc_jit_public.Time.Format.{format}
use kc_jit_public.Time.Parse.{parse}
use kc_jit_public.Store.{AuditEvent, AuditRow, Db, Fault}
use kc_jit_public.Store.Requests.{or_bad_time}

abbrev pub flag : Bool → ℕ
flag true = 1
flag false = 0

-- `e.At`, or the present instant where it is the zero time.
abbrev pub at_or_now : Option Instant → Instant → Instant
at_or_now none now = now
at_or_now (some t) now = t

unfoldable pub audit_row : ℕ → Instant → AuditEvent → AuditRow
audit_row id now e = record {
  id = id;
  at = format (at_or_now e.at now);
  action = e.action;
  actor = e.actor;
  subject = e.subject;
  request_id = e.request_id;
  justification = e.justification;
  detail = e.detail;
  break_glass = flag e.break_glass;
}

-- The rows that a statement adds stand behind all others, since `AUTOINCREMENT` counts up.
unfoldable pub append_audit : Fault → Instant → AuditEvent → Db → Result (Unit {0}) × Db
unfolding audit_row
append_audit (some m) now e db = (err m, db)
append_audit none now e db = (
  ok tt,
  record db {
    audit_events = db.audit_events ++ audit_row (suc db.audit_seq) now e ∷ [];
    audit_seq = suc db.audit_seq;
  },
)

pub record AuditFilter : Type 0 where
  pub request_id : String
  pub actor : String
  pub break_glass : Option Bool
  pub limit : ℤ

-- `if f.Limit <= 0 || f.Limit > 500 { f.Limit = 100 }`.
unfoldable pub effective_limit : ℤ → ℕ
effective_limit (negsuc n) = 100
effective_limit (pos n) = if eqb n 0 || ltb 500 n then 100 else n

abbrev pub same_flag : Option Bool → ℕ → Bool
same_flag none n = true
same_flag (some b) n = eqb n (flag b)

-- The conditions that the filter adds to the query.
unfoldable pub selects : AuditFilter → AuditRow → Bool
selects f row =
    (is_empty f.request_id || row.request_id == f.request_id)
    && (is_empty f.actor || row.actor == f.actor)
    && same_flag f.break_glass row.break_glass

unfoldable pub scan_audit : AuditRow → Result AuditEvent
scan_audit row = do
  at ← or_bad_time (parse row.at)
  ok (record {
    id = row.id;
    at = some at;
    action = row.action;
    actor = row.actor;
    subject = row.subject;
    request_id = row.request_id;
    justification = row.justification;
    detail = row.detail;
    break_glass = not (eqb row.break_glass 0);
  })

unfoldable pub scan_audits : List AuditRow → Result (List AuditEvent)
unfolding scan_audit
scan_audits [] = ok []
scan_audits (row ∷ rows) =
    let rest = scan_audits rows in scan_audit row >>= λ e. rest >>= λ es. ok (e ∷ es)

-- The rows of the query: `ORDER BY id DESC` is the reverse of the order of insertion.
unfoldable pub selected : AuditFilter → List AuditRow → List AuditRow
unfolding selects effective_limit
selected f rows = take (effective_limit f.limit) (filter (selects f) (reverse rows))

unfoldable pub list_audit : Fault → AuditFilter → Db → Result (List AuditEvent)
unfolding selected scan_audits
list_audit (some m) f db = err m
list_audit none f db = scan_audits (selected f db.audit_events)
