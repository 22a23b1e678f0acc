-- ===== src/Ledger/Rows.antt =====
-- The ids of the ledger's rows, and what `ListAudit` makes of them.
use kc_jit_public.Base.{
  ℕ, suc, ◌≤◌, ◌<◌, ◌≡◌, refl, ap, ◌∙◌, List, [], ◌∷◌, ◌++◌, none, some, arith, All, All-append,
}
use kc_jit_public.Time.{Instant}
use kc_jit_public.Store.{AuditEvent, AuditRow, Db, Fault}
use kc_jit_public.Store.Audit.{audit_row, append_audit}

-- The ids go up from row to row, from a first bound.
abbrev pub GoesUp : ℕ → List AuditRow → Type 0
GoesUp low [] = Unit
GoesUp low (row ∷ rows) = (low < row.id) × GoesUp row.id rows

-- The ids go up, and the largest that was given out is not below them.
pub record IsLedger (db : Db) : Type 0 where
  pub ascending : GoesUp 0 db.audit_events
  pub given : All (λ row. row.id ≤ db.audit_seq) db.audit_events

GoesUp-append :
    (low seq : ℕ) (rows : List AuditRow) (row : AuditRow)
    → low ≤ seq
    → seq < row.id
    → All (λ r. r.id ≤ seq) rows
    → GoesUp low rows
    → GoesUp low (rows ++ row ∷ [])
GoesUp-append low seq [] row h k g up = (omega arith, tt)
GoesUp-append low seq (r ∷ rows) row h k g up =
    (up.0, GoesUp-append r.id seq rows row g.0 k g.1 up.1)

All-raise :
    (seq : ℕ) (rows : List AuditRow) → All (λ r. r.id ≤ seq) rows → All (λ r. r.id ≤ suc seq) rows
All-raise seq [] g = tt
All-raise seq (r ∷ rows) g = (omega (arith, g.0), All-raise seq rows g.1)

pub append_audit-IsLedger :
    (fault : Fault) (now : Instant) (e : AuditEvent) (db : Db)
    → IsLedger db
    → IsLedger (append_audit fault now e db).1
unfolding append_audit
append_audit-IsLedger (some m) now e db h = h
append_audit-IsLedger none now e db h = record {
  ascending =
      GoesUp-append 0 db.audit_seq db.audit_events _ (omega arith) (omega arith) h.given
        h.ascending;
  given =
      All-append (λ r. r.id ≤ suc db.audit_seq) db.audit_events _
        (All-raise db.audit_seq db.audit_events h.given) (omega arith, tt);
}

-- The later ledger has the rows of the earlier one, and then others.
pub record Extends (rows rows' : List AuditRow) : Type 0 where
  pub added : List AuditRow
  pub same : rows' ≡ rows ++ added

append_assoc : (a b c : List AuditRow) → (a ++ b) ++ c ≡ a ++ (b ++ c)
append_assoc [] b c = refl
append_assoc (x ∷ a) b c = ap (λ l. x ∷ l) (append_assoc a b c)

append_nil : (a : List AuditRow) → a ≡ a ++ []
append_nil [] = refl
append_nil (x ∷ a) = ap (λ l. x ∷ l) (append_nil a)

pub Extends-refl : (rows : List AuditRow) → Extends rows rows
Extends-refl rows = record { added = []; same = append_nil rows }

pub append_audit-Extends :
    (fault : Fault) (now : Instant) (e : AuditEvent) (db : Db) (first : List AuditRow)
    → Extends first db.audit_events
    → Extends first (append_audit fault now e db).1.audit_events
unfolding append_audit
append_audit-Extends (some m) now e db first h = h
append_audit-Extends none now e db first h =
    let new = audit_row (suc db.audit_seq) now e in
    record {
      added = h.added ++ new ∷ [];
      same = ap (λ rows. rows ++ new ∷ []) h.same ∙ append_assoc first h.added (new ∷ []);
    }
