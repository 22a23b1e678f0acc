-- ===== src/Tests/Ledger.antt =====
-- A page of a ledger with two events.
use mathlib.Core.List.{Memᴰ}
use kc_jit_public.Base.{String, ◌≡◌, ◌⊎◌, List, [], ◌∷◌, arith, true, none, some, ok, err}
use kc_jit_public.Time.Parse.{parse}
use kc_jit_public.Base.Int.{pos}
use kc_jit_public.Store.{AuditEvent, AuditRow, Db, empty_db}
use kc_jit_public.Store.Audit.{audit_row, AuditFilter, list_audit}
use kc_jit_public.Ledger.Listed.{Asks, IsPage, list_audit-IsPage}
use kc_jit_public.Tests.Setup.{start}

abbrev event : String → AuditEvent
event action = record {
  id = 0;
  at = some start;
  action = action;
  actor = "bob";
  subject = "alice";
  request_id = "02ab";
  justification = "need access";
  detail = "";
  break_glass = true;
}

abbrev two_events : Db
two_events = record empty_db {
  audit_events =
      audit_row 1 start (event "request_approved") ∷ audit_row 2 start (event "grant_active") ∷ [];
  audit_seq = 2;
}

abbrev of_bob : AuditFilter
of_bob = record { request_id = ""; actor = "bob"; break_glass = some true; limit = pos 1 }

list_audit-IsPage_example :
    ((es : List AuditEvent) × (list_audit none of_bob two_events ≡ ok es)
      × IsPage of_bob two_events.audit_events es)
    ⊎ ((m : String) × (list_audit none of_bob two_events ≡ err m)
        × (row : AuditRow) × Memᴰ row two_events.audit_events
        × Asks of_bob row
        × (parse row.at ≡ none))
unfolding audit_row
list_audit-IsPage_example = list_audit-IsPage of_bob two_events (record {
  ascending = (omega arith, (omega arith, tt));
  given = (omega arith, (omega arith, tt));
})
