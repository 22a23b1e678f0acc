-- ===== src/Store/Open/Kept.antt =====
-- The migrations lose nothing.
use kc_jit_public.Base.{
  ℕ, String, ◌≡◌, refl, sym, ◌∙◌, List, [], map, Option, none, some, Result, ok, err, Result-cases,
  inl, inr,
}
use kc_jit_public.Http.Ran.{Preserves, Preserves-bind}
use kc_jit_public.Store.{AuditRow, Db, Fault}
use kc_jit_public.Store.Open.{
  Requests, add_notes, without_notes, with_notes, File, Engine, Opening, or_new, create_requests,
  create_audit_events, create_notifications, create_index, add_name, alter_requests, with_requests,
  effect, statement, migrate_audit, migrate_notify, migrate_approval_notes, migrate,
  rows_with_notes, ledger_of, keys_of, db_of, opened, open_store,
}

-- The tables of the file read the same after the change.
abbrev Harmless : (File → Result File) → Type 0
Harmless f = (x g : File) → f x ≡ ok g → db_of g ≡ db_of x

new_requests :
    (o : Option Requests) → rows_with_notes (or_new (with_notes []) o) ≡ rows_with_notes o
new_requests none = refl
new_requests (some r) = refl

new_ledger : (o : Option (List AuditRow × ℕ)) → ledger_of (or_new ([], 0) o) ≡ ledger_of o
new_ledger none = refl
new_ledger (some l) = refl

new_keys : (o : Option (List (String × String))) → keys_of (or_new [] o) ≡ keys_of o
new_keys none = refl
new_keys (some ks) = refl

create_requests-Harmless : Harmless create_requests
create_requests-Harmless x g e =
    let same : record x { requests = or_new (with_notes []) x.requests } ≡ g = cc in
    rw (← same, new_requests x.requests) refl

create_audit_events-Harmless : Harmless create_audit_events
create_audit_events-Harmless x g e =
    let same : record x { audit_events = or_new ([], 0) x.audit_events } ≡ g = cc in
    rw (← same, new_ledger x.audit_events) refl

create_notifications-Harmless : Harmless create_notifications
create_notifications-Harmless x g e =
    let same : record x { notifications = or_new [] x.notifications } ≡ g = cc in
    rw (← same, new_keys x.notifications) refl

create_index-Harmless : (name : String) → Harmless (create_index name)
create_index-Harmless name x g e =
    let same : record x { indices = add_name name x.indices } ≡ g = cc in rw (← same) refl

alter_same :
    (duplicate : String) (o : Option Requests) {r : Requests}
    → alter_requests duplicate o ≡ ok r
    → rows_with_notes (some r) ≡ rows_with_notes o
alter_same duplicate none e = absurd cc
alter_same duplicate (some (without_notes rows)) {r} e =
    let same : with_notes (map add_notes rows) ≡ r = cc in rw (← same) refl
alter_same duplicate (some (with_notes rows)) e = absurd cc

alter-Harmless :
    (duplicate : String) → Harmless (λ f. with_requests f (alter_requests duplicate f.requests))
alter-Harmless duplicate x g e = elim (Result-cases (alter_requests duplicate x.requests)) [
  | inl (r, done) ↦
      let e' = rw done at e in
      let same : record x { requests = some r } ≡ g = cc in
      rw (← same, alter_same duplicate x.requests done) refl
  | inr (m, fails) ↦ let e' = rw fails at e in absurd cc
]

abbrev Reads : Db → Opening → Type 0
Reads d s = db_of s.file ≡ d

effect-Reads :
    (fault : Fault) (r : Result File) (s : Opening) (d : Db)
    → ((g : File) → r ≡ ok g → db_of g ≡ db_of s.file)
    → Reads d s
    → Reads d (effect fault r s).1
effect-Reads (some e) r s d k h = h
effect-Reads none (err e) s d k h = h
effect-Reads none (ok g) s d k h = k g refl ∙ h

module _ (engine : Engine) (d : Db) where
  statement-Preserves :
      (f : File → Result File) → Harmless f → Preserves (Reads d) (statement engine f)
  unfolding statement
  statement-Preserves f k = record {
    at = λ s. effect-Reads (engine.fault s.statements) (f s.file) s d (λ g. k s.file g);
  }

  migrate_audit-Preserves : Preserves (Reads d) (migrate_audit engine)
  unfolding migrate_audit
  migrate_audit-Preserves =
      Preserves-bind _ _ (statement-Preserves _ create_audit_events-Harmless) λ u.
        Preserves-bind _ _ (statement-Preserves _ (create_index-Harmless _))
          λ u'. statement-Preserves _ (create_index-Harmless _)

  migrate_approval_notes-Preserves : Preserves (Reads d) (migrate_approval_notes engine)
  unfolding migrate_approval_notes
  migrate_approval_notes-Preserves = record {
    at = (statement-Preserves _ (alter-Harmless engine.duplicate_column)).at;
  }

  migrate-Preserves : Preserves (Reads d) (migrate engine)
  unfolding migrate migrate_notify
  migrate-Preserves = Preserves-bind _ _ (statement-Preserves _ create_requests-Harmless) λ u₁.
      Preserves-bind _ _ (statement-Preserves _ (create_index-Harmless _)) λ u₂.
        Preserves-bind _ _ migrate_audit-Preserves λ u₃.
          Preserves-bind _ _ (statement-Preserves _ create_notifications-Harmless)
            λ u₄. migrate_approval_notes-Preserves

opened_tables :
    (x : Result (Unit {0}) × Opening) (d : Db)
    → Reads d x.1
    → (db_of (opened x).1 ≡ d) × ((d' : Db) → (opened x).0 ≡ ok d' → d' ≡ d)
opened_tables (ok u, s) d h = (h, λ d' e. let same : db_of s.file ≡ d' = cc in sym same ∙ h)
opened_tables (err m, s) d h = (h, λ d' e. absurd cc)

-- However `Open` ends, every table of the file reads as before, the requests of an older file with
-- empty notes; and the store that it answers has these tables.
pub open_store-keeps :
    (engine : Engine) (f : File)
    → (db_of (open_store engine f).1 ≡ db_of f)
      × ((d : Db) → (open_store engine f).0 ≡ ok d → d ≡ db_of f)
unfolding open_store
open_store-keeps engine f =
    let tables =
      (migrate-Preserves engine (db_of f)).at (record { file = f; statements = 0 }) refl in
    opened_tables (migrate engine (record { file = f; statements = 0 })) (db_of f) tables
