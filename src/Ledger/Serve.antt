-- ===== src/Ledger/Serve.antt =====
-- Every history extends the ledger.
use kc_jit_public.Base.{String, ◌≡◌, List, arith}
use kc_jit_public.Store.{Db, Fault, Request, AuditRow}
use kc_jit_public.Store.Requests.{create, update}
use kc_jit_public.Store.Notifications.{try_mark_notified}
use kc_jit_public.World.{Env, World, exec, time_now}
use kc_jit_public.Notify.{Notifier, notify_once, send_marked}
use kc_jit_public.Api.{Service, audit}
use kc_jit_public.Router.{Event, serve}
use kc_jit_public.Stable.{Stable}
use kc_jit_public.Stable.Serve.{serve-Keeps}
use kc_jit_public.Ledger.Rows.{
  IsLedger, Extends, Extends-refl, append_audit-IsLedger, append_audit-Extends,
}

-- The ledger's two parts of the tables.
record SameLedger (db db' : Db) : Type 0 where
  events : db'.audit_events ≡ db.audit_events
  seq : db'.audit_seq ≡ db.audit_seq

update-SameLedger :
    (fault : Fault) (req : Request) (db : Db) → SameLedger db (update fault req db).1
unfolding update
update-SameLedger fault req db = record { events = ground arith; seq = ground arith }

create-SameLedger :
    (fault : Fault) (req : Request) (db : Db) → SameLedger db (create fault req db).1
unfolding create
create-SameLedger fault req db = record { events = ground arith; seq = ground arith }

-- The ledger keeps to the order of its ids, and extends a first one.
abbrev pub IsGrown : {K : Type 0} → List AuditRow → World K → Type 0
IsGrown first w = IsLedger w.db × Extends first w.db.audit_events

IsGrown_same :
    (first : List AuditRow) (db db' : Db)
    → SameLedger db db'
    → IsLedger db × Extends first db.audit_events
    → IsLedger db' × Extends first db'.audit_events
IsGrown_same first db db' s h = (
  record { ascending = rw s.events h.0.ascending; given = rw (s.events, s.seq) h.0.given },
  rw s.events h.1,
)

module _ {K : Type 0} (env : Env K) (svc : Service) (first : List AuditRow) where
  notify_once-SameLedger :
      (n : Notifier) (request_id kind text : String) (w : World K)
      → SameLedger w.db (notify_once env n request_id kind text w).1.db
  unfolding notify_once send_marked exec try_mark_notified
  notify_once-SameLedger n request_id kind text w = record {
    events = ground arith;
    seq = ground arith;
  }

  pub IsGrown-Stable : Stable env svc (IsGrown first)
  unfolding exec audit time_now
  IsGrown-Stable = record {
    reads = λ w n kc h. h;
    creates = λ req. record {
      at = λ w h. IsGrown_same first w.db _ (create-SameLedger (env.fault w.readings) req w.db) h;
    };
    updates = λ req. record {
      at = λ w h. IsGrown_same first w.db _ (update-SameLedger (env.fault w.readings) req w.db) h;
    };
    audits = λ action who subject request_id justification detail bg. record {
      at = λ w h. (append_audit-IsLedger _ _ _ w.db h.0, append_audit-Extends _ _ _ w.db first h.1);
    };
    notifies = λ n request_id kind text. record {
      at = λ w h. IsGrown_same first w.db _ (notify_once-SameLedger n request_id kind text w) h;
    };
  }

-- From a ledger whose ids go up and are at most the last one given out (the empty one, for one), any
-- history of the service ends with such a ledger, which has the same rows as before, in their order,
-- and after them the new ones: no event is changed or removed.
pub serve-Extends :
    {K : Type 0} (env : Env K) (svc : Service) (es : List Event) (w : World K)
    → IsLedger w.db
    → IsLedger (serve env svc es w).db
      × Extends w.db.audit_events (serve env svc es w).db.audit_events
serve-Extends env svc es w h =
    serve-Keeps (IsGrown-Stable env svc w.db.audit_events) es w (h, Extends-refl w.db.audit_events)
