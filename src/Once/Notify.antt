-- ===== src/Once/Notify.antt =====
-- `NotifyOnce` and the parts of the store keep every message the only one of its key.
use kc_jit_public.Base.{
  suc, inl, inr, String, ◌≡◌, ◌≢◌, ap, true, false, List, [], ◌∷◌, none, some, arith, eq_refl, All,
  Bool-cases,
}
use kc_jit_public.Time.{Instant}
use kc_jit_public.Store.{Db, Fault, Request, AuditEvent}
use kc_jit_public.Store.Requests.{create, update}
use kc_jit_public.Store.Audit.{append_audit}
use kc_jit_public.Store.Notifications.{is_marked, try_mark_notified}
use kc_jit_public.World.{Env, World, Post, time_now, exec}
use kc_jit_public.World.Keeps.{Keeps}
use kc_jit_public.Notify.{Notifier, notify_once, enabled, send_marked}
use kc_jit_public.Api.{Service, audit}
use kc_jit_public.Stable.{Stable}
use kc_jit_public.Once.{key_of, OnceOf, IsOnce}

is_marked_head :
    (key : String × String) (keys : List (String × String)) → is_marked key (key ∷ keys) ≡ true
unfolding is_marked
is_marked_head (i, k) keys = rw (eq_refl, eq_refl)

is_marked-cons :
    (key other : String × String) (keys : List (String × String))
    → is_marked key keys ≡ true
    → is_marked key (other ∷ keys) ≡ true
unfolding is_marked
is_marked-cons key other keys h = ground arith

-- Messages whose keys are in the table differ from one whose key is not.
All-new :
    (key : String × String) (keys : List (String × String)) (ps : List Post)
    → is_marked key keys ≡ false
    → All (λ p. is_marked (key_of p) keys ≡ true) ps
    → All (λ p. key ≢ key_of p) ps
All-new key keys [] fresh h = tt
All-new key keys (p ∷ ps) fresh h =
    (λ same. cc (fresh, h.0, ap (λ k. is_marked k keys) same), All-new key keys ps fresh h.1)

All-marked-cons :
    (other : String × String) (keys : List (String × String)) (ps : List Post)
    → All (λ p. is_marked (key_of p) keys ≡ true) ps
    → All (λ p. is_marked (key_of p) (other ∷ keys) ≡ true) ps
All-marked-cons other keys [] h = tt
All-marked-cons other keys (p ∷ ps) h =
    (is_marked-cons (key_of p) other keys h.0, All-marked-cons other keys ps h.1)

OnceOf-cons :
    (p : Post) (posts : List Post) (keys : List (String × String))
    → is_marked (key_of p) keys ≡ false
    → OnceOf posts keys
    → OnceOf (p ∷ posts) (key_of p ∷ keys)
OnceOf-cons p posts keys fresh h = record {
  distinct = (All-new (key_of p) keys posts fresh h.marked, h.distinct);
  marked = (is_marked_head (key_of p) keys, All-marked-cons (key_of p) keys posts h.marked);
}

OnceOf-marked :
    (key : String × String) (posts : List Post) (keys : List (String × String))
    → OnceOf posts keys
    → OnceOf posts (key ∷ keys)
OnceOf-marked key posts keys h = record {
  distinct = h.distinct;
  marked = All-marked-cons key keys posts h.marked;
}

module _ {K : Type 0} (env : Env K) (n : Notifier) (request_id kind text : String) where
  -- A message may be posted when its key has just been put into the table.
  marked_then_posted :
      (fault : Fault) (w : World K)
      → IsOnce w
      → let (r, db) = try_mark_notified fault request_id kind w.db in
        IsOnce
          (send_marked env n request_id kind text r
            (record w { db = db; readings = suc w.readings })).1
  unfolding send_marked try_mark_notified
  marked_then_posted (some m) w h = h
  marked_then_posted none w h = elim (Bool-cases (is_marked (request_id, kind) w.db.notified)) [
    | inl old ↦ rw old h
    | inr new ↦ rw new (
        OnceOf-cons (record { request_id = request_id; kind = kind; text = text }) w.posts
          w.db.notified new h)
  ]

  pub Keeps-notify_once : Keeps IsOnce (notify_once env n request_id kind text)
  unfolding notify_once exec
  Keeps-notify_once = record {
    at = λ w h. elim (Bool-cases (enabled (some n))) [
      | inl on ↦ rw on (marked_then_posted (env.fault w.readings) w h)
      | inr off ↦ rw off h
    ];
  }

update-notified :
    (fault : Fault) (req : Request) (db : Db) → (update fault req db).1.notified ≡ db.notified
unfolding update
update-notified fault req db = ground arith

create-notified :
    (fault : Fault) (req : Request) (db : Db) → (create fault req db).1.notified ≡ db.notified
unfolding create
create-notified fault req db = ground arith

audit-notified :
    (fault : Fault) (now : Instant) (e : AuditEvent) (db : Db)
    → (append_audit fault now e db).1.notified ≡ db.notified
unfolding append_audit
audit-notified fault now e db = ground arith

module _ {K : Type 0} (env : Env K) (svc : Service) where
  pub IsOnce-Stable : Stable env svc IsOnce
  unfolding exec audit time_now
  IsOnce-Stable = record {
    reads = λ w n kc h. h;
    creates = λ req. record { at = λ w h. rw create-notified h };
    updates = λ req. record { at = λ w h. rw update-notified h };
    audits = λ action who subject request_id justification detail bg. record {
      at = λ w h. rw audit-notified h;
    };
    notifies = λ n request_id kind text. Keeps-notify_once env n request_id kind text;
  }
