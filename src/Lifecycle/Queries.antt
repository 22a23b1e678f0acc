-- ===== src/Lifecycle/Queries.antt =====
-- Rules for actions that go on from what a query has found, and for two actions in a row.
use kc_jit_public.Base.{
  String, ◌≡◌, refl, ◌∙◌, inl, inr, List, none, some, Result, ok, err, Option-cases,
}
use kc_jit_public.Store.{Db, Fault, Row, Request}
use kc_jit_public.Store.Requests.{find, scan_request, get}
use kc_jit_public.Store.Keys.{find-id}
use kc_jit_public.Store.Scans.{scan_request-id}
use kc_jit_public.World.{Env, World, query}
use kc_jit_public.World.Try.{Step, stop, next, Try, continue, ◌>>=◌, lift, or_stop}
use kc_jit_public.Api.{Service}
use kc_jit_public.Lifecycle.{Holds, Changes, none_made, Changes-trans}
use kc_jit_public.Lifecycle.Rules.{rows_of}
use kc_jit_public.Lifecycle.Leads.{Leads}

pub get-Holds :
    (fault : Fault) (id : String) (db : Db) (req : Request)
    → get fault id db ≡ ok req
    → Holds db.requests req
unfolding get
get-Holds (some m) id db req h = cc
get-Holds none id db req h = elim (Option-cases (find id db.requests)) [
  | inl missing ↦ cc (rw missing at h)
  | inr (row, found) ↦
      let scanned : scan_request row ≡ ok req = rw found at h in
      let same : req.id ≡ id = scan_request-id row req scanned ∙ find-id id db.requests found in
      record { row = row; found = rw same found; scanned = scanned }
]

module _ {K E A B : Type 0} (svc : Service) (P : List Row → Type 0) (env : Env K) (e : String → E)
    (q : Fault → Db → Result A) (f : A → Try K E B) (Q : A → List Row → Type 0)
    (sound : (fault : Fault) (db : Db) (a : A)
      → P db.requests
      → q fault db ≡ ok a
      → Q a db.requests)
    (k : (a : A) → Leads svc (Q a) (f a)) where
  found-Changes :
      (r : Result A) (w : World K)
      → ((a : A) → r ≡ ok a → Q a (rows_of w))
      → Changes svc (rows_of w) (rows_of ((or_stop e r >>= f) w).1)
  unfolding ◌>>=◌ continue or_stop
  found-Changes (err m) w h = none_made
  found-Changes (ok a) w h = (k a).at w (h a refl)

  -- After a query the rest may rely on what its answer says of the table.
  pub Leads-query : Leads svc P (lift (query env q) >>= λ found. or_stop e found >>= f)
  unfolding ◌>>=◌ continue lift query
  Leads-query = record {
    at = λ w p.
        found-Changes (q (env.fault w.readings) w.db) _
          (λ a. sound (env.fault w.readings) w.db a p);
  }

-- After `Get` the rest may rely on the row of the request that was read.
pub Leads-get :
    {K E B : Type 0} (svc : Service) (P : List Row → Type 0) (env : Env K) (e : String → E)
    (f : Request → Try K E B)
    → ((req : Request) → Leads svc (λ rows. Holds rows req) (f req))
    → (id : String)
    → Leads svc P (lift (query env λ fault. get fault id) >>= λ found. or_stop e found >>= f)
Leads-get svc P env e f k id =
    Leads-query svc P env e (λ fault. get fault id) f (λ req rows. Holds rows req)
      (λ fault db req p. get-Holds fault id db req) k

module _ {K E A B : Type 0} (svc : Service) (P P' : List Row → Type 0) where
  seq-Changes :
      (f : A → Try K E B) (s : Step E A) (w : World K)
      → ((a : A) → Leads svc P' (f a))
      → P' (rows_of w)
      → Changes svc (rows_of w) (rows_of (continue f s w).1)
  unfolding continue
  seq-Changes f (stop e) w k p = none_made
  seq-Changes f (next a) w k p = (k a).at w p

  -- The steps of two actions, one after the other.
  pub Leads-seq :
      (m : Try K E A) (f : A → Try K E B)
      → Leads svc P m
      → ((rows rows' : List Row) → Changes svc rows rows' → P rows → P' rows')
      → ((a : A) → Leads svc P' (f a))
      → Leads svc P (m >>= f)
  unfolding ◌>>=◌
  Leads-seq m f l move k = record {
    at = λ w p.
        Changes-trans svc (l.at w p)
          (seq-Changes f (m w).0 (m w).1 k (move (rows_of w) (rows_of (m w).1) (l.at w p) p));
  }
