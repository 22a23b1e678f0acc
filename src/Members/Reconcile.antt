-- ===== src/Members/Reconcile.antt =====
-- A round of `Reconcile` keeps the members of the group covered by grants.
use kc_jit_public.Base.{String, true, suc, ◌≡◌, ◌≢◌, refl, List, [], ◌∷◌, Result, ok, err}
use kc_jit_public.Store.{Db, Fault, Row, Request, Status, pending, approved}
use kc_jit_public.Store.Requests.{pending_expired, active_expired}
use kc_jit_public.Store.Keys.{Keyed}
use kc_jit_public.World.{Env, World, time_now, exec, query, remove_from_group}
use kc_jit_public.World.Try.{Try, ◌>>=◌, or_stop, lift}
use kc_jit_public.World.Keeps.{Keeps, Keeps-lift}
use kc_jit_public.Api.{Service}
use kc_jit_public.Api.Approve.{expire_of}
use kc_jit_public.Api.Release.{release_of}
use kc_jit_public.Api.Reconcile.{
  expire_noted, expire_one, expire_all, revoke_noted, revoke_removed, revoke_one, revoke_all,
  reconcile,
}
use kc_jit_public.Lifecycle.Loops.{Pending, Pending-update_rows, by_status_before-Pending}
use kc_jit_public.Stable.Parts.{Keeps-send}
use kc_jit_public.Members.{Honest, HasGrant, Admits, Backed}
use kc_jit_public.Members.Rows.{Read, HasGrant-update_pending, HasGrant-update_released}
use kc_jit_public.Members.Rules.{
  Leaves, Leaves-lift, Leaves-after, Leaves-call, Stays-time_now, Stays-audit, Leaves-seq,
  Stays-request_expired, Stays-released,
}
use kc_jit_public.Members.Calls.{update-Leaves, NotUser}

module _ {K : Type 0} (env : Env K) (svc : Service) (h : Honest env svc) where
  -- The requests of the list are in the table as they were read.
  abbrev Left : Status → List Request → World K → Type 0
  Left status reqs = Admits env svc h (λ rows. Pending status rows reqs) HasGrant

  module _ (Q : List Row → Type 0) where
    Keeps-expire_noted :
        (req : Request) (r : Result Unit)
        → Keeps (Admits env svc h Q HasGrant) (expire_noted env svc req r)
    unfolding expire_noted
    Keeps-expire_noted req (err m) = record { at = λ w p. p }
    Keeps-expire_noted req (ok u) = record {
      at = λ w p.
          (Keeps-send svc.notify _
              (λ n. Stays-request_expired env svc h Q HasGrant n (expire_of req))).at
            _ ((Stays-audit env svc h Q HasGrant svc _ _ _ _ _ _ _).at w p);
    }

    Keeps-revoke_noted :
        (req : Request) (r : Result Unit)
        → Keeps (Admits env svc h Q HasGrant) (revoke_noted env svc req r)
    unfolding revoke_noted
    Keeps-revoke_noted req (err m) = record { at = λ w p. p }
    Keeps-revoke_noted req (ok u) = record {
      at = λ w p.
          (Keeps-send svc.notify _ (λ n. Stays-released env svc h Q HasGrant n req "expire")).at _
            ((Stays-audit env svc h Q HasGrant svc _ _ _ _ _ _ _).at w p);
    }

  first-Read :
      (status : Status) (req : Request) (reqs : List Request) (rows : List Row)
      → Pending status rows (req ∷ reqs)
      → Read status req rows
  first-Read status req reqs rows p = record { held = p.0; has = p.1 }

  expire_one-Left :
      (req : Request) (reqs : List Request)
      → Leaves (Left pending (req ∷ reqs)) (Left pending reqs) (expire_one env svc req)
  unfolding expire_one exec
  expire_one-Left req reqs = record {
    at = λ w p. (Keeps-expire_noted _ req _).at _ (
        (update-Leaves env svc h (λ rows. Pending pending rows (req ∷ reqs))
            (λ rows. Pending pending rows reqs) HasGrant (expire_of req)
            (λ rows q. Pending-update_rows pending rows reqs (expire_of req) q.2 q.3)
            (λ rows v q g.
              HasGrant-update_pending req (expire_of req) rows v refl
                (first-Read pending req reqs rows q) g)).at
          w p);
  }

  expire_all-Safe :
      (reqs : List Request)
      → Leaves (Left pending reqs) (Backed env svc h) (expire_all env svc reqs)
  unfolding expire_all
  expire_all-Safe [] = record { at = λ w p. p }
  expire_all-Safe (req ∷ reqs) = record {
    at = λ w p. (expire_all-Safe reqs).at _ ((expire_one-Left req reqs).at w p);
  }

  -- What follows on the removal, which answered an error or not.
  revoke_removed-Left :
      (req : Request) (reqs : List Request) (r : Result Unit) (w : World K)
      → Left approved (req ∷ reqs) w
      → (r ≡ ok tt → (v : String) → h.is_active w.kc v ≡ true → v ≢ req.username)
      → Left approved reqs (revoke_removed env svc req r w).1
  unfolding revoke_removed exec time_now
  revoke_removed-Left req reqs (err m) w p out = record {
    keyed = p.keyed;
    holds = p.holds.3;
    covers = p.covers;
  }
  revoke_removed-Left req reqs (ok u) w p out =
      let req' = release_of (env.now w.readings) req in
      (Keeps-revoke_noted _ req' _).at _ (
        (update-Leaves env svc h (λ rows. Pending approved rows (req ∷ reqs))
            (λ rows. Pending approved rows reqs) (NotUser req) req'
            (λ rows q. Pending-update_rows approved rows reqs req' q.2 q.3)
            (λ rows v q g.
              HasGrant-update_released req req' rows v refl (first-Read approved req reqs rows q)
                g.0 g.1)).at
          (record w { readings = suc w.readings })
          (record {
            keyed = p.keyed;
            holds = p.holds;
            covers = λ v member. (p.covers v member, out refl v member);
          }))

  revoke_one-Left :
      (req : Request) (reqs : List Request)
      → Leaves (Left approved (req ∷ reqs)) (Left approved reqs) (revoke_one env svc req)
  unfolding revoke_one remove_from_group
  revoke_one-Left req reqs = record {
    at = λ w p.
        revoke_removed-Left req reqs _ _
          (record {
            keyed = p.keyed;
            holds = p.holds;
            covers = λ v member. p.covers v (h.removes req.username v w.kc member).0;
          })
          (λ good v member. (h.removes req.username v w.kc member).1 good);
  }

  revoke_all-Safe :
      (reqs : List Request)
      → Leaves (Left approved reqs) (Backed env svc h) (revoke_all env svc reqs)
  unfolding revoke_all
  revoke_all-Safe [] = record { at = λ w p. p }
  revoke_all-Safe (req ∷ reqs) = record {
    at = λ w p. (revoke_all-Safe reqs).at _ ((revoke_one-Left req reqs).at w p);
  }

  -- A query for what has run out, and a loop over its answer.
  due-Safe :
      {B : Type 0} (status : Status) (q : Fault → Db → Result (List Request))
      (f : List Request → Try K String B)
      → ((fault : Fault) (db : Db) (reqs : List Request)
          → Keyed db.requests
          → q fault db ≡ ok reqs
          → Pending status db.requests reqs)
      → ((reqs : List Request) → Leaves (Left status reqs) (Backed env svc h) (f reqs))
      → Leaves
          (Backed env svc h)
          (Backed env svc h)
          (lift (query env q) >>= λ found. or_stop (λ m. m) found >>= f)
  unfolding query
  due-Safe status q f sound k =
      Leaves-call _ _ (Left status) _ (λ m. m) f
        (λ w x p bad. record { keyed = p.keyed; holds = tt; covers = p.covers })
        (λ w reqs p good. record {
          keyed = p.keyed;
          holds = sound (env.fault w.readings) w.db reqs p.keyed good;
          covers = p.covers;
        })
        k

  pub reconcile-Safe : Leaves (Backed env svc h) (Backed env svc h) (reconcile env svc)
  unfolding reconcile pending_expired active_expired
  reconcile-Safe =
      Leaves-after _ _ _ _ (λ w p. p) (Keeps-lift _ _ (Stays-time_now env svc h _ _))
        λ now.
          due-Safe pending _ _
            (λ fault db reqs k found. by_status_before-Pending fault pending _ now db reqs k found)
            λ due. Leaves-seq _ (Backed env svc h) _ _ _ (expire_all-Safe due) λ done.
              due-Safe approved _ _
                (λ fault db reqs k found.
                  by_status_before-Pending fault approved _ now db reqs k found)
                λ over. Leaves-lift _ _ _ (revoke_all-Safe over)
