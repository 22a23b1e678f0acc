-- ===== src/Members/Calls.antt =====
-- The statements on the table, and the calls that put users into the group and take them out.
use kc_jit_public.Base.{String, ◌≡◌, ◌≢◌, refl, ◌⊎◌, inl, inr, List, none, some, Option-cases}
use kc_jit_public.Store.{Row, Request, pending, approved, Fault}
use kc_jit_public.Store.Requests.{find, to_row, create, update, update_rows}
use kc_jit_public.Store.Keys.{append-Keyed, update_rows-Keyed}
use kc_jit_public.Store.Written.{update-rows_run}
use kc_jit_public.World.{Env, World, exec, add_to_group, remove_from_group}
use kc_jit_public.World.Try.{Try, ◌>>=◌, lift, or_stop}
use kc_jit_public.Api.{Service}
use kc_jit_public.Api.Approve.{expire_of}
use kc_jit_public.Lifecycle.Rules.{rows_of}
use kc_jit_public.Members.{Honest, HasGrant, Admits, Backed}
use kc_jit_public.Members.Rows.{
  Read, HasGrant-append, HasGrant-update_pending, HasGrant-update_released, HasGrant-granted,
}
use kc_jit_public.Members.Rules.{Leaves, Leaves-call}

-- A member has a grant, but for one user who has just been let in.
abbrev pub OrUser : Request → List Row → String → Type 0
OrUser req rows v = HasGrant rows v ⊎ (v ≡ req.username)

-- A member has a grant, and one user has just been taken out.
abbrev pub NotUser : Request → List Row → String → Type 0
NotUser req rows v = HasGrant rows v × (v ≢ req.username)

module _ {K : Type 0} (env : Env K) (svc : Service) (h : Honest env svc) where
  module _ (Q Q' : List Row → Type 0) (G : List Row → String → Type 0) where
    pub update-Leaves :
        (req : Request)
        → ((rows : List Row) → Q rows → Q' (update_rows req rows))
        → ((rows : List Row) (v : String) → Q rows → G rows v → HasGrant (update_rows req rows) v)
        → Leaves
            (Admits env svc h Q G)
            (Admits env svc h Q' HasGrant)
            (exec env λ fault. update fault req)
    unfolding exec
    update-Leaves req after covered = record {
      at = λ w p.
          let written : (update (env.fault w.readings) req w.db).1.requests
              ≡ update_rows req (rows_of w) =
            rw (h.runs w.readings) (update-rows_run req w.db) in
          record {
            keyed = rw written (update_rows-Keyed req (rows_of w) p.keyed);
            holds = rw written (after (rows_of w) p.holds);
            covers = λ v member. rw written (covered (rows_of w) v p.holds (p.covers v member));
          };
    }

  pub expire-Leaves :
      (req : Request)
      → Leaves
          (Admits env svc h (Read pending req) HasGrant)
          (Backed env svc h)
          (exec env λ fault. update fault (expire_of req))
  expire-Leaves req =
      update-Leaves _ _ _ _ (λ rows r. tt)
        (λ rows v r g. HasGrant-update_pending req _ rows v refl r g)

  pub grant-Leaves :
      (req req' : Request)
      → req'.id ≡ req.id
      → req'.status ≡ approved
      → Leaves
          (Admits env svc h (Read pending req) (OrUser req))
          (Backed env svc h)
          (exec env λ fault. update fault req')
  grant-Leaves req req' same granted =
      update-Leaves _ _ _ _ (λ rows r. tt)
        (λ rows v r g. elim g [
          | inl before ↦ HasGrant-update_pending req req' rows v same r before
          | inr user ↦ rw user (HasGrant-granted req req' rows same granted r.held)
        ])

  pub release-Leaves :
      (Q' : List Row → Type 0) (req req' : Request)
      → req'.id ≡ req.id
      → ((rows : List Row) → Read approved req rows → Q' (update_rows req' rows))
      → Leaves
          (Admits env svc h (Read approved req) (NotUser req))
          (Admits env svc h Q' HasGrant)
          (exec env λ fault. update fault req')
  release-Leaves Q' req req' same after =
      update-Leaves _ _ _ _ after
        (λ rows v r g. HasGrant-update_released req req' rows v same r g.0 g.1)

  create-Backed :
      (fault : Fault) (req : Request) (w : World K)
      → Backed env svc h w
      → Backed env svc h (record w { db = (create fault req w.db).1 })
  unfolding create to_row
  create-Backed (some m) req w p = record { keyed = p.keyed; holds = tt; covers = p.covers }
  create-Backed none req w p = elim (Option-cases (find req.id w.db.requests)) [
    | inl fresh ↦ rw fresh (record {
      keyed = append-Keyed w.db.requests (to_row req) p.keyed fresh;
      holds = tt;
      covers = λ v member. HasGrant-append w.db.requests _ v (p.covers v member);
    })
    | inr (row, taken) ↦ rw taken (record { keyed = p.keyed; holds = tt; covers = p.covers })
  ]

  pub create-Leaves :
      (req : Request)
      → Leaves (Backed env svc h) (Backed env svc h) (exec env λ fault. create fault req)
  unfolding exec
  create-Leaves req = record {
    at = λ w p.
        let b = create-Backed (env.fault w.readings) req w p in
        record { keyed = b.keyed; holds = tt; covers = b.covers };
  }

  -- The user is added, and what follows writes the grant.
  pub add-Leaves :
      {E B : Type 0} (Q : List Row → Type 0) (req : Request) (e : String → E) (f : Unit → Try K E B)
      → Leaves (Admits env svc h Q (OrUser req)) (Backed env svc h) (f tt)
      → Leaves
          (Admits env svc h Q HasGrant)
          (Backed env svc h)
          (lift (add_to_group env req.username svc.cfg.group_active) >>= λ r. or_stop e r >>= f)
  unfolding add_to_group
  add-Leaves Q req e f k =
      Leaves-call _ _ (λ u. Admits env svc h Q (OrUser req)) _ e f
        (λ w x p bad. record {
          keyed = p.keyed;
          holds = tt;
          covers = λ v member. elim (h.adds req.username v w.kc member) [
            | inl before ↦ p.covers v before
            | inr (good, user) ↦ cc
          ];
        })
        (λ w u p good. record {
          keyed = p.keyed;
          holds = p.holds;
          covers = λ v member. elim (h.adds req.username v w.kc member) [
            | inl before ↦ inl (p.covers v before)
            | inr (good', user) ↦ inr user
          ];
        })
        (λ u. k)

  -- The user is taken out, and what follows writes the release.
  pub remove-Leaves :
      {E B : Type 0} (Q : List Row → Type 0) (req : Request) (e : String → E) (f : Unit → Try K E B)
      → Leaves (Admits env svc h Q (NotUser req)) (Backed env svc h) (f tt)
      → Leaves (Admits env svc h Q HasGrant) (Backed env svc h) (
          lift (remove_from_group env req.username svc.cfg.group_active) >>= λ r. or_stop e r >>= f)
  unfolding remove_from_group
  remove-Leaves Q req e f k =
      Leaves-call _ _ (λ u. Admits env svc h Q (NotUser req)) _ e f
        (λ w x p bad. record {
          keyed = p.keyed;
          holds = tt;
          covers = λ v member. p.covers v (h.removes req.username v w.kc member).0;
        })
        (λ w u p good. record {
          keyed = p.keyed;
          holds = p.holds;
          covers = λ v member.
              let (before, other) = h.removes req.username v w.kc member in
              (p.covers v before, other good);
        })
        (λ u. k)
