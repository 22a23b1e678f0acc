-- ===== src/Members.antt =====
-- What the service promises of Keycloak's active group (internal/api/api.go with
-- internal/keycloak/client.go behind `api.Groups`): only users with a grant are in it.
pub mod Rows
pub mod Rules
pub mod Calls
pub mod Handlers
pub mod Reconcile
pub mod Serve
pub mod InTime
use kc_jit_public.Base.{ℕ, String, ◌≡◌, ◌≢◌, ◌⊎◌, Bool, true, List, none, some, ok}
use kc_jit_public.Store.{Row, approved}
use kc_jit_public.Store.Requests.{find}
use kc_jit_public.Store.Keys.{Keyed}
use kc_jit_public.World.{Env, World}
use kc_jit_public.Api.{Service}
use kc_jit_public.Lifecycle.Rules.{rows_of}

-- Who is in the active group, with what its calls tell of that. The engine runs every statement.
pub record Honest {K : Type 0} (env : Env K) (svc : Service) : Type 0 where
  pub is_active : K → String → Bool
  pub runs : (n : ℕ) → env.fault n ≡ none
  pub asks :
      (user group v : String) (kc : K)
      → is_active (env.groups.in_group user group kc).1 v ≡ true
      → is_active kc v ≡ true
  -- An addition that answers an error has added nobody.
  pub adds :
      (user v : String) (kc : K)
      → is_active (env.groups.add_to_group user svc.cfg.group_active kc).1 v ≡ true
      → (is_active kc v ≡ true)
        ⊎ (((env.groups.add_to_group user svc.cfg.group_active kc).0 ≡ ok tt) × (v ≡ user))
  -- A removal that answers no error has removed the user; one that answers an error may have.
  pub removes :
      (user v : String) (kc : K)
      → is_active (env.groups.remove_from_group user svc.cfg.group_active kc).1 v ≡ true
      → (is_active kc v ≡ true)
        × ((env.groups.remove_from_group user svc.cfg.group_active kc).0 ≡ ok tt → v ≢ user)

-- The user has an approved request, which a query by its id finds.
pub record HasGrant (rows : List Row) (v : String) : Type 0 where
  pub row : Row
  pub found : find row.id rows ≡ some row
  pub owner : row.username ≡ v
  pub granted : row.status ≡ approved

module _ {K : Type 0} (env : Env K) (svc : Service) (h : Honest env svc) where
  -- A condition on the table, and one on each member of the group.
  pub record Admits (Q : List Row → Type 0) (G : List Row → String → Type 0) (w : World K)
      : Type 0 where
    pub keyed : Keyed (rows_of w)
    pub holds : Q (rows_of w)
    pub covers : (v : String) → h.is_active w.kc v ≡ true → G (rows_of w) v

  -- The ids are distinct, and each member has a grant.
  abbrev pub Backed : World K → Type 0
  Backed = Admits (λ rows. Unit) HasGrant
