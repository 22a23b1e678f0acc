-- ===== src/Stable.antt =====
-- Conditions on the world that whatever the service does keeps: it is enough that the parts of the
-- handlers keep them.
pub mod Parts
pub mod Handlers
pub mod Serve
use kc_jit_public.Base.{ℕ, String, Bool}
use kc_jit_public.Store.{Request}
use kc_jit_public.Store.Requests.{create, update}
use kc_jit_public.World.{Env, World, exec}
use kc_jit_public.World.Keeps.{Keeps}
use kc_jit_public.Notify.{Notifier, notify_once}
use kc_jit_public.Api.{Service, audit}

-- A condition that does not read the clock's count or Keycloak, and that the statements and the
-- messages keep.
pub record Stable {K : Type 0} (env : Env K) (svc : Service) (P : World K → Type 0) : Type 0 where
  pub reads : (w : World K) (n : ℕ) (kc : K) → P w → P (record w { readings = n; kc = kc })
  pub creates : (req : Request) → Keeps P (exec env λ fault. create fault req)
  pub updates : (req : Request) → Keeps P (exec env λ fault. update fault req)
  pub audits :
      (action who subject request_id justification detail : String) (bg : Bool)
      → Keeps P (audit env svc action who subject request_id justification detail bg)
  pub notifies :
      (n : Notifier) (request_id kind text : String)
      → Keeps P (notify_once env n request_id kind text)
