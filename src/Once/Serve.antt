-- ===== src/Once/Serve.antt =====
-- Every history keeps each message the only one of its key.
use kc_jit_public.Base.{List}
use kc_jit_public.World.{Env, World}
use kc_jit_public.Api.{Service}
use kc_jit_public.Router.{Event, serve}
use kc_jit_public.Stable.Serve.{serve-Keeps}
use kc_jit_public.Once.{IsOnce}
use kc_jit_public.Once.Notify.{IsOnce-Stable}

module _ {K : Type 0} (env : Env K) (svc : Service) where
  -- From a world in which no two messages to the webhook have one request and one kind, and each
  -- message's key is in the table `notifications`, any history of the service ends in such a world:
  -- no message is sent twice for a request and a kind.
  pub serve-IsOnce : (es : List Event) (w : World K) → IsOnce w → IsOnce (serve env svc es w)
  serve-IsOnce = serve-Keeps (IsOnce-Stable env svc)
