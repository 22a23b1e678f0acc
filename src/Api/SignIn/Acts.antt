-- ===== src/Api/SignIn/Acts.antt =====
-- Whoever has signed in is the actor of the requests that follow.
use kc_jit_public.Base.{ℕ, ◌+◌, ◌*◌, ◌/◌, ◌≤◌, String, ◌≡◌, refl, true, List, some}
use kc_jit_public.Time.{Instant, second, hour}
use kc_jit_public.Auth.{Manager, session_actor, actor}
use kc_jit_public.Auth.Cookie.RoundTrip.{Encodes}
use kc_jit_public.Auth.SignIn.{Outside, SignIn, HttpCookie, CallbackQuery}
use kc_jit_public.Auth.SignIn.Flow.{further, Returns, session_after, sign_in_holds}
use kc_jit_public.Api.{Service}
use kc_jit_public.Api.SignIn.{redirect, handle_login, handle_callback_request}

module _ (out : Outside) (svc : Service) (manager : Manager) where
  -- OIDC is on, and the manager signs under the secret of the settings, as `NewManager` makes it.
  pub record IsOn : Type 0 where
    pub enabled : svc.cfg.oidc_enabled ≡ true
    pub has_manager : svc.auth ≡ some manager
    pub same_secret : manager.session_secret ≡ svc.cfg.session_secret

  -- Where OIDC is on, a visitor who has asked for the login, and whose callback comes back in time with
  -- its state and a code that Keycloak exchanges for the token of a user with a name, is sent to the
  -- start page with a cookie, and until eight hours later the actor of each request with this cookie
  -- is this user, whatever the request's `X-Actor-Username` says, where HMAC and encoding/json make
  -- bytes of the session and the payload reads back.
  pub sign_in_acts :
      (m : SignIn) (q : CallbackQuery) (c : ℕ) (a b : List ℕ) (token : String)
      (user : String × List String) (later : Instant) (name : String)
      → IsOn
      → Returns out svc.cfg m q c a b token user
      → Encodes svc.codec svc.cfg.session_secret (session_after out svc.cfg m user)
      → later / second ≤ (out.now (further 6 m) + 8 * hour) / second
      → (cookie : HttpCookie) × ((handle_callback_request out svc q (handle_login out svc m).1).0
          ≡ redirect "/" (some cookie))
        × (actor svc.codec svc.auth svc.cfg later
              (record { cookie = some cookie.value; actor_username = name })
            ≡ user.0)
  unfolding handle_callback_request handle_login actor session_actor
  sign_in_acts m q c a b token user later name on r enc early =
      let (cookie, set, reads) =
        sign_in_holds out svc.cfg svc.codec m q c a b token user later r enc early in
      (
        cookie,
        rw (on.enabled, on.has_manager, set) refl,
        rw (on.has_manager, on.enabled, on.same_secret, reads, r.named) refl,
      )
