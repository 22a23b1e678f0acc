-- ===== src/Auth/SignIn.antt =====
-- Signing in through Keycloak: `LoginURL`, `HandleCallback`, `userInfo` and `Clear`.

pub mod Calls
pub mod Parts
pub mod Granted
pub mod Refused
pub mod Once
pub mod Flow
pub mod Tokens
use Prim.Native.Char.{code}
use kc_jit_public.Base.{
  ℕ, suc, ◌+◌, ◌*◌, ◌/◌, String, ◌^^◌, ◌==◌, Bool, true, false, not, ◌||◌, List, [], ◌∷◌, map,
  Option, none, some, Result, ok, err, eqb, ltb, if◌then◌else◌,
}
use kc_jit_public.Base.Int.{ℤ, pos, negsuc}
use kc_jit_public.Text.{is_empty, trim_slashes, ascii}
use kc_jit_public.Time.{Instant, second, minute, hour}
use kc_jit_public.Config.{Config, redirect_url, browser_issuer}
use kc_jit_public.Http.{HttpCall, HttpAnswer, accept, Method, ◌>>=◌, pure}
use kc_jit_public.Auth.Base64.{encode}
use kc_jit_public.Auth.Cookie.{Codec, Session, set_cookie, guard}

-- What signing in calls outside: the clock, the random bytes (how many, or an error) and the HTTP
-- calls, each by the number of the reading, SHA-256, encoding/json on the two bodies (the token and the
-- user's name and groups), and `url.QueryEscape`.
pub record Outside : Type 0 where
  pub now : ℕ → Instant
  pub random : ℕ → ℕ → Result (List ℕ)
  pub send : ℕ → HttpCall → Result HttpAnswer
  pub sha256 : List ℕ → List ℕ
  pub token_of : String → Result String
  pub user_of : String → Result (String × List String)
  pub query_escape : String → String

pub record PendingAuth : Type 0 where
  pub expiry : Instant
  pub code_verifier : List ℕ

-- The part of `Manager` that changes, `states`, with the count of the readings. The map has at most
-- one entry of a state that counts: the first.
pub record SignIn : Type 0 where
  pub states : List (String × PendingAuth)
  pub readings : ℕ

-- `NewManager`.
abbrev pub new_manager : SignIn
new_manager = record { states = []; readings = 0 }

abbrev pub lookup_state : String → List (String × PendingAuth) → Option PendingAuth
lookup_state state [] = none
lookup_state state ((key, p) ∷ ps) = if key == state then some p else lookup_state state ps

-- `delete`.
abbrev pub delete_state : String → List (String × PendingAuth) → List (String × PendingAuth)
delete_state state [] = []
delete_state state ((key, p) ∷ ps) =
    if key == state then delete_state state ps else (key, p) ∷ delete_state state ps

-- `http.Cookie`, as `http.SetCookie` writes it.
pub record HttpCookie : Type 0 where
  pub name : String
  pub value : List ℕ
  pub path : String
  pub max_age : ℤ
  pub http_only : Bool
  pub same_site : String

abbrev pub session_cookie : List ℕ → ℤ → HttpCookie
session_cookie value max_age = record {
  name = "pim_session";
  value = value;
  path = "/";
  max_age = max_age;
  http_only = true;
  same_site = "Lax";
}

-- `Clear`: a cookie that has no value and that the browser drops.
unfoldable pub clear : HttpCookie
clear = session_cookie [] (negsuc 0)

-- The parameters of the callback's URL, empty where they are missing.
pub record CallbackQuery : Type 0 where
  pub error : String
  pub error_description : String
  pub state : String
  pub code : String

-- What follows the last slash, if there is one.
unfoldable pub after_slash : String → Option String
after_slash String.[] = none
after_slash (String.◌∷◌ c s) =
    let rest = after_slash s in
    elim rest [ some t ↦ some t | none ↦ if eqb (code c) b'/' then some s else none ]

-- A group's path without the groups that it is in.
unfoldable pub last_part : String → String
unfolding after_slash
last_part g = elim (after_slash g) [ none ↦ g | some t ↦ t ]

-- `url.Values.Encode` of values that stand in the order of their keys, all of which are their own
-- escaped form.
unfoldable pub encode_values : (String → String) → List (String × String) → String
encode_values escape [] = ""
encode_values escape ((key, v) ∷ []) = key ^^ "=" ^^ escape v
encode_values escape ((key, v) ∷ w ∷ vs) =
    key ^^ "=" ^^ escape v ^^ "&" ^^ encode_values escape (w ∷ vs)

abbrev pub denied : CallbackQuery → String
denied q =
    if is_empty q.error_description
    then "oidc: " ^^ q.error
    else "oidc: " ^^ q.error ^^ ": " ^^ q.error_description

unfoldable pub check_query : CallbackQuery → Result (Unit {0})
check_query q =
    if not (is_empty q.error)
    then err (denied q)
    else if is_empty q.state || is_empty q.code
    then err "missing state or code"
    else ok tt

module _ (cfg : Config) where
  abbrev pub realm_url : String → String → String
  realm_url base rest =
      trim_slashes base ^^ "/realms/" ^^ cfg.realm ^^ "/protocol/openid-connect/" ^^ rest

  abbrev pub login_values : List ℕ → List ℕ → List (String × String)
  login_values state challenge =
      ("client_id", cfg.oidc_client_id)
      ∷ ("code_challenge", ascii challenge)
      ∷ ("code_challenge_method", "S256")
      ∷ ("redirect_uri", redirect_url cfg)
      ∷ ("response_type", "code")
      ∷ ("scope", "openid profile")
      ∷ ("state", ascii state)
      ∷ []

  abbrev pub exchange_call : String → List ℕ → HttpCall
  exchange_call code verifier = record {
    method = "POST";
    url = realm_url cfg.base_url "token";
    bearer = "";
    form =
        ("grant_type", "authorization_code")
        ∷ ("code", code)
        ∷ ("redirect_uri", redirect_url cfg)
        ∷ ("client_id", cfg.oidc_client_id)
        ∷ ("client_secret", cfg.oidc_client_secret)
        ∷ ("code_verifier", ascii verifier)
        ∷ [];
  }

  abbrev pub user_info_call : String → HttpCall
  user_info_call token = record {
    method = "GET";
    url = realm_url cfg.base_url "userinfo";
    bearer = token;
    form = [];
  }

  -- The session of a user, for eight hours.
  abbrev pub session_of : Instant → String × List String → Session
  session_of now (username, groups) = record {
    username = username;
    groups = groups;
    expiry = (now + 8 * hour) / second;
  }

module _ (out : Outside) where
  abbrev pub clock : Method SignIn Instant
  clock m = (ok (out.now m.readings), record m { readings = suc m.readings })

  abbrev pub send_call : HttpCall → Method SignIn HttpAnswer
  send_call call m = (out.send m.readings call, record m { readings = suc m.readings })

  abbrev pub read_random : ℕ → Method SignIn (List ℕ)
  read_random n m = (out.random m.readings n, record m { readings = suc m.readings })

  -- A token is kept as its letters.
  unfoldable pub random_token : ℕ → Method SignIn (List ℕ)
  unfolding encode
  random_token n = do bytes ← read_random n; pure (ok (encode bytes))

  unfoldable pub pkce_challenge : List ℕ → List ℕ
  unfolding encode
  pkce_challenge verifier = encode (out.sha256 verifier)

  -- `m.states[state] = pendingAuth{…}`, for ten minutes.
  unfoldable pub keep_state : String → List ℕ → Method SignIn (Unit {0})
  keep_state state verifier m = (
    ok tt,
    record m {
      states =
          (state, record { expiry = out.now m.readings + 10 * minute; code_verifier = verifier })
          ∷ delete_state state m.states;
      readings = suc m.readings;
    },
  )

  -- `pending, ok := m.states[state]`, `delete`, and the check, in which the clock is read only if
  -- there is an entry.
  unfoldable pub check_pending : Option PendingAuth → Method SignIn PendingAuth
  check_pending none m = (err "invalid or expired state", m)
  check_pending (some p) m = (
    if ltb p.expiry (out.now m.readings) then err "invalid or expired state" else ok p,
    record m { readings = suc m.readings },
  )

  unfoldable pub take_state : String → Method SignIn PendingAuth
  unfolding check_pending
  take_state state m =
      check_pending (lookup_state state m.states)
        (record m { states = delete_state state m.states })

  module _ (cfg : Config) where
    unfoldable pub login_url : Method SignIn String
    unfolding random_token pkce_challenge keep_state encode_values trim_slashes redirect_url
        browser_issuer
    login_url = do
      state ← random_token 16
      verifier ← random_token 32
      _ ← keep_state (ascii state) verifier
      pure (
          ok (
            realm_url cfg (browser_issuer cfg) "auth?"
            ^^ encode_values out.query_escape (login_values cfg state (pkce_challenge verifier))))

    -- `userInfo`.
    unfoldable pub user_info : String → Method SignIn (String × List String)
    unfolding last_part
    user_info token = do
      answer ← send_call (user_info_call cfg token)
      body ← pure (accept "userinfo" answer)
      found ← pure (out.user_of body)
      pure (ok (found.0, map last_part found.1))

    unfoldable pub exchange : String → List ℕ → Method SignIn String
    exchange code verifier = do
      answer ← send_call (exchange_call cfg code verifier)
      body ← pure (accept "token exchange" answer)
      token ← pure (out.token_of body)
      _ ← pure (guard (not (is_empty token)) "empty access_token")
      pure (ok token)

    -- `setCookie`, which is the session's cookie with the attributes of the HTTP cookie.
    unfoldable pub sign_in : Codec → String × List String → Method SignIn HttpCookie
    unfolding set_cookie
    sign_in codec user = do
      _ ← pure (guard (not (is_empty user.0)) "no preferred_username in userinfo")
      now ← clock
      pure (
          ok (
            session_cookie (set_cookie codec cfg.session_secret (session_of cfg now user))
              (pos 28800)))

    -- `HandleCallback`, which answers the cookie that it sets.
    unfoldable pub handle_callback : Codec → CallbackQuery → Method SignIn HttpCookie
    unfolding check_query take_state exchange user_info sign_in
    handle_callback codec q = do
      _ ← pure (check_query q)
      pending ← take_state q.state
      token ← exchange q.code pending.code_verifier
      user ← user_info token
      sign_in codec user
