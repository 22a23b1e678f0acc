-- ===== src/Auth.antt =====
-- internal/auth/auth.go: sessions in a signed cookie, and who the actor of a request is.
pub mod Base64
pub mod Cookie
pub mod SignIn
use kc_jit_public.Base.{
  ℕ, ◌+◌, ◌-◌, ◌/◌, String, Bool, true, false, ◌&&◌, List, [], ◌∷◌, Option, none, some, Result, ok,
  err, ◌==◌, if◌then◌else◌,
}
use kc_jit_public.Text.{is_empty, trim_space}
use kc_jit_public.Time.{Instant}
use kc_jit_public.Config.{Config}
use Cookie.{Codec, Session, from_request}

-- `Manager`, as far as sessions go: the secret under which it signs them.
pub record Manager : Type 0 where
  pub session_secret : String

-- What the handlers read of an HTTP request's headers: the value of the session cookie, if there
-- is one, and `X-Actor-Username`, empty if it is not there.
pub record Headers : Type 0 where
  pub cookie : Option (List ℕ)
  pub actor_username : String

unfoldable pub header_actor : Config → Headers → String
header_actor cfg h = if cfg.allow_header_auth then trim_space h.actor_username else ""

abbrev pub session_username : Result Session → String
session_username (err m) = ""
session_username (ok s) = s.username

-- The session's user, if there is a manager and a valid session with a name.
unfoldable pub session_actor : Codec → Option Manager → Config → Instant → Headers → String
unfolding from_request
session_actor codec none cfg now h = ""
session_actor codec (some m) cfg now h =
    if cfg.oidc_enabled
    then session_username (from_request codec m.session_secret now h.cookie)
    else ""

unfoldable pub actor : Codec → Option Manager → Config → Instant → Headers → String
unfolding session_actor header_actor
actor codec m cfg now h =
    let user = session_actor codec m cfg now h in if is_empty user then header_actor cfg h else user

unfoldable pub session_or_nil : Codec → Option Manager → Instant → Headers → Option Session
unfolding from_request
session_or_nil codec none now h = none
session_or_nil codec (some m) now h = elim (from_request codec m.session_secret now h.cookie) [
  | ok s ↦ some s
  | err e ↦ none
]

unfoldable pub in_list : List String → String → Bool
in_list [] needle = false
in_list (x ∷ xs) needle = if x == needle then true else in_list xs needle
