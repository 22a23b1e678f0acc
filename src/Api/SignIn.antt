-- ===== src/Api/SignIn.antt =====
-- The handlers of internal/api that sign a visitor in and out.
pub mod Acts
use kc_jit_public.Base.{
  String, Bool, true, false, not, ◌||◌, Option, none, some, Result, ok, err, if◌then◌else◌,
}
use kc_jit_public.Http.{Page, http_error}
use kc_jit_public.Auth.{Manager}
use kc_jit_public.Auth.SignIn.{
  Outside, SignIn, HttpCookie, clear, CallbackQuery, login_url, handle_callback,
}
use kc_jit_public.Api.{Service, Response, write_err}

-- What a visitor gets: a page, an answer of the API, or `http.Redirect` with status 302 to a URL, and
-- the cookie that is set on the way, if there is one.
pub data Answer : Type 0 where
  page : Page → Answer
  json : Response → Answer
  redirect : String → Option HttpCookie → Answer

abbrev pub is_none {ℓ} : {A : Type ℓ} → Option A → Bool
is_none none = true
is_none (some a) = false

abbrev pub sent_to_login : Result String → Answer
sent_to_login (ok url) = redirect url none
sent_to_login (err m) = json (write_err 500 m)

abbrev pub sent_home : Result HttpCookie → Answer
sent_home (ok cookie) = redirect "/" (some cookie)
sent_home (err m) = json (write_err 400 m)

abbrev pub disabled : Answer
disabled = page (http_error 404 "OIDC disabled")

module _ (out : Outside) (svc : Service) where
  -- `!s.cfg.OIDCEnabled || s.auth == nil`.
  abbrev pub cannot_sign_in : Bool
  cannot_sign_in = not svc.cfg.oidc_enabled || is_none svc.auth

  unfoldable pub handle_login : SignIn → Answer × SignIn
  unfolding login_url
  handle_login m =
      if cannot_sign_in
      then (disabled, m)
      else (sent_to_login (login_url out svc.cfg m).0, (login_url out svc.cfg m).1)

  unfoldable pub handle_callback_request : CallbackQuery → SignIn → Answer × SignIn
  unfolding handle_callback
  handle_callback_request q m = if cannot_sign_in then (disabled, m) else (
    sent_home (handle_callback out svc.cfg svc.codec q m).0,
    (handle_callback out svc.cfg svc.codec q m).1,
  )

  -- Without a manager there is no cookie to clear.
  unfoldable pub handle_logout : Answer
  unfolding clear
  handle_logout = redirect "/" (if is_none svc.auth then none else some clear)
