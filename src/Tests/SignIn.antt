-- ===== src/Tests/SignIn.antt =====
-- One visitor signs in through a Keycloak that knows alice.
use kc_jit_public.Base.{
  ℕ, zero, suc, ◌+◌, ◌*◌, ◌<◌, ◌≤◌, ◌/◌, String, true, ◌^^◌, ◌≡◌, refl, ap, ◌∙◌, ◌⊎◌, inl, inr, ◌↔◌,
  List, [], ◌∷◌, none, some, Result, ok, err, arith, All, length,
}
use kc_jit_public.Time.{second, hour}
use kc_jit_public.Text.{ascii}
use kc_jit_public.Auth.Base64.{encode}
use kc_jit_public.Auth.Base64.RoundTrip.{IsByte}
use kc_jit_public.Auth.Cookie.{Codec, Session, set_cookie}
use kc_jit_public.Auth.Cookie.RoundTrip.{Encodes}
use kc_jit_public.Auth.SignIn.{
  Outside, SignIn, HttpCookie, new_manager, CallbackQuery, delete_state, session_cookie, login_url,
  handle_callback,
}
use kc_jit_public.Auth.SignIn.Granted.{IsGranted, handle_callback-IsGranted}
use kc_jit_public.Auth.SignIn.Once.{callback, visits, callback_once}
use kc_jit_public.Auth.SignIn.Refused.{IsLate, callback_refused}
use kc_jit_public.Auth.SignIn.Flow.{Returns, session_after}
use kc_jit_public.Auth.SignIn.Tokens.{IsLogin, login_url-Fits}
use kc_jit_public.Auth.{actor}
use kc_jit_public.Api.{Service}
use kc_jit_public.Api.SignIn.{redirect, handle_login, handle_callback_request}
use kc_jit_public.Api.SignIn.Acts.{sign_in_acts}
use kc_jit_public.Tests.Setup.{cfg, svc, start}

abbrev zeros : ℕ → List ℕ
zeros zero = []
zeros (suc n) = 0 ∷ zeros n

abbrev pub outside : Outside
outside = record {
  now = λ n. start + n * second;
  random = λ k n. ok (zeros n);
  send = λ n call. ok (record { code = 200; status = "200 OK"; body = "{}" });
  sha256 = λ s. zeros 32;
  token_of = λ body. ok "t";
  user_of = λ body. ok ("alice", "/staff/admin-eligible" ∷ []);
  query_escape = λ s. s;
}

zeros_fill : (n : ℕ) → (length (zeros n) ≡ n) × All IsByte (zeros n)
zeros_fill zero = (refl, tt)
zeros_fill (suc n) = let (e, h) = zeros_fill n in (ap suc e, (omega arith, h))

zeros_are : (n : ℕ) (b : List ℕ) → ok (zeros n) ≡ ok b → (length b ≡ n) × All IsByte b
zeros_are n b e = let same : zeros n ≡ b = cc in rw (← same) (zeros_fill n)

abbrev logged : SignIn
logged = (login_url outside cfg new_manager).1

abbrev pub back : CallbackQuery
back = record { error = ""; error_description = ""; state = "AAAAAAAAAAAAAAAAAAAAAA"; code = "c" }

abbrev url : String
url =
    "http://kc/realms/pim-test/protocol/openid-connect/auth?client_id=pim-web&code_challenge="
    ^^ "AAAAAAAAAAAAAAAAAAAAAAAAAAAAAAAAAAAAAAAAAAA&code_challenge_method=S256&redirect_uri="
    ^^ "http://pim/auth/callback&response_type=code&scope=openid profile&state=AAAAAAAAAAAAAAAAAAAAAA"

login_url-Fits_example : IsLogin outside cfg new_manager url logged
unfolding login_url ascii
login_url-Fits_example =
    login_url-Fits outside cfg new_manager url (λ k. zeros_are) (λ s. zeros_fill 32) refl

abbrev alice : Session
alice = session_after outside cfg new_manager ("alice", "/staff/admin-eligible" ∷ [])

abbrev fixed : Codec
fixed = record {
  mac = λ key payload. 1 ∷ payload;
  marshal = λ s. 7 ∷ 8 ∷ [];
  unmarshal = λ b. some alice;
}

abbrev on : Service
on = record svc {
  cfg = record cfg { oidc_enabled = true };
  auth = some (record { session_secret = "k" });
  codec = fixed;
}

alice-Returns :
    Returns outside on.cfg new_manager back 0
      (zeros 15)
      (zeros 32)
      "t"
      ("alice", "/staff/admin-eligible" ∷ [])
unfolding ascii encode
alice-Returns = record {
  drawn = refl;
  drawn' = refl;
  no_error = refl;
  same_state = refl;
  has_code = refl;
  in_time = omega arith;
  exchanged = record { answer = _; sent = refl; success = omega arith; means = refl };
  has_token = refl;
  told = record { answer = _; sent = refl; success = omega arith; means = refl };
  named = refl;
}

alice-Encodes : Encodes fixed on.cfg.session_secret alice
alice-Encodes = record {
  payload_bytes = (omega arith, (omega arith, tt));
  code_bytes = (omega arith, (omega arith, (omega arith, tt)));
  reads_back = refl;
}

abbrev granted : SignIn
granted = (handle_callback outside cfg fixed back logged).1

abbrev cookie : HttpCookie
cookie =
    session_cookie (set_cookie fixed cfg.session_secret alice) (kc_jit_public.Base.Int.pos 28800)

handle_callback-IsGranted_example :
    (handle_callback outside cfg fixed back logged ≡ (ok cookie, granted))
    ↔ IsGranted outside cfg fixed back logged cookie granted
handle_callback-IsGranted_example =
    handle_callback-IsGranted outside cfg fixed back logged cookie granted

callback_once_example :
    (e : String) × (handle_callback outside cfg fixed back
        (visits outside cfg fixed (callback back ∷ []) granted)
      ≡ (err e, visits outside cfg fixed (callback back ∷ []) granted))
unfolding handle_callback login_url ascii
callback_once_example =
    callback_once outside cfg fixed back logged cookie refl (callback back ∷ []) (tt, tt) back refl

callback_refused_example :
    (e : String) × ((handle_callback outside cfg fixed back new_manager ≡ (err e, new_manager))
      ⊎ (IsLate outside cfg fixed back new_manager
          × (handle_callback outside cfg fixed back new_manager
              ≡ (err e, record { states = delete_state back.state []; readings = 1 }))))
callback_refused_example = callback_refused outside cfg fixed back new_manager (inr (inl refl))

sign_in_acts_example :
    (set : HttpCookie) × ((handle_callback_request outside on back
        (handle_login outside on new_manager).1).0
      ≡ redirect "/" (some set))
    × (actor on.codec on.auth on.cfg
          (start + hour)
          (record { cookie = some set.value; actor_username = "mallory" })
        ≡ "alice")
sign_in_acts_example =
    sign_in_acts outside on (record { session_secret = "k" }) new_manager back 0 (zeros 15)
      (zeros 32) "t" ("alice", "/staff/admin-eligible" ∷ []) (start + hour) "mallory"
      (record { enabled = refl; has_manager = refl; same_secret = refl }) alice-Returns
      alice-Encodes (omega arith)
