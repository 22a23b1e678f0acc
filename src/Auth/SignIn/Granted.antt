-- ===== src/Auth/SignIn/Granted.antt =====
-- What has gone before when the callback sets a cookie.
use mathlib.Core.Path.{subst}
use kc_jit_public.Base.{
  suc, ◌+◌, ◌*◌, ◌/◌, ◌≤◌, ◌^^◌, Each, [], ◌∷◌, String, ◌≡◌, refl, sym, ap, ◌∙◌, ◌↔◌, true, false,
  List, map, some, ok,
}
use kc_jit_public.Base.Int.{pos}
use kc_jit_public.Time.{second, hour}
use kc_jit_public.Text.{is_empty, ascii, trim_slashes}
use kc_jit_public.Config.{Config, redirect_url}
use kc_jit_public.Http.{pure}
use kc_jit_public.Http.Ran.{bind_ran}
use kc_jit_public.Auth.Cookie.{Codec, set_cookie}
use kc_jit_public.Auth.SignIn.{
  Outside, PendingAuth, SignIn, lookup_state, delete_state, HttpCookie, CallbackQuery, last_part,
  take_state, user_info, exchange, check_query, handle_callback,
}
use kc_jit_public.Auth.SignIn.Parts.{IsLastPart, map-last_part, Each-last_part}
use kc_jit_public.Auth.SignIn.Calls.{
  IsTold, granted_cookie, check_query-ok, check_query_pass, take_state_ran, take_state_pass,
  exchange_calls, exchange_ran, exchange_told, user_info_calls, user_info_ran, user_info_told,
  sign_in_ran, sign_in_pass,
}

module _ (out : Outside) (cfg : Config) where
  -- The query names no error, and a state that is pending and a code; Keycloak has exchanged the
  -- code, with the verifier of that state, for a token, and has told whose it is. The cookie is the
  -- session's of that user, with the last parts of the groups, and the state is no longer pending.
  pub record IsGranted (codec : Codec) (q : CallbackQuery) (m : SignIn) (cookie : HttpCookie)
      (m' : SignIn) : Type 0 where
    pub no_error : is_empty q.error ≡ true
    pub has_state : is_empty q.state ≡ false
    pub has_code : is_empty q.code ≡ false
    pub pending : PendingAuth
    pub was_pending : lookup_state q.state m.states ≡ some pending
    pub in_time : out.now m.readings ≤ pending.expiry
    pub token : String
    pub exchanged :
        IsTold out
          (suc m.readings)
          (record {
            method = "POST";
            url =
                trim_slashes cfg.base_url
                ^^ "/realms/"
                ^^ cfg.realm
                ^^ "/protocol/openid-connect/"
                ^^ "token";
            bearer = "";
            form =
                ("grant_type", "authorization_code")
                ∷ ("code", q.code)
                ∷ ("redirect_uri", redirect_url cfg)
                ∷ ("client_id", cfg.oidc_client_id)
                ∷ ("client_secret", cfg.oidc_client_secret)
                ∷ ("code_verifier", ascii pending.code_verifier)
                ∷ [];
          })
          out.token_of
          token
    pub has_token : is_empty token ≡ false
    pub user : String × List String
    pub told :
        IsTold out
          (suc (suc m.readings))
          (record {
            method = "GET";
            url =
                trim_slashes cfg.base_url
                ^^ "/realms/"
                ^^ cfg.realm
                ^^ "/protocol/openid-connect/"
                ^^ "userinfo";
            bearer = token;
            form = [];
          })
          out.user_of
          user
    pub named : is_empty user.0 ≡ false
    pub groups : List String
    pub last_parts : Each IsLastPart user.1 groups
    pub set : cookie ≡ record {
      name = "pim_session";
      value = set_cookie codec cfg.session_secret (record {
        username = user.0;
        groups = groups;
        expiry = (out.now (suc (suc (suc m.readings))) + 8 * hour) / second;
      });
      path = "/";
      max_age = pos 28800;
      http_only = true;
      same_site = "Lax";
    }
    pub used : m' ≡ record {
      states = delete_state q.state m.states;
      readings = suc (suc (suc (suc m.readings)));
    }

  pub handle_callback_ran :
      (codec : Codec) (q : CallbackQuery) (m : SignIn) (cookie : HttpCookie)
      → (handle_callback out cfg codec q m).0 ≡ ok cookie
      → IsGranted codec q m cookie (handle_callback out cfg codec q m).1
  unfolding handle_callback
  handle_callback_ran codec q m cookie h =
      let m₁ : SignIn = record {
        states = delete_state q.state m.states;
        readings = suc m.readings;
      } in
      let m₂ : SignIn = record m₁ { readings = suc m₁.readings } in
      let m₃ : SignIn = record m₂ { readings = suc m₂.readings } in
      let (u, fits, s₁, h₁) = bind_ran (pure (check_query q)) _ m m (λ _ _. refl) h in
      let (p, taken, s₂, h₂) =
        bind_ran (take_state out q.state) _ m m₁ (λ p e. (take_state_ran out cfg q.state m e).2)
          h₁ in
      let (token, swapped, s₃, h₃) =
        bind_ran (exchange out cfg q.code p.code_verifier) _ m₁ m₂
          (λ _ _. exchange_calls out cfg q.code p.code_verifier m₁) h₂ in
      let (user, asked, s₄, h₄) =
        bind_ran (user_info out cfg token) _ m₂ m₃ (λ _ _. user_info_calls out cfg token m₂) h₃ in
      let (who, told, same) = user_info_ran out cfg token m₂ asked in
      let (named, set, left') = sign_in_ran out cfg codec user m₃ cookie h₄ in
      let (fine, state, code) = check_query-ok q fits in
      let (found, early, left) = take_state_ran out cfg q.state m taken in
      let (exchanged, has_token) = exchange_ran out cfg q.code p.code_verifier m₁ token swapped in
      record {
        no_error = fine;
        has_state = state;
        has_code = code;
        pending = p;
        was_pending = found;
        in_time = early;
        token = token;
        exchanged = exchanged;
        has_token = has_token;
        user = who;
        told = told;
        named = sym (ap (λ x. is_empty x.0) same) ∙ named;
        groups = map last_part who.1;
        last_parts = map-last_part who.1;
        set = set ∙ ap (granted_cookie out cfg codec (out.now m₃.readings)) same;
        used = ap (λ x. x.1) (s₁ ∙ s₂ ∙ s₃ ∙ s₄) ∙ left';
      }

  handle_callback_pass :
      (codec : Codec) (q : CallbackQuery) (m : SignIn) (cookie : HttpCookie) (m' : SignIn)
      → IsGranted codec q m cookie m'
      → handle_callback out cfg codec q m ≡ (ok cookie, m')
  unfolding handle_callback
  handle_callback_pass codec q m cookie m' g =
      let m₁ : SignIn = record {
        states = delete_state q.state m.states;
        readings = suc m.readings;
      } in
      let m₂ : SignIn = record m₁ { readings = suc m₁.readings } in
      let m₃ : SignIn = record m₂ { readings = suc m₂.readings } in
      rw
        (
          check_query_pass q g.no_error g.has_state g.has_code,
          take_state_pass out cfg q.state m g.pending g.was_pending g.in_time,
          exchange_told out cfg q.code g.pending.code_verifier m₁ g.token g.exchanged g.has_token,
          user_info_told out cfg g.token m₂ g.user g.told,
          sign_in_pass out cfg codec (g.user.0, map last_part g.user.1) m₃ g.named,
          sym (Each-last_part g.user.1 g.groups g.last_parts),
          g.set,
          g.used,
        )
        refl

  -- The callback sets a cookie exactly when the query names no error, a pending state, which has not
  -- run out, and a code, and Keycloak has exchanged the code, with the state's verifier, for a token
  -- that is not empty, and has told for it a user with a name. The cookie is that of a session of this
  -- user with the last parts of the groups' paths, and the state is no longer pending.
  pub handle_callback-IsGranted :
      (codec : Codec) (q : CallbackQuery) (m : SignIn) (cookie : HttpCookie) (m' : SignIn)
      → (handle_callback out cfg codec q m ≡ (ok cookie, m')) ↔ IsGranted codec q m cookie m'
  handle_callback-IsGranted codec q m cookie m' = (
    λ e.
        subst (IsGranted codec q m cookie) (ap (λ x. x.1) e)
          (handle_callback_ran codec q m cookie (ap (λ x. x.0) e)),
    handle_callback_pass codec q m cookie m',
  )
