-- ===== src/Auth/SignIn/Flow.antt =====
-- A whole sign-in: the login, the way back from Keycloak, and the session that follows.
use kc_jit_public.Base.{
  ℕ, zero, suc, ◌+◌, ◌*◌, ◌/◌, ◌≤◌, String, ◌≡◌, refl, ap, true, false, List, [], ◌∷◌, map, some,
  ok, eq_refl,
}
use kc_jit_public.Base.Int.{pos}
use kc_jit_public.Text.{ascii, is_empty}
use kc_jit_public.Time.{Instant, second, minute}
use kc_jit_public.Config.{Config}
use kc_jit_public.Auth.Base64.{encode}
use kc_jit_public.Auth.Cookie.{Codec, Session, from_request, set_cookie}
use kc_jit_public.Auth.Cookie.RoundTrip.{Encodes, from_request-set_cookie}
use kc_jit_public.Auth.SignIn.{
  Outside, PendingAuth, SignIn, HttpCookie, session_cookie, delete_state, CallbackQuery, last_part,
  random_token, keep_state, login_url, exchange_call, user_info_call, session_of, handle_callback,
}
use kc_jit_public.Auth.SignIn.Parts.{map-last_part}
use kc_jit_public.Auth.SignIn.Calls.{IsTold}
use kc_jit_public.Auth.SignIn.Granted.{IsGranted, handle_callback-IsGranted}

-- A text of one letter and more is not empty.
is_empty-encode : (c : ℕ) (s : List ℕ) → is_empty (ascii (encode (c ∷ s))) ≡ false
unfolding encode ascii
is_empty-encode c [] = refl
is_empty-encode c (d ∷ []) = refl
is_empty-encode c (d ∷ e ∷ s) = refl

-- The number of the reading that comes so many readings later.
abbrev pub further : ℕ → SignIn → ℕ
further zero m = m.readings
further (suc n) m = suc (further n m)

module _ (out : Outside) (cfg : Config) where
  -- What a login leaves when the random bytes can be read.
  pub login_keeps :
      (m : SignIn) (a b : List ℕ)
      → out.random m.readings 16 ≡ ok a
      → out.random (suc m.readings) 32 ≡ ok b
      → (login_url out cfg m).1 ≡ record {
        states =
            (
              ascii (encode a),
              record {
                expiry = out.now (suc (suc m.readings)) + 10 * minute;
                code_verifier = encode b;
              },
            )
            ∷ delete_state (ascii (encode a)) m.states;
        readings = suc (suc (suc m.readings));
      }
  unfolding login_url random_token keep_state
  login_keeps m a b drawn drawn' = rw (drawn, drawn') refl

  -- The callback after a login, within its ten minutes and with the answers of Keycloak for it.
  pub record Returns (m : SignIn) (q : CallbackQuery) (c : ℕ) (a b : List ℕ) (token : String)
      (user : String × List String) : Type 0 where
    pub drawn : out.random m.readings 16 ≡ ok (c ∷ a)
    pub drawn' : out.random (suc m.readings) 32 ≡ ok b
    pub no_error : is_empty q.error ≡ true
    pub same_state : q.state ≡ ascii (encode (c ∷ a))
    pub has_code : is_empty q.code ≡ false
    pub in_time : out.now (further 3 m) ≤ out.now (further 2 m) + 10 * minute
    pub exchanged :
        IsTold out (further 4 m) (exchange_call cfg q.code (encode b)) out.token_of token
    pub has_token : is_empty token ≡ false
    pub told : IsTold out (further 5 m) (user_info_call cfg token) out.user_of user
    pub named : is_empty user.0 ≡ false

  -- The session of the user at the end of the callback after the login.
  abbrev pub session_after : SignIn → String × List String → Session
  session_after m user = session_of cfg (out.now (further 6 m)) (user.0, map last_part user.1)

  cookie_after :
      (codec : Codec) (m : SignIn) (q : CallbackQuery) (c : ℕ) (a b : List ℕ) (token : String)
      (user : String × List String)
      → Returns m q c a b token user
      → (handle_callback out cfg codec q (login_url out cfg m).1).0
        ≡ ok (
            session_cookie (set_cookie codec cfg.session_secret (session_after m user)) (pos 28800))
  cookie_after codec m q c a b token user r =
      rw (login_keeps m (c ∷ a) b r.drawn r.drawn')
        (ap (λ x. x.0) ((handle_callback-IsGranted out cfg codec q _ _ _).1 granted))
    where
      kept : PendingAuth
      kept = record {
        expiry = out.now (suc (suc m.readings)) + 10 * minute;
        code_verifier = encode b;
      }

      logged : SignIn
      logged = record {
        states = (ascii (encode (c ∷ a)), kept) ∷ delete_state (ascii (encode (c ∷ a))) m.states;
        readings = suc (suc (suc m.readings));
      }

      granted :
          IsGranted out cfg codec q logged
            (session_cookie
              (set_cookie codec cfg.session_secret (session_after m user))
              (pos 28800))
            (record {
              states = delete_state q.state logged.states;
              readings = suc (suc (suc (suc logged.readings)));
            })
      granted = record {
        no_error = r.no_error;
        has_state = rw r.same_state (is_empty-encode c a);
        has_code = r.has_code;
        pending = kept;
        was_pending = rw (r.same_state, eq_refl (ascii (encode (c ∷ a)))) refl;
        in_time = r.in_time;
        token = token;
        exchanged = r.exchanged;
        has_token = r.has_token;
        user = user;
        told = r.told;
        named = r.named;
        groups = map last_part user.1;
        last_parts = map-last_part user.1;
        set = refl;
        used = refl;
      }

  -- The callback sets a cookie, which is read as the session of the user.
  pub sign_in_holds :
      (codec : Codec) (m : SignIn) (q : CallbackQuery) (c : ℕ) (a b : List ℕ) (token : String)
      (user : String × List String) (later : Instant)
      → Returns m q c a b token user
      → Encodes codec cfg.session_secret (session_after m user)
      → later / second ≤ (session_after m user).expiry
      → (cookie : HttpCookie) × ((handle_callback out cfg codec q (login_url out cfg m).1).0
          ≡ ok cookie)
        × (from_request codec cfg.session_secret later (some cookie.value)
            ≡ ok (session_after m user))
  sign_in_holds codec m q c a b token user later r enc early = (
    _,
    cookie_after codec m q c a b token user r,
    from_request-set_cookie codec cfg.session_secret later (session_after m user) enc early,
  )
