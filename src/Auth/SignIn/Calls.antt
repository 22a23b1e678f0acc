-- ===== src/Auth/SignIn/Calls.antt =====
-- The parts of the callback: what each has done where it ended without an error, and when it does.
use kc_jit_public.Base.{
  ℕ, suc, ◌≤◌, ◌<◌, String, ◌≡◌, refl, ap, ◌∙◌, le_of_ltb, inl, inr, Bool, true, false, not, List,
  map, some, Result, ok, arith, ltb, Option-cases, Bool-cases,
}
use kc_jit_public.Base.Int.{pos}
use kc_jit_public.Text.{is_empty}
use kc_jit_public.Time.{Instant}
use kc_jit_public.Config.{Config}
use kc_jit_public.Http.{HttpCall, HttpAnswer, accept}
use kc_jit_public.Http.Ran.{after_ran, after_same, accept-ok, accept-success}
use kc_jit_public.Auth.Cookie.{Codec, set_cookie, guard}
use kc_jit_public.Auth.SignIn.{
  Outside, PendingAuth, SignIn, lookup_state, delete_state, HttpCookie, session_cookie,
  CallbackQuery, last_part, check_pending, take_state, exchange_call, user_info_call, user_info,
  exchange, session_of, sign_in, check_query,
}

-- Keycloak has answered a call without an error, and its body was read.
pub record IsTold {A : Type 0} (out : Outside) (n : ℕ) (call : HttpCall) (read : String → Result A)
    (a : A) : Type 0 where
  pub answer : HttpAnswer
  pub sent : out.send n call ≡ ok answer
  pub success : answer.code < 300
  pub means : read answer.body ≡ ok a

pub check_query-ok :
    (q : CallbackQuery) {u : Unit {0}}
    → check_query q ≡ ok u
    → (is_empty q.error ≡ true) × (is_empty q.state ≡ false) × (is_empty q.code ≡ false)
unfolding check_query
check_query-ok q h = ground arith

pub guard-ok : (c : Bool) (e : String) {u : Unit {0}} → guard c e ≡ ok u → c ≡ true
guard-ok true e h = refl
guard-ok false e h = absurd cc

pub check_query_pass :
    (q : CallbackQuery)
    → is_empty q.error ≡ true
    → is_empty q.state ≡ false
    → is_empty q.code ≡ false
    → check_query q ≡ ok tt
unfolding check_query
check_query_pass q e s c = rw (e, s, c) refl

module _ (out : Outside) (cfg : Config) where
  -- The cookie of a session that starts now.
  abbrev pub granted_cookie : Codec → Instant → String × List String → HttpCookie
  granted_cookie codec now user =
      session_cookie (set_cookie codec cfg.session_secret (session_of cfg now user)) (pos 28800)

  pub take_state_ran :
      (state : String) (m : SignIn) {p : PendingAuth}
      → (take_state out state m).0 ≡ ok p
      → (lookup_state state m.states ≡ some p)
        × (out.now m.readings ≤ p.expiry)
        × ((take_state out state m).1
            ≡ record { states = delete_state state m.states; readings = suc m.readings })
  unfolding take_state check_pending
  take_state_ran state m h = elim (Option-cases (lookup_state state m.states)) [
    | inl e ↦ let h' = rw e at h in absurd cc
    | inr (p', e) ↦
        let h' = rw e at h in
        elim (Bool-cases (ltb p'.expiry (out.now m.readings))) [
          | inl late ↦ let h'' = rw late at h' in absurd cc
          | inr early ↦
              let h'' = rw early at h' in
              let one : p' ≡ _ = cc in rw (e, one) (refl, rw (← one) (le_of_ltb _ _ early), refl)
        ]
  ]

  pub exchange_calls :
      (code : String) (verifier : List ℕ) (m : SignIn)
      → (exchange out cfg code verifier m).1 ≡ record m { readings = suc m.readings }
  unfolding exchange
  exchange_calls code verifier m =
      after_same _ (out.send m.readings (exchange_call cfg code verifier)) _ λ answer.
        after_same _ (accept "token exchange" answer) _ λ body.
          after_same _ (out.token_of body) _
            λ token. after_same _ (guard (not (is_empty token)) "empty access_token") _ λ u. refl

  pub exchange_ran :
      (code : String) (verifier : List ℕ) (m : SignIn) (token : String)
      → (exchange out cfg code verifier m).0 ≡ ok token
      → IsTold out m.readings (exchange_call cfg code verifier) out.token_of token
        × (is_empty token ≡ false)
  unfolding exchange
  exchange_ran code verifier m token h =
      let call = exchange_call cfg code verifier in
      let (answer, sent, h₁) = after_ran _ (out.send m.readings call) _ h in
      let (body, taken, h₂) = after_ran _ (accept "token exchange" answer) _ h₁ in
      let (found, means, h₃) = after_ran _ (out.token_of body) _ h₂ in
      let (u, kept, h₄) = after_ran _ (guard (not (is_empty found)) "empty access_token") _ h₃ in
      let (success, same) = accept-ok "token exchange" answer taken in
      let one : found ≡ token = cc in
      (
        record {
          answer = answer;
          sent = sent;
          success = success;
          means = ap out.token_of same ∙ means ∙ ap ok one;
        },
        rw (← one) (ground (arith, guard-ok _ _ kept)),
      )

  pub user_info_calls :
      (token : String) (m : SignIn)
      → (user_info out cfg token m).1 ≡ record m { readings = suc m.readings }
  unfolding user_info
  user_info_calls token m =
      after_same _ (out.send m.readings (user_info_call cfg token)) _ λ answer.
        after_same _ (accept "userinfo" answer) _
          λ body. after_same _ (out.user_of body) _ λ found. refl

  pub user_info_ran :
      (token : String) (m : SignIn) {user : String × List String}
      → (user_info out cfg token m).0 ≡ ok user
      → (found : String × List String) × IsTold out m.readings
          (user_info_call cfg token)
          out.user_of
          found
        × (user ≡ (found.0, map last_part found.1))
  unfolding user_info
  user_info_ran token m h =
      let (answer, sent, h₁) = after_ran _ (out.send m.readings (user_info_call cfg token)) _ h in
      let (body, taken, h₂) = after_ran _ (accept "userinfo" answer) _ h₁ in
      let (found, means, h₃) = after_ran _ (out.user_of body) _ h₂ in
      let (success, same) = accept-ok "userinfo" answer taken in
      (
        found,
        record {
          answer = answer;
          sent = sent;
          success = success;
          means = ap out.user_of same ∙ means;
        },
        cc,
      )

  pub exchange_told :
      (code : String) (verifier : List ℕ) (m : SignIn) (token : String)
      → IsTold out m.readings (exchange_call cfg code verifier) out.token_of token
      → is_empty token ≡ false
      → exchange out cfg code verifier m ≡ (ok token, record m { readings = suc m.readings })
  unfolding exchange
  exchange_told code verifier m token t e =
      rw (t.sent, accept-success "token exchange" t.answer t.success, t.means, e) refl

  pub user_info_told :
      (token : String) (m : SignIn) (user : String × List String)
      → IsTold out m.readings (user_info_call cfg token) out.user_of user
      → user_info out cfg token m
        ≡ (ok (user.0, map last_part user.1), record m { readings = suc m.readings })
  unfolding user_info
  user_info_told token m user t =
      rw (t.sent, accept-success "userinfo" t.answer t.success, t.means) refl

  pub sign_in_ran :
      (codec : Codec) (user : String × List String) (m : SignIn) (cookie : HttpCookie)
      → (sign_in out cfg codec user m).0 ≡ ok cookie
      → (is_empty user.0 ≡ false)
        × (cookie ≡ granted_cookie codec (out.now m.readings) user)
        × ((sign_in out cfg codec user m).1 ≡ record m { readings = suc m.readings })
  unfolding sign_in
  sign_in_ran codec user m cookie h = elim (Bool-cases (is_empty user.0)) [
    | inl e ↦ let h' = rw e at h in absurd cc
    | inr e ↦ let h' = rw e at h in rw e (refl, cc, refl)
  ]

  pub take_state_pass :
      (state : String) (m : SignIn) (p : PendingAuth)
      → lookup_state state m.states ≡ some p
      → out.now m.readings ≤ p.expiry
      → take_state out state m
        ≡ (ok p, record { states = delete_state state m.states; readings = suc m.readings })
  unfolding take_state check_pending
  take_state_pass state m p e h =
      let early : ltb p.expiry (out.now m.readings) ≡ false = ground arith in rw (e, early) refl

  pub sign_in_pass :
      (codec : Codec) (user : String × List String) (m : SignIn)
      → is_empty user.0 ≡ false
      → sign_in out cfg codec user m ≡ (
        ok (granted_cookie codec (out.now m.readings) user),
        record m { readings = suc m.readings },
      )
  unfolding sign_in
  sign_in_pass codec user m e = rw e refl
