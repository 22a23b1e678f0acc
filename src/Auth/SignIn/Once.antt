-- ===== src/Auth/SignIn/Once.antt =====
-- A state that a callback has used is not pending again until a login issues it.
use kc_jit_public.Base.{
  String, ◌==◌, ◌≡◌, ◌≢◌, refl, inl, inr, false, List, [], ◌∷◌, none, ok, err, eq_iff, Result-cases,
  Option-cases, Bool-cases, ℕ, suc,
}
use kc_jit_public.Text.{ascii, is_empty}
use kc_jit_public.Config.{Config}
use kc_jit_public.Http.Ran.{after_keeps}
use kc_jit_public.Auth.Base64.{encode}
use kc_jit_public.Auth.Cookie.{Codec}
use kc_jit_public.Auth.SignIn.{
  Outside, PendingAuth, SignIn, lookup_state, delete_state, HttpCookie, CallbackQuery, random_token,
  check_pending, take_state, keep_state, login_url, check_query, exchange, user_info, sign_in,
  handle_callback,
}
use kc_jit_public.Auth.SignIn.Calls.{exchange_calls, user_info_calls}
use kc_jit_public.Auth.SignIn.Granted.{handle_callback_ran}

abbrev States : Type 0
States = List (String × PendingAuth)

lookup_state-delete_state : (s : String) (ps : States) → lookup_state s (delete_state s ps) ≡ none
lookup_state-delete_state s [] = refl
lookup_state-delete_state s ((k, p) ∷ ps) = elim (Bool-cases (k == s)) [
  | inl e ↦ rw e (lookup_state-delete_state s ps)
  | inr e ↦ rw (e, e) (lookup_state-delete_state s ps)
]

lookup_state-tail :
    (s k : String) (p : PendingAuth) (ps : States)
    → lookup_state s ((k, p) ∷ ps) ≡ none
    → ((k == s) ≡ false) × (lookup_state s ps ≡ none)
lookup_state-tail s k p ps h = elim (Bool-cases (k == s)) [
  | inl e ↦ let h' = rw e at h in absurd cc
  | inr e ↦ (e, rw e at h)
]

-- Deleting a state that is not there changes nothing.
delete_state_absent : (s : String) (ps : States) → lookup_state s ps ≡ none → delete_state s ps ≡ ps
delete_state_absent s [] h = refl
delete_state_absent s ((k, p) ∷ ps) h =
    let (e, h') = lookup_state-tail s k p ps h in rw (e, delete_state_absent s ps h') refl

lookup_state_kept :
    (s t : String) (ps : States)
    → lookup_state s ps ≡ none
    → lookup_state s (delete_state t ps) ≡ none
lookup_state_kept s t [] h = refl
lookup_state_kept s t ((k, p) ∷ ps) h =
    let (e, h') = lookup_state-tail s k p ps h in
    elim (Bool-cases (k == t)) [
      | inl f ↦ rw f (lookup_state_kept s t ps h')
      | inr f ↦ rw (f, e) (lookup_state_kept s t ps h')
    ]

not_same : (s t : String) → s ≢ t → (s == t) ≡ false
not_same s t h = elim (Bool-cases (s == t)) [ inl e ↦ absurd (h ((eq_iff s t).0 e)) | inr e ↦ e ]

-- What a visitor does: begins to sign in, or comes back from Keycloak.
pub data Visit : Type 0 where
  login : Visit
  callback : CallbackQuery → Visit

module _ (out : Outside) (cfg : Config) (codec : Codec) where
  unfoldable pub visit : Visit → SignIn → SignIn
  visit login m = (login_url out cfg m).1
  visit (callback q) m = (handle_callback out cfg codec q m).1

  unfoldable pub visits : List Visit → SignIn → SignIn
  unfolding visit
  visits [] m = m
  visits (v ∷ vs) m = visits vs (visit v m)

  -- The login does not draw this state.
  abbrev pub AvoidsOne : String → Visit → SignIn → Type 0
  AvoidsOne s login m = (t : List ℕ) → (random_token out 16 m).0 ≡ ok t → ascii t ≢ s
  AvoidsOne s (callback q) m = Unit

  -- None of the logins draws this state.
  abbrev pub Avoids : String → List Visit → SignIn → Type 0
  Avoids s [] m = Unit
  Avoids s (v ∷ vs) m = AvoidsOne s v m × Avoids s vs (visit v m)

  take_state_absent :
      (s : String) (m : SignIn)
      → lookup_state s m.states ≡ none
      → take_state out s m ≡ (err "invalid or expired state", m)
  unfolding take_state check_pending
  take_state_absent s m h = rw (h, delete_state_absent s m.states h) refl

  -- A state that is not pending gets an error, calls nothing and changes nothing.
  pub callback_unknown :
      (q : CallbackQuery) (m : SignIn)
      → lookup_state q.state m.states ≡ none
      → (e : String) × (handle_callback out cfg codec q m ≡ (err e, m))
  unfolding handle_callback
  callback_unknown q m h = elim (Result-cases (check_query q)) [
    | inl (u, e) ↦ ("invalid or expired state", rw (e, take_state_absent q.state m h) refl)
    | inr (e, fails) ↦ (e, rw fails refl)
  ]

  take_state_states :
      (s : String) (m : SignIn) → (take_state out s m).1.states ≡ delete_state s m.states
  unfolding take_state check_pending
  take_state_states s m = elim (Option-cases (lookup_state s m.states)) [
    | inl e ↦ rw e refl
    | inr (p, e) ↦ rw e refl
  ]

  sign_in_states :
      (user : String × List String) (m : SignIn)
      → (sign_in out cfg codec user m).1.states ≡ m.states
  unfolding sign_in
  sign_in_states user m = elim (Bool-cases (is_empty user.0)) [
    | inl e ↦ rw e refl
    | inr e ↦ rw e refl
  ]

  -- A callback keeps absent what is absent.
  callback_absent :
      (s : String) (q : CallbackQuery) (m : SignIn)
      → lookup_state s m.states ≡ none
      → lookup_state s (handle_callback out cfg codec q m).1.states ≡ none
  unfolding handle_callback
  callback_absent s q m h = after_keeps Absent _ (check_query q) m h λ u.
      after_keeps Absent _ (take_state out q.state m).0 _ taken λ p.
        let m₁ = (take_state out q.state m).1 in
        let swapped = exchange_calls out cfg q.code p.code_verifier m₁ in
        let h₁ : Absent (exchange out cfg q.code p.code_verifier m₁).1 = rw swapped taken in
        after_keeps Absent _ (exchange out cfg q.code p.code_verifier m₁).0 _ h₁ λ token.
          let m₂ = (exchange out cfg q.code p.code_verifier m₁).1 in
          let asked = user_info_calls out cfg token m₂ in
          let h₂ : Absent (user_info out cfg token m₂).1 = rw asked h₁ in
          after_keeps Absent _ (user_info out cfg token m₂).0 _ h₂
            λ user. rw (sign_in_states user (user_info out cfg token m₂).1) h₂
    where
      Absent : SignIn → Type 0
      Absent m' = lookup_state s m'.states ≡ none

      taken : Absent (take_state out q.state m).1
      taken = rw (take_state_states q.state m) (lookup_state_kept s q.state m.states h)

  -- So does a login that draws another state.
  login_absent :
      (s : String) (m : SignIn)
      → AvoidsOne s login m
      → lookup_state s m.states ≡ none
      → lookup_state s (login_url out cfg m).1.states ≡ none
  unfolding login_url random_token keep_state
  login_absent s m avoids h = elim (Result-cases (out.random m.readings 16)) [
    | inr (e, fails) ↦ rw fails h
    | inl (a, drawn) ↦ elim (Result-cases (out.random (suc m.readings) 32)) [
      | inr (e, fails) ↦ rw (drawn, fails) h
      | inl (b, drawn') ↦
          let other = not_same (ascii (encode a)) s (avoids (encode a) (rw drawn refl)) in
          rw (drawn, drawn', other) (lookup_state_kept s (ascii (encode a)) m.states h)
    ]
  ]

  visits_absent :
      (s : String) (vs : List Visit) (m : SignIn)
      → Avoids s vs m
      → lookup_state s m.states ≡ none
      → lookup_state s (visits vs m).states ≡ none
  unfolding visits
  visits_absent s [] m a h = h
  visits_absent s (login ∷ vs) m a h = visits_absent s vs _ a.1 (login_absent s m a.0 h)
  visits_absent s (callback q ∷ vs) m a h = visits_absent s vs _ a.1 (callback_absent s q m h)

  -- When a callback has set a cookie, no later callback with its state sets one, and it calls nothing
  -- and changes nothing, unless a login has drawn the same state in between.
  pub callback_once :
      (q : CallbackQuery) (m : SignIn) (cookie : HttpCookie)
      → (handle_callback out cfg codec q m).0 ≡ ok cookie
      → (vs : List Visit) → Avoids q.state vs (handle_callback out cfg codec q m).1
      → (q' : CallbackQuery) → q'.state ≡ q.state
      → (e : String) × (handle_callback out cfg codec q'
            (visits vs (handle_callback out cfg codec q m).1)
          ≡ (err e, visits vs (handle_callback out cfg codec q m).1))
  callback_once q m cookie h vs a q' same =
      let used = (handle_callback_ran out cfg codec q m cookie h).used in
      let gone : lookup_state q.state (handle_callback out cfg codec q m).1.states ≡ none =
        rw used (lookup_state-delete_state q.state m.states) in
      callback_unknown q' _ (rw same (visits_absent q.state vs _ a gone))
