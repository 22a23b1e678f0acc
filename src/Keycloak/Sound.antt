-- ===== src/Keycloak/Sound.antt =====
-- What the client's caches hold, and what its operations answer, Keycloak has answered.
use kc_jit_public.Base.{
  ℕ, ◌+◌, ◌*◌, String, ◌≡◌, refl, ◌⊎◌, inl, inr, Bool, true, false, not, ◌&&◌, ◌^^◌, List, [], ◌∷◌,
  ok, arith, ltb, leb, All, Bool-cases,
}
use mathlib.Core.Path.{subst}
use kc_jit_public.Keycloak.Gives.{Gives, Gives-bind, Gives-pure, Gives-weaken}
use kc_jit_public.Base.Int.{ℤ}
use kc_jit_public.Text.{is_empty}
use kc_jit_public.Time.{Instant, second, add}
use kc_jit_public.Config.{Config}
use kc_jit_public.Keycloak.{
  HttpCall, HttpAnswer, Outside, Client, pure, seconds, accept, decode_list, send_call, token_call,
  keep_token, fetch_token, access_token, admin_call, do_call, users_path, groups_path, first_user,
  user_id,
}

accept-ok :
    (prefix : String) (a : HttpAnswer) (body : String)
    → accept prefix a ≡ ok body
    → (leb 300 a.code ≡ false) × (a.body ≡ body)
accept-ok prefix a body h = elim (Bool-cases (leb 300 a.code)) [
  | inl bad ↦ absurd (ground arith)
  | inr good ↦ (good, ground arith)
]

abbrev pub HasGroup : String → String → List (String × String) → Type 0
HasGroup id name [] = ⊥
HasGroup id name ((i, n) ∷ groups) = ((i ≡ id) × (n ≡ name)) ⊎ HasGroup id name groups

module _ (out : Outside) (cfg : Config) where
  -- Keycloak has answered the call with the body, below status 300.
  pub record Answered (call : HttpCall) (body : String) : Type 0 where
    pub reading : ℕ
    pub answer : HttpAnswer
    pub sent : out.send reading call ≡ ok answer
    pub good : leb 300 answer.code ≡ false
    pub has : answer.body ≡ body

  -- The token endpoint has answered the token, and it expires then.
  pub record WasToken (token : String) (expiry : Instant) : Type 0 where
    pub body : String
    pub answered : Answered (token_call out cfg) body
    pub secs : ℤ
    pub read : out.token_of body ≡ ok (token, secs)
    pub reading : ℕ
    pub expires : expiry ≡ add (out.now reading) (seconds secs)

  -- A call of the admin API was answered, sent with a token that the token endpoint had answered.
  pub record AnsweredAdmin (method path body : String) : Type 0 where
    pub token : String
    pub named : is_empty token ≡ false
    pub expiry : Instant
    pub was_token : WasToken token expiry
    pub answered : Answered (admin_call out cfg method path token) body

  pub record WasGroup (name id : String) : Type 0 where
    pub named : is_empty id ≡ false
    pub body : String
    pub answered : AnsweredAdmin "GET" (groups_path out cfg name) body
    pub groups : List (String × String)
    pub read : decode_list out.groups_of body ≡ ok groups
    pub found : HasGroup id name groups

  pub record WasUser (username uid : String) : Type 0 where
    pub body : String
    pub answered : AnsweredAdmin "GET" (users_path out cfg username) body
    pub ids : List String
    pub read : decode_list out.user_ids_of body ≡ ok ids
    pub first : first_user out cfg username ids ≡ ok uid

  -- What the caches hold was answered.
  pub record IsSound (c : Client) : Type 0 where
    pub token : is_empty c.cached_token ≡ false → WasToken c.cached_token c.token_expiry
    pub groups : All (λ e. WasGroup e.0 e.1) c.group_ids

  abbrev IsToken : String → Type 0
  IsToken token = (is_empty token ≡ false) × ((expiry : Instant) × WasToken token expiry)

  pub send_call-Gives :
      (call : HttpCall)
      → Gives IsSound (λ a. (n : ℕ) × (out.send n call ≡ ok a)) (send_call out cfg call)
  send_call-Gives call = record {
    keeps = λ c p. record { token = p.token; groups = p.groups };
    gives = λ c a p e. (c.readings, e);
  }

  pub accept-Gives :
      (prefix : String) (call : HttpCall) (a : HttpAnswer)
      → ((n : ℕ) × (out.send n call ≡ ok a))
      → Gives IsSound (Answered call) (pure (accept prefix a))
  accept-Gives prefix call a sent = Gives-pure IsSound (Answered call) (accept prefix a) λ body e.
      let (good, has) = accept-ok prefix a body e in
      record { reading = sent.0; answer = a; sent = sent.1; good = good; has = has }

  keep_token-Gives :
      (body token : String) (secs : ℤ)
      → Answered (token_call out cfg) body
      → out.token_of body ≡ ok (token, secs)
      → Gives IsSound IsToken (keep_token out cfg (token, secs))
  unfolding keep_token
  keep_token-Gives body token secs answered read = elim (Bool-cases (is_empty token)) [
    | inl blank ↦ record {
      keeps = λ c p. rw blank p;
      gives = λ c a p e. absurd (cc (rw blank at e));
    }
    | inr named ↦
        let was : (n : ℕ) → WasToken token (add (out.now n) (seconds secs)) = λ n. record {
          body = body;
          answered = answered;
          secs = secs;
          read = read;
          reading = n;
          expires = refl;
        } in
        record {
          keeps = λ c p. rw named (record { token = λ e. was c.readings; groups = p.groups });
          gives = λ c a p e.
              let given = rw named at e in
              let same : token ≡ a = cc in subst IsToken same (named, (_, was c.readings));
        }
  ]

  fetch_token-Gives : Gives IsSound IsToken (fetch_token out cfg)
  unfolding fetch_token
  fetch_token-Gives =
      Gives-bind IsSound _ _ _ _ (send_call-Gives (token_call out cfg)) λ answer sent.
        Gives-bind IsSound _ _ _ _ (accept-Gives "token" (token_call out cfg) answer sent)
          λ body answered.
            Gives-bind IsSound (λ found. out.token_of body ≡ ok found) _ _ _
              (Gives-pure IsSound _ (out.token_of body) (λ found e. e))
              λ found read. keep_token-Gives body found.0 found.1 answered read

  cached_named : (a b : Bool) → (not a && b) ≡ true → a ≡ false
  cached_named a b h = ground arith

  access_token-Gives : Gives IsSound IsToken (access_token out cfg)
  unfolding access_token
  access_token-Gives = record { keeps = kept; gives = given }
    where
      kept : (c : Client) → IsSound c → IsSound (access_token out cfg c).1
      kept c p =
          elim (Bool-cases (
            not (is_empty c.cached_token)
            && ltb (out.now c.readings + 30 * second) c.token_expiry)) [
              | inl live ↦ rw live (record { token = p.token; groups = p.groups })
              | inr over ↦
                  rw over
                    (fetch_token-Gives.keeps _ (record { token = p.token; groups = p.groups }))
            ]

      given : (c : Client) (a : String) → IsSound c → (access_token out cfg c).0 ≡ ok a → IsToken a
      given c a p e =
          elim (Bool-cases (
            not (is_empty c.cached_token)
            && ltb (out.now c.readings + 30 * second) c.token_expiry)) [
              | inl live ↦
                  let named = cached_named (is_empty c.cached_token) _ live in
                  let e' = rw live at e in
                  let same : c.cached_token ≡ a = cc in
                  subst IsToken same (named, (c.token_expiry, p.token named))
              | inr over ↦
                  fetch_token-Gives.gives _ a (record { token = p.token; groups = p.groups })
                    (rw over at e)
            ]

  pub do_call-Gives :
      (method path : String)
      → Gives IsSound (AnsweredAdmin method path) (do_call out cfg method path)
  unfolding do_call
  do_call-Gives method path = Gives-bind IsSound _ _ _ _ access_token-Gives λ token was.
      Gives-bind IsSound _ _ _ _ (send_call-Gives (admin_call out cfg method path token))
        λ answer sent.
          Gives-weaken (Answered (admin_call out cfg method path token)) _ _
            (λ body answered. record {
              token = token;
              named = was.0;
              expiry = was.1.0;
              was_token = was.1.1;
              answered = answered;
            })
            (accept-Gives (method ^^ " " ^^ path) (admin_call out cfg method path token) answer
              sent)

  pub user_id-Gives :
      (username : String) → Gives IsSound (WasUser username) (user_id out cfg username)
  unfolding user_id
  user_id-Gives username =
      Gives-bind IsSound _ _ _ _ (do_call-Gives "GET" (users_path out cfg username))
        λ body answered.
          Gives-bind IsSound (λ ids. decode_list out.user_ids_of body ≡ ok ids) _ _ _
            (Gives-pure IsSound _ _ (λ ids e. e))
            λ ids read. Gives-pure IsSound _ (first_user out cfg username ids) λ uid first. record {
              body = body;
              answered = answered;
              ids = ids;
              read = read;
              first = first;
            }
