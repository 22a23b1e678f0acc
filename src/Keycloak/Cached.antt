-- ===== src/Keycloak/Cached.antt =====
-- When the client's caches are used: the token up to half a minute before it expires, and the id of a
-- group ever after.
use kc_jit_public.Base.{
  ℕ, suc, ◌+◌, ◌*◌, ◌<◌, String, ◌≡◌, refl, sym, ap, ◌∙◌, ◌⊎◌, inl, inr, Bool, true, not, ◌&&◌,
  ◌==◌, eq_refl, List, [], ◌∷◌, some, Result, ok, err, arith, ltb, leb, Bool-cases, Option-cases,
}
use kc_jit_public.Base.Int.{ℤ}
use kc_jit_public.Text.{is_empty}
use kc_jit_public.Time.{second, add}
use kc_jit_public.Config.{Config}
use kc_jit_public.Keycloak.{
  HttpAnswer, Outside, Client, Call, after, seconds, lookup_id, accept, decode_list, token_call,
  keep_token, fetch_token, access_token, keep_group, fetch_group, group_id,
}

module _ (out : Outside) (cfg : Config) where
  -- The group that was kept is found.
  keep_group_found :
      (name : String) (groups : List (String × String)) (c : Client) (id : String)
      → (keep_group out cfg name groups c).0 ≡ ok id
      → lookup_id name (keep_group out cfg name groups c).1.group_ids ≡ some id
  unfolding keep_group
  keep_group_found name [] c id e = absurd cc
  keep_group_found name ((i, other) ∷ groups) c id e =
      elim (Bool-cases (other == name && not (is_empty i))) [
        | inl this ↦
            let e' = rw this at e in let one : i ≡ id = cc in rw (this, eq_refl name, one) refl
        | inr next ↦ rw next (keep_group_found name groups c id (rw next at e))
      ]

  after_found :
      {A : Type 0} (f : A → Call String) (name id : String)
      → ((a : A) (c : Client) → (f a c).0 ≡ ok id → lookup_id name (f a c).1.group_ids ≡ some id)
      → (r : Result A) (c : Client) → (after f r c).0 ≡ ok id
      → lookup_id name (after f r c).1.group_ids ≡ some id
  after_found f name id k (ok a) c e = k a c e
  after_found f name id k (err m) c e = absurd cc

  fetch_group_found :
      (name id : String) (c : Client)
      → (fetch_group out cfg name c).0 ≡ ok id
      → lookup_id name (fetch_group out cfg name c).1.group_ids ≡ some id
  unfolding fetch_group
  fetch_group_found name id c e =
      after_found _ name id
        (λ body c'.
          after_found _ name id (λ groups c''. keep_group_found name groups c'' id)
            (decode_list out.groups_of body) c')
        _ _ e

  -- Once the id of a group was answered, asking for it again gives the same id, calls nothing and
  -- leaves the client as it is.
  pub group_id_again :
      (name id : String) (c : Client)
      → (group_id out cfg name c).0 ≡ ok id
      → group_id out cfg name (group_id out cfg name c).1 ≡ (ok id, (group_id out cfg name c).1)
  unfolding group_id
  group_id_again name id c e = elim (Option-cases (lookup_id name c.group_ids)) [
    | inl missing ↦ rw (missing, fetch_group_found name id c (rw missing at e)) refl
    | inr (known, found) ↦
        let e' = rw found at e in let one : known ≡ id = cc in rw (found, found, one) refl
  ]

  -- Where a token comes from, and that the client has it in its cache.
  pub record IsFresh (c : Client) (token : String) (c' : Client) : Type 0 where
    pub kept : c'.cached_token ≡ token
    pub from :
        ((token ≡ c.cached_token)
          × (out.now c.readings + 30 * second < c.token_expiry)
          × (c'.token_expiry ≡ c.token_expiry))
        ⊎ ((a : HttpAnswer) × (secs : ℤ) × (out.send (suc c.readings) (token_call out cfg) ≡ ok a)
            × (out.token_of a.body ≡ ok (token, secs))
            × (c'.token_expiry ≡ add (out.now (suc (suc c.readings))) (seconds secs)))

  keep_token-IsFresh :
      (token a : String) (secs : ℤ) (c : Client)
      → (keep_token out cfg (token, secs) c).0 ≡ ok a
      → (token ≡ a)
        × ((keep_token out cfg (token, secs) c).1.cached_token ≡ token)
        × ((keep_token out cfg (token, secs) c).1.token_expiry
            ≡ add (out.now c.readings) (seconds secs))
  unfolding keep_token
  keep_token-IsFresh token a secs c e = elim (Bool-cases (is_empty token)) [
    | inl blank ↦ absurd (cc (rw blank at e))
    | inr named ↦ let e' = rw named at e in rw named (cc, refl, refl)
  ]

  after-ok :
      {A : Type 0} (f : A → Call String) (r : Result A) (c : Client) (b : String)
      → (after f r c).0 ≡ ok b
      → (a : A) × (r ≡ ok a) × ((f a c).0 ≡ ok b) × ((f a c).1 ≡ (after f r c).1)
  after-ok f (ok a) c b e = (a, refl, e, refl)
  after-ok f (err m) c b e = absurd cc

  accept-body :
      (prefix : String) (a : HttpAnswer) (body : String) → accept prefix a ≡ ok body → a.body ≡ body
  accept-body prefix a body h = elim (Bool-cases (leb 300 a.code)) [
    | inl bad ↦ absurd (ground arith)
    | inr good ↦ ground arith
  ]

  fetch_token-IsFresh :
      (c : Client) (token : String)
      → (fetch_token out cfg (record c { readings = suc c.readings })).0 ≡ ok token
      → IsFresh c token (fetch_token out cfg (record c { readings = suc c.readings })).1
  unfolding fetch_token
  fetch_token-IsFresh c token e =
      let (answer, sent, e₁, same₁) = after-ok _ _ _ token e in
      let (body, good, e₂, same₂) = after-ok _ _ _ token e₁ in
      let (found, read, e₃, same₃) = after-ok _ _ _ token e₂ in
      let (one, kept, expires) = keep_token-IsFresh found.0 token found.1 _ e₃ in
      let same = same₃ ∙ (same₂ ∙ same₁) in
      record {
        kept = ap (λ d. d.cached_token) (sym same) ∙ (kept ∙ one);
        from = inr (
          answer,
          found.1,
          sent,
          ap out.token_of (accept-body "token" answer body good)
              ∙ (read ∙ ap (λ t. ok (t, found.1)) one),
          ap (λ d. d.token_expiry) (sym same) ∙ expires,
        );
      }

  test_of : (b : Bool) (x y : ℕ) → (b && ltb x y) ≡ true → x < y
  test_of b x y h = ground arith

  -- A token that the client gives is in its cache, and is either the one that was there before, with more
  -- than 30 seconds to go, or one that the token endpoint has just answered, with its expiry counted
  -- from then.
  pub access_token-IsFresh :
      (c : Client) (token : String)
      → (access_token out cfg c).0 ≡ ok token
      → IsFresh c token (access_token out cfg c).1
  unfolding access_token
  access_token-IsFresh c token e =
      elim (Bool-cases
        (not (is_empty c.cached_token) && ltb (out.now c.readings + 30 * second) c.token_expiry)) [
          | inl live ↦
              let e' = rw live at e in
              let one : c.cached_token ≡ token = cc in
              rw live (record { kept = one; from = inl (sym one, test_of _ _ _ live, refl) })
          | inr over ↦ rw over (fetch_token-IsFresh c token (rw over at e))
        ]
