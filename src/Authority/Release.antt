-- ===== src/Authority/Release.antt =====
-- A successful `handleRelease`.
use kc_jit_public.Base.{
  some, suc, String, ◌≡◌, refl, sym, ap, ◌∙◌, ◌⊎◌, inl, inr, Bool, true, false, not, ◌&&◌, Result,
  ok, arith, true_of_not, ◌==◌, eq_iff, Bool-cases,
}
use kc_jit_public.Text.{is_empty}
use kc_jit_public.Time.{Instant}
use kc_jit_public.Store.{Request, approved, released}
use kc_jit_public.Store.Requests.{get, update_rows}
use kc_jit_public.Store.Written.{update_ok}
use kc_jit_public.World.{Env, World, time_now, exec, query, in_group, remove_from_group}
use kc_jit_public.World.Try.{Step, stop, next, Try, stop_if}
use kc_jit_public.World.Went.{Went, Went-bind, Went-lift, Went-or_stop, Went-stop_if, Went-yield}
use kc_jit_public.Auth.{Headers}
use kc_jit_public.Api.{Service, request, actor_of}
use kc_jit_public.Api.Release.{
  release_of, bad_gateway, as_bad_gateway, release_noted, release, may_release, release_found,
  release_by, handle_release,
}
use kc_jit_public.Authority.Refusals.{Refuses, refuses_rules, IsRefusal, Went-of_answer}
use kc_jit_public.Authority.Approve.{actor_at}
use kc_jit_public.Lifecycle.Rules.{rows_of}
use kc_jit_public.Lifecycle.Handlers.{eq_of_same_status, Same-release_noted, Same-may_release}

Refuses-as_bad_gateway : {K A : Type 0} (m : Try K String A) → Refuses (as_bad_gateway m)
Refuses-as_bad_gateway {K} {A} m = record { at = λ w. refused (m w).0 }
  where
    refused : (s : Step String A) → IsRefusal (bad_gateway s)
    refused (stop e) = ground arith
    refused (next a) = tt

module _ {K : Type 0} (env : Env K) (svc : Service) where
  -- Who may release a request: a caller without a name, its user, or a permanent admin, as Keycloak
  -- has answered.
  abbrev pub MayRelease : String → Request → World K → Type 0
  MayRelease who req w =
      (is_empty who ≡ true)
      ⊎ ((who ≡ req.username)
          ⊎ ((env.groups.in_group who svc.cfg.group_permanent w.kc).0 ≡ ok true))

  stop_if_passed :
      {E : Type 0} (b : Bool) (e : E) (w : World K) → (stop_if b e w).0 ≡ next tt → b ≡ false
  unfolding stop_if
  stop_if_passed true e w h = cc
  stop_if_passed false e w h = refl

  may_release-MayRelease :
      (who : String) (req : Request) (w w' : World K)
      → Went (may_release env svc who req) w tt w'
      → MayRelease who req w
  unfolding may_release in_group
  may_release-MayRelease who req w w' went =
      elim (Bool-cases (not (is_empty who) && not (who == req.username))) [
        | inl other ↦
            let s₁ = Went-lift _ _ (rw other at went) in
            let (member, asked, s₂) = Went-or_stop _ _ _ s₁ in
            inr (inr (asked ∙ ap ok (true_of_not member (stop_if_passed _ _ _ (ap (λ p. p.0) s₂)))))
        | inr self ↦ ground (arith, eq_iff who req.username)
      ]

  -- What `release` has done.
  pub record Removed (req : Request) (w : World K) (req' : Request) (w' : World K) : Type 0 where
    pub now : Instant
    pub removed : (env.groups.remove_from_group req.username svc.cfg.group_active w.kc).0 ≡ ok tt
    pub result : req' ≡ record req { status = released; released_at = some now }
    pub written : rows_of w' ≡ update_rows req' (rows_of w)

  release_noted-ok :
      (req out : Request) (who action : String) (written : Result Unit) (w w' : World K)
      → Went (release_noted env svc req who action written) w out w'
      → (written ≡ ok tt) × (req ≡ out)
  unfolding release_noted
  release_noted-ok req out who action written w w' went =
      let (done, ok_written, s₁) = Went-or_stop _ _ _ went in
      let s₂ = Went-lift _ _ s₁ in let s₃ = Went-lift _ _ s₂ in (ok_written, (Went-yield _ s₃).0)

  release-Removed :
      (req : Request) (who action : String) (w w' : World K) (req' : Request)
      → Went (release env svc req who action) w req' w'
      → Removed req w req' w'
  unfolding release remove_from_group time_now exec
  release-Removed req who action w w' req' went =
      let s₁ = Went-lift _ _ went in
      let (done, removed, s₂) = Went-or_stop _ _ _ s₁ in
      let s₃ = Went-lift _ _ s₂ in
      let s₄ = Went-lift _ _ s₃ in
      let now = env.now w.readings in
      let (ok_written, same) = release_noted-ok _ req' _ _ _ _ w' s₄ in
      record {
        now = now;
        removed = removed;
        result = sym same;
        written =
            ap (λ p. rows_of p.1) (sym s₄)
            ∙ ((Same-release_noted env svc (release_of now req) who action _).at _
                ∙ update_ok (env.fault (suc w.readings)) (release_of now req) w.db ok_written
                ∙ ap (λ r. update_rows r (rows_of w)) same);
      }

  next_of_gateway : {A : Type 0} (s : Step String A) (a : A) → bad_gateway s ≡ next a → s ≡ next a
  next_of_gateway (stop e) a h = cc
  next_of_gateway (next b) a h = cc

  Went-bad_gateway :
      {A : Type 0} (m : Try K String A) (w w' : World K) (a : A)
      → Went (as_bad_gateway m) w a w'
      → Went m w a w'
  Went-bad_gateway m w w' a h =
      let same = next_of_gateway (m w).0 a (ap (λ p. p.0) h) in let left = ap (λ p. p.1) h in cc

  -- A release: a granted request was read, the caller might release it, Keycloak has taken the user out
  -- of the active group, and the row was written.
  pub record Released (h : Headers) (id : String) (w w' : World K) : Type 0 where
    pub req : Request
    pub read : get (env.fault (suc w.readings)) id w.db ≡ ok req
    pub is_approved : req.status ≡ approved
    pub may : MayRelease (actor_at env svc h w) req w
    pub between : World K
    pub untouched : rows_of between ≡ rows_of w
    pub req' : Request
    pub removed : Removed req between req' w'

  release_by-Released :
      (h : Headers) (id : String) (w w' : World K) (req' : Request)
      → Went (release_by env svc h id) w req' w'
      → Released h id w w'
  unfolding release_by release_found query actor_of time_now
  release_by-Released h id w w' req' went =
      let who = actor_at env svc h w in
      let s₁ = Went-lift _ _ went in
      let s₂ = Went-lift _ _ s₁ in
      let (req, read, s₃) = Went-or_stop _ _ _ s₂ in
      let (is_approved, s₄) = Went-stop_if _ _ _ s₃ in
      let w₁ : World K = record w { readings = suc (suc w.readings) } in
      let (done, may, s₅) = Went-bind (may_release env svc who req) _ {w = w₁} s₄ in
      let between = (may_release env svc who req w₁).1 in
      record {
        req = req;
        read = read;
        is_approved = eq_of_same_status req.status approved is_approved;
        may = may_release-MayRelease who req w₁ between (ap (λ s. (s, between)) may);
        between = between;
        untouched = (Same-may_release env svc who req).at w₁;
        req' = req';
        removed =
            release-Removed req who "early_release" between w' req'
              (Went-bad_gateway (release env svc req who "early_release") between w' req' s₅);
      }

  Refuses-may_release : (who : String) (req : Request) → Refuses (may_release env svc who req)
  unfolding may_release
  Refuses-may_release who req = search refuses_rules depth 12

  Refuses-release_by : (h : Headers) (id : String) → Refuses (release_by env svc h id)
  unfolding release_by release_found
  Refuses-release_by h id =
      search (refuses_rules, Refuses-may_release, Refuses-as_bad_gateway) depth 12

  -- When `POST …/release` answers 200, the request that was read was approved, the caller had no name, or
  -- was the request's user, or Keycloak has answered that it is a permanent admin, Keycloak has taken the
  -- user out of the active group, and the row was written as released, in a table that was otherwise as
  -- before.
  pub release_authorised :
      (h : Headers) (id : String) (w : World K)
      → (handle_release env svc h id w).0.code ≡ 200
      → Released h id w (handle_release env svc h id w).1
  unfolding handle_release
  release_authorised h id w answered =
      let (req', went) = Went-of_answer request 200 _ (Refuses-release_by h id) refl w answered in
      release_by-Released h id w _ req' went
