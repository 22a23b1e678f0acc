-- ===== src/Authority/Approve.antt =====
-- A successful `handleApprove`.
use kc_jit_public.Base.{
  suc, ◌≤◌, String, ◌≡◌, refl, sym, ap, ◌∙◌, true, false, some, Result, ok, ltb, le_of_ltb,
  true_of_not,
}
use mathlib.Core.Path.{subst}
use kc_jit_public.Text.{byte_len, is_empty, trim_space}
use kc_jit_public.Time.{Instant, add}
use kc_jit_public.Store.{Request, pending, approved}
use kc_jit_public.Store.Requests.{get, update_rows}
use kc_jit_public.World.{Env, World, time_now, exec, query, in_group, add_to_group}
use kc_jit_public.World.Went.{
  Went, Went-bind, Went-lift, Went-or_stop, Went-stop_if, Went-if, Went-yield, not-Went-fail,
}
use kc_jit_public.Auth.{Headers, actor}
use kc_jit_public.Api.{Service, request, actor_of}
use kc_jit_public.Store.Written.{update_ok}
use kc_jit_public.Authority.Refusals.{Refuses, refuses_rules, Went-of_answer}
use kc_jit_public.Api.Approve.{
  Decoded, grant_of, notes_of, approve_guard, too_late_noted, too_late, grant_noted, grant,
  approve_found, approve_of, handle_approve,
}
use kc_jit_public.Lifecycle.Rules.{rows_of}
use kc_jit_public.Lifecycle.Handlers.{eq_of_same_status, Same-grant_noted, Same-approve_guard}

module _ {K : Type 0} (env : Env K) (svc : Service) where
  -- The user that the request's headers stand for, at the first reading of the clock.
  abbrev pub actor_at : Headers → World K → String
  actor_at h w = actor svc.codec svc.auth svc.cfg (env.now w.readings) h

  -- What the guard has made sure of.
  pub record Guarded (h : Headers) (body : Decoded String) (w : World K) (who notes : String)
      : Type 0 where
    pub is_actor : who ≡ actor_at h w
    pub named : is_empty who ≡ false
    pub permanent : (env.groups.in_group who svc.cfg.group_permanent w.kc).0 ≡ ok true
    pub raw : String
    pub given : notes_of body ≡ ok raw
    pub trimmed : notes ≡ trim_space raw
    pub long_enough : 8 ≤ byte_len notes

  approve_guard-Guarded :
      (h : Headers) (body : Decoded String) (w w' : World K) (p : String × String)
      → Went (approve_guard env svc h body) w p w'
      → Guarded h body w p.0 p.1
  unfolding approve_guard actor_of time_now in_group
  approve_guard-Guarded h body w w' p went =
      let who = actor_at h w in
      let s₁ = Went-lift _ _ went in
      let (named, s₂) = Went-stop_if _ _ _ s₁ in
      let s₃ = Went-lift _ _ s₂ in
      let (member, asked, s₄) = Went-or_stop _ _ _ s₃ in
      let (allowed, s₅) = Went-stop_if _ _ _ s₄ in
      let (raw, given, s₆) = Went-or_stop _ _ _ s₅ in
      let (filled, s₇) = Went-stop_if _ _ _ s₆ in
      let (long, s₈) = Went-stop_if _ _ _ s₇ in
      subst (λ q. Guarded h body w q.0 q.1) (Went-yield _ s₈).0
        (record {
          is_actor = refl;
          named = named;
          permanent = asked ∙ ap ok (true_of_not member allowed);
          raw = raw;
          given = given;
          trimmed = refl;
          long_enough = le_of_ltb (byte_len (trim_space raw)) 8 long;
        })

  -- What the rest of the handler has done: it read a pending request that had not run out, Keycloak
  -- took the user into the active group, and the row was written as a grant by the actor.
  pub record Granted (id who notes : String) (w : World K) (req' : Request) (w' : World K)
      : Type 0 where
    pub req : Request
    pub now : Instant
    pub read : get (env.fault w.readings) id w.db ≡ ok req
    pub is_pending : req.status ≡ pending
    pub in_time : now ≤ req.request_expires_at
    pub added : (env.groups.add_to_group req.username svc.cfg.group_active w.kc).0 ≡ ok tt
    pub result : req' ≡ record req {
      status = approved;
      approved_at = some now;
      approved_by = who;
      approval_notes = notes;
      active_expires_at = some (add now svc.cfg.active_ttl);
    }
    pub written : rows_of w' ≡ update_rows req' (rows_of w)

  grant_noted-ok :
      (who notes : String) (req req' : Request) (written : Result Unit) (w w' : World K)
      (out : Request)
      → Went (grant_noted env svc who notes req req' written) w out w'
      → (written ≡ ok tt) × (req' ≡ out)
  unfolding grant_noted
  grant_noted-ok who notes req req' written w w' out went =
      let (done, ok_written, s₁) = Went-or_stop _ _ _ went in
      let s₂ = Went-lift _ _ s₁ in
      let s₃ = Went-lift _ _ s₂ in
      let s₄ = Went-lift _ _ s₃ in let s₅ = Went-lift _ _ s₄ in (ok_written, (Went-yield _ s₅).0)

  not-Went-too_late :
      (req : Request) (w w' : World K) (v : Request) → ¬ Went (too_late env svc req) w v w'
  unfolding too_late too_late_noted
  not-Went-too_late req w w' v went =
      not-Went-fail _ _ w' v (Went-lift _ _ (Went-lift _ _ (Went-lift _ _ went)))

  approve_found-Granted :
      (id who notes : String) (w w' : World K) (req' : Request)
      → Went (approve_found env svc id who notes) w req' w'
      → Granted id who notes w req' w'
  unfolding approve_found grant query time_now add_to_group exec
  approve_found-Granted id who notes w w' req' went =
      let s₁ = Went-lift _ _ went in
      let (req, read, s₂) = Went-or_stop _ _ _ s₁ in
      let (is_pending, s₃) = Went-stop_if _ _ _ s₂ in
      let s₄ = Went-lift _ _ s₃ in
      let now = env.now (suc w.readings) in
      let (late, s₅) =
        Went-if (ltb req.request_expires_at now) _ _ (λ v w''. not-Went-too_late req _ w'' v) s₄ in
      let s₆ = Went-lift _ _ s₅ in
      let (done, added, s₇) = Went-or_stop _ _ _ s₆ in
      let s₈ = Went-lift _ _ s₇ in
      let (ok_written, same) = grant_noted-ok _ _ _ _ _ _ w' req' s₈ in
      record {
        req = req;
        now = now;
        read = read;
        is_pending = eq_of_same_status req.status pending is_pending;
        in_time = le_of_ltb req.request_expires_at now late;
        added = added;
        result = sym same;
        written =
            ap (λ p. rows_of p.1) (sym s₈)
            ∙ ((Same-grant_noted env svc who notes req _ _).at _
                ∙ update_ok (env.fault (suc (suc w.readings))) (grant_of svc who notes now req) w.db
                    ok_written
                ∙ ap (λ r. update_rows r (rows_of w)) same);
      }

  Refuses-approve_of :
      (h : Headers) (body : Decoded String) (id : String) → Refuses (approve_of env svc h body id)
  unfolding approve_of approve_guard approve_found too_late too_late_noted grant grant_noted
  Refuses-approve_of h body id = search refuses_rules depth 20

  -- An approval: the guard's checks, and then the grant on the same table.
  pub record Approved (h : Headers) (body : Decoded String) (id : String) (w w' : World K)
      : Type 0 where
    pub who : String
    pub notes : String
    pub guarded : Guarded h body w who notes
    pub between : World K
    pub untouched : rows_of between ≡ rows_of w
    pub req' : Request
    pub granted : Granted id who notes between req' w'

  approve_of-Approved :
      (h : Headers) (body : Decoded String) (id : String) (w w' : World K) (req' : Request)
      → Went (approve_of env svc h body id) w req' w'
      → Approved h body id w w'
  unfolding approve_of
  approve_of-Approved h body id w w' req' went =
      let ((who, notes), checked, rest) = Went-bind _ _ went in
      record {
        who = who;
        notes = notes;
        guarded =
            approve_guard-Guarded h body w _ (who, notes)
              (ap (λ s. (s, (approve_guard env svc h body w).1)) checked);
        between = (approve_guard env svc h body w).1;
        untouched = (Same-approve_guard env svc h body).at w;
        req' = req';
        granted = approve_found-Granted id who notes _ w' req' rest;
      }

  -- When `POST …/approve` answers 200, the actor is named and Keycloak has answered that it is in the
  -- permanent group, the notes are trimmed and have 8 bytes or more, the request that was read was
  -- pending and had not run out, Keycloak has taken its user into the active group, and the row was
  -- written, in a table that was otherwise as before, as a grant by the actor that runs out the
  -- configured time after the approval.
  pub approve_authorised :
      (h : Headers) (body : Decoded String) (id : String) (w : World K)
      → (handle_approve env svc h body id w).0.code ≡ 200
      → Approved h body id w (handle_approve env svc h body id w).1
  unfolding handle_approve
  approve_authorised h body id w answered =
      let (req', went) =
        Went-of_answer request 200 _ (Refuses-approve_of h body id) refl w answered in
      approve_of-Approved h body id w _ req' went
