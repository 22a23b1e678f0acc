-- ===== src/Authority/Create.antt =====
-- A successful `handleCreate`.
use kc_jit_public.Base.{
  suc, ◌≤◌, String, ◌≡◌, refl, sym, ap, ◌∙◌, true, false, not, ◌&&◌, [], ◌∷◌, ◌++◌, none, Result,
  ok, arith, le_of_ltb, true_of_not, ||_false, ◌==◌, eq_iff,
}
use mathlib.Core.Path.{subst}
use kc_jit_public.Text.{byte_len, is_empty, trim_space}
use kc_jit_public.Time.{Instant, add}
use kc_jit_public.Store.Written.{create_ok}
use kc_jit_public.Store.{Request, pending}
use kc_jit_public.Store.Requests.{to_row, find}
use kc_jit_public.World.{Env, World, time_now, exec, in_group}
use kc_jit_public.World.Went.{Went, Went-bind, Went-lift, Went-or_stop, Went-stop_if, Went-yield}
use kc_jit_public.Auth.{Headers}
use kc_jit_public.Api.{Service, request, actor_of, new_id, hex}
use kc_jit_public.Api.Create.{
  CreateRequestBody, subject_of, new_request, create_guard, create_noted, create_stored, create_of,
  handle_create,
}
use kc_jit_public.Authority.Refusals.{Refuses, refuses_rules, Went-of_answer}
use kc_jit_public.Authority.Approve.{actor_at}
use kc_jit_public.Lifecycle.Rules.{rows_of}
use kc_jit_public.Lifecycle.Handlers.{Same-create_guard, Same-create_noted}

module _ {K : Type 0} (env : Env K) (svc : Service) where
  -- What the guard has made sure of.
  pub record Asked (h : Headers) (decoded : Result CreateRequestBody) (w : World K)
      (who username justification : String) : Type 0 where
    pub is_actor : who ≡ actor_at env svc h w
    pub body : CreateRequestBody
    pub given : decoded ≡ ok body
    pub for_whom : username ≡ subject_of who body
    pub trimmed : justification ≡ trim_space body.justification
    pub named : is_empty username ≡ false
    pub long_enough : 8 ≤ byte_len justification
    pub for_self : is_empty who ≡ false → who ≡ username
    pub eligible : (env.groups.in_group username svc.cfg.group_eligible w.kc).0 ≡ ok true

  self_of :
      (who username : String)
      → (not (is_empty who) && not (who == username)) ≡ false
      → is_empty who ≡ false
      → who ≡ username
  self_of who username h named = ground (arith, eq_iff who username)

  create_guard-Asked :
      (h : Headers) (decoded : Result CreateRequestBody) (w w' : World K)
      (p : String × String × String)
      → Went (create_guard env svc h decoded) w p w'
      → Asked h decoded w p.0 p.1 p.2
  unfolding create_guard actor_of time_now in_group
  create_guard-Asked h decoded w w' p went =
      let who = actor_at env svc h w in
      let s₁ = Went-lift _ _ went in
      let (body, given, s₂) = Went-or_stop _ _ _ s₁ in
      let (filled, s₃) = Went-stop_if _ _ _ s₂ in
      let (long, s₄) = Went-stop_if _ _ _ s₃ in
      let (self, s₅) = Went-stop_if _ _ _ s₄ in
      let s₆ = Went-lift _ _ s₅ in
      let (member, asked, s₇) = Went-or_stop _ _ _ s₆ in
      let (allowed, s₈) = Went-stop_if _ _ _ s₇ in
      subst (λ q. Asked h decoded w q.0 q.1 q.2) (Went-yield _ s₈).0
        (record {
          is_actor = refl;
          body = body;
          given = given;
          for_whom = refl;
          trimmed = refl;
          named = (||_false _ _ filled).0;
          long_enough = le_of_ltb _ 8 long;
          for_self = self_of who (subject_of who body) self;
          eligible = asked ∙ ap ok (true_of_not member allowed);
        })

  -- What follows the guard: a row with an id that no row had is the table's last.
  pub record Stored (username justification : String) (w : World K) (req : Request) (w' : World K)
      : Type 0 where
    pub id : String
    pub now : Instant
    pub is_new : req ≡ record {
      id = id;
      username = username;
      justification = justification;
      status = pending;
      created_at = now;
      request_expires_at = add now svc.cfg.request_ttl;
      approved_at = none;
      approved_by = "";
      approval_notes = "";
      active_expires_at = none;
      released_at = none;
    }
    pub fresh : find id (rows_of w) ≡ none
    pub written : rows_of w' ≡ rows_of w ++ to_row req ∷ []

  create_noted-ok :
      (who : String) (req out : Request) (written : Result Unit) (w w' : World K)
      → Went (create_noted env svc who req written) w out w'
      → (written ≡ ok tt) × (req ≡ out)
  unfolding create_noted
  create_noted-ok who req out written w w' went =
      let (done, ok_written, s₁) = Went-or_stop _ _ _ went in
      let s₂ = Went-lift _ _ s₁ in
      let s₃ = Went-lift _ _ s₂ in let s₄ = Went-lift _ _ s₃ in (ok_written, (Went-yield _ s₄).0)

  create_stored-Stored :
      (who username justification : String) (w w' : World K) (req : Request)
      → Went (create_stored env svc who username justification) w req w'
      → Stored username justification w req w'
  unfolding create_stored time_now new_id exec
  create_stored-Stored who username justification w w' req went =
      let s₁ = Went-lift _ _ went in
      let s₂ = Went-lift _ _ s₁ in
      let s₃ = Went-lift _ _ s₂ in
      let now = env.now w.readings in
      let id = hex (env.random (suc w.readings)) in
      let new = new_request svc id username justification now in
      let (ok_written, same) = create_noted-ok _ _ req _ _ w' s₃ in
      let (fresh, stored) = create_ok (env.fault (suc (suc w.readings))) new w.db ok_written in
      record {
        id = id;
        now = now;
        is_new = sym same;
        fresh = fresh;
        written =
            ap (λ p. rows_of p.1) (sym s₃)
            ∙ ((Same-create_noted env svc who new _).at _
                ∙ (stored ∙ ap (λ r. rows_of w ++ to_row r ∷ []) same));
      }

  Refuses-create_of :
      (h : Headers) (decoded : Result CreateRequestBody) → Refuses (create_of env svc h decoded)
  unfolding create_of create_guard create_stored create_noted
  Refuses-create_of h decoded = search refuses_rules depth 20

  -- A creation: the guard's checks, and then the new row on the same table.
  pub record Submitted (h : Headers) (decoded : Result CreateRequestBody) (w w' : World K)
      : Type 0 where
    pub who : String
    pub username : String
    pub justification : String
    pub asked : Asked h decoded w who username justification
    pub between : World K
    pub untouched : rows_of between ≡ rows_of w
    pub req : Request
    pub stored : Stored username justification between req w'

  create_of-Submitted :
      (h : Headers) (decoded : Result CreateRequestBody) (w w' : World K) (req : Request)
      → Went (create_of env svc h decoded) w req w'
      → Submitted h decoded w w'
  unfolding create_of
  create_of-Submitted h decoded w w' req went =
      let ((who, username, justification), checked, rest) = Went-bind _ _ went in
      let between = (create_guard env svc h decoded w).1 in
      record {
        who = who;
        username = username;
        justification = justification;
        asked =
            create_guard-Asked h decoded w _ (who, username, justification)
              (ap (λ s. (s, between)) checked);
        between = between;
        untouched = (Same-create_guard env svc h decoded).at w;
        req = req;
        stored = create_stored-Stored who username justification between w' req rest;
      }

  -- When `POST /api/v1/requests` answers 201, the username and the justification are those of the body,
  -- trimmed, the actor standing in for a missing username. The username is not empty, the justification
  -- has 8 bytes or more, a named actor is the user itself, and Keycloak has answered that the user is in
  -- the eligible group. The table is as before but for one row at its end: the pending request, under an
  -- id that no row had, which runs out the configured time after its creation.
  pub create_authorised :
      (h : Headers) (decoded : Result CreateRequestBody) (w : World K)
      → (handle_create env svc h decoded w).0.code ≡ 201
      → Submitted h decoded w (handle_create env svc h decoded w).1
  unfolding handle_create
  create_authorised h decoded w answered =
      let (req, went) =
        Went-of_answer request 201 _ (Refuses-create_of h decoded) refl w answered in
      create_of-Submitted h decoded w _ req went
