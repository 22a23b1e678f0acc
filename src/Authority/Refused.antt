-- ===== src/Authority/Refused.antt =====
-- What a call of the API that ends with an error leaves behind.
use kc_jit_public.Base.{
  String, ◌≡◌, ◌≢◌, refl, ◌∙◌, none, some, Result, ok, err, inl, inr, Option-cases, Result-cases,
}
use kc_jit_public.Time.{Instant}
use kc_jit_public.Store.{Db, Fault, Request}
use kc_jit_public.Store.Requests.{create, update, find}
use kc_jit_public.World.{Env, exec}
use kc_jit_public.World.Try.{Step, stop, next, Try, continue, ◌>>=◌, lift, or_stop}
use kc_jit_public.Auth.{Headers}
use kc_jit_public.Api.{Service, Response}
use kc_jit_public.Api.Create.{
  CreateRequestBody, create_guard, create_noted, create_stored, create_of,
}
use kc_jit_public.Api.Approve.{
  Decoded, approve_guard, too_late_noted, too_late, grant_noted, grant, approve_found, approve_of,
}
use kc_jit_public.Api.Release.{
  bad_gateway, as_bad_gateway, may_release, release_noted, release, release_found, release_by,
}
use kc_jit_public.Authority.Clean.{
  StopsAt, Quiet, Clean, Passes, quiet_rules, Quiet-lift, Quiet-time_now, Quiet-new_id, Quiet-query,
  Quiet-or_stop, Quiet-stop_if, Quiet-add_to_group, Quiet-remove_from_group, Quiet-actor_of,
  Clean-Passes, Clean-if, passes_rules, Passes-lift, Passes-fail, Passes-bind, Clean-bind,
}

abbrev pub Any : Response → Type 0
Any r = Unit

-- Other than the conflict with which a request is answered that ran out.
abbrev pub NoConflict : Response → Type 0
NoConflict r = r.code ≢ 409

-- A statement that answers an error has changed nothing.
abbrev FailsClean : (Fault → Db → Result (Unit {0}) × Db) → Type 0
FailsClean f = (fault : Fault) (db : Db) (m : String) → (f fault db).0 ≡ err m → (f fault db).1 ≡ db

create-FailsClean : (req : Request) → FailsClean (λ fault. create fault req)
unfolding create
create-FailsClean req (some e) db m h = refl
create-FailsClean req none db m h = elim (Option-cases (find req.id db.requests)) [
  | inl fresh ↦ let h' = rw fresh at h in absurd cc
  | inr (row, taken) ↦ rw taken refl
]

update-FailsClean : (req : Request) → FailsClean (λ fault. update fault req)
unfolding update
update-FailsClean req (some e) db m h = refl
update-FailsClean req none db m h = elim (Option-cases (find req.id db.requests)) [
  | inl missing ↦ rw missing refl
  | inr (row, found) ↦ let h' = rw found at h in absurd cc
]

module _ {K E B : Type 0} (env : Env K) (P : E → Type 0) where
  -- A statement, and what follows it: nothing where it has answered an error.
  Clean-exec :
      (f : Fault → Db → Result (Unit {0}) × Db) (n : Result (Unit {0}) → Try K E B)
      → FailsClean f
      → ((m : String) → Quiet (n (err m)))
      → ((u : Unit {0}) → Passes P (n (ok u)))
      → Clean P (lift (exec env f) >>= n)
  unfolding ◌>>=◌ continue lift exec
  Clean-exec f n c q p = record {
    at = λ w s.
        let r = (f (env.fault w.readings) w.db).0 in
        let w' = (exec env f w).1 in
        elim (Result-cases r) [
          | inl (u, e) ↦ absurd ((p u).at w' (rw e at s))
          | inr (m, e) ↦
              let (d, same) = (q m).at w' in rw e (d ∙ c (env.fault w.readings) w.db m e, same)
        ];
  }

module _ {K : Type 0} (env : Env K) (svc : Service) where
  create_noted-Passes :
      (actor : String) (req : Request) (u : Unit {0})
      → Passes Any (create_noted env svc actor req (ok u))
  unfolding create_noted
  create_noted-Passes actor req u = search passes_rules depth 12

  create_noted-Quiet :
      (actor : String) (req : Request) (m : String) → Quiet (create_noted env svc actor req (err m))
  unfolding create_noted ◌>>=◌ continue or_stop
  create_noted-Quiet actor req m = record { at = λ w. (refl, refl) }

  create_guard-Quiet :
      (h : Headers) (body : Result CreateRequestBody) → Quiet (create_guard env svc h body)
  unfolding create_guard
  create_guard-Quiet h body = search quiet_rules depth 16

  pub create_of-Clean :
      (h : Headers) (body : Result CreateRequestBody) → Clean Any (create_of env svc h body)
  unfolding create_of create_stored
  create_of-Clean h body = Clean-bind Any _ _ (create_guard-Quiet h body) λ asked.
      Clean-bind Any _ _ (Quiet-lift _ (Quiet-time_now env)) λ now.
        Clean-bind Any _ _ (Quiet-lift _ (Quiet-new_id env)) λ id.
          Clean-exec env Any _ _ (create-FailsClean _) (λ m. create_noted-Quiet _ _ m)
            (create_noted-Passes _ _)

  bad_gateway-Clean :
      {A : Type 0} (m : Try K String A) → Clean (λ e. Unit {0}) m → Clean Any (as_bad_gateway m)
  bad_gateway-Clean m c = record { at = λ w s. c.at w (stops (m w).0 s) }
    where
      stops :
          {A : Type 0} (s : Step String A) → StopsAt Any (bad_gateway s) → StopsAt (λ e. Unit {0}) s
      stops (stop e) h = tt
      stops (next a) h = h

  release_noted-Quiet :
      (req : Request) (actor action m : String)
      → Quiet (release_noted env svc req actor action (err m))
  unfolding release_noted ◌>>=◌ continue or_stop
  release_noted-Quiet req actor action m = record { at = λ w. (refl, refl) }

  release_noted-Passes :
      (req : Request) (actor action : String) (u : Unit {0})
      → Passes (λ e. Unit {0}) (release_noted env svc req actor action (ok u))
  unfolding release_noted
  release_noted-Passes req actor action u = search passes_rules depth 12

  release-Clean :
      (req : Request) (actor action : String)
      → Clean (λ e. Unit {0}) (release env svc req actor action)
  unfolding release
  release-Clean req actor action =
      Clean-bind _ _ _ (Quiet-lift _ (Quiet-remove_from_group env _ _)) λ removed.
        Clean-bind _ _ _ (Quiet-or_stop _ removed) λ done.
          Clean-bind _ _ _ (Quiet-lift _ (Quiet-time_now env)) λ now.
            Clean-exec env _ _ _ (update-FailsClean _) (release_noted-Quiet _ _ _)
              (release_noted-Passes _ _ _)

  may_release-Quiet : (actor : String) (req : Request) → Quiet (may_release env svc actor req)
  unfolding may_release
  may_release-Quiet actor req = search quiet_rules depth 16

  pub release_by-Clean : (h : Headers) (id : String) → Clean Any (release_by env svc h id)
  unfolding release_by release_found
  release_by-Clean h id = Clean-bind Any _ _ (Quiet-lift _ (Quiet-actor_of env svc h)) λ actor.
      Clean-bind Any _ _ (Quiet-lift _ (Quiet-query env _)) λ found.
        Clean-bind Any _ _ (Quiet-or_stop _ found) λ req.
          Clean-bind Any _ _ (Quiet-stop_if _ _) λ fits.
            Clean-bind Any _ _ (may_release-Quiet actor req)
              λ may. bad_gateway-Clean _ (release-Clean req actor "early_release")

  too_late-Passes : (req : Request) → Passes NoConflict (too_late env svc req)
  unfolding too_late too_late_noted
  too_late-Passes req = Passes-bind NoConflict _ _ (Passes-lift NoConflict _) λ written.
      Passes-bind NoConflict _ _ (Passes-lift NoConflict _) λ noted.
        Passes-bind NoConflict _ _ (Passes-lift NoConflict _)
          λ sent. Passes-fail NoConflict _ λ other. other refl

  grant_noted-Quiet :
      (actor notes : String) (req req' : Request) (m : String)
      → Quiet (grant_noted env svc actor notes req req' (err m))
  unfolding grant_noted ◌>>=◌ continue or_stop
  grant_noted-Quiet actor notes req req' m = record { at = λ w. (refl, refl) }

  grant_noted-Passes :
      (actor notes : String) (req req' : Request) (u : Unit {0})
      → Passes NoConflict (grant_noted env svc actor notes req req' (ok u))
  unfolding grant_noted
  grant_noted-Passes actor notes req req' u = search passes_rules depth 14

  grant-Clean :
      (actor notes : String) (now : Instant) (req : Request)
      → Clean NoConflict (grant env svc actor notes now req)
  unfolding grant
  grant-Clean actor notes now req =
      Clean-bind NoConflict _ _ (Quiet-lift _ (Quiet-add_to_group env _ _)) λ added.
        Clean-bind NoConflict _ _ (Quiet-or_stop _ added) λ done.
          Clean-exec env NoConflict _ _ (update-FailsClean _) (grant_noted-Quiet _ _ _ _)
            (grant_noted-Passes _ _ _ _)

  approve_guard-Quiet : (h : Headers) (body : Decoded String) → Quiet (approve_guard env svc h body)
  unfolding approve_guard
  approve_guard-Quiet h body = search quiet_rules depth 20

  pub approve_of-Clean :
      (h : Headers) (body : Decoded String) (id : String)
      → Clean NoConflict (approve_of env svc h body id)
  unfolding approve_of approve_found
  approve_of-Clean h body id = Clean-bind NoConflict _ _ (approve_guard-Quiet h body) λ asked.
      Clean-bind NoConflict _ _ (Quiet-lift _ (Quiet-query env _)) λ found.
        Clean-bind NoConflict _ _ (Quiet-or_stop _ found) λ req.
          Clean-bind NoConflict _ _ (Quiet-stop_if _ _) λ fits.
            Clean-bind NoConflict _ _ (Quiet-lift _ (Quiet-time_now env)) λ now.
              Clean-if NoConflict _ _ _ (Clean-Passes NoConflict _ (too_late-Passes req))
                (grant-Clean _ _ now req)
