-- ===== src/Authority/Left.antt =====
-- What a call of the API leaves when it answers with an error. Keycloak's groups are another matter:
-- a call may have changed them before the statement that failed.
use kc_jit_public.Base.{ℕ, String, ◌≢◌, refl, Result}
use kc_jit_public.World.{Env, World}
use kc_jit_public.World.Try.{Step, stop, next}
use kc_jit_public.Auth.{Headers}
use kc_jit_public.Api.{Service, Response, Body, request, Handler, respond, answer}
use kc_jit_public.Api.Create.{CreateRequestBody, create_of, handle_create}
use kc_jit_public.Api.Approve.{Decoded, approve_of, handle_approve}
use kc_jit_public.Api.Release.{release_by, handle_release}
use kc_jit_public.Authority.Clean.{Unchanged, StopsAt, Clean}
use kc_jit_public.Authority.Refused.{
  Any, NoConflict, create_of-Clean, approve_of-Clean, release_by-Clean,
}

-- A response with another code than that of success is one that the handler has stopped with.
stopped_at :
    {A : Type 0} (P : Response → Type 0) (code : ℕ) (f : A → Body) (s : Step Response A)
    → (respond code f s).code ≢ code
    → P (respond code f s)
    → StopsAt P s
stopped_at P code f (stop r) other p = p
stopped_at P code f (next a) other p = other refl

Unchanged-of_answer :
    {K A : Type 0} (P : Response → Type 0) (code : ℕ) (f : A → Body) (m : Handler K A) (w : World K)
    → Clean P m
    → (answer code f m w).0.code ≢ code
    → P (answer code f m w).0
    → Unchanged w (answer code f m w).1
Unchanged-of_answer P code f m w c other p = c.at w (stopped_at P code f (m w).0 other p)

module _ {K : Type 0} (env : Env K) (svc : Service) where
  -- A creation that does not answer 201 leaves the tables and the messages as they were.
  pub create_refused :
      (h : Headers) (body : Result CreateRequestBody) (w : World K)
      → (handle_create env svc h body w).0.code ≢ 201
      → Unchanged w (handle_create env svc h body w).1
  unfolding handle_create
  create_refused h body w other =
      Unchanged-of_answer Any 201 request (create_of env svc h body) w
        (create_of-Clean env svc h body) other tt

  -- An approval that answers neither 200 nor 409 leaves the tables and the messages as they were.
  pub approve_refused :
      (h : Headers) (body : Decoded String) (id : String) (w : World K)
      → (handle_approve env svc h body id w).0.code ≢ 200
      → (handle_approve env svc h body id w).0.code ≢ 409
      → Unchanged w (handle_approve env svc h body id w).1
  unfolding handle_approve
  approve_refused h body id w other no_conflict =
      Unchanged-of_answer NoConflict 200 request (approve_of env svc h body id) w
        (approve_of-Clean env svc h body id) other no_conflict

  -- A release that does not answer 200 leaves the tables and the messages as they were.
  pub release_refused :
      (h : Headers) (id : String) (w : World K)
      → (handle_release env svc h id w).0.code ≢ 200
      → Unchanged w (handle_release env svc h id w).1
  unfolding handle_release
  release_refused h id w other =
      Unchanged-of_answer Any 200 request (release_by env svc h id) w
        (release_by-Clean env svc h id) other tt
