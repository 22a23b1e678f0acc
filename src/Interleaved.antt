-- ===== src/Interleaved.antt =====
-- A round of `Reconcile` in its parts, between which requests are answered: the worker runs beside the
-- HTTP server, and each query, and each turn of the two loops, is a step of its own. A request is
-- answered in one step.
pub mod Kept
pub mod Overtaken
use kc_jit_public.Base.{List, [], ◌∷◌, Result, ok, err}
use kc_jit_public.Time.{Instant}
use kc_jit_public.Store.{Request}
use kc_jit_public.Store.Requests.{pending_expired, active_expired}
use kc_jit_public.World.{Env, World, time_now, query}
use kc_jit_public.Api.{Service}
use kc_jit_public.Api.Reconcile.{expire_one, revoke_one}
use kc_jit_public.Router.{HttpRequest, route, dispatch}

-- Where the worker is: it waits, or has read the requests that ran out, at a time, or the grants, and
-- has these still before it.
pub data Worker : Type 0 where
  waiting : Worker
  expiring : Instant → List Request → Worker
  revoking : List Request → Worker

-- A query's error ends the round.
abbrev pub begin : Instant → Result (List Request) → Worker
begin now (ok due) = expiring now due
begin now (err m) = waiting

abbrev pub go_on : Result (List Request) → Worker
go_on (ok over) = revoking over
go_on (err m) = waiting

pub record Running (K : Type 0) : Type 0 where
  pub world : World K
  pub worker : Worker

-- What happens next: a request, or a step of the worker.
pub data Move : Type 0 where
  answers : HttpRequest → Move
  works : Move

module _ {K : Type 0} (env : Env K) (svc : Service) where
  unfoldable pub work : Worker → World K → Running K
  unfolding time_now query pending_expired active_expired expire_one revoke_one
  work waiting w =
      let (now, w₁) = time_now env w in
      let (found, w₂) = query env (λ fault. pending_expired fault now) w₁ in
      record { world = w₂; worker = begin now found }
  work (expiring now []) w =
      let (found, w') = query env (λ fault. active_expired fault now) w in
      record { world = w'; worker = go_on found }
  work (expiring now (req ∷ reqs)) w = record {
    world = (expire_one env svc req w).1;
    worker = expiring now reqs;
  }
  work (revoking []) w = record { world = w; worker = waiting }
  work (revoking (req ∷ reqs)) w = record {
    world = (revoke_one env svc req w).1;
    worker = revoking reqs;
  }

  unfoldable pub move : Move → Running K → Running K
  unfolding work dispatch route
  move (answers r) s = record s { world = (dispatch env svc (route r.method r.path) r s.world).1 }
  move works s = work s.worker s.world

  unfoldable pub moves : List Move → Running K → Running K
  unfolding move
  moves [] s = s
  moves (m ∷ ms) s = moves ms (move m s)
