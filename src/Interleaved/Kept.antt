-- ===== src/Interleaved/Kept.antt =====
-- What holds whatever comes between the steps of a round.
use kc_jit_public.Base.{suc, List, [], ◌∷◌}
use kc_jit_public.World.{Env, World, time_now, query}
use kc_jit_public.Api.{Service}
use kc_jit_public.Stable.{Stable}
use kc_jit_public.Stable.Serve.{dispatch-Keeps, Stable-expire_one, Stable-revoke_one}
use kc_jit_public.Ledger.Rows.{IsLedger, Extends, Extends-refl}
use kc_jit_public.Ledger.Serve.{IsGrown-Stable}
use kc_jit_public.Once.{IsOnce}
use kc_jit_public.Once.Notify.{IsOnce-Stable}
use kc_jit_public.Interleaved.{
  Worker, waiting, expiring, revoking, Running, Move, answers, works, work, move, moves,
}

module _ {K : Type 0} {env : Env K} {svc : Service} {P : World K → Type 0}
    (s : Stable env svc P) where
  work-keeps : (at : Worker) (w : World K) → P w → P (work env svc at w).world
  unfolding work time_now query
  work-keeps waiting w h = s.reads w (suc (suc w.readings)) w.kc h
  work-keeps (expiring now []) w h = s.reads w (suc w.readings) w.kc h
  work-keeps (expiring now (req ∷ reqs)) w h = (Stable-expire_one s req).at w h
  work-keeps (revoking []) w h = h
  work-keeps (revoking (req ∷ reqs)) w h = (Stable-revoke_one s req).at w h

  -- A stable condition is kept by every sequence of requests and steps of the worker.
  pub moves-keeps : (ms : List Move) (r : Running K) → P r.world → P (moves env svc ms r).world
  unfolding moves move
  moves-keeps [] r h = h
  moves-keeps (answers q ∷ ms) r h = moves-keeps ms _ ((dispatch-Keeps s _ q).at r.world h)
  moves-keeps (works ∷ ms) r h = moves-keeps ms _ (work-keeps r.worker r.world h)

-- From a ledger whose ids go up and are at most the last one given out, and messages of which no two
-- have one request and one kind and each has its key in the table `notifications`, every sequence of
-- requests and single steps of the worker ends with such a ledger, which has the rows of before, in
-- their order, and after them the new ones, and with such messages.
pub moves-IsSafe :
    {K : Type 0} (env : Env K) (svc : Service) (ms : List Move) (r : Running K)
    → IsLedger r.world.db
    → IsOnce r.world
    → IsLedger (moves env svc ms r).world.db
      × Extends r.world.db.audit_events (moves env svc ms r).world.db.audit_events
      × IsOnce (moves env svc ms r).world
moves-IsSafe env svc ms r ledger once =
    let (kept, longer) =
      moves-keeps (IsGrown-Stable env svc r.world.db.audit_events) ms r
        (ledger, Extends-refl r.world.db.audit_events) in
    (kept, longer, moves-keeps (IsOnce-Stable env svc) ms r once)
