-- ===== src/Tests/Interleaved.antt =====
-- Rounds of the worker with requests between their steps.
use kc_jit_public.Base.{◌≡◌, refl, List, [], ◌∷◌, some}
use kc_jit_public.Store.{Row, Request, empty_db}
use kc_jit_public.Store.Requests.{to_row, find, set_columns}
use kc_jit_public.World.{World}
use kc_jit_public.Api.Create.{new_request}
use kc_jit_public.Api.Approve.{grant_of, expire_of}
use kc_jit_public.Router.{serve, tick}
use kc_jit_public.Lifecycle.Rules.{rows_of}
use kc_jit_public.Ledger.Rows.{IsLedger, Extends}
use kc_jit_public.Once.{IsOnce}
use kc_jit_public.Interleaved.{Move, answers, works, waiting, expiring, Running, work, moves}
use kc_jit_public.Interleaved.Kept.{moves-IsSafe}
use kc_jit_public.Interleaved.Overtaken.{stale_expiry}
use kc_jit_public.Tests.Setup.{Realm, start, env, svc, world, first_id, request}

abbrev idle : Running Realm
idle = record { world = world; worker = waiting }

abbrev mixed : List Move
mixed =
    works ∷ answers (request "POST" ("api" ∷ "v1" ∷ "requests" ∷ []) "alice") ∷ works ∷ works ∷ []

moves-IsSafe_example :
    IsLedger (moves env svc mixed idle).world.db
    × Extends [] (moves env svc mixed idle).world.db.audit_events
    × IsOnce (moves env svc mixed idle).world
moves-IsSafe_example =
    moves-IsSafe env svc mixed idle (record { ascending = tt; given = tt })
      (record { distinct = tt; marked = tt })

-- A request as the worker read it, and its row after the approval that came in between.
abbrev asked : Request
asked = new_request svc first_id "alice" "need access for incident" start

abbrev granted : Row
granted = to_row (grant_of svc "bob" "ticket 4711 checked" start asked)

abbrev between : World Realm
between = record world { db = record empty_db { requests = granted ∷ [] } }

stale_expiry_example :
    ((work env svc (expiring start (asked ∷ [])) between).world.kc ≡ between.kc)
    × (find first_id (
          rows_of
            (serve env svc (tick ∷ []) (work env svc (expiring start (asked ∷ [])) between).world))
        ≡ some (set_columns (expire_of asked) granted))
unfolding find to_row
stale_expiry_example =
    stale_expiry env svc asked [] start between granted (tick ∷ []) (refl, tt) refl refl
