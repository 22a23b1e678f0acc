-- ===== src/Tests/Lives.antt =====
-- Histories of the service, from an empty table and from tables with one request.
use kc_jit_public.Base.{
  arith, ◌*◌, ◌+◌, ok, err, String, ◌⊎◌, none, List, [], ◌∷◌, ◌≡◌, refl, inr, some, All,
}
use mathlib.Core.List.{Mem}
use kc_jit_public.Store.{Db, Row, Request, empty_db}
use kc_jit_public.Store.RoundTrip.{IsDated, get-create, get-update}
use kc_jit_public.Store.Requests.{
  create, get, update, list, to_row, find, pending_expired, active_expired,
}
use kc_jit_public.Store.Keys.{Keyed}
use kc_jit_public.Store.Listing.{IsListing, IsUnreadable, list-IsListing}
use kc_jit_public.Time.Calendar.{year_of, month_of}
use kc_jit_public.World.{World}
use kc_jit_public.Api.Create.{new_request}
use kc_jit_public.Api.Approve.{grant_of}
use kc_jit_public.Api.Release.{release_of}
use kc_jit_public.Router.{Event, tick, serve}
use kc_jit_public.Lifecycle.{Changes}
use kc_jit_public.Lifecycle.Rules.{rows_of}
use kc_jit_public.Lifecycle.Serve.{serve-Changes}
use kc_jit_public.Lifecycle.History.{Kept, serve-Kept}
use kc_jit_public.Lifecycle.Ended.{serve_ended}
use kc_jit_public.Lifecycle.Complete.{IsComplete, serve-Complete}
use kc_jit_public.Time.{second, hour}
use kc_jit_public.Time.Format.{format}
use kc_jit_public.Time.Parse.{parse}
use kc_jit_public.World.Try.{next}
use kc_jit_public.Api.Reconcile.{reconcile}
use kc_jit_public.Settled.Reconcile.{reconcile_settles}
use kc_jit_public.Ledger.Rows.{IsLedger, Extends}
use kc_jit_public.Ledger.Serve.{serve-Extends}
use kc_jit_public.Once.{IsOnce}
use kc_jit_public.Once.Serve.{serve-IsOnce}
use kc_jit_public.Tests.Setup.{Realm, start, env, svc, world, first_id, ask, let_in, give_back}

-- The request is made, approved and given back, with a tick of the worker between.
abbrev story : List Event
story = ask ∷ let_in ∷ tick ∷ give_back ∷ []

abbrev waiting : Request
waiting = new_request svc first_id "alice" "need access for incident" start

abbrev closed : Request
closed = release_of start (grant_of svc "bob" "ticket 4711 checked" start waiting)

abbrev with_row : Row → World Realm
with_row row = record world { db = record empty_db { requests = row ∷ [] } }

serve-Changes_example :
    Changes svc (rows_of world) (rows_of (serve env svc story world))
    × Keyed (rows_of (serve env svc story world))
serve-Changes_example = serve-Changes env svc story world tt

serve-Kept_example :
    Kept first_id (to_row waiting) (rows_of (serve env svc story (with_row (to_row waiting))))
unfolding to_row find
serve-Kept_example =
    serve-Kept env svc story (with_row (to_row waiting)) first_id (to_row waiting) (refl, tt) refl

serve_ended_example :
    find first_id (rows_of (serve env svc story (with_row (to_row closed)))) ≡ some (to_row closed)
unfolding to_row find
serve_ended_example =
    serve_ended env svc story (with_row (to_row closed)) first_id (to_row closed) (refl, tt) refl
      (inr refl)

serve-Complete_example : All (IsComplete svc) (rows_of (serve env svc story world))
serve-Complete_example = serve-Complete env svc story world tt tt

serve-Extends_example :
    IsLedger (serve env svc story world).db × Extends [] (serve env svc story world).db.audit_events
serve-Extends_example = serve-Extends env svc story world (record { ascending = tt; given = tt })

serve-IsOnce_example : IsOnce (serve env svc story world)
serve-IsOnce_example = serve-IsOnce env svc story world (record { distinct = tt; marked = tt })

-- A grant of the day before, whose time is over.
abbrev old : Request
old =
    grant_of svc "bob" "ticket 4711 checked" (63902822400 * second)
      (new_request svc first_id "alice" "need access for incident" (63902822400 * second))

reconcile_settles_example :
    ((reconcile env svc (with_row (to_row old))).0 ≡ next tt)
    × (pending_expired none (env.now 0) (reconcile env svc (with_row (to_row old))).1.db ≡ ok [])
    × (active_expired none (env.now 0) (reconcile env svc (with_row (to_row old))).1.db ≡ ok [])
unfolding to_row format parse kc_jit_public.Time.Calendar.year_of
    kc_jit_public.Time.Calendar.month_of
reconcile_settles_example =
    reconcile_settles env svc (record { runs = λ n. refl; removes = λ user group kc. refl })
      (with_row (to_row old))
      (
        record {
          created = 63902822400 * second;
          expires = 63902822400 * second + hour;
          read_created = refl;
          read_expires = refl;
        },
        tt,
      )

abbrev two_rows : Db
two_rows = record empty_db { requests = to_row old ∷ to_row waiting ∷ [] }

list-IsListing_example :
    ((reqs : List Request) × (list none two_rows ≡ ok reqs) × IsListing two_rows.requests reqs)
    ⊎ ((m : String) × (list none two_rows ≡ err m)
        × (row : Row) × Mem row two_rows.requests
        × IsUnreadable row)
list-IsListing_example = list-IsListing two_rows

waiting-IsDated : IsDated waiting
waiting-IsDated = record {
  created = omega arith;
  expires = omega arith;
  approval = tt;
  grant_end = tt;
  release = tt;
}

get-create_example : get none first_id (create none waiting empty_db).1 ≡ ok waiting
unfolding create
get-create_example = get-create waiting empty_db waiting-IsDated refl

abbrev let_go : Request
let_go = release_of start waiting

get-update_example :
    get none first_id (update none let_go (record empty_db { requests = to_row waiting ∷ [] })).1
    ≡ ok let_go
unfolding to_row find
get-update_example =
    get-update let_go (to_row waiting) (record empty_db { requests = to_row waiting ∷ [] })
      (record {
        created = omega arith;
        expires = omega arith;
        approval = tt;
        grant_end = tt;
        release = omega arith;
      })
      refl
      (record {
        id = refl;
        username = refl;
        justification = refl;
        created_at = refl;
        request_expires_at = refl;
      })
