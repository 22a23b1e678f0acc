-- ===== src/Tests/Start.antt =====
-- The process on the file of an older version, with one request that was waiting.
use kc_jit_public.Base.{String, ◌^^◌, ◌≡◌, refl, ◌⊎◌, [], ◌∷◌, map, Option, none, some, ok, err}
use kc_jit_public.Time.{Duration}
use kc_jit_public.Config.{Environ}
use kc_jit_public.Store.{Db, pending}
use kc_jit_public.Store.Keys.{Keyed}
use kc_jit_public.Store.Open.{File, OldRow, without_notes, Engine, db_of, open_store, contains}
use kc_jit_public.Store.Open.Kept.{open_store-keeps}
use kc_jit_public.Store.Open.Full.{finished, open_store-again}
use kc_jit_public.Router.{tick, serve}
use kc_jit_public.Ui.{Files}
use kc_jit_public.Http.{http_error}
use kc_jit_public.Lifecycle.{Changes}
use kc_jit_public.Start.{
  Happening, arrives, fires, Pim, stopped, fatal, new_world, run_service, run_main,
}
use kc_jit_public.Start.Runs.{event_of, svc_of, run_main-serve, run_main-Changes}
use kc_jit_public.Start.Ends.{Ends}
use kc_jit_public.Tests.Setup.{Realm, env, world, codec, request}
use kc_jit_public.Tests.SignIn.{outside, back}

abbrev old_row : OldRow
old_row = record {
  id = "r1";
  username = "alice";
  justification = "need access";
  status = pending;
  created_at = [];
  request_expires_at = [];
  approved_at = none;
  approved_by = none;
  active_expires_at = none;
  released_at = none;
}

abbrev old_file : File
old_file = record {
  requests = some (without_notes (old_row ∷ []));
  audit_events = none;
  notifications = none;
  indices = [];
}

abbrev willing : Engine
willing = record { fault = λ n. none; duplicate_column = "duplicate column name: approval_notes" }

open_store-keeps_example :
    (db_of (open_store willing old_file).1 ≡ db_of old_file)
    × ((d : Db) → (open_store willing old_file).0 ≡ ok d → d ≡ db_of old_file)
open_store-keeps_example = open_store-keeps willing old_file

open_store-again_example :
    (open_store willing old_file ≡ (ok (db_of old_file), finished old_file))
    × (open_store willing (finished old_file) ≡ (ok (db_of old_file), finished old_file))
unfolding contains
open_store-again_example =
    open_store-again willing old_file (record { runs = λ n. refl; says = refl })

abbrev files : Files
files = record { index = ok "<html>"; file_server = λ path. http_error 404 "404 page not found" }

abbrev no_duration : String → Option Duration
no_duration s = none

abbrev nothing_set : Environ
nothing_set key = ""

abbrev visit : Happening
visit = arrives (record {
  request = request "POST" ("api" ∷ "v1" ∷ "requests" ∷ "r1" ∷ "approve" ∷ []) "bob";
  url_path = "/api/v1/requests/r1/approve";
  callback_query = back;
})

run_main-serve_example :
    ((m : String) × ((open_store willing old_file).0 ≡ err m)
      × (run_main env outside files codec willing no_duration nothing_set old_file world.kc
            (visit ∷ fires ∷ [])
            none
          ≡ fatal ("db: " ^^ m)))
    ⊎ ((p : Pim Realm) × (run_main env outside files codec willing no_duration nothing_set old_file
            world.kc
            (visit ∷ fires ∷ [])
            none
          ≡ stopped p)
        × (p.world
            ≡ serve env
                (svc_of env outside files codec willing no_duration nothing_set)
                (tick ∷ map event_of (visit ∷ fires ∷ []))
                (new_world env outside files codec (db_of old_file) world.kc)))
run_main-serve_example =
    run_main-serve env outside files codec willing no_duration nothing_set old_file world.kc
      (visit ∷ fires ∷ []) none

abbrev left : Pim Realm
left =
    run_service env outside files codec
      (svc_of env outside files codec willing no_duration nothing_set) (visit ∷ fires ∷ []) world.kc
      (db_of old_file)

run_main-Changes_example :
    Changes
      (svc_of env outside files codec willing no_duration nothing_set)
      (db_of old_file).requests
      left.world.db.requests
    × Keyed left.world.db.requests
unfolding kc_jit_public.Store.Requests.find run_main
run_main-Changes_example =
    run_main-Changes env outside files codec willing no_duration nothing_set old_file world.kc
      (visit ∷ fires ∷ []) none left (refl, tt) refl
