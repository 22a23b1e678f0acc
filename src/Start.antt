-- ===== src/Start.antt =====
-- cmd/pim/main.go and internal/worker/worker.go: how the process starts, what happens to it, and the
-- loop of the worker.
pub mod Worker
pub mod Ends
pub mod Runs
use kc_jit_public.Base.{String, ◌^^◌, List, [], ◌∷◌, Option, none, some, Result, ok, err}
use kc_jit_public.Time.{Duration}
use kc_jit_public.Config.{Config, Environ, from_env}
use kc_jit_public.Store.{Db}
use kc_jit_public.Store.Open.{Engine, File, open_store}
use kc_jit_public.World.{Env, World}
use kc_jit_public.Http.{Page}
use kc_jit_public.Notify
use kc_jit_public.Auth.Cookie.{Codec}
use kc_jit_public.Auth.SignIn.{Outside, SignIn, new_manager, CallbackQuery}
use kc_jit_public.Ui.{Files, ui_handler}
use kc_jit_public.Api.{Service}
use kc_jit_public.Api.Reconcile.{reconcile}
use kc_jit_public.Api.SignIn.{
  Answer, page, json, handle_login, handle_callback_request, handle_logout,
}
use kc_jit_public.Router.{
  Route, healthz, login, callback, logout, HttpRequest, Reply, api, elsewhere, route, dispatch,
}

-- A request with what the handlers outside the API read of it.
pub record Arrival : Type 0 where
  pub request : HttpRequest
  pub url_path : String
  pub callback_query : CallbackQuery

-- What happens to the process until a signal stops it.
pub data Happening : Type 0 where
  arrives : Arrival → Happening
  fires : Happening

-- What the process keeps, in the database and outside.
pub record Pim (K : Type 0) : Type 0 where
  pub world : World K
  pub sign_in : SignIn

abbrev healthy : Page
healthy = record { code = 200; content_type = "text/plain; charset=utf-8"; body = "ok" }

-- `NewService`, with `NewManager` and `notify.New`, from the settings.
unfoldable pub service_of : Codec → Config → Service
unfolding Notify.new
service_of codec cfg = record {
  cfg = cfg;
  auth = some (record { session_secret = cfg.session_secret });
  notify = some (Notify.new cfg.notify_webhook_url cfg.public_url);
  codec = codec;
}

module _ {K : Type 0} (env : Env K) (out : Outside) (files : Files) (svc : Service) where
  -- The handlers that need neither the store nor Keycloak's groups.
  unfoldable pub serve_elsewhere : Route → Arrival → SignIn → Answer × SignIn
  unfolding handle_login handle_callback_request handle_logout ui_handler
  serve_elsewhere healthz a m = (page healthy, m)
  serve_elsewhere login a m = handle_login out svc m
  serve_elsewhere callback a m = handle_callback_request out svc a.callback_query m
  serve_elsewhere logout a m = (handle_logout out svc, m)
  serve_elsewhere other a m = (page (ui_handler files a.url_path), m)

  abbrev pub settle : Reply → Arrival → SignIn → Answer × SignIn
  settle (api r) a m = (json r, m)
  settle (elsewhere to) a m = serve_elsewhere to a m

  -- A request through the mux.
  unfoldable pub answer_to : Arrival → Pim K → Answer × Pim K
  unfolding serve_elsewhere dispatch route
  answer_to a p =
      let to = route a.request.method a.request.path in
      let (reply, w) = dispatch env svc to a.request p.world in
      let (shown, m) = settle reply a p.sign_in in (shown, record { world = w; sign_in = m })

  unfoldable pub happen : Happening → Pim K → Pim K
  unfolding answer_to reconcile
  happen (arrives a) p = (answer_to a p).1
  happen fires p = record p { world = (reconcile env svc p.world).1 }

  unfoldable pub happenings : List Happening → Pim K → Pim K
  unfolding happen
  happenings [] p = p
  happenings (h ∷ hs) p = happenings hs (happen h p)

-- How a run of the process ends: by `log.Fatalf` at its start, by `log.Fatalf` when the server fails,
-- or by a signal.
pub data Ended (K : Type 0) : Type 0 where
  fatal : String → Ended K
  crashed : String → Pim K → Ended K
  stopped : Pim K → Ended K

-- The end after what has happened: by the error of `ListenAndServe`, or by a signal.
abbrev pub end_of : {K : Type 0} → Option String → Pim K → Ended K
end_of none p = stopped p
end_of (some m) p = crashed ("http: " ^^ m) p

module _ {K : Type 0} (env : Env K) (out : Outside) (files : Files) (codec : Codec) where
  abbrev pub new_world : Db → K → World K
  new_world db kc = record { db = db; kc = kc; readings = 0; posts = [] }

  -- After the database is open: a first round of `Reconcile`, whose error is only logged.
  unfoldable pub run_service : Service → List Happening → K → Db → Pim K
  unfolding happenings reconcile
  run_service svc hs kc db =
      happenings env out files svc hs
        (record { world = (reconcile env svc (new_world db kc)).1; sign_in = new_manager })

  abbrev pub ended : Service → List Happening → Option String → K → Result Db → Ended K
  ended svc hs failure kc (err m) = fatal ("db: " ^^ m)
  ended svc hs failure kc (ok db) = end_of failure (run_service svc hs kc db)

  -- `main`, on a database file, with the file that it leaves at its opening.
  unfoldable pub run_main :
      Engine
      → (String → Option Duration)
      → Environ
      → File
      → K
      → List Happening
      → Option String
      → Ended K
  unfolding from_env service_of open_store run_service
  run_main engine parse_duration environ file kc hs failure =
      ended (service_of codec (from_env parse_duration environ)) hs failure kc
        (open_store engine file).0
