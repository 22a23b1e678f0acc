-- ===== src/Router.antt =====
-- `NewRouter`, and the service as a whole: HTTP requests and ticks of the worker, one after another.
use kc_jit_public.Base.{String, Bool, ◌||◌, ◌&&◌, List, [], ◌∷◌, Result, ◌==◌, if◌then◌else◌}
use kc_jit_public.World.{Env, World, Act}
use kc_jit_public.Auth.{Headers}
use kc_jit_public.Api.{Service, Response}
use kc_jit_public.Api.Create.{CreateRequestBody, handle_create}
use kc_jit_public.Api.Approve.{Decoded, handle_approve}
use kc_jit_public.Api.Release.{handle_release}
use kc_jit_public.Api.Reads.{QueryValues, handle_me, handle_audit, handle_list, handle_get}
use kc_jit_public.Api.Reconcile.{reconcile}

-- The patterns of the mux. `ui` is the pattern `/`, which every other request matches.
pub data Route : Type 0 where
  healthz login callback logout me list create audit ui : Route
  get : String → Route
  approve : String → Route
  release : String → Route

-- A request as the handlers read it: the segments of the cleaned path, and what each of the two
-- JSON decoders makes of the body.
pub record HttpRequest : Type 0 where
  pub method : String
  pub path : List String
  pub headers : Headers
  pub query : QueryValues
  pub create_body : Result CreateRequestBody
  pub approve_body : Decoded String

-- A pattern for GET serves HEAD too.
abbrev is_get : String → Bool
is_get m = m == "GET" || m == "HEAD"

abbrev if_get : String → Route → Route
if_get m r = if is_get m then r else ui

abbrev is_post : String → Bool
is_post m = m == "POST"

abbrev route_one : String → String → Route
route_one m a = if a == "healthz" then if_get m healthz else ui

abbrev route_two : String → String → String → Route
route_two m a b =
    if a == "auth" && b == "login"
    then if_get m login
    else if a == "auth" && b == "callback"
    then if_get m callback
    else if a == "auth" && b == "logout"
    then (if is_post m then logout else if_get m logout)
    else ui

abbrev route_api : String → String → Route
route_api m c =
    if c == "me"
    then if_get m me
    else if c == "requests"
    then (if is_post m then create else if_get m list)
    else if c == "audit"
    then if_get m audit
    else ui

abbrev route_action : String → String → String → Route
route_action m id action =
    if is_post m && action == "approve"
    then approve id
    else if is_post m && action == "release"
    then release id
    else ui

abbrev is_api : String → String → Bool
is_api a b = a == "api" && b == "v1"

unfoldable pub route : String → List String → Route
route m (a ∷ []) = route_one m a
route m (a ∷ b ∷ []) = route_two m a b
route m (a ∷ b ∷ c ∷ []) = if is_api a b then route_api m c else ui
route m (a ∷ b ∷ c ∷ id ∷ []) = if is_api a b && c == "requests" then if_get m (get id) else ui
route m (a ∷ b ∷ c ∷ id ∷ d ∷ []) =
    if is_api a b && c == "requests" then route_action m id d else ui
route m _ = ui

-- The handlers of the API answer; the others, of sign-in and of the static files, are not part of
-- this model and touch neither the store nor Keycloak's groups.
pub data Reply : Type 0 where
  api : Response → Reply
  elsewhere : Route → Reply

abbrev pub replied : {K : Type 0} → Act K Response → Act K Reply
replied m w = (api (m w).0, (m w).1)

-- An occurrence: a request arrives, or the worker's ticker fires.
pub data Event : Type 0 where
  http : HttpRequest → Event
  tick : Event

module _ {K : Type 0} (env : Env K) (svc : Service) where
  unfoldable pub dispatch : Route → HttpRequest → Act K Reply
  dispatch me r = replied (handle_me env svc r.headers)
  dispatch list r = replied (handle_list env svc)
  dispatch create r = replied (handle_create env svc r.headers r.create_body)
  dispatch (get id) r = replied (handle_get env svc id)
  dispatch (approve id) r = replied (handle_approve env svc r.headers r.approve_body id)
  dispatch (release id) r = replied (handle_release env svc r.headers id)
  dispatch audit r = replied (handle_audit env svc r.query)
  dispatch other r = λ w. (elsewhere other, w)

  unfoldable pub handle : Event → World K → World K
  unfolding dispatch route
  handle (http r) w = (dispatch (route r.method r.path) r w).1
  handle tick w = (reconcile env svc w).1

  -- Any history of the service, one event at a time.
  unfoldable pub serve : List Event → World K → World K
  unfolding handle
  serve [] w = w
  serve (e ∷ es) w = serve es (handle e w)
