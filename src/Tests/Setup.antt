-- ===== src/Tests/Setup.antt =====
-- A small realm: an in-memory Keycloak, a clock that moves by a second at each reading, an engine
-- that runs every statement and a webhook that takes every message.
use kc_jit_public.Base.{
  ◌+◌, ◌*◌, String, Bool, true, false, ◌&&◌, ◌||◌, List, [], ◌∷◌, none, some, Result, ok, ◌==◌, not,
  filter,
}
use kc_jit_public.Base.Int.{pos}
use kc_jit_public.Time.{Instant, second, hour}
use kc_jit_public.Config.{Config}
use kc_jit_public.Store.{empty_db}
use kc_jit_public.World.{Groups, Env, World}
use kc_jit_public.Auth.{Headers}
use kc_jit_public.Auth.Cookie.{Codec}
use kc_jit_public.Api.{Service}
use kc_jit_public.Api.Create.{CreateRequestBody}
use kc_jit_public.Api.Approve.{decoded}
use kc_jit_public.Router.{HttpRequest, Event, http}

-- The members of groups, as pairs of a user and a group.
abbrev pub Realm : Type 0
Realm = List (String × String)

abbrev same_pair : String × String → String × String → Bool
same_pair (a, b) (c, d) = a == c && b == d

abbrev pub is_member : String × String → Realm → Bool
is_member p [] = false
is_member p (q ∷ realm) = same_pair p q || is_member p realm

abbrev pub fake_groups : Groups Realm
fake_groups = record {
  in_group = λ user group realm. (ok (is_member (user, group) realm), realm);
  add_to_group = λ user group realm. (ok tt, (user, group) ∷ realm);
  remove_from_group =
      λ user group realm. (ok tt, filter (λ q. not (same_pair (user, group) q)) realm);
}

-- 2026-01-02T00:00:00Z.
abbrev pub start : Instant
start = 63902908800 * second

abbrev pub env : Env Realm
env = record {
  now = λ n. start + n * second;
  random = λ n. n ∷ 171 ∷ [];
  fault = λ n. none;
  webhook = λ n url text. ok 200;
  groups = fake_groups;
}

abbrev pub cfg : Config
cfg = record {
  listen_addr = ":8080";
  db_path = ":memory:";
  public_url = "http://pim";
  base_url = "http://kc";
  public_base_url = "";
  realm = "pim-test";
  client_id = "pim-service";
  client_secret = "s";
  oidc_enabled = false;
  oidc_client_id = "pim-web";
  oidc_client_secret = "";
  oidc_redirect_url = "";
  session_secret = "k";
  allow_header_auth = true;
  notify_webhook_url = "http://hook";
  group_eligible = "admin-eligible";
  group_active = "admin-active";
  group_permanent = "admin-permanent";
  group_break_glass = "break-glass";
  request_ttl = pos hour;
  active_ttl = pos (9 * hour);
  poll_interval = pos (30 * second);
}

abbrev pub codec : Codec
codec = record { mac = λ key payload. 1 ∷ payload; marshal = λ s. 7 ∷ []; unmarshal = λ b. none }

abbrev pub svc : Service
svc = record {
  cfg = cfg;
  auth = none;
  notify = some (record { webhook_url = "http://hook"; public_url = "http://pim" });
  codec = codec;
}

abbrev pub world : World Realm
world = record {
  db = empty_db;
  kc = ("alice", "admin-eligible") ∷ ("bob", "admin-permanent") ∷ [];
  readings = 0;
  posts = [];
}

abbrev pub headers : String → Headers
headers actor = record { cookie = none; actor_username = actor }

abbrev pub create_body : Result CreateRequestBody
create_body = ok (record { username = ""; justification = " need access for incident " })

abbrev pub request : String → List String → String → HttpRequest
request method path actor = record {
  method = method;
  path = path;
  headers = headers actor;
  query = λ k. "";
  create_body = create_body;
  approve_body = decoded "ticket 4711 checked";
}

-- The id that the third reading makes.
abbrev pub first_id : String
first_id = "02ab"

abbrev pub ask : Event
ask = http (request "POST" ("api" ∷ "v1" ∷ "requests" ∷ []) "alice")

abbrev pub let_in : Event
let_in = http (request "POST" ("api" ∷ "v1" ∷ "requests" ∷ first_id ∷ "approve" ∷ []) "bob")

abbrev pub give_back : Event
give_back = http (request "POST" ("api" ∷ "v1" ∷ "requests" ∷ first_id ∷ "release" ∷ []) "alice")
