-- ===== src/Keycloak.antt =====
-- internal/keycloak/client.go: the client of Keycloak's admin API, with its caches of the access token
-- and of the ids of groups.
pub mod Gives
pub mod Sound
pub mod Operations
pub mod Cached
use kc_jit_public.Base.{
  ℕ, suc, ◌+◌, ◌-◌, ◌*◌, String, ◌^^◌, ◌==◌, Bool, true, false, not, ◌&&◌, List, [], ◌∷◌, Option,
  none, some, Result, ok, err, ltb, leb, if◌then◌else◌,
}
use kc_jit_public.Base.Int.{ℤ, pos, negsuc}
use kc_jit_public.Text.{is_empty, trim_slashes}
use kc_jit_public.Time.{Instant, Duration, second, add}
use kc_jit_public.Config.{Config}
use kc_jit_public.World.{Groups}
pub use kc_jit_public.Http.{HttpCall, HttpAnswer, accept, Method, after, ◌>>=◌, pure}

-- What the client calls outside: the clock and the HTTP calls, each by the number of the reading (an
-- error is that of building the request or of sending it), encoding/json on the four bodies,
-- `url.QueryEscape` and `strconv.Quote`.
pub record Outside : Type 0 where
  pub now : ℕ → Instant
  pub send : ℕ → HttpCall → Result HttpAnswer
  pub token_of : String → Result (String × ℤ)
  pub user_ids_of : String → Result (List String)
  pub group_names_of : String → Result (List String)
  pub groups_of : String → Result (List (String × String))
  pub query_escape : String → String
  pub quote : String → String

-- `readings` counts the readings of the clock and the calls. `group_ids` has the latest entry first.
pub record Client : Type 0 where
  pub cached_token : String
  pub token_expiry : Instant
  pub group_ids : List (String × String)
  pub readings : ℕ

-- `New`.
abbrev pub new_client : Client
new_client = record { cached_token = ""; token_expiry = 0; group_ids = []; readings = 0 }

abbrev pub Call : Type 0 → Type 0
Call = Method Client

-- `time.Duration(n) * time.Second`, for results that an int64 holds.
abbrev pub seconds : ℤ → Duration
seconds (pos n) = pos (n * second)
seconds (negsuc n) = negsuc (suc n * second - 1)

abbrev pub lookup_id : String → List (String × String) → Option String
lookup_id name [] = none
lookup_id name ((key, id) ∷ ids) = if key == name then some id else lookup_id name ids

-- An empty body leaves the result empty.
abbrev pub decode_list : {A : Type 0} → (String → Result (List A)) → String → Result (List A)
decode_list f body = if is_empty body then ok [] else f body

abbrev pub has_name : List String → String → Bool
has_name [] name = false
has_name (g ∷ gs) name = if g == name then true else has_name gs name

module _ (out : Outside) (cfg : Config) where
  -- A reading of the clock, and a call.
  abbrev pub clock : Call Instant
  clock c = (ok (out.now c.readings), record c { readings = suc c.readings })

  abbrev pub send_call : HttpCall → Call HttpAnswer
  send_call call c = (out.send c.readings call, record c { readings = suc c.readings })

  abbrev pub token_call : HttpCall
  token_call = record {
    method = "POST";
    url = trim_slashes cfg.base_url ^^ "/realms/" ^^ cfg.realm ^^ "/protocol/openid-connect/token";
    bearer = "";
    form =
        ("grant_type", "client_credentials")
        ∷ ("client_id", cfg.client_id)
        ∷ ("client_secret", cfg.client_secret)
        ∷ [];
  }

  -- A token that was answered is kept with its expiry.
  unfoldable pub keep_token : String × ℤ → Call String
  keep_token (token, secs) c = if is_empty token then (err "empty access_token", c) else (
    ok token,
    record c {
      cached_token = token;
      token_expiry = add (out.now c.readings) (seconds secs);
      readings = suc c.readings;
    },
  )

  unfoldable pub fetch_token : Call String
  fetch_token = do
    answer ← send_call token_call
    body ← pure (accept "token" answer)
    found ← pure (out.token_of body)
    keep_token found

  -- `accessToken`: the cached token up to 30 seconds before it expires.
  unfoldable pub access_token : Call String
  access_token c =
      if not (is_empty c.cached_token) && ltb (out.now c.readings + 30 * second) c.token_expiry
      then (ok c.cached_token, record c { readings = suc c.readings })
      else fetch_token (record c { readings = suc c.readings })

  abbrev pub admin_call : String → String → String → HttpCall
  admin_call method path token = record {
    method = method;
    url = trim_slashes cfg.base_url ^^ path;
    bearer = token;
    form = [];
  }

  -- `do`, up to the decoding of the body.
  unfoldable pub do_call : String → String → Call String
  do_call method path = do
    token ← access_token
    answer ← send_call (admin_call method path token)
    pure (accept (method ^^ " " ^^ path) answer)

  abbrev pub users_path : String → String
  users_path username =
      "/admin/realms/" ^^ cfg.realm ^^ "/users?exact=true&username=" ^^ out.query_escape username

  abbrev pub user_groups_path : String → String
  user_groups_path uid = "/admin/realms/" ^^ cfg.realm ^^ "/users/" ^^ uid ^^ "/groups"

  abbrev pub groups_path : String → String
  groups_path name =
      "/admin/realms/" ^^ cfg.realm ^^ "/groups?exact=true&search=" ^^ out.query_escape name

  abbrev pub member_path : String → String → String
  member_path uid gid = "/admin/realms/" ^^ cfg.realm ^^ "/users/" ^^ uid ^^ "/groups/" ^^ gid

  abbrev pub first_user : String → List String → Result String
  first_user username [] = err ("user " ^^ out.quote username ^^ " not found")
  first_user username (id ∷ ids) =
      if is_empty id then err ("user " ^^ out.quote username ^^ " not found") else ok id

  unfoldable pub user_id : String → Call String
  user_id username = do
    body ← do_call "GET" (users_path username)
    ids ← pure (decode_list out.user_ids_of body)
    pure (first_user username ids)

  unfoldable pub user_groups : String → Call (List String)
  user_groups uid = do
    body ← do_call "GET" (user_groups_path uid)
    pure (decode_list out.group_names_of body)

  -- The first group of the answer with the name and an id is kept.
  unfoldable pub keep_group : String → List (String × String) → Call String
  keep_group name [] c = (err ("group " ^^ out.quote name ^^ " not found"), c)
  keep_group name ((id, other) ∷ groups) c =
      if other == name && not (is_empty id)
      then (ok id, record c { group_ids = (name, id) ∷ c.group_ids })
      else keep_group name groups c

  unfoldable pub fetch_group : String → Call String
  fetch_group name = do
    body ← do_call "GET" (groups_path name)
    groups ← pure (decode_list out.groups_of body)
    keep_group name groups

  abbrev pub or_fetch : String → Option String → Call String
  or_fetch name (some id) c = (ok id, c)
  or_fetch name none c = fetch_group name c

  -- `groupID`.
  unfoldable pub group_id : String → Call String
  group_id name c = or_fetch name (lookup_id name c.group_ids) c

  unfoldable pub in_group : String → String → Call Bool
  in_group username group = do
    uid ← user_id username
    names ← user_groups uid
    pure (ok (has_name names group))

  unfoldable pub change_member : String → String → String → Call (Unit {0})
  change_member method username group = do
    uid ← user_id username
    gid ← group_id group
    _ ← do_call method (member_path uid gid)
    pure (ok tt)

  unfoldable pub add_to_group : String → String → Call (Unit {0})
  unfolding change_member
  add_to_group = change_member "PUT"

  unfoldable pub remove_from_group : String → String → Call (Unit {0})
  unfolding change_member
  remove_from_group = change_member "DELETE"

  -- The client is what the service knows as `Groups`.
  abbrev pub client_groups : Groups Client
  client_groups = record {
    in_group = in_group;
    add_to_group = add_to_group;
    remove_from_group = remove_from_group;
  }
