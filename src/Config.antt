-- ===== src/Config.antt =====
-- internal/config/config.go: the settings, read from the environment variables.
use kc_jit_public.Base.{String, ◌^^◌, Bool, true, Option, none, some, ◌||◌, ◌*◌, if◌then◌else◌}
use kc_jit_public.Base.Int.{pos}
use kc_jit_public.Text.{is_empty, trim_space, trim_slashes, equal_fold}
use kc_jit_public.Time.{Duration, second, hour}

pub record Config : Type 0 where
  pub listen_addr : String
  pub db_path : String
  pub public_url : String
  pub base_url : String
  pub public_base_url : String
  pub realm : String
  pub client_id : String
  pub client_secret : String
  pub oidc_enabled : Bool
  pub oidc_client_id : String
  pub oidc_client_secret : String
  pub oidc_redirect_url : String
  pub session_secret : String
  pub allow_header_auth : Bool
  pub notify_webhook_url : String
  pub group_eligible : String
  pub group_active : String
  pub group_permanent : String
  pub group_break_glass : String
  pub request_ttl : Duration
  pub active_ttl : Duration
  pub poll_interval : Duration

-- `os.Getenv`: an unset variable reads as the empty text.
abbrev pub Environ : Type 0
Environ = String → String

unfoldable pub getenv : Environ → String → String → String
getenv env k def = let v = env k in if is_empty v then def else v

unfoldable pub bool_env : Environ → String → Bool → Bool
bool_env env k def =
    let v = trim_space (env k) in
    if is_empty v
    then def
    else equal_fold v "1" || equal_fold v "true" || equal_fold v "yes" || equal_fold v "on"

-- `parse_duration` is `time.ParseDuration`, `none` where it answers an error.
unfoldable pub duration_env : (String → Option Duration) → Environ → String → Duration → Duration
duration_env parse_duration env k def =
    let v = env k in if is_empty v then def else elim (parse_duration v) [ none ↦ def | some d ↦ d ]

unfoldable pub from_env : (String → Option Duration) → Environ → Config
unfolding getenv bool_env duration_env
from_env parse_duration env = record {
  listen_addr = getenv env "LISTEN_ADDR" ":8080";
  db_path = getenv env "DB_PATH" "/data/pim.db";
  public_url = trim_slashes (getenv env "PUBLIC_URL" "http://127.0.0.1:8081");
  base_url = getenv env "KC_BASE_URL" "http://keycloak.keycloak.svc.cluster.local:8080";
  public_base_url = trim_slashes (getenv env "KC_PUBLIC_URL" "");
  realm = getenv env "KC_REALM" "pim-test";
  client_id = getenv env "PIM_CLIENT_ID" "pim-service";
  client_secret = env "PIM_CLIENT_SECRET";
  oidc_enabled = bool_env env "OIDC_ENABLED" true;
  oidc_client_id = getenv env "OIDC_CLIENT_ID" "pim-web";
  oidc_client_secret = env "OIDC_CLIENT_SECRET";
  oidc_redirect_url = getenv env "OIDC_REDIRECT_URL" "";
  session_secret = getenv env "SESSION_SECRET" "lab-only-change-me";
  allow_header_auth = bool_env env "ALLOW_HEADER_AUTH" true;
  notify_webhook_url = trim_space (env "NOTIFY_WEBHOOK_URL");
  group_eligible = getenv env "GROUP_ADMIN_ELIGIBLE" "admin-eligible";
  group_active = getenv env "GROUP_ADMIN_ACTIVE" "admin-active";
  group_permanent = getenv env "GROUP_ADMIN_PERMANENT" "admin-permanent";
  group_break_glass = getenv env "GROUP_BREAKGLASS" "break-glass";
  request_ttl = duration_env parse_duration env "REQUEST_TTL" (pos hour);
  active_ttl = duration_env parse_duration env "ACTIVE_TTL" (pos (9 * hour));
  poll_interval = duration_env parse_duration env "POLL_INTERVAL" (pos (30 * second));
}

unfoldable pub redirect_url : Config → String
redirect_url c =
    if is_empty c.oidc_redirect_url then c.public_url ^^ "/auth/callback" else c.oidc_redirect_url

-- The Keycloak base URL used in browser redirects.
unfoldable pub browser_issuer : Config → String
browser_issuer c = if is_empty c.public_base_url then c.base_url else c.public_base_url
