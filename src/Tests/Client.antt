-- ===== src/Tests/Client.antt =====
-- The Keycloak client against a server with one user and two groups, and sessions under a fixed code.
use kc_jit_public.Base.{◌+◌, ◌*◌, ◌≡◌, refl, arith, [], ◌∷◌, some, ok}
use kc_jit_public.Base.Int.{pos}
use kc_jit_public.Time.{second}
use kc_jit_public.Auth.Cookie.{Session, Codec, from_request, set_cookie}
use kc_jit_public.Auth.Cookie.Signed.{Signed, from_request-Signed}
use kc_jit_public.Auth.Cookie.RoundTrip.{from_request-set_cookie}
use kc_jit_public.Keycloak.{
  Outside, Client, new_client, in_group, add_to_group, remove_from_group, access_token, group_id,
}
use kc_jit_public.Keycloak.Gives.{Gives}
use kc_jit_public.Keycloak.Sound.{IsSound}
use kc_jit_public.Keycloak.Operations.{IsMembership, IsChange, client-Gives}
use kc_jit_public.Keycloak.Cached.{IsFresh, access_token-IsFresh, group_id_again}
use kc_jit_public.Tests.Setup.{cfg, start}

abbrev outside : Outside
outside = record {
  now = λ n. start + n * second;
  send = λ n call. ok (record { code = 200; status = "200 OK"; body = "{}" });
  token_of = λ body. ok ("t", pos 300);
  user_ids_of = λ body. ok ("u1" ∷ []);
  group_names_of = λ body. ok ("admin-eligible" ∷ []);
  groups_of = λ body. ok (("g0", "admin") ∷ ("g1", "admin-active") ∷ []);
  query_escape = λ s. s;
  quote = λ s. s;
}

client-Gives_example :
    Gives
      (IsSound outside cfg)
      (IsMembership outside cfg "alice" "admin-active")
      (in_group outside cfg "alice" "admin-active")
    × Gives
        (IsSound outside cfg)
        (λ done. IsChange outside cfg "PUT" "alice" "admin-active")
        (add_to_group outside cfg "alice" "admin-active")
    × Gives
        (IsSound outside cfg)
        (λ done. IsChange outside cfg "DELETE" "alice" "admin-active")
        (remove_from_group outside cfg "alice" "admin-active")
client-Gives_example = client-Gives outside cfg "alice" "admin-active"

access_token-IsFresh_example :
    IsFresh outside cfg new_client "t" (access_token outside cfg new_client).1
unfolding access_token kc_jit_public.Keycloak.fetch_token kc_jit_public.Keycloak.keep_token
access_token-IsFresh_example = access_token-IsFresh outside cfg new_client "t" refl

group_id_again_example :
    group_id outside cfg "admin-active" (group_id outside cfg "admin-active" new_client).1
    ≡ (ok "g1", (group_id outside cfg "admin-active" new_client).1)
unfolding group_id kc_jit_public.Keycloak.fetch_group kc_jit_public.Keycloak.do_call access_token
    kc_jit_public.Keycloak.fetch_token kc_jit_public.Keycloak.keep_token
    kc_jit_public.Keycloak.keep_group
group_id_again_example = group_id_again outside cfg "admin-active" "g1" new_client refl

abbrev signed_in : Session
signed_in = record { username = "alice"; groups = []; expiry = 63902937600 }

abbrev fixed : Codec
fixed = record {
  mac = λ key payload. 1 ∷ payload;
  marshal = λ s. 7 ∷ 8 ∷ [];
  unmarshal = λ b. some signed_in;
}

from_request-Signed_example :
    Signed fixed "k" start (some (set_cookie fixed "k" signed_in)) signed_in
unfolding from_request set_cookie
from_request-Signed_example =
    from_request-Signed fixed "k" start (some (set_cookie fixed "k" signed_in)) signed_in refl

from_request-set_cookie_example :
    from_request fixed "k" start (some (set_cookie fixed "k" signed_in)) ≡ ok signed_in
from_request-set_cookie_example =
    from_request-set_cookie fixed "k" start signed_in
      (record {
        payload_bytes = (omega arith, (omega arith, tt));
        code_bytes = (omega arith, (omega arith, (omega arith, tt)));
        reads_back = refl;
      })
      (omega arith)
