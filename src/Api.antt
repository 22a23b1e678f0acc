-- ===== src/Api.antt =====
-- internal/api/api.go: the service behind the HTTP interface.
-- A handler is an action of the world that answers a response. Where the source writes an error
-- and returns, the model's step is `stop`, and the rest of the handler is left out.
pub mod Reads
pub mod Create
pub mod Approve
pub mod Release
pub mod Reconcile
pub mod SignIn
use kc_jit_public.Base.{
  ℕ, ◌+◌, ◌/◌, ◌%◌, suc, String, ◌^^◌, Bool, true, false, not, List, [], ◌∷◌, Option, none, some,
  Result, ok, err, eqb, if◌then◌else◌,
}
use kc_jit_public.Text.{is_empty}
use kc_jit_public.Time.{Instant, Duration}
use kc_jit_public.Config.{Config}
use kc_jit_public.Store.{Request, AuditEvent}
use kc_jit_public.Store.Audit.{append_audit}
use kc_jit_public.World.{Env, World, Act, ◌>>=◌, pure, time_now, read_random, exec}
use kc_jit_public.World.Try.{Step, stop, next, Try}
use kc_jit_public.Notify.{Notifier}
use kc_jit_public.Auth.{Manager, Headers, actor}
use kc_jit_public.Auth.Cookie.{Codec}

-- The database handle and the Keycloak client are in the world.
pub record Service : Type 0 where
  pub cfg : Config
  pub auth : Option Manager
  pub notify : Option Notifier
  pub codec : Codec

-- What `GET /api/v1/me` answers; the durations are printed by `Duration.String`.
pub record Me : Type 0 where
  pub username : String
  pub eligible : Bool
  pub permanent : Bool
  pub active : Bool
  pub break_glass : Bool
  pub request_ttl : Duration
  pub active_ttl : Duration
  pub oidc_enabled : Bool

pub data Body : Type 0 where
  error : String → Body
  request : Request → Body
  requests : List Request → Body
  audits : List AuditEvent → Body
  me : Me → Body

pub record Response : Type 0 where
  pub code : ℕ
  pub body : Body

abbrev pub write_json : ℕ → Body → Response
write_json code body = record { code = code; body = body }

abbrev pub write_err : ℕ → String → Response
write_err code message = write_json code (error message)

-- A handler ends with the response that it wrote first, or with its last one.
abbrev pub Handler : Type 0 → Type 0 → Type 0
Handler K A = Try K Response A

abbrev pub respond : {A : Type 0} → ℕ → (A → Body) → Step Response A → Response
respond code f (stop r) = r
respond code f (next a) = write_json code (f a)

abbrev pub answer : {K : Type 0} {A : Type 0} → ℕ → (A → Body) → Handler K A → Act K Response
answer code f m w = (respond code f (m w).0, (m w).1)

-- One digit of `hex.EncodeToString`.
unfoldable pub hex_digit : ℕ → String
hex_digit n =
    if eqb n 0
    then "0"
    else if eqb n 1
    then "1"
    else if eqb n 2
    then "2"
    else if eqb n 3
    then "3"
    else if eqb n 4
    then "4"
    else if eqb n 5
    then "5"
    else if eqb n 6
    then "6"
    else if eqb n 7
    then "7"
    else if eqb n 8
    then "8"
    else if eqb n 9
    then "9"
    else if eqb n 10
    then "a"
    else if eqb n 11
    then "b"
    else if eqb n 12
    then "c"
    else if eqb n 13
    then "d"
    else if eqb n 14
    then "e"
    else "f"

-- `hex.EncodeToString`.
unfoldable pub hex : List ℕ → String
unfolding hex_digit
hex [] = ""
hex (b ∷ bs) = hex_digit (b / 16) ^^ hex_digit (b % 16) ^^ hex bs

-- `bg, _ := s.kc.InGroup(…)`: the error is dropped, and the answer is then false.
abbrev pub or_false : Result Bool → Bool
or_false (ok b) = b
or_false (err m) = false

abbrev pub send_or_not : {K : Type 0} → Option Notifier → (Notifier → Act K Bool) → Act K (Unit {0})
send_or_not none f w = (tt, w)
send_or_not (some n) f w = (tt, (f n w).1)

module _ {K : Type 0} (env : Env K) where
  -- `newID()`.
  unfoldable pub new_id : Act K String
  unfolding read_random hex
  new_id = do bytes ← read_random env; pure (hex bytes)

  module _ (svc : Service) where
    -- `s.actor(r)`. The clock is read also where no session has to be checked.
    unfoldable pub actor_of : Headers → Act K String
    unfolding time_now actor
    actor_of h = do now ← time_now env; pure (actor svc.codec svc.auth svc.cfg now h)

    -- `s.audit(…)`; the event's time is the zero time, which the store replaces.
    unfoldable pub audit :
        String → String → String → String → String → String → Bool → Act K (Result (Unit {0}))
    unfolding time_now exec append_audit
    audit action who subject request_id justification detail break_glass = do
      now ← time_now env
      exec env λ fault. append_audit fault now (record {
        id = 0;
        at = none;
        action = action;
        actor = who;
        subject = subject;
        request_id = request_id;
        justification = justification;
        detail = detail;
        break_glass = break_glass;
      })
