-- ===== src/Api/Create.antt =====
-- `handleCreate`: an eligible user asks for elevation.
use kc_jit_public.Base.{ℕ, String, ◌^^◌, not, ◌&&◌, ◌||◌, none, Result, ltb, ◌==◌, if◌then◌else◌}
use kc_jit_public.Text.{byte_len, is_empty, trim_space}
use kc_jit_public.Time.{Instant, add}
use kc_jit_public.Store.{Request, pending}
use kc_jit_public.Store.Requests.{create}
use kc_jit_public.World.{Env, Act, time_now, exec, in_group}
use kc_jit_public.World.Try.{◌>>=◌, ◌>>◌, lift, yield_value, stop_if, or_stop}
use kc_jit_public.Notify as Notify
use kc_jit_public.Auth.{Headers}
use kc_jit_public.Api.{
  Service, Response, request, write_err, Handler, answer, or_false, send_or_not, new_id, actor_of,
  audit,
}

abbrev pub min_justification_len : ℕ
min_justification_len = 8

pub record CreateRequestBody : Type 0 where
  pub username : String
  pub justification : String

-- The username that the body names, or else the actor.
abbrev pub subject_of : String → CreateRequestBody → String
subject_of actor body = let name = trim_space body.username in if is_empty name then actor else name

abbrev pub new_request : Service → String → String → String → Instant → Request
new_request svc id username justification now = record {
  id = id;
  username = username;
  justification = justification;
  status = pending;
  created_at = now;
  request_expires_at = add now svc.cfg.request_ttl;
  approved_at = none;
  approved_by = "";
  approval_notes = "";
  active_expires_at = none;
  released_at = none;
}

module _ {K : Type 0} (env : Env K) (svc : Service) where
  -- The checks; the result is the actor, the user and the justification.
  unfoldable pub create_guard :
      Headers → Result CreateRequestBody → Handler K (String × String × String)
  create_guard h decoded = do
    actor ← lift (actor_of env svc h)
    body ← or_stop (write_err 400) decoded
    let justification = trim_space body.justification
    let username = subject_of actor body
    stop_if (is_empty username || is_empty justification)
        (write_err 400 "username and justification required")
    stop_if (ltb (byte_len justification) min_justification_len)
        (write_err 400 "justification must be at least 8 characters")
    stop_if (not (is_empty actor) && not (actor == username))
        (write_err 403 "actor may only request for self")
    asked ← lift (in_group env username svc.cfg.group_eligible)
    member ← or_stop (write_err 502) asked
    stop_if (not member)
        (write_err 403 ("user " ^^ username ^^ " is not in " ^^ svc.cfg.group_eligible))
    yield_value (actor, username, justification)

  -- What follows the statement that stores the request.
  unfoldable pub create_noted : String → Request → Result (Unit {0}) → Handler K Request
  create_noted actor req written = do
    or_stop (write_err 500) written
    asked ← lift (in_group env req.username svc.cfg.group_break_glass)
    lift (
        audit env svc "request_created" actor req.username req.id req.justification
          "pending elevation request" (or_false asked))
    lift (send_or_not svc.notify λ n. Notify.pending_approvers env n req)
    yield_value req

  unfoldable pub create_stored : String → String → String → Handler K Request
  create_stored actor username justification = do
    now ← lift (time_now env)
    id ← lift (new_id env)
    let req = new_request svc id username justification now
    written ← lift (exec env λ fault. create fault req)
    create_noted actor req written

  unfoldable pub create_of : Headers → Result CreateRequestBody → Handler K Request
  create_of h decoded = do
    (actor, username, justification) ← create_guard h decoded
    create_stored actor username justification

  unfoldable pub handle_create : Headers → Result CreateRequestBody → Act K Response
  handle_create h decoded = answer 201 request (create_of h decoded)
