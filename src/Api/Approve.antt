-- ===== src/Api/Approve.antt =====
-- `handleApprove`: a permanent admin approves a pending request.
use kc_jit_public.Base.{ℕ, String, ◌^^◌, false, not, some, Result, ok, err, ltb, if◌then◌else◌}
use kc_jit_public.Text.{byte_len, is_empty, trim_space}
use kc_jit_public.Time.{Instant, add}
use kc_jit_public.Store.{Request, pending, approved, expired, same_status, status_text}
use kc_jit_public.Store.Requests.{get, update}
use kc_jit_public.World.{Env, Act, time_now, exec, query, in_group, add_to_group}
use kc_jit_public.World.Try.{◌>>=◌, ◌>>◌, lift, yield_value, fail, stop_if, or_stop}
use kc_jit_public.Notify as Notify
use kc_jit_public.Auth.{Headers}
use kc_jit_public.Api.{
  Service, Response, request, write_err, Handler, answer, or_false, send_or_not, actor_of, audit,
}

abbrev pub min_approval_notes_len : ℕ
min_approval_notes_len = 8

-- What the JSON decoder makes of the body: nothing where there is no body (`io.EOF`).
pub data Decoded (A : Type 0) : Type 0 where
  eof : Decoded A
  malformed : String → Decoded A
  decoded : A → Decoded A

-- `approveRequestBody.Notes`; a body that is not there leaves the zero value.
abbrev pub notes_of : Decoded String → Result String
notes_of eof = ok ""
notes_of (malformed m) = err m
notes_of (decoded notes) = ok notes

-- The request as `handleApprove` writes it back.
abbrev pub grant_of : Service → String → String → Instant → Request → Request
grant_of svc actor notes now req = record req {
  status = approved;
  approved_at = some now;
  approved_by = actor;
  approval_notes = notes;
  active_expires_at = some (add now svc.cfg.active_ttl);
}

abbrev pub expire_of : Request → Request
expire_of req = record req { status = expired }

module _ {K : Type 0} (env : Env K) (svc : Service) where
  -- The checks on the actor and on the notes.
  unfoldable pub approve_guard : Headers → Decoded String → Handler K (String × String)
  approve_guard h body = do
    actor ← lift (actor_of env svc h)
    stop_if (is_empty actor) (write_err 401 "authentication required")
    asked ← lift (in_group env actor svc.cfg.group_permanent)
    member ← or_stop (write_err 502) asked
    stop_if (not member)
        (write_err 403 ("actor " ^^ actor ^^ " is not in " ^^ svc.cfg.group_permanent))
    raw ← or_stop (write_err 400) (notes_of body)
    let notes = trim_space raw
    stop_if (is_empty notes) (write_err 400 "approver notes are required")
    stop_if (ltb (byte_len notes) min_approval_notes_len)
        (write_err 400 "approver notes must be at least 8 characters")
    yield_value (actor, notes)

  -- What follows the statement that expires the request, whatever it answered.
  unfoldable pub too_late_noted : Request → Handler K Request
  too_late_noted req = do
    lift (
        audit env svc "request_expired" "system" req.username req.id req.justification
          "expired before approve" false)
    lift (send_or_not svc.notify λ n. Notify.request_expired env n (expire_of req))
    fail (write_err 409 "request expired")

  -- The request ran out before it was approved.
  unfoldable pub too_late : Request → Handler K Request
  too_late req = do lift (exec env λ fault. update fault (expire_of req)); too_late_noted req

  -- What follows the statement that writes the grant.
  unfoldable pub grant_noted :
      String → String → Request → Request → Result (Unit {0}) → Handler K Request
  grant_noted actor notes req req' written = do
    or_stop (write_err 500) written
    asked ← lift (in_group env actor svc.cfg.group_break_glass)
    let bg = or_false asked
    lift (
        audit env svc "request_approved" actor req.username req.id req.justification
          ("notes: " ^^ notes) bg)
    lift (
        audit env svc "grant_active" actor req.username req.id req.justification
          ("user added to " ^^ svc.cfg.group_active) bg)
    lift (send_or_not svc.notify λ n. Notify.approved env n req')
    yield_value req'

  unfoldable pub grant : String → String → Instant → Request → Handler K Request
  grant actor notes now req = do
    added ← lift (add_to_group env req.username svc.cfg.group_active)
    or_stop (write_err 502) added
    let req' = grant_of svc actor notes now req
    written ← lift (exec env λ fault. update fault req')
    grant_noted actor notes req req' written

  unfoldable pub approve_found : String → String → String → Handler K Request
  approve_found id actor notes = do
    found ← lift (query env λ fault. get fault id)
    req ← or_stop (write_err 404) found
    stop_if (not (same_status req.status pending))
        (write_err 409 ("request status is " ^^ status_text req.status))
    now ← lift (time_now env)
    if ltb req.request_expires_at now then too_late req else grant actor notes now req

  unfoldable pub approve_of : Headers → Decoded String → String → Handler K Request
  approve_of h body id = do (actor, notes) ← approve_guard h body; approve_found id actor notes

  unfoldable pub handle_approve : Headers → Decoded String → String → Act K Response
  handle_approve h body id = answer 200 request (approve_of h body id)
