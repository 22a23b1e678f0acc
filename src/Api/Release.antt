-- ===== src/Api/Release.antt =====
-- `handleRelease` and `release`: a grant is given back before it runs out.
use kc_jit_public.Base.{String, ◌^^◌, false, not, ◌&&◌, some, Result, ◌==◌, if◌then◌else◌}
use kc_jit_public.Text.{is_empty}
use kc_jit_public.Time.{Instant}
use kc_jit_public.Store.{Request, approved, released, same_status, status_text}
use kc_jit_public.Store.Requests.{get, update}
use kc_jit_public.World.{Env, Act, time_now, exec, query, in_group, remove_from_group}
use kc_jit_public.World.Try.{
  Step, stop, next, Try, ◌>>=◌, ◌>>◌, lift, yield_value, stop_if, or_stop,
}
use kc_jit_public.Notify as Notify
use kc_jit_public.Auth.{Headers}
use kc_jit_public.Api.{
  Service, Response, request, write_err, Handler, answer, send_or_not, actor_of, audit,
}

abbrev pub release_of : Instant → Request → Request
release_of now req = record req { status = released; released_at = some now }

-- The reason that the message gives for an action.
abbrev pub reason_of : String → String
reason_of action =
    if action == "grant_expired"
    then "expire"
    else if action == "early_release"
    then "early_release"
    else "release"

abbrev or_system : String → String
or_system actor = if is_empty actor then "system" else actor

-- An error of `release` is answered as 502.
abbrev pub bad_gateway : {A : Type 0} → Step String A → Step Response A
bad_gateway (stop e) = stop (write_err 502 e)
bad_gateway (next a) = next a

abbrev pub as_bad_gateway : {K : Type 0} {A : Type 0} → Try K String A → Handler K A
as_bad_gateway m w = (bad_gateway (m w).0, (m w).1)

module _ {K : Type 0} (env : Env K) (svc : Service) where
  -- What follows the statement that writes the release.
  unfoldable pub release_noted :
      Request → String → String → Result (Unit {0}) → Try K String Request
  release_noted req' actor action written = do
    or_stop (λ m. m) written
    lift (
        audit env svc action (or_system actor) req'.username req'.id req'.justification
          ("removed from " ^^ svc.cfg.group_active) false)
    lift (send_or_not svc.notify λ n. Notify.released env n req' (reason_of action))
    yield_value req'

  -- `release(req, actor, action)`; the result is the request as it now is.
  unfoldable pub release : Request → String → String → Try K String Request
  release req actor action = do
    removed ← lift (remove_from_group env req.username svc.cfg.group_active)
    or_stop (λ m. m) removed
    now ← lift (time_now env)
    let req' = release_of now req
    written ← lift (exec env λ fault. update fault req')
    release_noted req' actor action written

  -- A named actor other than the subject has to be a permanent admin.
  unfoldable pub may_release : String → Request → Handler K (Unit {0})
  may_release actor req =
      if not (is_empty actor) && not (actor == req.username)
      then (do
        asked ← lift (in_group env actor svc.cfg.group_permanent)
        member ← or_stop (write_err 502) asked
        stop_if (not member) (write_err 403 "only subject or admin-permanent can release"))
      else yield_value tt

  unfoldable pub release_found : String → String → Handler K Request
  release_found id actor = do
    found ← lift (query env λ fault. get fault id)
    req ← or_stop (write_err 404) found
    stop_if (not (same_status req.status approved))
        (write_err 409 ("request status is " ^^ status_text req.status))
    may_release actor req
    as_bad_gateway (release req actor "early_release")

  unfoldable pub release_by : Headers → String → Handler K Request
  release_by h id = do actor ← lift (actor_of env svc h); release_found id actor

  unfoldable pub handle_release : Headers → String → Act K Response
  handle_release h id = answer 200 request (release_by h id)
