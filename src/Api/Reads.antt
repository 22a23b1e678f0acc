-- ===== src/Api/Reads.antt =====
-- `handleMe`, `handleAudit`, `handleList` and `handleGet`.
use kc_jit_public.Base.{String, Bool, true, false, ◌||◌, Option, none, some, ◌==◌, if◌then◌else◌}
use kc_jit_public.Base.Int.{ℤ, pos}
use kc_jit_public.Text.{is_empty, equal_fold}
use kc_jit_public.Text.Atoi.{atoi}
use kc_jit_public.Store.Requests.{get, list}
use kc_jit_public.Store.Audit.{AuditFilter, list_audit}
use kc_jit_public.World.{Env, Act, query, in_group}
use kc_jit_public.World.Try.{◌>>=◌, ◌>>◌, lift, yield_value, stop_if, or_stop}
use kc_jit_public.Auth.{Headers}
use kc_jit_public.Api.{
  Service, Response, Me, request, requests, audits, me, write_err, Handler, answer, or_false,
  actor_of, audit,
}

-- `r.URL.Query().Get`: a parameter that is not there reads as the empty text.
abbrev pub QueryValues : Type 0
QueryValues = String → String

abbrev break_glass_filter : String → Option Bool
break_glass_filter v = if is_empty v then none else some (v == "1" || equal_fold v "true")

-- A limit that is missing or no number is 0.
abbrev limit_of : String → ℤ
limit_of v = if is_empty v then pos 0 else elim (atoi v) [ none ↦ pos 0 | some n ↦ n ]

unfoldable pub filter_of : QueryValues → AuditFilter
filter_of q = record {
  request_id = q "requestId";
  actor = q "actor";
  break_glass = break_glass_filter (q "breakGlass");
  limit = limit_of (q "limit");
}

module _ {K : Type 0} (env : Env K) (svc : Service) where
  -- The audit of a session of a break-glass user.
  unfoldable pub note_break_glass : String → Bool → Act K (Unit {0})
  note_break_glass actor false w = (tt, w)
  note_break_glass actor true w = (
    tt,
    (audit env svc "break_glass_session" actor actor "" "" "break-glass user authenticated to PIM"
        true w).1,
  )

  unfoldable pub me_of : Headers → Handler K Me
  me_of h = do
    actor ← lift (actor_of env svc h)
    stop_if (is_empty actor) (write_err 401 "not authenticated")
    eligible ← lift (in_group env actor svc.cfg.group_eligible)
    permanent ← lift (in_group env actor svc.cfg.group_permanent)
    active ← lift (in_group env actor svc.cfg.group_active)
    break_glass ← lift (in_group env actor svc.cfg.group_break_glass)
    lift (note_break_glass actor (or_false break_glass))
    yield_value (record {
      username = actor;
      eligible = or_false eligible;
      permanent = or_false permanent;
      active = or_false active;
      break_glass = or_false break_glass;
      request_ttl = svc.cfg.request_ttl;
      active_ttl = svc.cfg.active_ttl;
      oidc_enabled = svc.cfg.oidc_enabled;
    })

  unfoldable pub handle_me : Headers → Act K Response
  handle_me h = answer 200 me (me_of h)

  unfoldable pub handle_audit : QueryValues → Act K Response
  handle_audit q = answer 200 audits do
    items ← lift (query env λ fault. list_audit fault (filter_of q))
    or_stop (write_err 500) items

  unfoldable pub handle_list : Act K Response
  handle_list =
      answer 200 requests
        do items ← lift (query env λ fault. list fault); or_stop (write_err 500) items

  unfoldable pub handle_get : String → Act K Response
  handle_get id =
      answer 200 request
        do item ← lift (query env λ fault. get fault id); or_stop (write_err 404) item
