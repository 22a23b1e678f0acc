-- ===== src/Notify.antt =====
-- internal/notify/notify.go: lifecycle messages to an incoming webhook.
use kc_jit_public.Base.{
  ℕ, ◌/◌, suc, String, ◌^^◌, Bool, true, false, [], ◌∷◌, Option, none, some, Result, ok, err, eqb,
  leb, not, if◌then◌else◌,
}
use kc_jit_public.Text.{is_empty, trim_space, trim_slashes}
use kc_jit_public.Time.{Instant, second}
use kc_jit_public.Time.Format.{Bytes, clock_text}
use kc_jit_public.Store.{Request}
use kc_jit_public.Store.Notifications.{try_mark_notified}
use kc_jit_public.World.{Env, Act, ◌>>=◌, pure, exec}

pub record Notifier : Type 0 where
  pub webhook_url : String
  pub public_url : String

unfoldable pub new : String → String → Notifier
new webhook_url public_url = record {
  webhook_url = trim_space webhook_url;
  public_url = trim_slashes (trim_space public_url);
}

-- `n.Enabled()`; the notifier is nil where the service has none.
unfoldable pub enabled : Option Notifier → Bool
enabled none = false
enabled (some n) = not (is_empty n.webhook_url)

unfoldable pub deep_link : Notifier → String → String
deep_link n request_id =
    if is_empty n.public_url then "" else n.public_url ^^ "/?requestId=" ^^ request_id

-- The characters of a formatted instant.
abbrev ascii : ℕ → String
ascii c =
    if eqb c b'0'
    then "0"
    else if eqb c b'1'
    then "1"
    else if eqb c b'2'
    then "2"
    else if eqb c b'3'
    then "3"
    else if eqb c b'4'
    then "4"
    else if eqb c b'5'
    then "5"
    else if eqb c b'6'
    then "6"
    else if eqb c b'7'
    then "7"
    else if eqb c b'8'
    then "8"
    else if eqb c b'9'
    then "9"
    else if eqb c b'-'
    then "-"
    else if eqb c b':'
    then ":"
    else if eqb c b'T'
    then "T"
    else "Z"

as_text : Bytes → String
as_text [] = ""
as_text (c ∷ s) = ascii c ^^ as_text s

-- `t.UTC().Format(time.RFC3339)`: whole seconds.
unfoldable pub rfc3339 : Instant → String
unfolding as_text
rfc3339 t = as_text (clock_text (t / second) (b'Z' ∷ []))

abbrev expiry_text : Option Instant → String
expiry_text none = ""
expiry_text (some t) = rfc3339 t

unfoldable pub pending_text : Notifier → Request → String
unfolding deep_link rfc3339
pending_text n r =
    ":lock: *PIM pending approval*\nRequester: `"
    ^^ r.username
    ^^ "`\nJustification: "
    ^^ r.justification
    ^^ "\nExpires: "
    ^^ rfc3339 r.request_expires_at
    ^^ "\n<"
    ^^ deep_link n r.id
    ^^ "|Open in PIM to approve>"

unfoldable pub approved_text : Notifier → Request → String
unfolding deep_link rfc3339
approved_text n r =
    ":white_check_mark: *PIM approved*\nUser `"
    ^^ r.username
    ^^ "` elevated by `"
    ^^ r.approved_by
    ^^ "`\nNotes: "
    ^^ r.approval_notes
    ^^ "\nActive until: "
    ^^ expiry_text r.active_expires_at
    ^^ "\n<"
    ^^ deep_link n r.id
    ^^ "|Open in PIM>"

unfoldable pub expired_text : Request → String
expired_text r =
    ":hourglass: *PIM request expired*\nUser `" ^^ r.username
    ^^ "` — no approval within TTL.\nJustification: " ^^ r.justification

unfoldable pub released_text : Request → String → String
released_text r reason =
    ":unlock: *PIM access ended* (" ^^ reason ^^ ")\nUser `" ^^ r.username
    ^^ "` removed from admin-active.\nJustification: " ^^ r.justification

-- The error of `post`: a call that failed, or an answer of 300 or more.
abbrev delivered : Result ℕ → Bool
delivered (err m) = false
delivered (ok status) = not (leb 300 status)

module _ {K : Type 0} (env : Env K) where
  -- `n.post(text)`, recorded among the messages sent.
  unfoldable pub post : Notifier → String → String → String → Act K Bool
  post n request_id kind text w = (
    delivered (env.webhook w.readings n.webhook_url text),
    record w {
      readings = suc w.readings;
      posts = record { request_id = request_id; kind = kind; text = text } ∷ w.posts;
    },
  )

  -- The message is posted only where its key was new.
  unfoldable pub send_marked : Notifier → String → String → String → Result Bool → Act K Bool
  unfolding post
  send_marked n request_id kind text (err m) w = (false, w)
  send_marked n request_id kind text (ok false) w = (false, w)
  send_marked n request_id kind text (ok true) w = post n request_id kind text w

  unfoldable pub notify_once : Notifier → String → String → String → Act K Bool
  unfolding send_marked enabled exec try_mark_notified
  notify_once n request_id kind text =
      if enabled (some n)
      then (exec env (λ fault. try_mark_notified fault request_id kind)
          >>= send_marked n request_id kind text)
      else pure false

  unfoldable pub pending_approvers : Notifier → Request → Act K Bool
  unfolding notify_once pending_text
  pending_approvers n r = notify_once n r.id "pending_approvers" (pending_text n r)

  unfoldable pub approved : Notifier → Request → Act K Bool
  unfolding notify_once approved_text
  approved n r = notify_once n r.id "approved_requester" (approved_text n r)

  unfoldable pub request_expired : Notifier → Request → Act K Bool
  unfolding notify_once expired_text
  request_expired n r = notify_once n r.id "expired_requester" (expired_text r)

  unfoldable pub released : Notifier → Request → String → Act K Bool
  unfolding notify_once released_text
  released n r reason = notify_once n r.id ("released_" ^^ reason) (released_text r reason)
