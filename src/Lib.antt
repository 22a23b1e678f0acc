-- ===== src/Lib.antt =====
-- keycloak-jit-access (`pim`): just-in-time membership of an admin group, asked for by an
-- eligible user, approved by a permanent admin, and taken back when its time is over.
--
-- The program has an HTTP service (internal/api) over a store (internal/store, SQLite), a client
-- of Keycloak's admin API (internal/keycloak), sessions (internal/auth), a webhook
-- (internal/notify), settings (internal/config) and a worker (internal/worker) that calls
-- `Reconcile` at each tick; cmd/pim puts them together. The service and the worker meet only in
-- the store, in Keycloak and in the notification keys.
--
-- The files:
-- - Base, Text, Time: shared names and tests on numbers, the functions of `strings` that the
--   program calls, instants and durations, RFC3339Nano texts (Time/Format prints, Time/Parse
--   reads).
-- - Config: internal/config/config.go, `FromEnv` and the derived URLs.
-- - Store, Store/Requests, Store/Audit, Store/Notifications, Store/Open: internal/store. A table
--   is the list of its rows and each Go method is the function of the same name in snake case
--   (`byStatusBefore` is `by_status_before`). Store/Keys, Store/Scans and Store/Written hold
--   lemmas. Store/Open is `Open` with its migrations, statement by statement.
-- - World: what the service reads and changes, as a state that is passed on, and `Groups`, the
--   interface that internal/api declares for the Keycloak client. World/Try is the sequencing of
--   calls with early returns; World/Keeps and World/Went hold lemmas on it.
-- - Keycloak: internal/keycloak/client.go, the implementation of `Groups`, with its caches as its
--   state; Keycloak/Gives, Keycloak/Sound, Keycloak/Operations and Keycloak/Cached hold its
--   theorems.
-- - Http: what the two clients of Keycloak share of net/http, and methods that may fail.
-- - Notify: internal/notify/notify.go. Auth, Auth/Cookie, Auth/Base64: internal/auth/auth.go,
--   sessions and the actor. Auth/SignIn: `LoginURL` and `HandleCallback` of the same file, with
--   the map of pending states; Auth/SignIn/Calls and Auth/SignIn/Parts have lemmas on their
--   parts, the other children its theorems.
-- - Api and its children: internal/api/api.go, a module per handler. A handler is cut at its
--   statements into named parts, composed by do blocks: `handleApprove` is `approve_guard`, then
--   `approve_found`, which calls `grant` or `too_late`; what follows a write is a part of its
--   own.
-- - Router: the API part of `NewRouter`, and `serve`, a history of requests and ticks one after
--   another.
-- - Lifecycle: what the service promises of the table of requests, as steps stated without the
--   handlers, and that every history is made of such steps. Members: who is in Keycloak's active
--   group, held against the table. Authority: what has been checked when a handler answers with
--   success, and what an error leaves (Authority/Left). Settled: a round of `Reconcile` leaves
--   nothing that was due. Once: messages are not repeated. Ledger: the audit ledger is only
--   appended to, and its pages. Stable: what it takes for a condition to hold after every
--   history.
-- - Interleaved: a round of `Reconcile` in single steps, between which requests are answered,
--   each of them in one step.
-- - Ui: internal/ui/ui.go. Start: cmd/pim/main.go, a run of the process from the settings and the
--   file to its end, with the rest of `NewRouter`. Start/Worker: internal/worker/worker.go, with
--   the ticker, the context and the runtime's choice between them; Start/Ends is its theorem.
-- - Tests: runs in a small realm.
--
-- What is taken from outside, as an argument: Keycloak (`Groups`, with a state of its own), the
-- clock, random bytes, the engine's refusal of a statement and the webhook's answer (`Env`, each
-- reading by its number), HMAC-SHA256 and encoding/json on sessions (`Codec`), SHA-256, URL
-- escaping, random bytes and the HTTP calls of sign-in (`Outside`), time.ParseDuration, what the
-- JSON decoder makes of a body, the engine's answers at the opening (`Engine`), and the embedded
-- files with the file server (`Files`). Nothing is assumed of them but what a theorem names.
--
-- How the values are read: a Go string is Unicode text, its `len` the bytes of its UTF-8 form; a
-- time text of the store is its bytes; an instant is a number of nanoseconds since the zero time,
-- so an instant is never before it, and a session's expiry is counted from there as well; an
-- error is its message; a status is one of the five that the code names. Handlers run one after
-- another, and, except in Interleaved, a round of the worker is one event. The actor's clock
-- reading is taken also where no session has to be checked. All recursion is structural. The year
-- and the month of a day number are counted over at most 9,998 years and 11 months, which is
-- enough before the year 10000.
--
-- Not modelled: the log, HTTP and JSON texts, the column sent_at, HTTP timeouts, the shutdown of
-- the listener, and requests that overlap.
pub mod Base
pub mod Text
pub mod Time
pub mod Config
pub mod Store
pub mod World
pub mod Members
pub mod Notify
pub mod Http
pub mod Keycloak
pub mod Auth
pub mod Api
pub mod Router
pub mod Ui
pub mod Start
pub mod Stable
pub mod Ledger
pub mod Once
pub mod Lifecycle
pub mod Authority
pub mod Settled
pub mod Interleaved
mod Tests
