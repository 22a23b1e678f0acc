-- ===== src/World.antt =====
-- What the service reads and changes: the store, Keycloak as its client sees it, and what it sends.
-- Everything that the outside decides is in `Env`, by the number of the reading: each reading of the
-- clock, of random bytes or of the engine's answer to a statement, and each webhook call, takes the
-- next number, so no two readings are tied to one another.
pub mod Try
pub mod Keeps
pub mod Went
use kc_jit_public.Base.{ℕ, suc, String, Bool, List, [], ◌∷◌, Option, none, some, Result, ok, err}
use kc_jit_public.Time.{Instant}
use kc_jit_public.Store.{Db, Fault}

-- `api.Groups`, with the client's state passed on.
pub record Groups (K : Type 0) : Type 0 where
  pub in_group : String → String → K → Result Bool × K
  pub add_to_group : String → String → K → Result (Unit {0}) × K
  pub remove_from_group : String → String → K → Result (Unit {0}) × K

-- `webhook n url text` is the status of the webhook's answer, or the error of the call.
pub record Env (K : Type 0) : Type 0 where
  pub now : ℕ → Instant
  pub random : ℕ → List ℕ
  pub fault : ℕ → Fault
  pub webhook : ℕ → String → String → Result ℕ
  pub groups : Groups K

-- A message to the webhook, with the request and the kind that it is about.
pub record Post : Type 0 where
  pub request_id : String
  pub kind : String
  pub text : String

pub record World (K : Type 0) : Type 0 where
  pub db : Db
  pub kc : K
  pub readings : ℕ
  pub posts : List Post

abbrev pub Act {ℓ} : Type 0 → Type ℓ → Type ℓ
Act K A = World K → A × World K

module _ {ℓ κ} {K : Type 0} {A : Type ℓ} {B : Type κ} where
  infixl 5 ◌>>=◌
  abbrev pub ◌>>=◌ : Act K A → (A → Act K B) → Act K B
  ◌>>=◌ m f w = let (a, w') = m w in f a w'

  infixl 5 ◌>>◌
  abbrev pub ◌>>◌ : Act K A → Act K B → Act K B
  ◌>>◌ m n w = n (m w).1

abbrev pub pure {ℓ} : {K : Type 0} {A : Type ℓ} → A → Act K A
pure a w = (a, w)

module _ {K : Type 0} (env : Env K) where
  -- `time.Now().UTC()`.
  unfoldable pub time_now : Act K Instant
  time_now w = (env.now w.readings, record w { readings = suc w.readings })

  -- `rand.Read`.
  unfoldable pub read_random : Act K (List ℕ)
  read_random w = (env.random w.readings, record w { readings = suc w.readings })

  -- A statement that may change the tables.
  unfoldable pub exec : {A : Type 0} → (Fault → Db → A × Db) → Act K A
  exec f w =
      let (a, db) = f (env.fault w.readings) w.db in
      (a, record w { db = db; readings = suc w.readings })

  -- A query.
  unfoldable pub query : {A : Type 0} → (Fault → Db → A) → Act K A
  query f w = (f (env.fault w.readings) w.db, record w { readings = suc w.readings })

  unfoldable pub in_group : String → String → Act K (Result Bool)
  in_group user group w =
      let (a, kc) = env.groups.in_group user group w.kc in (a, record w { kc = kc })

  unfoldable pub add_to_group : String → String → Act K (Result (Unit {0}))
  add_to_group user group w =
      let (a, kc) = env.groups.add_to_group user group w.kc in (a, record w { kc = kc })

  unfoldable pub remove_from_group : String → String → Act K (Result (Unit {0}))
  remove_from_group user group w =
      let (a, kc) = env.groups.remove_from_group user group w.kc in (a, record w { kc = kc })
