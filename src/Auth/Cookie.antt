-- ===== src/Auth/Cookie.antt =====
-- The session cookie: `setCookie` writes it and `FromRequest` reads it.
pub mod Signed
pub mod RoundTrip
use kc_jit_public.Base.{
  ℕ, ◌/◌, String, Bool, true, false, ◌&&◌, List, [], ◌∷◌, ◌++◌, Option, none, some, Result, ok, err,
  ◌>>=◌, eqb, leb, if◌then◌else◌,
}
use kc_jit_public.Time.{Instant, second}
use kc_jit_public.Auth.Base64.{encode, decode}

pub record Session : Type 0 where
  pub username : String
  pub groups : List String
  -- The expiry in Unix seconds, counted here from the zero time.
  pub expiry : ℕ

-- HMAC-SHA256 under a secret, and `encoding/json` on sessions: `unmarshal` answers `none` where
-- the payload is no session.
pub record Codec : Type 0 where
  pub mac : String → List ℕ → List ℕ
  pub marshal : Session → List ℕ
  pub unmarshal : List ℕ → Option Session

-- `hmac.Equal`.
unfoldable pub same_bytes : List ℕ → List ℕ → Bool
same_bytes [] [] = true
same_bytes [] (d ∷ t) = false
same_bytes (c ∷ s) [] = false
same_bytes (c ∷ s) (d ∷ t) = eqb c d && same_bytes s t

-- `strings.SplitN(raw, ".", 2)`: the parts round the first point, `none` if there is none.
unfoldable pub split_dot : List ℕ → Option (List ℕ × List ℕ)
split_dot [] = none
split_dot (c ∷ s) =
    let rest = split_dot s in
    if eqb c b'.' then some ([], s) else elim rest [ none ↦ none | some (a, b) ↦ some (c ∷ a, b) ]

abbrev pub require {ℓ} : {A : Type ℓ} → String → Option A → Result A
require m none = err m
require m (some a) = ok a

abbrev pub guard : Bool → String → Result (Unit {0})
guard true m = ok tt
guard false m = err m

abbrev pub nonempty : Option (List ℕ) → Option (List ℕ)
nonempty none = none
nonempty (some []) = none
nonempty (some (c ∷ s)) = some (c ∷ s)

module _ (codec : Codec) (secret : String) where
  unfoldable pub from_request : Instant → Option (List ℕ) → Result Session
  unfolding decode split_dot same_bytes
  from_request now cookie = do
    value ← require "no session" (nonempty cookie)
    raw ← require "bad session" (decode value)
    parts ← require "bad session" (split_dot raw)
    payload ← require "bad session encoding" (decode parts.0)
    sig ← require "bad session encoding" (decode parts.1)
    _ ← guard (same_bytes (codec.mac secret payload) sig) "bad session signature"
    sess ← require "bad session" (codec.unmarshal payload)
    _ ← guard (leb (now / second) sess.expiry) "session expired"
    ok sess

  -- The cookie's value.
  unfoldable pub set_cookie : Session → List ℕ
  unfolding encode
  set_cookie sess =
      let payload = codec.marshal sess in
      encode (encode payload ++ b'.' ∷ encode (codec.mac secret payload))
