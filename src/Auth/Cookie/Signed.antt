-- ===== src/Auth/Cookie/Signed.antt =====
-- A session that `FromRequest` accepts was signed under the secret.
use kc_jit_public.Base.{
  ℕ, ◌/◌, ◌≤◌, String, ◌≡◌, refl, sym, ap, ◌∙◌, Bool, true, false, List, [], ◌∷◌, Option, none,
  some, Result, ok, ◌>>=◌, arith, leb→le,
}
use kc_jit_public.Time.{Instant, second}
use kc_jit_public.Auth.Base64.{decode}
use kc_jit_public.Auth.Cookie.{
  Session, Codec, same_bytes, split_dot, require, guard, nonempty, from_request,
}

require-ok :
    {A B : Type 0} (m : String) (o : Option A) (f : A → Result B) {b : B}
    → (require m o >>= f) ≡ ok b
    → (a : A) × (o ≡ some a) × (f a ≡ ok b)
require-ok m none f h = cc
require-ok m (some a) f h = (a, refl, h)

guard-ok :
    {B : Type 0} (c : Bool) (m : String) (f : Unit {0} → Result B) {b : B}
    → (guard c m >>= f) ≡ ok b
    → (c ≡ true) × (f tt ≡ ok b)
guard-ok true m f h = (refl, h)
guard-ok false m f h = cc

same_bytes_eq : (s t : List ℕ) → same_bytes s t ≡ true → s ≡ t
unfolding same_bytes
same_bytes_eq [] [] h = refl
same_bytes_eq [] (d ∷ t) h = cc
same_bytes_eq (c ∷ s) [] h = cc
same_bytes_eq (c ∷ s) (d ∷ t) h = ground (arith, same_bytes_eq s t)

nonempty-some : (o : Option (List ℕ)) (v : List ℕ) → nonempty o ≡ some v → o ≡ some v
nonempty-some none v h = cc
nonempty-some (some []) v h = cc
nonempty-some (some (c ∷ s)) v h = h

-- The cookie holds the session's payload with its code under the secret, and the session has not
-- run out.
pub record Signed (codec : Codec) (secret : String) (now : Instant) (cookie : Option (List ℕ))
    (sess : Session) : Type 0 where
  pub value : List ℕ
  pub present : cookie ≡ some value
  pub raw : List ℕ
  pub read : decode value ≡ some raw
  pub parts : List ℕ × List ℕ
  pub cut : split_dot raw ≡ some parts
  pub payload : List ℕ
  pub read_payload : decode parts.0 ≡ some payload
  pub read_code : decode parts.1 ≡ some (codec.mac secret payload)
  pub means : codec.unmarshal payload ≡ some sess
  pub in_time : now / second ≤ sess.expiry

-- A session that is accepted stands in the cookie next to the code that the secret gives for its
-- payload, and it has not run out.
pub from_request-Signed :
    (codec : Codec) (secret : String) (now : Instant) (cookie : Option (List ℕ)) (sess : Session)
    → from_request codec secret now cookie ≡ ok sess
    → Signed codec secret now cookie sess
unfolding from_request
from_request-Signed codec secret now cookie sess h =
    let (value, present, h₁) = require-ok _ _ _ h in
    let (raw, read, h₂) = require-ok _ _ _ h₁ in
    let (parts, cut, h₃) = require-ok _ _ _ h₂ in
    let (payload, read_payload, h₄) = require-ok _ _ _ h₃ in
    let (sig, read_sig, h₅) = require-ok _ _ _ h₄ in
    let (same, h₆) = guard-ok _ _ _ h₅ in
    let (found, means, h₇) = require-ok _ _ _ h₆ in
    let (early, h₈) = guard-ok _ _ _ h₇ in
    let one : found ≡ sess = cc in
    record {
      value = value;
      present = nonempty-some cookie value present;
      raw = raw;
      read = read;
      parts = parts;
      cut = cut;
      payload = payload;
      read_payload = read_payload;
      read_code = read_sig ∙ ap some (sym (same_bytes_eq (codec.mac secret payload) sig same));
      means = means ∙ ap some one;
      in_time = leb→le (now / second) sess.expiry (rw (← one) early);
    }
