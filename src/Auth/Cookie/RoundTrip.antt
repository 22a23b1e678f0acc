-- ===== src/Auth/Cookie/RoundTrip.antt =====
-- What `setCookie` writes, `FromRequest` reads.
use kc_jit_public.Base.{
  ℕ, ◌/◌, ◌≤◌, String, ◌≡◌, refl, true, false, List, [], ◌∷◌, ◌++◌, some, ok, arith, eqb, eqb_refl,
  le→leb, All, All-append,
}
use kc_jit_public.Time.{Instant, second}
use kc_jit_public.Auth.Base64.{encode}
use kc_jit_public.Auth.Base64.RoundTrip.{IsByte, encode_plain, decode-encode}
use kc_jit_public.Auth.Cookie.{
  Session, Codec, same_bytes, split_dot, nonempty, from_request, set_cookie,
}

-- What the code relies on in HMAC and in encoding/json, for one session: both make bytes, and the
-- payload reads back.
pub record Encodes (codec : Codec) (secret : String) (sess : Session) : Type 0 where
  pub payload_bytes : All IsByte (codec.marshal sess)
  pub code_bytes : All IsByte (codec.mac secret (codec.marshal sess))
  pub reads_back : codec.unmarshal (codec.marshal sess) ≡ some sess

same_bytes_refl : (s : List ℕ) → same_bytes s s ≡ true
unfolding same_bytes
same_bytes_refl [] = refl
same_bytes_refl (c ∷ s) = rw (eqb_refl c, same_bytes_refl s) refl

split_dot-append :
    (s t : List ℕ) → All (λ c. eqb c b'.' ≡ false) s → split_dot (s ++ b'.' ∷ t) ≡ some (s, t)
unfolding split_dot
split_dot-append [] t h = refl
split_dot-append (c ∷ s) t h = rw (h.0, split_dot-append s t h.1) refl

nonempty-encode :
    (s : List ℕ) (c : ℕ) (t : List ℕ)
    → nonempty (some (encode (s ++ c ∷ t))) ≡ some (encode (s ++ c ∷ t))
unfolding encode
nonempty-encode [] c [] = refl
nonempty-encode [] c (d ∷ []) = refl
nonempty-encode [] c (d ∷ e ∷ t) = refl
nonempty-encode (a ∷ []) c [] = refl
nonempty-encode (a ∷ []) c (d ∷ t) = refl
nonempty-encode (a ∷ b ∷ []) c t = refl
nonempty-encode (a ∷ b ∷ d ∷ s) c t = refl

-- The cookie of a session is read as that session as long as it has not run out.
pub from_request-set_cookie :
    (codec : Codec) (secret : String) (now : Instant) (sess : Session)
    → Encodes codec secret sess
    → now / second ≤ sess.expiry
    → from_request codec secret now (some (set_cookie codec secret sess)) ≡ ok sess
unfolding from_request set_cookie
from_request-set_cookie codec secret now sess h early =
    let payload = codec.marshal sess in
    let code = codec.mac secret payload in
    let plain = encode_plain payload h.payload_bytes in
    let plain' = encode_plain code h.code_bytes in
    let bytes =
      All-append IsByte (encode payload) (b'.' ∷ encode code) plain.0 (omega arith, plain'.0) in
    rw
      (
        nonempty-encode (encode payload) b'.' (encode code),
        decode-encode (encode payload ++ b'.' ∷ encode code) bytes,
        split_dot-append (encode payload) (encode code) plain.1,
        decode-encode payload h.payload_bytes,
        decode-encode code h.code_bytes,
        same_bytes_refl code,
        h.reads_back,
        le→leb (now / second) sess.expiry early,
      )
      refl
