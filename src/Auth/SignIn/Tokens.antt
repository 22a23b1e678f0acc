-- ===== src/Auth/SignIn/Tokens.antt =====
-- The texts that a login makes: how long they are, and of which letters.
use kc_jit_public.Base.{
  ℕ, ok-injective, sym, suc, ◌+◌, ◌*◌, ◌/◌, ◌<◌, String, ◌≡◌, refl, ap, ◌∙◌, ◌^^◌, map, Bool, true,
  ◌&&◌, ◌||◌, inl, inr, List, [], ◌∷◌, some, ok, arith, leb, eqb, eq_refl, All, length,
  Result-cases,
}
use kc_jit_public.Time.{minute}
use kc_jit_public.Text.{ascii, trim_slashes}
use kc_jit_public.Config.{Config, redirect_url, browser_issuer}
use kc_jit_public.Auth.Base64.{letter, encode}
use kc_jit_public.Auth.Base64.RoundTrip.{IsByte, numbers, numbers_small, encode-numbers}
use kc_jit_public.Auth.SignIn.{
  Outside, SignIn, lookup_state, encode_values, pkce_challenge, random_token, keep_state, login_url,
}

-- The characters that RFC 7636 allows in a code verifier.
abbrev pub is_unreserved : ℕ → Bool
is_unreserved c =
    (leb b'A' c && leb c b'Z')
    || (leb b'a' c && leb c b'z')
    || (leb b'0' c && leb c b'9')
    || eqb c b'-'
    || eqb c b'.'
    || eqb c b'_'
    || eqb c b'~'

-- A text of so many characters, all of them unreserved.
abbrev pub Fits : ℕ → List ℕ → Type 0
Fits n t = (length t ≡ n) × All (λ c. is_unreserved c ≡ true) t

letter_unreserved : (n : ℕ) → n < 64 → is_unreserved (letter n) ≡ true
unfolding letter
letter_unreserved n h = ground arith

letters_unreserved :
    (ns : List ℕ) → All (λ n. n < 64) ns → All (λ c. is_unreserved c ≡ true) (map letter ns)
letters_unreserved [] h = tt
letters_unreserved (n ∷ ns) h = (letter_unreserved n h.0, letters_unreserved ns h.1)

length-map-letter : (ns : List ℕ) → length (map letter ns) ≡ length ns
length-map-letter [] = refl
length-map-letter (n ∷ ns) = ap suc (length-map-letter ns)

length-numbers : (s : List ℕ) → length (numbers s) ≡ (4 * length s + 2) / 3
length-numbers [] = omega arith
length-numbers (a ∷ []) = omega arith
length-numbers (a ∷ b ∷ []) = omega arith
length-numbers (a ∷ b ∷ c ∷ s) = omega (arith, length-numbers s)

encode-Fits : (s : List ℕ) {n : ℕ} → length s ≡ n → All IsByte s → Fits ((4 * n + 2) / 3) (encode s)
encode-Fits s e h = rw (encode-numbers s) (
  length-map-letter (numbers s) ∙ length-numbers s ∙ ap (λ k. (4 * k + 2) / 3) e,
  letters_unreserved (numbers s) (numbers_small s h),
)

module _ (out : Outside) (cfg : Config) where
  -- `rand.Read` fills the bytes that it is given.
  abbrev pub Fills : Type 0
  Fills = (k n : ℕ) (b : List ℕ) → out.random k n ≡ ok b → (length b ≡ n) × All IsByte b

  -- SHA-256 makes 32 bytes.
  abbrev pub Digests : Type 0
  Digests = (s : List ℕ) → (length (out.sha256 s) ≡ 32) × All IsByte (out.sha256 s)

  -- What a login has drawn, kept and put into its URL.
  pub record IsLogin (m : SignIn) (url : String) (m' : SignIn) : Type 0 where
    pub drawn : List ℕ
    pub drawn_by : out.random m.readings 16 ≡ ok drawn
    pub drawn' : List ℕ
    pub drawn'_by : out.random (suc m.readings) 32 ≡ ok drawn'
    pub state_fits : Fits 22 (encode drawn)
    pub verifier_fits : Fits 43 (encode drawn')
    pub challenge_fits : Fits 43 (encode (out.sha256 (encode drawn')))
    pub pending :
        lookup_state (ascii (encode drawn)) m'.states
        ≡ some (record {
          expiry = out.now (suc (suc m.readings)) + 10 * minute;
          code_verifier = encode drawn';
        })
    pub visits :
        url
        ≡ (trim_slashes (browser_issuer cfg)
            ^^ "/realms/"
            ^^ cfg.realm
            ^^ "/protocol/openid-connect/auth?")
          ^^ "client_id"
          ^^ "="
          ^^ out.query_escape cfg.oidc_client_id
          ^^ "&"
          ^^ "code_challenge"
          ^^ "="
          ^^ out.query_escape (ascii (encode (out.sha256 (encode drawn'))))
          ^^ "&"
          ^^ "code_challenge_method"
          ^^ "="
          ^^ out.query_escape "S256"
          ^^ "&"
          ^^ "redirect_uri"
          ^^ "="
          ^^ out.query_escape (redirect_url cfg)
          ^^ "&"
          ^^ "response_type"
          ^^ "="
          ^^ out.query_escape "code"
          ^^ "&"
          ^^ "scope"
          ^^ "="
          ^^ out.query_escape "openid profile"
          ^^ "&"
          ^^ "state"
          ^^ "="
          ^^ out.query_escape (ascii (encode drawn))

  -- When a login ends without an error, its state is the base64 text of 16 random bytes, 22 characters,
  -- and its verifier that of 32 further ones, 43 characters, the least that RFC 7636 allows, all of them
  -- unreserved. The state is pending, for ten minutes, with this verifier; and the URL is that of the
  -- issuer's authorization endpoint with the client, the redirect, this state and, by the method S256,
  -- the base64 text of the verifier's SHA-256, of 43 unreserved characters. This is where rand.Read fills
  -- the bytes that it is given and SHA-256 makes 32 bytes.
  pub login_url-Fits :
      (m : SignIn) (url : String)
      → Fills
      → Digests
      → (login_url out cfg m).0 ≡ ok url
      → IsLogin m url (login_url out cfg m).1
  unfolding login_url random_token keep_state pkce_challenge encode_values
  login_url-Fits m url fills digests h = elim (Result-cases (out.random m.readings 16)) [
    | inr (e, fails) ↦ let h' = rw fails at h in absurd cc
    | inl (a, drawn) ↦ elim (Result-cases (out.random (suc m.readings) 32)) [
      | inr (e, fails) ↦ let h' = rw (drawn, fails) at h in absurd cc
      | inl (b, drawn') ↦
          let (long, bytes) = fills m.readings 16 a drawn in
          let (long', bytes') = fills (suc m.readings) 32 b drawn' in
          let (long'', bytes'') = digests (encode b) in
          let h' = rw (drawn, drawn') at h in
          record {
            drawn = a;
            drawn_by = drawn;
            drawn' = b;
            drawn'_by = drawn';
            state_fits = encode-Fits a long bytes;
            verifier_fits = encode-Fits b long' bytes';
            challenge_fits = encode-Fits (out.sha256 (encode b)) long'' bytes'';
            pending = rw (drawn, drawn', eq_refl (ascii (encode a))) refl;
            visits = sym (ok-injective h');
          }
    ]
  ]
