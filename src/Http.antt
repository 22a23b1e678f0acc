-- ===== src/Http.antt =====
-- `net/http` as the program calls it: what goes out and what comes back. internal/keycloak/client.go
-- and internal/auth/auth.go both call Keycloak this way.
pub mod Ran
use kc_jit_public.Base.{ℕ, String, ◌^^◌, List, Result, ok, err, leb, if◌then◌else◌}

-- A call: its method, its URL, the bearer token, empty where there is none, and the form's values.
pub record HttpCall : Type 0 where
  pub method : String
  pub url : String
  pub bearer : String
  pub form : List (String × String)

pub record HttpAnswer : Type 0 where
  pub code : ℕ
  pub status : String
  pub body : String

-- The body, unless the status is one of an error.
abbrev pub accept : String → HttpAnswer → Result String
accept prefix a =
    if leb 300 a.code then err (prefix ^^ ": " ^^ a.status ^^ ": " ^^ a.body) else ok a.body

-- A method that may fail, of an object with a state.
abbrev pub Method : Type 0 → Type 0 → Type 0
Method S A = S → Result A × S

abbrev pub after : {S A B : Type 0} → (A → Method S B) → Result A → Method S B
after f (ok a) s = f a s
after f (err m) s = (err m, s)

infixl 5 ◌>>=◌
abbrev pub ◌>>=◌ : {S A B : Type 0} → Method S A → (A → Method S B) → Method S B
◌>>=◌ m f s = after f (m s).0 (m s).1

abbrev pub pure : {S A : Type 0} → Result A → Method S A
pure r s = (r, s)

-- An answer with a body of its own: a page or a plain text.
pub record Page : Type 0 where
  pub code : ℕ
  pub content_type : String
  pub body : String

-- `http.Error`.
abbrev pub http_error : ℕ → String → Page
http_error code message = record {
  code = code;
  content_type = "text/plain; charset=utf-8";
  body = message ^^ "\n";
}
