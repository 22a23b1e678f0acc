-- ===== src/Text.antt =====
-- The functions of Go's `strings` that the program calls, on Unicode text.
pub mod Atoi
use Prim.Native.Char.{Char, char, nul, code, IsScalar}
use Prim.Native.Nat.{compare, Ordering}
use mathlib.Core.Logic.{dite}
use native.Mathlib.Decide.{dec_lt}
use kc_jit_public.Base.{
  ℕ, ◌+◌, String, Bool, true, false, ◌||◌, ◌&&◌, not, eqb, leb, ltb, if◌then◌else◌, ◌<◌, ◌≡◌, arith,
  List, [], ◌∷◌,
}

-- `unicode.IsSpace`.
unfoldable pub is_space : ℕ → Bool
is_space c =
    (leb 9 c && leb c 13)
    || eqb c 32
    || eqb c 0x85
    || eqb c 0xa0
    || eqb c 0x1680
    || (leb 0x2000 c && leb c 0x200a)
    || eqb c 0x2028
    || eqb c 0x2029
    || eqb c 0x202f
    || eqb c 0x205f
    || eqb c 0x3000

-- The bytes of a character in UTF-8.
abbrev pub utf8_width : ℕ → ℕ
utf8_width c = if ltb c 0x80 then 1 else if ltb c 0x800 then 2 else if ltb c 0x10000 then 3 else 4

-- `len(s)`: the bytes of the text in UTF-8.
unfoldable pub byte_len : String → ℕ
byte_len String.[] = 0
byte_len (String.◌∷◌ c s) = utf8_width (code c) + byte_len s

abbrev pub is_empty : String → Bool
is_empty String.[] = true
is_empty (String.◌∷◌ c s) = false

-- `strings.TrimLeftFunc`.
unfoldable pub trim_left : (ℕ → Bool) → String → String
trim_left p String.[] = String.[]
trim_left p (String.◌∷◌ c s) = if p (code c) then trim_left p s else String.◌∷◌ c s

-- One more character before a text that is trimmed at its end.
abbrev pub before : Bool → Char → String → String
before cut c s = if is_empty s && cut then String.[] else String.◌∷◌ c s

-- `strings.TrimRightFunc`.
unfoldable pub trim_right : (ℕ → Bool) → String → String
trim_right p String.[] = String.[]
trim_right p (String.◌∷◌ c s) = before (p (code c)) c (trim_right p s)

-- `strings.TrimSpace`.
unfoldable pub trim_space : String → String
unfolding trim_left trim_right is_space
trim_space s = trim_right is_space (trim_left is_space s)

-- `strings.TrimRight(s, "/")`.
unfoldable pub trim_slashes : String → String
unfolding trim_right
trim_slashes = trim_right (λ c. eqb c b'/')

-- The lower case of an ASCII letter. No other character is folded to a letter of the words that
-- the program compares with.
abbrev pub lower : ℕ → ℕ
lower c = if leb b'A' c && leb c b'Z' then c + 32 else c

-- `strings.ToLower(s) == word`, and `strings.EqualFold(s, word)`, for the words that the program
-- compares with: no character but the capital is lowered, or folded in "true", to one of theirs.
unfoldable pub equal_fold : String → String → Bool
equal_fold String.[] String.[] = true
equal_fold String.[] (String.◌∷◌ d t) = false
equal_fold (String.◌∷◌ c s) String.[] = false
equal_fold (String.◌∷◌ c s) (String.◌∷◌ d t) = eqb (lower (code c)) (code d) && equal_fold s t

pub scalar : (c : ℕ) → c < 128 → IsScalar c
scalar c h = let e : compare c 55296 ≡ Ordering.lt = ground arith in rw e tt

-- The character of an ASCII code.
unfoldable pub ascii_char : ℕ → Char
unfolding dec_lt
ascii_char c = dite (dec_lt c 128) (λ h. char c (scalar c h)) (λ _. nul)

-- The text of ASCII codes, such as `base64.RawURLEncoding` writes.
unfoldable pub ascii : List ℕ → String
unfolding ascii_char
ascii [] = String.[]
ascii (c ∷ s) = String.◌∷◌ (ascii_char c) (ascii s)
