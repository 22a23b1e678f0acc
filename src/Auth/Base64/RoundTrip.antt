-- ===== src/Auth/Base64/RoundTrip.antt =====
-- What `EncodeToString` writes, `DecodeString` reads back.
use kc_jit_public.Base.{
  ℕ, ◌+◌, ◌*◌, ◌/◌, ◌%◌, ◌<◌, ◌≡◌, refl, ap, false, not, List, [], ◌∷◌, some, arith, map, eqb,
  filter, All,
}
use kc_jit_public.Auth.Base64.{letter, sextet, encode, sextets, join, is_break, decode}

-- A byte.
abbrev pub IsByte : ℕ → Type 0
IsByte b = b < 256

sextet-letter : (n : ℕ) → n < 64 → sextet (letter n) ≡ some n
unfolding sextet letter
sextet-letter n h = ground arith

-- A letter is neither a line break nor a point.
letter_plain : (n : ℕ) → n < 64 → (is_break (letter n) ≡ false) × (eqb (letter n) b'.' ≡ false)
unfolding letter
letter_plain n h = ground arith

letter-IsByte : (n : ℕ) → n < 64 → IsByte (letter n)
unfolding letter
letter-IsByte n h = ground arith

-- The six-bit numbers of a list of bytes.
abbrev pub numbers : List ℕ → List ℕ
numbers [] = []
numbers (a ∷ []) = (a / 4) ∷ (a % 4 * 16) ∷ []
numbers (a ∷ b ∷ []) = (a / 4) ∷ (a % 4 * 16 + b / 16) ∷ (b % 16 * 4) ∷ []
numbers (a ∷ b ∷ c ∷ s) =
    (a / 4) ∷ (a % 4 * 16 + b / 16) ∷ (b % 16 * 4 + c / 64) ∷ (c % 64) ∷ numbers s

pub numbers_small : (s : List ℕ) → All IsByte s → All (λ n. n < 64) (numbers s)
numbers_small [] h = tt
numbers_small (a ∷ []) h = (omega arith, (omega arith, tt))
numbers_small (a ∷ b ∷ []) h = (omega arith, (omega arith, (omega arith, tt)))
numbers_small (a ∷ b ∷ c ∷ s) h =
    (omega arith, (omega arith, (omega arith, (omega arith, numbers_small s h.1.1.1))))

pub encode-numbers : (s : List ℕ) → encode s ≡ map letter (numbers s)
unfolding encode
encode-numbers [] = refl
encode-numbers (a ∷ []) = refl
encode-numbers (a ∷ b ∷ []) = refl
encode-numbers (a ∷ b ∷ c ∷ s) = rw (encode-numbers s) refl

sextets-letters : (ns : List ℕ) → All (λ n. n < 64) ns → sextets (map letter ns) ≡ some ns
unfolding sextets
sextets-letters [] h = refl
sextets-letters (n ∷ ns) h = rw (sextet-letter n h.0, sextets-letters ns h.1) refl

join-numbers : (s : List ℕ) → All IsByte s → join (numbers s) ≡ some s
unfolding join
join-numbers [] h = refl
join-numbers (a ∷ []) h = ap (λ x. some (x ∷ [])) (omega arith)
join-numbers (a ∷ b ∷ []) h = ground arith
join-numbers (a ∷ b ∷ c ∷ s) h = ground (arith, join-numbers s h.1.1.1)

letters_plain :
    (ns : List ℕ)
    → All (λ n. n < 64) ns
    → filter (λ c. not (is_break c)) (map letter ns) ≡ map letter ns
letters_plain [] h = refl
letters_plain (n ∷ ns) h = rw ((letter_plain n h.0).0, letters_plain ns h.1) refl

-- What `EncodeToString` makes of bytes, `DecodeString` reads as the same bytes.
pub decode-encode : (s : List ℕ) → All IsByte s → decode (encode s) ≡ some s
unfolding decode
decode-encode s h =
    let small = numbers_small s h in
    rw (encode-numbers s, letters_plain (numbers s) small, sextets-letters (numbers s) small)
      (join-numbers s h)

letters_bytes :
    (ns : List ℕ)
    → All (λ n. n < 64) ns
    → All IsByte (map letter ns) × All (λ c. eqb c b'.' ≡ false) (map letter ns)
letters_bytes [] h = (tt, tt)
letters_bytes (n ∷ ns) h =
    let rest = letters_bytes ns h.1 in
    ((letter-IsByte n h.0, rest.0), ((letter_plain n h.0).1, rest.1))

-- An encoded text has bytes, and no point among them.
pub encode_plain :
    (s : List ℕ) → All IsByte s → All IsByte (encode s) × All (λ c. eqb c b'.' ≡ false) (encode s)
encode_plain s h = rw encode-numbers (letters_bytes (numbers s) (numbers_small s h))
