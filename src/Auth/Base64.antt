-- ===== src/Auth/Base64.antt =====
-- `base64.RawURLEncoding`: the URL alphabet without padding, on bytes.
pub mod RoundTrip
use kc_jit_public.Base.{
  ℕ, ◌+◌, ◌-◌, ◌*◌, ◌/◌, ◌%◌, Bool, not, ◌||◌, ◌&&◌, List, [], ◌∷◌, Option, none, some, eqb, leb,
  ltb, filter, if◌then◌else◌,
}
use kc_jit_public.Time.Parse.{◌>>=◌}

-- The letter of a number below 64.
unfoldable pub letter : ℕ → ℕ
letter n =
    if ltb n 26
    then b'A' + n
    else if ltb n 52
    then b'a' + (n - 26)
    else if ltb n 62
    then b'0' + (n - 52)
    else if eqb n 62
    then b'-'
    else b'_'

unfoldable pub sextet : ℕ → Option ℕ
sextet c =
    if leb b'A' c && leb c b'Z'
    then some (c - b'A')
    else if leb b'a' c && leb c b'z'
    then some (c - b'a' + 26)
    else if leb b'0' c && leb c b'9'
    then some (c - b'0' + 52)
    else if eqb c b'-'
    then some 62
    else if eqb c b'_'
    then some 63
    else none

unfoldable pub encode : List ℕ → List ℕ
unfolding letter
encode [] = []
encode (a ∷ []) = letter (a / 4) ∷ letter (a % 4 * 16) ∷ []
encode (a ∷ b ∷ []) = letter (a / 4) ∷ letter (a % 4 * 16 + b / 16) ∷ letter (b % 16 * 4) ∷ []
encode (a ∷ b ∷ c ∷ s) =
    letter (a / 4)
    ∷ letter (a % 4 * 16 + b / 16)
    ∷ letter (b % 16 * 4 + c / 64)
    ∷ letter (c % 64)
    ∷ encode s

unfoldable pub sextets : List ℕ → Option (List ℕ)
unfolding sextet
sextets [] = some []
sextets (c ∷ s) = let rest = sextets s in do n ← sextet c; ns ← rest; some (n ∷ ns)

-- Four numbers below 64 are three bytes. The decoder ignores what is left over of a last byte, and
-- refuses a single last letter.
unfoldable pub join : List ℕ → Option (List ℕ)
join [] = some []
join (p ∷ []) = none
join (p ∷ q ∷ []) = some ((p * 4 + q / 16) ∷ [])
join (p ∷ q ∷ r ∷ []) = some ((p * 4 + q / 16) ∷ (q % 16 * 16 + r / 4) ∷ [])
join (p ∷ q ∷ r ∷ s ∷ rest) =
    let bytes = join rest in
    do bs ← bytes; some ((p * 4 + q / 16) ∷ (q % 16 * 16 + r / 4) ∷ (r % 4 * 64 + s) ∷ bs)

-- The decoder passes over line breaks.
abbrev pub is_break : ℕ → Bool
is_break c = eqb c 10 || eqb c 13

unfoldable pub decode : List ℕ → Option (List ℕ)
unfolding sextets join
decode s = do ns ← sextets (filter (λ c. not (is_break c)) s); join ns
