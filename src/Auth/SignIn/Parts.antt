-- ===== src/Auth/SignIn/Parts.antt =====
-- The last part of a group's path, said without the code that cuts it off.
use Prim.Native.Char.{code}
use mathlib.Core.Path.{subst}
use kc_jit_public.Base.{
  String, ◌≡◌, ◌≢◌, refl, sym, ap, true, false, ◌∙◌, ◌⊎◌, inl, inr, List, [], ◌∷◌, map, none, some,
  arith, eqb, Each, Bool-cases,
}
use kc_jit_public.Auth.SignIn.{after_slash, last_part}

abbrev pub NoSlash : String → Type 0
NoSlash String.[] = Unit
NoSlash (String.◌∷◌ c s) = (code c ≢ b'/') × NoSlash s

-- The text is what follows some slash of the other.
abbrev pub Follows : String → String → Type 0
Follows p String.[] = ⊥
Follows p (String.◌∷◌ c s) = ((code c ≡ b'/') × (p ≡ s)) ⊎ Follows p s

-- The text has no slash, and follows a slash of the path or is the path.
abbrev pub IsLastPart : String → String → Type 0
IsLastPart g p = NoSlash p × (Follows p g ⊎ (p ≡ g))

after_slash-cases :
    (g : String)
    → ((after_slash g ≡ none) × NoSlash g)
      ⊎ ((p : String) × (after_slash g ≡ some p) × NoSlash p × Follows p g)
unfolding after_slash
after_slash-cases String.[] = inl (refl, tt)
after_slash-cases (String.◌∷◌ c s) = elim (after_slash-cases s) [
  | inr (p, found, clean, there) ↦ inr (p, rw found refl, clean, inr there)
  | inl (missing, clean) ↦ elim (Bool-cases (eqb (code c) b'/')) [
    | inl slash ↦ inr (s, rw (missing, slash) refl, clean, inl (ground arith, refl))
    | inr other ↦ inl (rw (missing, other) refl, (ground arith, clean))
  ]
]

after_slash-none : (g : String) → NoSlash g → after_slash g ≡ none
unfolding after_slash
after_slash-none String.[] h = refl
after_slash-none (String.◌∷◌ c s) h =
    let other : eqb (code c) b'/' ≡ false = ground (arith, h.0) in
    rw (after_slash-none s h.1, other) refl

after_slash-some : (g p : String) → NoSlash p → Follows p g → after_slash g ≡ some p
unfolding after_slash
after_slash-some String.[] p clean f = absurd f
after_slash-some (String.◌∷◌ c s) p clean (inl (slash, same)) =
    let here : eqb (code c) b'/' ≡ true = ground arith in
    rw (after_slash-none s (subst NoSlash same clean), here) (ap some (sym same))
after_slash-some (String.◌∷◌ c s) p clean (inr f) = rw (after_slash-some s p clean f) refl

last_part-IsLastPart : (g : String) → IsLastPart g (last_part g)
unfolding last_part
last_part-IsLastPart g = elim (after_slash-cases g) [
  | inl (missing, clean) ↦ rw (last_part, missing) (clean, inr refl)
  | inr (p, found, clean, there) ↦ rw (last_part, found) (clean, inl there)
]

IsLastPart-last_part : (g p : String) → IsLastPart g p → p ≡ last_part g
unfolding last_part
IsLastPart-last_part g p (clean, inl there) = rw (last_part, after_slash-some g p clean there) refl
IsLastPart-last_part g p (clean, inr same) =
    rw (last_part, after_slash-none g (subst NoSlash same clean)) same

pub map-last_part : (gs : List String) → Each IsLastPart gs (map last_part gs)
map-last_part [] = tt
map-last_part (g ∷ gs) = (last_part-IsLastPart g, map-last_part gs)

pub Each-last_part : (gs ps : List String) → Each IsLastPart gs ps → ps ≡ map last_part gs
Each-last_part [] [] h = refl
Each-last_part [] (p ∷ ps) h = absurd h
Each-last_part (g ∷ gs) [] h = absurd h
Each-last_part (g ∷ gs) (p ∷ ps) h =
    ap (λ q. q ∷ ps) (IsLastPart-last_part g p h.0)
    ∙ ap (λ qs. last_part g ∷ qs) (Each-last_part gs ps h.1)
