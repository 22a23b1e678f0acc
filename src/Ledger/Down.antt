-- ===== src/Ledger/Down.antt =====
-- Rows of the ledger in the order of a page: those with the larger ids first, up to a number of rows.
use kc_jit_public.Base.{
  ℕ, zero, suc, ◌≤◌, ◌<◌, ◌≡◌, refl, sym, ap, ◌∙◌, ◌↔◌, ◌⊎◌, inl, inr, Bool, true, List, [], ◌∷◌,
  arith, All, All-take, Bool-cases, length, take, filter,
}
use mathlib.Core.List.{reverse_aux, Memᴰ}
use mathlib.Core.List.Memᴰ
use mathlib.Core.Path.{subst}
use kc_jit_public.Store.{AuditRow}
use kc_jit_public.Store.Scans.{All-filter}
use kc_jit_public.Ledger.Rows.{GoesUp}

-- The ids go down from row to row.
abbrev Below : ℕ → List AuditRow → Type 0
Below id = All (λ r. r.id < id)

abbrev pub GoesDown : List AuditRow → Type 0
GoesDown [] = Unit
GoesDown (row ∷ rows) = Below row.id rows × GoesDown rows

All-raise :
    (low high : ℕ) (rows : List AuditRow)
    → low < high
    → All (λ x. x.id ≤ low) rows
    → Below high rows
All-raise low high [] h g = tt
All-raise low high (r ∷ rows) h g = (omega (arith, g.0), All-raise low high rows h g.1)

All-le : (high : ℕ) (rows : List AuditRow) → Below high rows → All (λ x. x.id ≤ high) rows
All-le high [] g = tt
All-le high (r ∷ rows) g = (omega (arith, g.0), All-le high rows g.1)

pub reverse_aux-GoesDown :
    (low : ℕ) (rows done : List AuditRow)
    → GoesUp low rows
    → GoesDown done
    → All (λ x. x.id ≤ low) done
    → GoesDown (reverse_aux rows done)
reverse_aux-GoesDown low [] done up down le = down
reverse_aux-GoesDown low (r ∷ rows) done up down le =
    let below = All-raise low r.id done up.0 le in
    reverse_aux-GoesDown r.id rows (r ∷ done) up.1 (below, down)
      (omega arith, All-le r.id done below)

pub filter-GoesDown :
    (p : AuditRow → Bool) (rows : List AuditRow) → GoesDown rows → GoesDown (filter p rows)
filter-GoesDown p [] h = tt
filter-GoesDown p (r ∷ rows) h = elim (Bool-cases (p r)) [
  | inl kept ↦ rw kept (All-filter p (λ x. x.id < r.id) rows h.0, filter-GoesDown p rows h.1)
  | inr left ↦ rw left (filter-GoesDown p rows h.1)
]

pub take-GoesDown : (n : ℕ) (rows : List AuditRow) → GoesDown rows → GoesDown (take n rows)
take-GoesDown zero rows h = tt
take-GoesDown (suc n) [] h = tt
take-GoesDown (suc n) (r ∷ rows) h =
    (All-take (λ x. x.id < r.id) n rows h.0, take-GoesDown n rows h.1)

All-Mem :
    (P : AuditRow → Type 0) {row : AuditRow} (rows : List AuditRow)
    → All P rows
    → Memᴰ row rows
    → P row
All-Mem P [] h m = absurd (Memᴰ.not-nil m)
All-Mem P (r ∷ rows) h (Memᴰ.head e) = subst P (sym e) h.0
All-Mem P (r ∷ rows) h (Memᴰ.tail m) = All-Mem P rows h.1 m

pub Mem-take :
    {row : AuditRow} (n : ℕ) (rows : List AuditRow) → Memᴰ row (take n rows) → Memᴰ row rows
Mem-take zero rows m = absurd (Memᴰ.not-nil m)
Mem-take (suc n) [] m = m
Mem-take (suc n) (r ∷ rows) (Memᴰ.head e) = Memᴰ.head e
Mem-take (suc n) (r ∷ rows) (Memᴰ.tail m) = Memᴰ.tail (Mem-take n rows m)

pub Mem-filter :
    {row : AuditRow} (p : AuditRow → Bool) (rows : List AuditRow)
    → Memᴰ row (filter p rows) ↔ (Memᴰ row rows × (p row ≡ true))
Mem-filter p [] = ((λ m. absurd (Memᴰ.not-nil m)), λ m. m.0)
Mem-filter {row} p (r ∷ rows) = elim (Bool-cases (p r)) [
  | inl kept ↦ rw kept (
    λ m. elim (Memᴰ.cases_cons m) [
      | inl e ↦ (Memᴰ.head e, ap p e ∙ kept)
      | inr m' ↦ let (there, passes) = (Mem-filter p rows).0 m' in (Memᴰ.tail there, passes)
    ],
    λ (m, passes). elim (Memᴰ.cases_cons m) [
      | inl e ↦ Memᴰ.head e
      | inr m' ↦ Memᴰ.tail ((Mem-filter p rows).1 (m', passes))
    ],
  )
  | inr left ↦ rw left (
    λ m. let (there, passes) = (Mem-filter p rows).0 m in (Memᴰ.tail there, passes),
    λ (m, passes). elim (Memᴰ.cases_cons m) [
      | inl e ↦ absurd cc
      | inr m' ↦ (Mem-filter p rows).1 (m', passes)
    ],
  )
]

pub Mem-reverse_aux :
    {row : AuditRow} (rows done : List AuditRow)
    → Memᴰ row (reverse_aux rows done) ↔ (Memᴰ row rows ⊎ Memᴰ row done)
Mem-reverse_aux [] done = (inr, λ m. elim m [ inl m' ↦ absurd (Memᴰ.not-nil m') | inr m' ↦ m' ])
Mem-reverse_aux (r ∷ rows) done = (
  λ m. elim ((Mem-reverse_aux rows (r ∷ done)).0 m) [
    | inl before ↦ inl (Memᴰ.tail before)
    | inr after ↦ elim (Memᴰ.cases_cons after) [ inl e ↦ inl (Memᴰ.head e) | inr m' ↦ inr m' ]
  ],
  λ m. (Mem-reverse_aux rows (r ∷ done)).1 (elim m [
    | inl before ↦ elim (Memᴰ.cases_cons before) [ inl e ↦ inr (Memᴰ.head e) | inr m' ↦ inl m' ]
    | inr after ↦ inr (Memᴰ.tail after)
  ]),
)

-- A row of a list whose ids go down is among the first so many, or these are so many and have larger
-- ids.
pub Mem-first :
    {row : AuditRow} (n : ℕ) (rows : List AuditRow)
    → GoesDown rows
    → Memᴰ row rows
    → Memᴰ row (take n rows) ⊎ ((length (take n rows) ≡ n) × All (λ r. row.id < r.id) (take n rows))
Mem-first zero rows d m = inr (refl, tt)
Mem-first (suc n) [] d m = absurd (Memᴰ.not-nil m)
Mem-first (suc n) (r ∷ rows) d (Memᴰ.head e) = inl (Memᴰ.head e)
Mem-first {row} (suc n) (r ∷ rows) d (Memᴰ.tail m) = elim (Mem-first n rows d.1 m) [
  | inl within ↦ inl (Memᴰ.tail within)
  | inr (full, before) ↦ inr (ap suc full, (All-Mem (λ x. x.id < r.id) rows d.0 m, before))
]
