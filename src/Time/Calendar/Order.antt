-- ===== src/Time/Calendar/Order.antt =====
-- The calendar keeps the order of days, and its parts stay in their ranges.
use kc_jit_public.Base.{
  ℕ, zero, suc, ◌+◌, ◌-◌, ◌≤◌, ◌<◌, ◌≡◌, refl, ◌⊎◌, inl, inr, arith, ltb, Bool-cases,
}
use kc_jit_public.Time.Calendar.{spend, total}

-- The order of pairs, by the first part and then by the second.
abbrev pub Before : ℕ × ℕ → ℕ × ℕ → Type 0
Before p q = (p.0 < q.0) ⊎ ((p.0 ≡ q.0) × (p.1 < q.1))

module _ (len : ℕ → ℕ) where
  spend-ge : (more i d : ℕ) → i ≤ (spend len more i d).0
  unfolding spend
  spend-ge zero i d = omega arith
  spend-ge (suc more) i d = ground (arith, spend-ge more (suc i) (d - len i))

  pub spend-le : (more i d : ℕ) → (spend len more i d).0 ≤ i + more
  unfolding spend
  spend-le zero i d = omega arith
  spend-le (suc more) i d = ground (arith, spend-le more (suc i) (d - len i))

  -- A later day is in a later unit, or later in the same unit.
  pub spend-Before : (more i d e : ℕ) → d < e → Before (spend len more i d) (spend len more i e)
  unfolding spend
  spend-Before zero i d e h = inr (refl, h)
  spend-Before (suc more) i d e h =
      ground (
        arith,
        spend-Before more (suc i) (d - len i) (e - len i),
        spend-ge more (suc i) (e - len i),
      )

  -- Days that the units hold leave less than the last unit's length.
  pub spend-lt :
      (more i d : ℕ)
      → d < total len (suc more) i
      → (spend len more i d).1 < len (spend len more i d).0
  unfolding spend total
  spend-lt zero i d h = omega arith
  spend-lt (suc more) i d h = ground (arith, spend-lt more (suc i) (d - len i))

  -- The days before the unit reached and the days left in it are all the days.
  pub spend-total :
      (more i d : ℕ)
      → (k : ℕ) × ((spend len more i d).0 ≡ i + k) × (total len k i + (spend len more i d).1 ≡ d)
  unfolding spend total
  spend-total zero i d = (0, omega arith, omega arith)
  spend-total (suc more) i d = elim (Bool-cases (ltb d (len i))) [
    | inl inside ↦ (0, rw inside (omega arith), rw inside (omega arith))
    | inr beyond ↦
        let (k, reached, sum) = spend-total more (suc i) (d - len i) in
        (suc k, rw beyond (omega arith), rw beyond (ground arith))
  ]
