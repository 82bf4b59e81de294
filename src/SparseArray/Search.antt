-- ===== src/SparseArray/Search.antt =====
-- The binary search finds the place that a walk from the front finds.
use libtmux_go.Base.{
  ℕ, zero, suc, ◌+◌, ◌/◌, ◌<◌, ◌≤◌, ◌≡◌, refl, false, List, [], ◌∷◌, length, ltb, if◌then◌else◌,
  arith, Bool-cases, inl, inr,
}
use libtmux_go.SparseArray.{SparseEntry, is_below, search, is_at, position}

module _ {ℓ} {A : Type ℓ} where
  -- Every entry's index is above a number.
  unfoldable pub Above : ℕ → List (SparseEntry A) → Type 0
  Above n [] = Unit
  Above n (e ∷ es) = (n < e.index) × Above n es

  unfoldable pub Sorted : List (SparseEntry A) → Type 0
  Sorted [] = Unit
  Sorted (e ∷ es) = Above e.index es × Sorted es

  -- How many entries stand in front of the target.
  unfoldable pub place : List (SparseEntry A) → ℕ → ℕ
  place [] target = 0
  place (e ∷ es) target = if ltb e.index target then suc (place es target) else 0

  is_below-Above :
      (es : List (SparseEntry A)) (n target i : ℕ)
      → Above n es
      → target ≤ n
      → is_below es target i ≡ false
  unfolding is_below Above
  is_below-Above [] n target i h le = refl
  is_below-Above (e ∷ es) n target zero h le = ground (arith, h.0)
  is_below-Above (e ∷ es) n target (suc i) h le = is_below-Above es n target i h.1 le

  place-le : (es : List (SparseEntry A)) (target : ℕ) → place es target ≤ length es
  unfolding place
  place-le [] target = omega arith
  place-le (e ∷ es) target = ground (arith, place-le es target)

  is_below-place :
      (es : List (SparseEntry A)) (target i : ℕ)
      → Sorted es
      → i < length es
      → is_below es target i ≡ ltb i (place es target)
  unfolding is_below Sorted place
  is_below-place [] target i h lt = ground arith
  is_below-place (e ∷ es) target zero h lt = ground arith
  is_below-place (e ∷ es) target (suc i) h lt = elim (Bool-cases (ltb e.index target)) [
    | inl below ↦ ground (arith, is_below-place es target i h.1 (omega arith))
    | inr above ↦ ground (arith, is_below-Above es e.index target i h.0 (ground (arith, above)))
  ]

  search-place :
      (fuel : ℕ) (es : List (SparseEntry A)) (target i j : ℕ)
      → Sorted es
      → i ≤ place es target
      → place es target ≤ j
      → j ≤ length es
      → j ≤ i + fuel
      → search fuel es target i j ≡ place es target
  unfolding search
  search-place zero es target i j h lo hi bound enough = omega arith
  search-place (suc fuel) es target i j h lo hi bound enough = ground (
    arith,
    is_below-place es target ((i + j) / 2) h,
    search-place fuel es target ((i + j) / 2 + 1) j h,
    search-place fuel es target i ((i + j) / 2) h,
  )

  -- The search finds the first place whose entry is not below the target.
  pub position-place :
      (es : List (SparseEntry A)) (target : ℕ)
      → Sorted es
      → position es target ≡ (place es target, is_at es target (place es target))
  unfolding position
  position-place es target h =
      rw
        (search-place (length es) es target 0 (length es) h (omega arith) (place-le es target)
          (omega arith) (omega arith))
        refl
