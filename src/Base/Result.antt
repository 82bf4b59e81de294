-- ===== src/Base/Result.antt =====
-- A Go result `(value, error)` whose error is kept.
use libtmux_go.Base.{◌≡◌, refl, ◌⊎◌, inl, inr}

pub data Result {ℓ κ} (E : Type κ) (A : Type ℓ) : Type (ℓ ⊔ κ) where
  err : E → Result E A
  ok : A → Result E A

module _ {ℓ κ ρ} {E : Type κ} {A : Type ℓ} {B : Type ρ} where
  infixl 5 ◌>>=◌
  abbrev pub ◌>>=◌ : Result E A → (A → Result E B) → Result E B
  err e >>= next = err e
  ok value >>= next = next value

  -- A chain that returns a value has a first step that does.
  pub >>=-ok :
      (next : A → Result E B) (first : Result E A) {result : B}
      → (first >>= next) ≡ ok result
      → (value : A) × (first ≡ ok value) × (next value ≡ ok result)
  >>=-ok next (err e) h = cc
  >>=-ok next (ok value) h = (value, refl, h)

pub Result-cases {ℓ κ} :
    {E : Type κ} {A : Type ℓ} (r : Result E A) → ((a : A) × (r ≡ ok a)) ⊎ ((e : E) × (r ≡ err e))
Result-cases (ok a) = inl (a, refl)
Result-cases (err e) = inr (e, refl)
