-- ===== src/Text/Splits.antt =====
-- `strings.Split` and `strings.Cut` at a byte that the first part lacks.
use libtmux_go.Base.{ℕ, ◌≡◌, ◌≢◌, refl, true, none, some, [], ◌∷◌, ◌++◌, Bytes, All, arith}
use libtmux_go.Text.{has_prefix, split, cut}

abbrev pub Lacks : ℕ → Bytes → Type 0
Lacks b = All (λ c. c ≢ b)

pub split-Lacks : (p : Bytes) (sep : ℕ) → Lacks sep p → split p sep ≡ p ∷ []
unfolding split
split-Lacks [] sep h = refl
split-Lacks (c ∷ p) sep h = ground (arith, split-Lacks p sep)

pub split-append :
    (p s : Bytes) (sep : ℕ) → Lacks sep p → split (p ++ sep ∷ s) sep ≡ p ∷ split s sep
unfolding split
split-append [] s sep h = ground arith
split-append (c ∷ p) s sep h = ground (arith, split-append p s sep)

pub cut-append : (p s : Bytes) (sep : ℕ) → Lacks sep p → cut (p ++ sep ∷ s) sep ≡ some (p, s)
unfolding cut
cut-append [] s sep h = ground arith
cut-append (c ∷ p) s sep h = ground (arith, cut-append p s sep)

pub cut-Lacks : (p : Bytes) (sep : ℕ) → Lacks sep p → cut p sep ≡ none
unfolding cut
cut-Lacks [] sep h = refl
cut-Lacks (c ∷ p) sep h = ground (arith, cut-Lacks p sep)

pub has_prefix-append : (p s : Bytes) → has_prefix (p ++ s) p ≡ true
unfolding has_prefix
has_prefix-append [] s = refl
has_prefix-append (c ∷ p) s = ground (arith, has_prefix-append p s)
