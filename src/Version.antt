-- ===== src/Version.antt =====
-- tmux/version.go: the feature level of a parsed version, and the order that feature gates use. The
-- parsing of a token, by regular expressions, is not modelled.
pub mod Order
pub mod Levels
pub mod Tests
use mathlib.Core.Bool.{not}
use libtmux_go.Base.{ℕ, Bool, true, false, List, [], ◌∷◌, Bytes, ltb, ◌==◌, if◌then◌else◌}
use libtmux_go.Base.Int.{ℤ, pos, negsuc}

-- `Version`: `candidate` is 0 for a release and one more than the number for X.Y-rcN; `development`
-- is below 0 for next-X.Y.
pub record Version : Type 0 where
  pub raw : Bytes
  pub major : ℤ
  pub minor : ℤ
  pub patch : ℤ
  pub development : ℤ
  pub candidate : ℤ

-- The results of `Compare`, -1, 0 and 1.
pub data Comparison : Type 0 where
  less same greater : Comparison

abbrev pub is_less : ℤ → ℤ → Bool
is_less (pos m) (pos n) = ltb m n
is_less (pos m) (negsuc n) = false
is_less (negsuc m) (pos n) = true
is_less (negsuc m) (negsuc n) = ltb n m

abbrev pub is_zero : ℤ → Bool
is_zero (pos n) = n == 0
is_zero (negsuc n) = false

-- The loop of `Compare` over two ranks of one length.
unfoldable pub compare_ranks : List ℤ → List ℤ → Comparison
compare_ranks (x ∷ xs) (y ∷ ys) =
    let rest = compare_ranks xs ys in
    if is_less x y then less else if is_less y x then greater else rest
compare_ranks _ _ = same

unfoldable pub rank : Version → List ℤ
rank v =
    let final = (if is_zero v.candidate then pos 1 else pos 0) in
    v.major ∷ v.minor ∷ v.patch ∷ v.development ∷ final ∷ v.candidate ∷ []

-- `Compare`.
unfoldable pub compare : Version → Version → Comparison
compare v other = compare_ranks (rank v) (rank other)

abbrev pub is_nonnegative : Comparison → Bool
is_nonnegative less = false
is_nonnegative same = true
is_nonnegative greater = true

-- `AtLeast`.
unfoldable pub at_least : Version → Version → Bool
at_least v minimum = is_nonnegative (compare v minimum)
