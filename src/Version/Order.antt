-- ===== src/Version/Order.antt =====
-- Where a candidate and a development build stand in the order of versions, and lemmas on ranks.
use libtmux_go.Base.{
  ℕ, ◌+◌, ◌<◌, ◌≡◌, refl, ◌∙◌, true, false, List, [], ◌∷◌, if◌then◌else◌, arith, inl, inr, ◌⊎◌,
}
use libtmux_go.Base.Int.{ℤ, pos, negsuc}
use libtmux_go.Version.{
  Version, Comparison, less, same, greater, is_less, is_zero, compare_ranks, rank, compare,
}

is_less-cases :
    (x y : ℤ)
    → ((is_less x y ≡ true) × (is_less y x ≡ false))
      ⊎ ((x ≡ y) ⊎ ((is_less y x ≡ true) × (is_less x y ≡ false)))
is_less-cases (pos m) (pos n) = ground arith
is_less-cases (pos m) (negsuc n) = inr (inr (refl, refl))
is_less-cases (negsuc m) (pos n) = inl (refl, refl)
is_less-cases (negsuc m) (negsuc n) = ground arith

is_less_irrefl : (x : ℤ) → is_less x x ≡ false
is_less_irrefl (pos m) = ground arith
is_less_irrefl (negsuc m) = ground arith

abbrev pub flipped : Comparison → Comparison
flipped less = greater
flipped same = same
flipped greater = less

pub compare_ranks-flipped : (xs ys : List ℤ) → compare_ranks ys xs ≡ flipped (compare_ranks xs ys)
unfolding compare_ranks
compare_ranks-flipped [] [] = refl
compare_ranks-flipped [] (y ∷ ys) = refl
compare_ranks-flipped (x ∷ xs) [] = refl
compare_ranks-flipped (x ∷ xs) (y ∷ ys) = elim (is_less-cases x y) [
  | inl (lt, not_gt) ↦ rw (lt, not_gt) refl
  | inr (inl e) ↦ ground (arith, e, is_less_irrefl x, is_less_irrefl y, compare_ranks-flipped xs ys)
  | inr (inr (gt, not_lt)) ↦ rw (gt, not_lt) refl
]

-- Two versions with one major, minor and patch number.
abbrev pub IsSameCore : Version → Version → Type 0
IsSameCore v w = (v.major ≡ w.major) × (v.minor ≡ w.minor) × (v.patch ≡ w.patch)

pub compare_ranks-cons :
    (x y : ℤ) (xs ys : List ℤ) → x ≡ y → compare_ranks (x ∷ xs) (y ∷ ys) ≡ compare_ranks xs ys
unfolding compare_ranks
compare_ranks-cons x y xs ys e = ground (arith, e, is_less_irrefl x, is_less_irrefl y)

-- What is left of a rank behind the numbers.
abbrev pub stage : Version → List ℤ
stage v = v.development ∷ (if is_zero v.candidate then pos 1 else pos 0) ∷ v.candidate ∷ []

pub compare-stage :
    (v w : Version) → IsSameCore v w → compare v w ≡ compare_ranks (stage v) (stage w)
unfolding compare rank
compare-stage v w (a, b, c) =
    compare_ranks-cons v.major w.major _ _ a
    ∙ compare_ranks-cons v.minor w.minor _ _ b
    ∙ compare_ranks-cons v.patch w.patch _ _ c

-- The stages of one release, in the order of the releases' notes.
pub record IsStaged (next candidate later release : Version) : Type 0 where
  pub next-candidate : compare next candidate ≡ less
  pub candidate-later : compare candidate later ≡ less
  pub later-release : compare later release ≡ less

-- Of four versions with one major, minor and patch number, a build of next-X.Y (development
-- -1) is less than a candidate, that is less than a candidate with a higher number, and that is less than the release.
pub compare-IsStaged :
    (next candidate later release : Version) (m n : ℕ)
    → IsSameCore next candidate
    → IsSameCore candidate later
    → IsSameCore later release
    → next.development ≡ negsuc 0
    → (candidate.development ≡ pos 0) × (later.development ≡ pos 0) × (release.development ≡ pos 0)
    → m < n
    → (candidate.candidate ≡ pos (m + 1))
      × (later.candidate ≡ pos (n + 1))
      × (release.candidate ≡ pos 0)
    → IsStaged next candidate later release
unfolding compare_ranks
compare-IsStaged next candidate later release m n c1 c2 c3 d1 (d2, d3, d4) lt (e2, e3, e4) =
    record {
      next-candidate = compare-stage next candidate c1 ∙ rw (d1, d2) refl;
      candidate-later = compare-stage candidate later c2 ∙ rw (d2, d3, e2, e3) (ground arith);
      later-release = compare-stage later release c3 ∙ rw (d3, d4, e3, e4) (ground arith);
    }
