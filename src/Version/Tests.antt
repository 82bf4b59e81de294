-- ===== src/Version/Tests.antt =====
-- Versions at small inputs.
use libtmux_go.Base.{◌≡◌, refl, codes, Bytes, arith}
use libtmux_go.Base.Int.{ℤ, pos, negsuc}
use libtmux_go.Version.Order.{IsStaged, compare-IsStaged}
use libtmux_go.Version.Levels.{IsCompared, compare-IsCompared}
use libtmux_go.Version.{Version, greater, compare, compare_ranks, rank}

abbrev version : Bytes → ℤ → ℤ → Version
version raw development candidate = record {
  raw = raw;
  major = pos 3;
  minor = pos 7;
  patch = pos 0;
  development = development;
  candidate = candidate;
}

compare_release :
    compare (version (codes "3.7b") (pos 0) (pos 0)) (version (codes "3.7-rc2") (pos 0) (pos 3))
    ≡ greater
unfolding compare compare_ranks rank
compare_release = refl

compare-IsStaged_example :
    IsStaged
      (version (codes "next-3.7") (negsuc 0) (pos 0))
      (version (codes "3.7-rc") (pos 0) (pos 1))
      (version (codes "3.7-rc2") (pos 0) (pos 3))
      (version (codes "3.7") (pos 0) (pos 0))
compare-IsStaged_example =
    compare-IsStaged (version (codes "next-3.7") (negsuc 0) (pos 0))
      (version (codes "3.7-rc") (pos 0) (pos 1)) (version (codes "3.7-rc2") (pos 0) (pos 3))
      (version (codes "3.7") (pos 0) (pos 0)) 0 2 (refl, refl, refl) (refl, refl, refl)
      (refl, refl, refl) refl (refl, refl, refl) (omega arith) (refl, refl, refl)

compare-IsCompared_example :
    IsCompared (version (codes "3.7-rc2") (pos 0) (pos 3)) (version (codes "3.7") (pos 0) (pos 0))
compare-IsCompared_example =
    compare-IsCompared (version (codes "3.7-rc2") (pos 0) (pos 3))
      (version (codes "3.7") (pos 0) (pos 0))
