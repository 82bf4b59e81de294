-- ===== src/SparseArray/Tests.antt =====
-- Sparse arrays at small inputs.
use libtmux_go.Base.{ℕ, ◌+◌, ◌≤◌, ◌≡◌, refl, some, List, [], ◌∷◌, map, ◌⊎◌, Bytes, codes, arith}
use libtmux_go.Base.Int.{pos, negsuc}
use libtmux_go.Base.Result.{ok, err}
use libtmux_go.SparseArray.Build.{raw, count, new_sparse_array-lookup}
use libtmux_go.SparseArray.Search.{Sorted, Above}
use libtmux_go.SparseArray.Updates.{IsStored, find, with_value-IsStored}
use libtmux_go.SparseArray.Appending.{AllInts, IsNext, append-IsStored}
use libtmux_go.SparseArray.{
  SparseEntry, SparseArray, duplicate_index, append_after, max_int, get, with_value, append,
  new_sparse_array, check_indices, insert_sorted, sort, duplicate, position, search, is_below,
  is_at, insert_at, set_value, next_index, wrap_int,
}

abbrev entry : ℕ → Bytes → SparseEntry Bytes
entry n value = record { index = n; value = value }

abbrev hooks : SparseArray Bytes
hooks = record { entries = entry 2 (codes "b") ∷ entry 5 (codes "c") ∷ entry 9 (codes "e") ∷ [] }

hooks-Sorted : Sorted hooks.entries
unfolding Sorted Above
hooks-Sorted = ground arith

hooks-AllInts : AllInts hooks.entries
hooks-AllInts = (omega arith, (omega arith, (omega arith, tt)))

with_seven :
    with_value hooks (pos 7) (codes "d")
    ≡ ok (record {
      entries =
          entry 2 (codes "b")
          ∷ entry 5 (codes "c")
          ∷ entry 7 (codes "d")
          ∷ entry 9 (codes "e")
          ∷ [];
    })
unfolding with_value position search is_below is_at insert_at set_value
with_seven = refl

with_value-IsStored_example :
    (b : SparseArray Bytes) × (with_value hooks (pos 7) (codes "d") ≡ ok b)
    × IsStored 7 (codes "d") hooks b
with_value-IsStored_example = with_value-IsStored hooks 7 (codes "d") hooks-Sorted

append-IsStored_example :
    ((append hooks (codes "f") ≡ err (append_after max_int))
      × ((v : Bytes) × (get hooks (pos max_int) ≡ some v)))
    ⊎ ((n : ℕ) × (b : SparseArray Bytes) × (append hooks (codes "f") ≡ ok b)
        × IsNext n hooks
        × IsStored n (codes "f") hooks b)
append-IsStored_example = append-IsStored hooks (codes "f") hooks-Sorted hooks-AllInts

-- The index behind the largest int would be the least one.
wrapped : wrap_int (max_int + 1) ≡ negsuc max_int
unfolding wrap_int
wrapped = refl

append_full :
    append (record { entries = entry max_int [] ∷ [] }) (codes "f") ≡ err (append_after max_int)
unfolding append next_index
append_full = refl

abbrev unsorted : List (SparseEntry Bytes)
unsorted = entry 9 (codes "e") ∷ entry 2 (codes "b") ∷ entry 5 (codes "c") ∷ []

new_hooks : new_sparse_array (map raw unsorted) ≡ ok hooks
unfolding new_sparse_array check_indices insert_sorted sort duplicate
new_hooks = refl

new_sparse_array-lookup_example :
    ((a : SparseArray Bytes) × (new_sparse_array (map raw unsorted) ≡ ok a)
      × Sorted a.entries
      × ((n : ℕ) → get a (pos n) ≡ find unsorted n))
    ⊎ ((n : ℕ) × (new_sparse_array (map raw unsorted) ≡ err (duplicate_index n))
        × (2 ≤ count unsorted n))
new_sparse_array-lookup_example = new_sparse_array-lookup unsorted
