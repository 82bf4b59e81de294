-- ===== src/SparseArray.antt =====
-- tmux/sparse_array.go: values at sorted, nonnegative indices. An index is a 64-bit `int`; one below
-- zero is refused where it comes in, so that an entry's index is a natural number.
pub mod Search
pub mod Updates
pub mod Appending
pub mod Build
pub mod Tests
use mathlib.Core.Bool.{not}
use libtmux_go.Base.{
  ℕ, zero, suc, ◌+◌, ◌-◌, ◌/◌, ◌%◌, ◌^◌, Bool, true, false, Option, none, some, List, [], ◌∷◌, ◌++◌,
  map, length, get_elem?, take, drop, ltb, ◌==◌, if◌then◌else◌,
}
use libtmux_go.Base.Int.{ℤ, pos, negsuc}
use libtmux_go.Base.Result.{Result, ok, err, ◌>>=◌}

pub record SparseEntry {ℓ} (A : Type ℓ) : Type ℓ where
  pub index : ℕ
  pub value : A

pub record SparseArray {ℓ} (A : Type ℓ) : Type ℓ where
  pub entries : List (SparseEntry A)

-- The two errors, with the index they name.
pub data SparseError : Type 0 where
  invalid_index : ℤ → SparseError
  duplicate_index : ℕ → SparseError
  append_after : ℕ → SparseError

abbrev pub max_int : ℕ
max_int = 2 ^ 63 - 1

-- The `int` of 64 bits that a sum of two wraps around to.
unfoldable pub wrap_int : ℕ → ℤ
wrap_int n = let low = n % 2 ^ 64 in if ltb low (2 ^ 63) then pos low else negsuc (2 ^ 64 - 1 - low)

module _ {ℓ} {A : Type ℓ} where
  -- The comparison of `position`: the entry there stands below the target.
  unfoldable pub is_below : List (SparseEntry A) → ℕ → ℕ → Bool
  is_below es target i = elim (get_elem? es i) [ none ↦ false | some e ↦ ltb e.index target ]

  -- `slices.BinarySearchFunc`: the loop over the bounds `i` and `j`.
  unfoldable pub search : ℕ → List (SparseEntry A) → ℕ → ℕ → ℕ → ℕ
  search zero es target i j = i
  search (suc fuel) es target i j =
      let h = (i + j) / 2 in
      let right = search fuel es target (h + 1) j in
      let left = search fuel es target i h in
      if ltb i j then (if is_below es target h then right else left) else i

  unfoldable pub is_at : List (SparseEntry A) → ℕ → ℕ → Bool
  is_at es target i = elim (get_elem? es i) [ none ↦ false | some e ↦ e.index == target ]

  -- `position`; the bounds are at most the length apart, and each round brings them nearer.
  unfoldable pub position : List (SparseEntry A) → ℕ → ℕ × Bool
  position es target = let i = search (length es) es target 0 (length es) in (i, is_at es target i)

  unfoldable pub get : SparseArray A → ℤ → Option A
  get a (negsuc n) = none
  get a (pos n) =
      let (i, found) = position a.entries n in
      if not found
      then none
      else elim (get_elem? a.entries i) [ none ↦ none | some e ↦ some e.value ]

  unfoldable pub set_value : List (SparseEntry A) → ℕ → A → List (SparseEntry A)
  set_value [] i value = []
  set_value (e ∷ es) zero value = record e { value = value } ∷ es
  set_value (e ∷ es) (suc i) value = e ∷ set_value es i value

  unfoldable pub insert_at : List (SparseEntry A) → ℕ → ℕ → A → List (SparseEntry A)
  insert_at es i n value = take i es ++ record { index = n; value = value } ∷ drop i es

  -- `With`.
  unfoldable pub with_value : SparseArray A → ℤ → A → Result SparseError (SparseArray A)
  with_value a (negsuc n) value = err (invalid_index (negsuc n))
  with_value a (pos n) value =
      let (i, found) = position a.entries n in
      if found
      then ok (record { entries = set_value a.entries i value })
      else ok (record { entries = insert_at a.entries i n value })

  abbrev last_index : ℕ → List (SparseEntry A) → ℕ
  last_index n [] = n
  last_index n (e ∷ es) = last_index e.index es

  -- The index behind the last, computed as an `int`, if it does not overflow.
  unfoldable pub next_index : List (SparseEntry A) → Result SparseError ℤ
  next_index [] = ok (pos 0)
  next_index (e ∷ es) =
      let highest = last_index e.index es in
      if highest == max_int then err (append_after highest) else ok (wrap_int (highest + 1))

  -- `Append`.
  unfoldable pub append : SparseArray A → A → Result SparseError (SparseArray A)
  append a value = do n ← next_index a.entries; with_value a n value

  -- The entries of a list whose indices are not below zero; the first one that is, is the error.
  unfoldable pub check_indices : List (ℤ × A) → Result SparseError (List (SparseEntry A))
  check_indices [] = ok []
  check_indices ((negsuc n, value) ∷ raws) = err (invalid_index (negsuc n))
  check_indices ((pos n, value) ∷ raws) = do
    es ← check_indices raws
    ok (record { index = n; value = value } ∷ es)

  -- `slices.SortFunc` by index. Entries with one index are refused behind it, so that their order
  -- does not matter.
  unfoldable pub insert_sorted : SparseEntry A → List (SparseEntry A) → List (SparseEntry A)
  insert_sorted x [] = x ∷ []
  insert_sorted x (e ∷ es) =
      let rest = insert_sorted x es in if ltb e.index x.index then e ∷ rest else x ∷ e ∷ es

  unfoldable pub sort : List (SparseEntry A) → List (SparseEntry A)
  sort [] = []
  sort (e ∷ es) = insert_sorted e (sort es)

  -- The first index that stands twice in a row.
  unfoldable pub duplicate : List (SparseEntry A) → Option ℕ
  duplicate (x ∷ y ∷ es) =
      let rest = duplicate (y ∷ es) in if x.index == y.index then some y.index else rest
  duplicate es = none

  -- `NewSparseArray`.
  unfoldable pub new_sparse_array : List (ℤ × A) → Result SparseError (SparseArray A)
  new_sparse_array raws = do
    es ← check_indices raws
    elim (duplicate (sort es)) [
      | some n ↦ err (duplicate_index n)
      | none ↦ ok (record { entries = sort es })
    ]
