-- ===== src/SparseArray/Build.antt =====
-- NewSparseArray: sorting, and the refusal of an index that stands twice.
use libtmux_go.Base.{
  ℕ, suc, ◌≤◌, ◌≡◌, refl, ap, ◌∙◌, Option, none, some, List, [], ◌∷◌, map, ◌==◌, if◌then◌else◌,
  arith, Option-cases, inl, inr, ◌⊎◌,
}
use libtmux_go.Base.Int.{ℤ, pos}
use libtmux_go.Base.Result.{Result, ok, err}
use libtmux_go.SparseArray.{
  SparseEntry, SparseArray, SparseError, duplicate_index, get, check_indices, insert_sorted, sort,
  duplicate, new_sparse_array,
}
use libtmux_go.SparseArray.Search.{Above, Sorted}
use libtmux_go.SparseArray.Updates.{find, get-find, Above-mono}

module _ {ℓ} {A : Type ℓ} where
  -- No entry is above the next one.
  Ascending : List (SparseEntry A) → Type 0
  Ascending (x ∷ y ∷ es) = (x.index ≤ y.index) × Ascending (y ∷ es)
  Ascending es = Unit

  insert_sorted-Ascending :
      (x : SparseEntry A) (es : List (SparseEntry A))
      → Ascending es
      → Ascending (insert_sorted x es)
  unfolding Ascending insert_sorted
  insert_sorted-Ascending x [] h = tt
  insert_sorted-Ascending x (e ∷ []) h = ground arith
  insert_sorted-Ascending x (e ∷ y ∷ es) h =
      ground (arith, h, insert_sorted-Ascending x (y ∷ es) h.1)

  sort-Ascending : (es : List (SparseEntry A)) → Ascending (sort es)
  unfolding sort
  sort-Ascending [] = unfold Ascending in tt
  sort-Ascending (e ∷ es) = insert_sorted-Ascending e (sort es) (sort-Ascending es)

  Ascending-Sorted : (es : List (SparseEntry A)) → Ascending es → duplicate es ≡ none → Sorted es
  unfolding Ascending duplicate Sorted Above
  Ascending-Sorted [] h d = tt
  Ascending-Sorted (x ∷ []) h d = (tt, tt)
  Ascending-Sorted (x ∷ y ∷ es) h d =
      ground (arith, h, Ascending-Sorted (y ∷ es) h.1, Above-mono es y.index x.index)

  find-insert_sorted :
      (x : SparseEntry A) (es : List (SparseEntry A)) (n : ℕ)
      → find (insert_sorted x es) n ≡ find (x ∷ es) n
  unfolding insert_sorted find
  find-insert_sorted x [] n = refl
  find-insert_sorted x (e ∷ es) n = ground (arith, find-insert_sorted x es n)

  find-sort : (es : List (SparseEntry A)) (n : ℕ) → find (sort es) n ≡ find es n
  unfolding sort find
  find-sort [] n = refl
  find-sort (e ∷ es) n = ground (arith, find-insert_sorted e (sort es) n, find-sort es n)

  -- How many entries have an index.
  unfoldable pub count : List (SparseEntry A) → ℕ → ℕ
  count [] n = 0
  count (e ∷ es) n = if e.index == n then suc (count es n) else count es n

  count-insert_sorted :
      (x : SparseEntry A) (es : List (SparseEntry A)) (n : ℕ)
      → count (insert_sorted x es) n ≡ count (x ∷ es) n
  unfolding insert_sorted count
  count-insert_sorted x [] n = refl
  count-insert_sorted x (e ∷ es) n = ground (arith, count-insert_sorted x es n)

  count-sort : (es : List (SparseEntry A)) (n : ℕ) → count (sort es) n ≡ count es n
  unfolding sort count
  count-sort [] n = refl
  count-sort (e ∷ es) n = ground (arith, count-insert_sorted e (sort es) n, count-sort es n)

  count-duplicate : (es : List (SparseEntry A)) {n : ℕ} → duplicate es ≡ some n → 2 ≤ count es n
  unfolding duplicate count
  count-duplicate [] h = cc
  count-duplicate (x ∷ []) h = cc
  count-duplicate (x ∷ y ∷ es) {n} h = ground (arith, count-duplicate (y ∷ es) {n = n})

  abbrev pub raw : SparseEntry A → ℤ × A
  raw e = (pos e.index, e.value)

  check_indices-raw : (es : List (SparseEntry A)) → check_indices (map raw es) ≡ ok es
  unfolding check_indices
  check_indices-raw [] = refl
  check_indices-raw (e ∷ es) = rw (check_indices-raw es) refl

  -- What the check for duplicates makes of sorted entries.
  abbrev finished : List (SparseEntry A) → Option ℕ → Result SparseError (SparseArray A)
  finished es (some n) = err (duplicate_index n)
  finished es none = ok (record { entries = es })

  new_sparse_array-raw :
      (es : List (SparseEntry A))
      → new_sparse_array (map raw es) ≡ finished (sort es) (duplicate (sort es))
  unfolding new_sparse_array
  new_sparse_array-raw es = rw (check_indices-raw es) (from_elim (duplicate (sort es)))
    where
      from_elim :
          (d : Option ℕ)
          → elim d [ some n ↦ err (duplicate_index n) | none ↦ ok (record { entries = sort es }) ]
            ≡ finished (sort es) d
      from_elim none = refl
      from_elim (some n) = refl

  -- On entries whose indices are not below zero, NewSparseArray either returns a sorted array, in
  -- which Get finds at every index what the entries hold there, or names an index that stands in the
  -- entries twice.
  pub new_sparse_array-lookup :
      (es : List (SparseEntry A))
      → ((a : SparseArray A) × (new_sparse_array (map raw es) ≡ ok a)
          × Sorted a.entries
          × ((n : ℕ) → get a (pos n) ≡ find es n))
        ⊎ ((n : ℕ) × (new_sparse_array (map raw es) ≡ err (duplicate_index n)) × (2 ≤ count es n))
  new_sparse_array-lookup es = elim (Option-cases (duplicate (sort es))) [
    | inl none_twice ↦
        let sorted = Ascending-Sorted (sort es) (sort-Ascending es) none_twice in
        inl (
          record { entries = sort es },
          new_sparse_array-raw es ∙ ap (finished (sort es)) none_twice,
          sorted,
          λ n. get-find (record { entries = sort es }) n sorted ∙ find-sort es n,
        )
    | inr (n, twice) ↦ inr (
      n,
      new_sparse_array-raw es ∙ ap (finished (sort es)) twice,
      rw (← count-sort es n) (count-duplicate (sort es) twice),
    )
  ]
