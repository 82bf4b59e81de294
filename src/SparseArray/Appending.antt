-- ===== src/SparseArray/Appending.antt =====
-- What Append makes of a sorted array, and the index at which it stores.
use libtmux_go.Base.{
  ℕ, ◌+◌, ◌<◌, ◌≤◌, ◌≡◌, refl, ap, ◌∙◌, none, some, List, [], ◌∷◌, ◌==◌, arith, Bool-cases, inl,
  inr, subst, ◌⊎◌, All,
}
use libtmux_go.Base.Int.{pos}
use libtmux_go.Base.Result.{ok, err}
use libtmux_go.SparseArray.{
  SparseEntry, last_index, max_int, append_after, SparseArray, get, next_index, append, wrap_int,
}
use libtmux_go.SparseArray.Search.{Above, Sorted}
use libtmux_go.SparseArray.Updates.{find, find-Above, get-find, IsStored, with_value-IsStored}

-- A sum that is an `int` does not wrap around.
wrap_int-fits : (n : ℕ) → n ≤ max_int → wrap_int n ≡ pos n
unfolding wrap_int
wrap_int-fits n h = ground (arith, h)

module _ {ℓ} {A : Type ℓ} where
  last_index-Above :
      (n : ℕ) (es : List (SparseEntry A)) (m : ℕ)
      → Above n es
      → Sorted es
      → last_index n es < m
      → (n < m) × (find es m ≡ none)
  unfolding Above Sorted find
  last_index-Above n [] m h s lt = (lt, refl)
  last_index-Above n (e ∷ es) m h s lt = ground (arith, h, last_index-Above e.index es m s.0 s.1 lt)

  last_index-found :
      (e : SparseEntry A) (es : List (SparseEntry A))
      → Sorted (e ∷ es)
      → (v : A) × (find (e ∷ es) (last_index e.index es) ≡ some v)
  unfolding Sorted find Above
  last_index-found e [] h = (e.value, ground arith)
  last_index-found e (x ∷ es) h =
      let (v, found) = last_index-found x es h.1 in
      (v, ground (arith, found, h.0, find-Above (x ∷ es) e.index (last_index x.index es) h.0))

  -- Every index is an `int`.
  abbrev pub AllInts : List (SparseEntry A) → Type 0
  AllInts = All (λ e. e.index ≤ max_int)

  last_index-bounded :
      (e : SparseEntry A) (es : List (SparseEntry A))
      → AllInts (e ∷ es)
      → last_index e.index es ≤ max_int
  last_index-bounded e [] h = h.0
  last_index-bounded e (x ∷ es) h = last_index-bounded x es h.1

  -- The walk finds nothing at the index or behind it, and something at the one in front, if there is one.
  IsNextFound : ℕ → List (SparseEntry A) → Type ℓ
  IsNextFound n es =
      ((m : ℕ) → n ≤ m → find es m ≡ none)
      × ((n ≡ 0) ⊎ ((m : ℕ) × (n ≡ m + 1) × ((v : A) × (find es m ≡ some v))))

  next_index-IsNextFound :
      (es : List (SparseEntry A))
      → Sorted es
      → AllInts es
      → ((next_index es ≡ err (append_after max_int)) × ((v : A) × (find es max_int ≡ some v)))
        ⊎ ((n : ℕ) × (next_index es ≡ ok (pos n)) × (n ≤ max_int) × IsNextFound n es)
  unfolding next_index find Sorted IsNextFound
  next_index-IsNextFound [] h ints = inr (0, refl, omega arith, ((λ m le. refl), inl refl))
  next_index-IsNextFound (e ∷ es) h ints = elim (Bool-cases (last_index e.index es == max_int)) [
    | inl full ↦
        let last : last_index e.index es ≡ max_int = ground (arith, full) in
        inl (
          rw full (ap (λ n. err (append_after n)) last),
          subst (λ n. (v : A) × (find (e ∷ es) n ≡ some v)) last (last_index-found e es h),
        )
    | inr fits ↦
        (let small : last_index e.index es + 1 ≤ max_int =
            ground (arith, fits, last_index-bounded e es ints) in
          inr (
            last_index e.index es + 1,
            rw fits (ap ok (wrap_int-fits (last_index e.index es + 1) small)),
            small,
            (
              (λ m le. ground (arith, last_index-Above e.index es m h.0 h.1 (omega arith))),
              inr (last_index e.index es, refl, last_index-found e es h),
            ),
          ))
  ]

  -- The array holds nothing at the index or behind it, and a value at the one in front, if there is one.
  pub record IsNext (n : ℕ) (a : SparseArray A) : Type ℓ where
    pub is_int : n ≤ max_int
    pub free : (m : ℕ) → n ≤ m → get a (pos m) ≡ none
    pub behind : (n ≡ 0) ⊎ ((m : ℕ) × (n ≡ m + 1) × ((v : A) × (get a (pos m) ≡ some v)))

  get-IsNext :
      (a : SparseArray A) (n : ℕ)
      → Sorted a.entries
      → n ≤ max_int
      → IsNextFound n a.entries
      → IsNext n a
  unfolding IsNextFound
  get-IsNext a n h small (free, behind) = record {
    is_int = small;
    free = λ m le. get-find a m h ∙ free m le;
    behind = elim behind [
      | inl first ↦ inl first
      | inr (m, e, (v, found)) ↦ inr (m, e, (v, get-find a m h ∙ found))
    ];
  }

  -- On a sorted array whose indices are all ints of 64 bits, Append either refuses, and then the array
  -- holds a value at the largest int, or stores the value as With does, at the one int at and behind which
  -- the array held nothing and that is 0 or stands right behind an index at which it held a value.
  pub append-IsStored :
      (a : SparseArray A) (value : A)
      → Sorted a.entries
      → AllInts a.entries
      → ((append a value ≡ err (append_after max_int)) × ((v : A) × (get a (pos max_int) ≡ some v)))
        ⊎ ((n : ℕ) × (b : SparseArray A) × (append a value ≡ ok b)
            × IsNext n a
            × IsStored n value a b)
  unfolding append
  append-IsStored a value h ints = elim (next_index-IsNextFound a.entries h ints) [
    | inl (full, (v, last)) ↦ inl (rw full refl, (v, get-find a max_int h ∙ last))
    | inr (n, e, small, next_found) ↦
        let (b, made, stored) = with_value-IsStored a n value h in
        inr (n, b, rw e made, get-IsNext a n h small next_found, stored)
  ]
