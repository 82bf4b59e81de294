-- ===== src/SparseArray/Updates.antt =====
-- Lookup and update over sorted entries, against a walk from the front.
use libtmux_go.Base.{
  ℕ, ◌<◌, ◌≤◌, ◌≡◌, ◌≢◌, refl, ap, ◌∙◌, Bool, true, false, Option, none, some, List, [], ◌∷◌,
  get_elem?, ltb, ◌==◌, if◌then◌else◌, arith, Bool-cases, inl, inr, sym, not,
}
use libtmux_go.Base.Int.{pos}
use libtmux_go.Base.Result.{Result, ok}
use libtmux_go.SparseArray.{
  SparseEntry, SparseArray, SparseError, is_at, position, get, set_value, insert_at, with_value,
}
use libtmux_go.SparseArray.Search.{Above, Sorted, place, position-place}

module _ {ℓ} {A : Type ℓ} where
  -- The value stored at an index.
  unfoldable pub find : List (SparseEntry A) → ℕ → Option A
  find [] n = none
  find (e ∷ es) n = if e.index == n then some e.value else find es n

  -- The entries with a value stored at an index.
  unfoldable pub store : List (SparseEntry A) → ℕ → A → List (SparseEntry A)
  store [] n value = record { index = n; value = value } ∷ []
  store (e ∷ es) n value =
      let rest = store es n value in
      if ltb e.index n
      then e ∷ rest
      else if e.index == n
      then record e { value = value } ∷ es
      else record { index = n; value = value } ∷ e ∷ es

  pub find-Above : (es : List (SparseEntry A)) (n m : ℕ) → Above n es → m ≤ n → find es m ≡ none
  unfolding find Above
  find-Above [] n m h le = refl
  find-Above (e ∷ es) n m h le = ground (arith, h.0, find-Above es n m h.1 le)

  -- What stands at the place of an index is the value that the walk finds.
  value_at : Option (SparseEntry A) → Option A
  value_at none = none
  value_at (some e) = some e.value

  update : List (SparseEntry A) → ℕ → A → ℕ × Bool → List (SparseEntry A)
  update es n value p = if p.1 then set_value es p.0 value else insert_at es p.0 n value

  update-store :
      (es : List (SparseEntry A)) (n : ℕ) (value : A)
      → update es n value (place es n, is_at es n (place es n)) ≡ store es n value
  unfolding update set_value insert_at store place is_at
  update-store [] n value = refl
  update-store (e ∷ es) n value = elim (Bool-cases (ltb e.index n)) [
    | inl below ↦ elim (Bool-cases (is_at es n (place es n))) [
      | inl found ↦ ground (arith, below, found, ap (◌∷◌ e) (update-store es n value))
      | inr missing ↦ ground (arith, below, missing, ap (◌∷◌ e) (update-store es n value))
    ]
    | inr above ↦ ground (arith, above)
  ]

  store-Above :
      (es : List (SparseEntry A)) (n m : ℕ) (value : A)
      → m < n
      → Above m es
      → Above m (store es n value)
  unfolding store Above
  store-Above [] n m value lt h = ground (arith, lt)
  store-Above (e ∷ es) n m value lt h = ground (arith, lt, h, store-Above es n m value)

  pub Above-mono : (es : List (SparseEntry A)) (n m : ℕ) → Above n es → m ≤ n → Above m es
  unfolding Above
  Above-mono [] n m h le = tt
  Above-mono (e ∷ es) n m h le = (omega arith, Above-mono es n m h.1 le)

  pub store-Sorted :
      (es : List (SparseEntry A)) (n : ℕ) (value : A) → Sorted es → Sorted (store es n value)
  unfolding store Sorted Above
  store-Sorted [] n value h = (tt, tt)
  store-Sorted (e ∷ es) n value h = ground (
    arith,
    h,
    store-Sorted es n value h.1,
    store-Above es n e.index value,
    Above-mono es e.index n,
  )

  pub find-store_same :
      (es : List (SparseEntry A)) (n : ℕ) (value : A) → find (store es n value) n ≡ some value
  unfolding find store
  find-store_same [] n value = ground arith
  find-store_same (e ∷ es) n value = ground (arith, find-store_same es n value)

  pub find-store_other :
      (es : List (SparseEntry A)) (n m : ℕ) (value : A)
      → m ≢ n
      → find (store es n value) m ≡ find es m
  unfolding find store
  find-store_other [] n m value ne = ground (arith, ne)
  find-store_other (e ∷ es) n m value ne = ground (arith, ne, find-store_other es n m value ne)

  -- What stands at a place, if that was found.
  found_value : List (SparseEntry A) → ℕ × Bool → Option A
  found_value es p =
      if not (p.1) then none else elim (get_elem? es p.0) [ none ↦ none | some e ↦ some e.value ]

  found_value-find :
      (es : List (SparseEntry A)) (n : ℕ)
      → Sorted es
      → found_value es (place es n, is_at es n (place es n)) ≡ find es n
  unfolding found_value place is_at find Sorted
  found_value-find [] n h = refl
  found_value-find (e ∷ es) n h = elim (Bool-cases (ltb e.index n)) [
    | inl below ↦ ground (arith, below, found_value-find es n h.1)
    | inr above ↦ ground (arith, above, find-Above es e.index n h.0)
  ]

  -- A lookup at any index gives what the walk finds.
  pub get-find : (a : SparseArray A) (n : ℕ) → Sorted a.entries → get a (pos n) ≡ find a.entries n
  unfolding get found_value
  get-find a n h = rw (position-place a.entries n h) (found_value-find a.entries n h)

  abbrev made : List (SparseEntry A) → Result SparseError (SparseArray A)
  made es = ok (record { entries = es })

  updated :
      (es : List (SparseEntry A)) (n : ℕ) (value : A) (p : ℕ × Bool)
      → (if p.1 then made (set_value es p.0 value) else made (insert_at es p.0 n value))
        ≡ made (update es n value p)
  unfolding update
  updated es n value (i, true) = refl
  updated es n value (i, false) = refl

  -- An update at any index is the walk's.
  with_value-store :
      (a : SparseArray A) (n : ℕ) (value : A)
      → Sorted a.entries
      → with_value a (pos n) value ≡ ok (record { entries = store a.entries n value })
  unfolding with_value
  with_value-store a n value h =
      updated a.entries n value (position a.entries n)
      ∙ ap (λ p. made (update a.entries n value p)) (position-place a.entries n h)
      ∙ ap made (update-store a.entries n value)

  -- `b` is sorted, holds the value at the index, and is as `a` at every other.
  pub record IsStored (n : ℕ) (value : A) (a b : SparseArray A) : Type ℓ where
    pub sorted : Sorted b.entries
    pub same : get b (pos n) ≡ some value
    pub other : (m : ℕ) → m ≢ n → get b (pos m) ≡ get a (pos m)

  -- On a sorted array, With at an index that is not below zero returns an array; that one is sorted,
  -- Get finds the value at the index, and at every other index it finds what it found before.
  pub with_value-IsStored :
      (a : SparseArray A) (n : ℕ) (value : A)
      → Sorted a.entries
      → (b : SparseArray A) × (with_value a (pos n) value ≡ ok b) × IsStored n value a b
  with_value-IsStored a n value h =
      let b : SparseArray A = record { entries = store a.entries n value } in
      let sorted = store-Sorted a.entries n value h in
      (
        b,
        with_value-store a n value h,
        record {
          sorted = sorted;
          same = get-find b n sorted ∙ find-store_same a.entries n value;
          other = λ m ne.
              get-find b m sorted ∙ find-store_other a.entries n m value ne ∙ sym (get-find a m h);
        },
      )
