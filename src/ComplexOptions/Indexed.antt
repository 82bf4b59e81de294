-- ===== src/ComplexOptions/Indexed.antt =====
-- The map of a table points at its entries, and lookup and set are those of the entries alone.
use libtmux_go.Base.{
  ℕ, suc, ◌≡◌, ◌≢◌, refl, ap, ◌∙◌, sym, Bool, true, false, Option, none, some, List, [], ◌∷◌, ◌++◌,
  Bytes, length, get_elem?, bytes_eq, bytes_eq_iff, bytes_eq_refl, bytes_eq_ne, subst,
  if◌then◌else◌, arith, Bool-cases, Option-cases, inl, inr,
}
use libtmux_go.ComplexOptions.{Table, map_get, lookup, replace, set, new_table}

abbrev shifted : Option ℕ → Option ℕ
shifted none = none
shifted (some i) = some (suc i)

-- The place of a name after an update, from the one before.
or_new : ℕ → Bool → Option ℕ → Option ℕ
or_new n same (some i) = some i
or_new n true none = some n
or_new n false none = none

or_new-false : (n : ℕ) (o : Option ℕ) → or_new n false o ≡ o
unfolding or_new
or_new-false n none = refl
or_new-false n (some i) = refl

shifted-or_new :
    (n : ℕ) (b : Bool) (o : Option ℕ) → shifted (or_new n b o) ≡ or_new (suc n) b (shifted o)
unfolding or_new
shifted-or_new n b (some i) = refl
shifted-or_new n true none = refl
shifted-or_new n false none = refl

module _ {ℓ} {V : Type ℓ} where
  -- The place of the first entry with a name.
  unfoldable pub place : List (Bytes × V) → Bytes → Option ℕ
  place [] name = none
  place (e ∷ es) name = if bytes_eq e.0 name then some 0 else shifted (place es name)

  -- The value of the first entry with a name.
  unfoldable pub find : List (Bytes × V) → Bytes → Option V
  find [] name = none
  find (e ∷ es) name = if bytes_eq e.0 name then some e.1 else find es name

  -- The entries with a name's value replaced where the name stands, or with the name at the end.
  unfoldable pub store : List (Bytes × V) → Bytes → V → List (Bytes × V)
  store [] name value = (name, value) ∷ []
  store (e ∷ es) name value =
      let rest = store es name value in if bytes_eq e.0 name then (e.0, value) ∷ es else e ∷ rest

  abbrev pub IsIndexed : Table V → Type 0
  IsIndexed t = (name : Bytes) → map_get t.by_name name ≡ place t.entries name

  value_at : List (Bytes × V) → Option ℕ → Option V
  value_at es none = none
  value_at es (some i) = elim (get_elem? es i) [ none ↦ none | some e ↦ some e.1 ]

  value_at-shifted :
      (e : Bytes × V) (es : List (Bytes × V)) (o : Option ℕ)
      → value_at (e ∷ es) (shifted o) ≡ value_at es o
  unfolding value_at
  value_at-shifted e es none = refl
  value_at-shifted e es (some i) = refl

  value_at-place :
      (es : List (Bytes × V)) (name : Bytes) → value_at es (place es name) ≡ find es name
  unfolding value_at place find
  value_at-place [] name = refl
  value_at-place (e ∷ es) name = elim (Bool-cases (bytes_eq e.0 name)) [
    | inl same ↦ rw same refl
    | inr differs ↦ rw differs (value_at-shifted e es (place es name) ∙ value_at-place es name)
  ]

  stored_at : List (Bytes × V) → Bytes → V → Option ℕ → List (Bytes × V)
  stored_at es name value (some i) = replace es i value
  stored_at es name value none = es ++ (name, value) ∷ []

  stored_at-shifted :
      (e : Bytes × V) (es : List (Bytes × V)) (name : Bytes) (value : V) (o : Option ℕ)
      → stored_at (e ∷ es) name value (shifted o) ≡ e ∷ stored_at es name value o
  unfolding stored_at replace
  stored_at-shifted e es name value none = refl
  stored_at-shifted e es name value (some i) = refl

  stored_at-place :
      (es : List (Bytes × V)) (name : Bytes) (value : V)
      → stored_at es name value (place es name) ≡ store es name value
  unfolding stored_at place store replace
  stored_at-place [] name value = refl
  stored_at-place (e ∷ es) name value = elim (Bool-cases (bytes_eq e.0 name)) [
    | inl same ↦ rw same refl
    | inr differs ↦ rw differs (
        stored_at-shifted e es name value (place es name)
        ∙ ap (◌∷◌ e) (stored_at-place es name value))
  ]

  pub find-store_same :
      (es : List (Bytes × V)) (name : Bytes) (value : V)
      → find (store es name value) name ≡ some value
  unfolding find store
  find-store_same [] name value = rw (bytes_eq_refl name) refl
  find-store_same (e ∷ es) name value = ground (arith, find-store_same es name value)

  pub find-store_other :
      (es : List (Bytes × V)) (name other : Bytes) (value : V)
      → other ≢ name
      → find (store es name value) other ≡ find es other
  unfolding find store
  find-store_other [] name other value ne = rw (bytes_eq_ne name other (λ e. ne (sym e))) refl
  find-store_other (e ∷ es) name other value ne = elim (Bool-cases (bytes_eq e.0 name)) [
    | inl same ↦
        let apart = bytes_eq_ne e.0 other (λ q. ne (sym q ∙ (bytes_eq_iff e.0 name).0 same)) in
        rw (same, apart) refl
    | inr differs ↦ ground (differs, find-store_other es name other value ne, arith)
  ]

  place-store :
      (es : List (Bytes × V)) (name : Bytes) (value : V) (other : Bytes)
      → place (store es name value) other
        ≡ or_new (length es) (bytes_eq name other) (place es other)
  unfolding place store or_new
  place-store [] name value other = elim (Bool-cases (bytes_eq name other)) [
    | inl same ↦ rw same refl
    | inr differs ↦ rw differs refl
  ]
  place-store (e ∷ es) name value other = elim (Bool-cases (bytes_eq e.0 other)) [
    | inl there ↦ elim (Bool-cases (bytes_eq e.0 name)) [
      | inl same ↦ rw (same, there) refl
      | inr differs ↦ rw (differs, there) refl
    ]
    | inr elsewhere ↦ elim (Bool-cases (bytes_eq e.0 name)) [
      | inl same ↦
          let apart : bytes_eq name other ≡ false =
            subst (λ n. bytes_eq n other ≡ false) ((bytes_eq_iff e.0 name).0 same) elsewhere in
          rw (same, elsewhere, apart)
            (sym (or_new-false (suc (length es)) (shifted (place es other))))
      | inr differs ↦
          rw (differs, elsewhere)
            (ap shifted (place-store es name value other)
              ∙ shifted-or_new (length es) (bytes_eq name other) (place es other))
    ]
  ]

  pub set-known :
      (t : Table V) (name : Bytes) (value : V) {i : ℕ}
      → map_get t.by_name name ≡ some i
      → set t name value ≡ record t { entries = replace t.entries i value }
  unfolding set
  set-known t name value e = rw (e, set) refl

  pub set-fresh :
      (t : Table V) (name : Bytes) (value : V)
      → map_get t.by_name name ≡ none
      → set t name value ≡ record {
        entries = t.entries ++ (name, value) ∷ [];
        by_name = (name, length t.entries) ∷ t.by_name;
      }
  unfolding set
  set-fresh t name value e = rw (e, set) refl

  set-stored_at :
      (t : Table V) (name : Bytes) (value : V)
      → (set t name value).entries ≡ stored_at t.entries name value (map_get t.by_name name)
  unfolding stored_at
  set-stored_at t name value = elim (Option-cases (map_get t.by_name name)) [
    | inl fresh ↦ ap (λ u. u.entries) (set-fresh t name value fresh) ∙ rw fresh refl
    | inr (i, known) ↦ ap (λ u. u.entries) (set-known t name value known) ∙ rw known refl
  ]

  pub set-store :
      (t : Table V) (name : Bytes) (value : V)
      → IsIndexed t
      → (set t name value).entries ≡ store t.entries name value
  set-store t name value h =
      set-stored_at t name value
      ∙ ap (stored_at t.entries name value) (h name)
      ∙ stored_at-place t.entries name value

  map_get-set :
      (t : Table V) (name : Bytes) (value : V) (other : Bytes)
      → IsIndexed t
      → map_get (set t name value).by_name other
        ≡ or_new (length t.entries) (bytes_eq name other) (place t.entries other)
  unfolding map_get or_new
  map_get-set t name value other h = elim (Bool-cases (bytes_eq name other)) [
    | inl same ↦
        let p = h name ∙ ap (place t.entries) ((bytes_eq_iff name other).0 same) in
        elim (Option-cases (map_get t.by_name name)) [
          | inl fresh ↦
              ap (λ u. map_get u.by_name other) (set-fresh t name value fresh)
              ∙ rw (same, sym p ∙ fresh) refl
          | inr (i, known) ↦
              ap (λ u. map_get u.by_name other) (set-known t name value known)
              ∙ h other
              ∙ rw (same, sym p ∙ known) refl
        ]
    | inr differs ↦
        let kept = h other ∙ sym (or_new-false (length t.entries) (place t.entries other)) in
        elim (Option-cases (map_get t.by_name name)) [
          | inl fresh ↦
              ap (λ u. map_get u.by_name other) (set-fresh t name value fresh) ∙ rw differs kept
          | inr (i, known) ↦
              ap (λ u. map_get u.by_name other) (set-known t name value known) ∙ rw differs kept
        ]
  ]

  pub set-IsIndexed :
      (t : Table V) (name : Bytes) (value : V) → IsIndexed t → IsIndexed (set t name value)
  set-IsIndexed t name value h other =
      map_get-set t name value other h
      ∙ sym (place-store t.entries name value other)
      ∙ ap (λ es. place es other) (sym (set-store t name value h))

  pub lookup-find : (t : Table V) (name : Bytes) → IsIndexed t → lookup t name ≡ find t.entries name
  unfolding lookup value_at
  lookup-find t name h =
      from_elim (map_get t.by_name name)
      ∙ ap (value_at t.entries) (h name)
      ∙ value_at-place t.entries name
    where
      from_elim :
          (o : Option ℕ)
          → elim o [
            | none ↦ none
            | some i ↦ elim (get_elem? t.entries i) [ none ↦ none | some e ↦ some e.1 ]
          ]
            ≡ value_at t.entries o
      from_elim none = refl
      from_elim (some i) = refl

  -- After a set, a lookup finds the value under its name, and under any other what it found before.
  pub lookup-set :
      (t : Table V) (name : Bytes) (value : V) (other : Bytes)
      → IsIndexed t
      → lookup (set t name value) other
        ≡ (if bytes_eq name other then some value else lookup t other)
  lookup-set t name value other h =
      lookup-find (set t name value) other (set-IsIndexed t name value h)
      ∙ ap (λ es. find es other) (set-store t name value h)
      ∙ elim (Bool-cases (bytes_eq name other)) [
        | inl same ↦ rw same (
            subst (λ o. find (store t.entries name value) o ≡ some value)
              ((bytes_eq_iff name other).0 same) (find-store_same t.entries name value))
        | inr differs ↦ rw differs (
            find-store_other t.entries name other value (apart differs)
            ∙ sym (lookup-find t other h))
      ]
    where
      apart : bytes_eq name other ≡ false → other ≢ name
      apart differs e = ground (arith, differs, (bytes_eq_iff name other).1 (sym e))

pub new_table-IsIndexed {ℓ} : (V : Type ℓ) → IsIndexed {V = V} new_table
unfolding map_get place
new_table-IsIndexed V name = refl
