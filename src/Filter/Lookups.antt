-- ===== src/Filter/Lookups.antt =====
-- A lookup comes apart into the path and the operator that it was joined from.
use mathlib.Core.Bool.{not}
use libtmux_go.Base.{
  ◌≡◌, refl, ap, ◌∙◌, inl, inr, Bool, true, false, ◌&&◌, List, [], ◌∷◌, ◌++◌, Bytes, codes, length,
  bytes_eq, bytes_eq_iff, ◌==◌, arith, Bool-cases, All,
}
use libtmux_go.Base.Result.{ok}
use libtmux_go.Filter.{any, all, split_path, operators, unsnoc, split_operator, split_lookup}
use libtmux_go.Filter.Ranges.{both}

-- The segments that a path can hold: not empty, no two underscores side by side, none at the end.
abbrev pub is_segment : Bytes → Bool
is_segment [] = false
is_segment (c ∷ []) = not (c == b'_')
is_segment (c ∷ x ∷ s) = not (c == b'_' && x == b'_') && is_segment (x ∷ s)

-- The segments with two underscores between them.
abbrev pub join : Bytes → List Bytes → Bytes
join x [] = x
join x (y ∷ ys) = x ++ b'_' ∷ b'_' ∷ join y ys

split_path-segment : (x : Bytes) → is_segment x ≡ true → split_path x ≡ x ∷ []
unfolding split_path
split_path-segment [] h = cc
split_path-segment (c ∷ []) h = refl
split_path-segment (c ∷ x ∷ s) h = elim (Bool-cases (c == b'_' && x == b'_')) [
  | inl two ↦ absurd (let no : ⊥ = (let bad = rw two at h in cc) in no)
  | inr other ↦ rw (other, split_path) (rw (split_path-segment (x ∷ s) (rw other at h)) refl)
]

split_path-append :
    (x rest : Bytes)
    → is_segment x ≡ true
    → split_path (x ++ b'_' ∷ b'_' ∷ rest) ≡ x ∷ split_path rest
unfolding split_path
split_path-append [] rest h = cc
split_path-append (c ∷ []) rest h = elim (Bool-cases (c == b'_')) [
  | inl two ↦ absurd (let no : ⊥ = (let bad = rw two at h in cc) in no)
  | inr other ↦ rw (other, split_path) refl
]
split_path-append (c ∷ x ∷ s) rest h = elim (Bool-cases (c == b'_' && x == b'_')) [
  | inl two ↦ absurd (let no : ⊥ = (let bad = rw two at h in cc) in no)
  | inr other ↦ rw (other, split_path) (rw (split_path-append (x ∷ s) rest (rw other at h)) refl)
]

split_path-join :
    (x : Bytes) (xs : List Bytes)
    → All (λ s. is_segment s ≡ true) (x ∷ xs)
    → split_path (join x xs) ≡ x ∷ xs
split_path-join x [] (h, t) = split_path-segment x h
split_path-join x (y ∷ ys) (h, more) =
    split_path-append x (join y ys) h ∙ ap (◌∷◌ x) (split_path-join y ys more)

unsnoc-snoc :
    (x : Bytes) (xs : List Bytes) (last : Bytes) → unsnoc x (xs ++ last ∷ []) ≡ (x ∷ xs, last)
unsnoc-snoc x [] last = refl
unsnoc-snoc x (y ∷ ys) last = rw (unsnoc-snoc y ys last) refl

all-any :
    (f : Bytes → Bool) (x : Bytes) (xs : List Bytes)
    → all f xs ≡ true
    → any (bytes_eq x) xs ≡ true
    → f x ≡ true
all-any f x [] h there = cc
all-any f x (y ∷ ys) h there =
    let (first, more) = both _ _ h in
    elim (Bool-cases (bytes_eq x y)) [
      | inl here ↦ ap f ((bytes_eq_iff x y).0 here) ∙ first
      | inr behind ↦ all-any f x ys more (rw behind at there)
    ]

-- No operator but the one by another name is `eq`.
not_eq : (op : Bytes) → any (bytes_eq op) operators ≡ true → bytes_eq op (codes "eq") ≡ false
not_eq op known =
    let other = all-any (λ o. not (bytes_eq o (codes "eq"))) op operators refl known in
    elim (Bool-cases (bytes_eq op (codes "eq"))) [
      | inl same ↦ absurd (let no : ⊥ = (let bad = rw same at other in cc) in no)
      | inr differs ↦ differs
    ]

segments-snoc :
    (xs : List Bytes) (last : Bytes)
    → All (λ s. is_segment s ≡ true) xs
    → is_segment last ≡ true
    → All (λ s. is_segment s ≡ true) (xs ++ last ∷ [])
segments-snoc [] last h h_last = (h_last, tt)
segments-snoc (x ∷ xs) last (h, more) h_last = (h, segments-snoc xs last more h_last)

no_empty : (xs : List Bytes) → All (λ s. is_segment s ≡ true) xs → any (bytes_eq []) xs ≡ false
no_empty [] h = refl
no_empty ([] ∷ xs) (h, more) = cc
no_empty ((c ∷ s) ∷ xs) (h, more) = no_empty xs more

join-length :
    (x : Bytes) (xs : List Bytes) → is_segment x ≡ true → (length (join x xs) == 0) ≡ false
join-length [] xs h = cc
join-length (c ∷ s) [] h = ground arith
join-length (c ∷ s) (y ∷ ys) h = ground arith

-- Segments that are joined with an operator behind them are read back as the path and the operator.
-- Without one, where the last segment is neither an operator nor `eq`, they are read back as the path
-- and `exact`.
pub split_lookup-join :
    (x : Bytes) (xs : List Bytes)
    → All (λ s. is_segment s ≡ true) (x ∷ xs)
    → ((op : Bytes)
        → any (bytes_eq op) operators ≡ true
        → split_lookup (join x (xs ++ op ∷ [])) ≡ ok (x ∷ xs, op))
      × (any (bytes_eq (unsnoc x xs).1) (codes "eq" ∷ operators) ≡ false
          → split_lookup (join x xs) ≡ ok (x ∷ xs, codes "exact"))
unfolding split_lookup
split_lookup-join x xs (h, more) = (operated, default)
  where
    operated :
        (op : Bytes)
        → any (bytes_eq op) operators ≡ true
        → split_lookup (join x (xs ++ op ∷ [])) ≡ ok (x ∷ xs, op)
    operated op known =
        let segments = segments-snoc xs op more (all-any is_segment op operators refl known) in
        let split = split_path-join x (xs ++ op ∷ []) (h, segments) in
        rw
          (
            join-length x (xs ++ op ∷ []) h,
            split,
            no_empty (x ∷ (xs ++ op ∷ [])) (h, segments),
            unsnoc-snoc x xs op,
            not_eq op known,
            known,
            split_lookup,
            split_operator,
          )
          (ground arith)

    default :
        any (bytes_eq (unsnoc x xs).1) (codes "eq" ∷ operators) ≡ false
        → split_lookup (join x xs) ≡ ok (x ∷ xs, codes "exact")
    default plain = elim (Bool-cases (bytes_eq (unsnoc x xs).1 (codes "eq"))) [
      | inl same ↦ absurd (let no : ⊥ = (let bad = rw same at plain in cc) in no)
      | inr differs ↦
          (let unknown : any (bytes_eq (unsnoc x xs).1) operators ≡ false = rw differs at plain in
            rw
              (
                join-length x xs h,
                split_path-join x xs (h, more),
                no_empty (x ∷ xs) (h, more),
                differs,
                unknown,
                split_lookup,
                split_operator,
              )
              (ground arith))
    ]
