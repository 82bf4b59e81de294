-- ===== src/Filter/Ints.antt =====
-- Integer criteria are found possible exactly where an int meets them.

use libtmux_go.Base.{
  ℕ, ◌≤◌, ◌<◌, ◌≡◌, ◌↔◌, refl, ap₂, sym, inl, inr, Bool, true, ◌&&◌, Option, none, some, List, [],
  ◌∷◌, ltb, leb, ◌==◌, ==_iff, leb→le, arith, Bool-cases,
}
use libtmux_go.Filter.{
  any, all, holds, exact_in_possible, IntCriteria, int_max, allowed, int_possible,
}
use libtmux_go.Filter.Ranges.{both, IsIntCriteria, range-allowed}

-- A criterion that is set admits a value.
abbrev pub Within : {A : Type 0} → Option A → (A → Type 0) → Type 0
Within none P = Unit
Within (some a) P = P a

-- An int that meets every criterion.
pub record IsMatch (c : IntCriteria) (v : ℕ) : Type 0 where
  is_int : v ≤ int_max
  is_exact : Within c.exact (λ x. v ≡ x)
  is_value : Within c.values (λ xs. any (◌==◌ v) xs ≡ true)
  is_greater : Within c.gt (λ x. x < v)
  is_from : Within c.gte (λ x. x ≤ v)
  is_less : Within c.lt (λ x. v < x)
  is_to : Within c.lte (λ x. v ≤ x)
  is_least : Within c.minimum (λ x. x ≤ v)

pub holds-Within :
    {A : Type 0} (test : A → Bool) (P : A → Type 0) (o : Option A)
    → ((a : A) → (test a ≡ true) ↔ P a)
    → (holds test o ≡ true) ↔ Within o P
holds-Within test P none h = (λ e. tt, λ e. refl)
holds-Within test P (some a) h = h a

any-member :
    (f : ℕ → Bool) (xs : List ℕ)
    → any f xs ≡ true
    → all (λ x. leb x int_max) xs ≡ true
    → (v : ℕ) × (v ≤ int_max) × (f v ≡ true) × (any (◌==◌ v) xs ≡ true)
any-member f [] h fits = cc
any-member f (x ∷ xs) h fits = elim (Bool-cases (f x)) [
  | inl here ↦ (x, ground (arith, fits), here, ground arith)
  | inr behind ↦
      (let (v, small, met, there) = any-member f xs (rw behind at h) (ground (arith, fits)) in
        (v, small, met, ground (arith, there)))
]

member-any :
    (f : ℕ → Bool) (v : ℕ) (xs : List ℕ) → f v ≡ true → any (◌==◌ v) xs ≡ true → any f xs ≡ true
member-any f v [] h there = cc
member-any f v (x ∷ xs) h there = elim (Bool-cases (v == x)) [
  | inl here ↦ (let same = (==_iff v x).0 here in rw (sym same) (rw h refl))
  | inr behind ↦ elim (Bool-cases (f x)) [
    | inl met ↦ rw met refl
    | inr unmet ↦ rw unmet (member-any f v xs h (rw behind at there))
  ]
]

abbrev IsHit : IntCriteria → ℕ → Type 0
IsHit c v =
    (v ≤ int_max)
    × (allowed c v ≡ true)
    × (holds (λ e. v == e) c.exact ≡ true)
    × (holds (any (◌==◌ v)) c.values ≡ true)

abbrev with_lists : Option ℕ → Option (List ℕ) → IntCriteria → IntCriteria
with_lists e vs c = record c { exact = e; values = vs }

-- No value is below the least int that the criteria allow.
abbrev pub are_from_minimum : IntCriteria → Bool
are_from_minimum c = holds (all (λ v. holds (λ m. leb m v) c.minimum)) c.values

eq_refl : (n : ℕ) → (n == n) ≡ true
eq_refl n = ground arith

possible-IsHit :
    (e : Option ℕ) (vs : Option (List ℕ)) (c : IntCriteria)
    → IsIntCriteria (with_lists e vs c)
    → int_possible (with_lists e vs c) ≡ true
    → (are_from_minimum (with_lists e vs c) ≡ true) × (v : ℕ) × IsHit (with_lists e vs c) v
unfolding int_possible exact_in_possible
possible-IsHit (some e) none c fits h = elim (Bool-cases (allowed (with_lists (some e) none c) e)) [
  | inl met ↦ (refl, e, (leb→le e int_max fits.exact_fits, met, eq_refl e, refl))
  | inr unmet ↦ absurd (let no : ⊥ = (let bad = rw unmet at h in cc) in no)
]
possible-IsHit (some e) (some vs) c fits h = elim (Bool-cases (any (◌==◌ e) vs)) [
  | inr absent ↦ absurd (let no : ⊥ = (let bad = rw absent at h in cc) in no)
  | inl there ↦ elim (Bool-cases (allowed (with_lists (some e) (some vs) c) e)) [
    | inr unmet ↦ absurd (let no : ⊥ = (let bad = rw (there, unmet) at h in cc) in no)
    | inl met ↦ elim (Bool-cases (are_from_minimum (with_lists (some e) (some vs) c))) [
      | inl above ↦ (above, e, (leb→le e int_max fits.exact_fits, met, eq_refl e, there))
      | inr below ↦ absurd (let no : ⊥ = (let bad = rw (there, met, below) at h in cc) in no)
    ]
  ]
]
possible-IsHit none none c fits h =
    let (v, small, met) = (range-allowed (with_lists none none c) fits).0 h in
    (refl, v, (small, met, refl, refl))
possible-IsHit none (some vs) c fits h =
    elim (Bool-cases (are_from_minimum (with_lists none (some vs) c))) [
      | inl above ↦
          (let (v, small, met, there) =
              any-member (allowed (with_lists none (some vs) c)) vs (rw above at h)
                fits.values_fit in
            (above, v, (small, met, refl, there)))
      | inr below ↦ absurd (let no : ⊥ = (let bad = rw below at h in cc) in no)
    ]

hit-possible :
    (e : Option ℕ) (vs : Option (List ℕ)) (c : IntCriteria) (v : ℕ)
    → IsIntCriteria (with_lists e vs c)
    → are_from_minimum (with_lists e vs c) ≡ true
    → IsHit (with_lists e vs c) v
    → int_possible (with_lists e vs c) ≡ true
unfolding int_possible exact_in_possible allowed
hit-possible (some e) none c v fits above (small, met, exact, there) =
    rw (sym ((==_iff v e).0 exact), met) refl
hit-possible (some e) (some vs) c v fits above (small, met, exact, there) =
    rw (sym ((==_iff v e).0 exact), met, there, above) refl
hit-possible none none c v fits above (small, met, exact, there) =
    (range-allowed (with_lists none none c) fits).1 (v, small, met)
hit-possible none (some vs) c v fits above (small, met, exact, there) =
    rw above (member-any (allowed (with_lists none (some vs) c)) v vs met there)

hit-IsMatch : (c : IntCriteria) (v : ℕ) → IsHit c v → IsMatch c v
unfolding allowed
hit-IsMatch c v (small, met, exact, there) =
    let (m4, lte_met) = both _ _ met in
    let (m3, lt_met) = both _ _ m4 in
    let (m2, gte_met) = both _ _ m3 in
    let (least_met, gt_met) = both _ _ m2 in
    record {
      is_int = small;
      is_exact = (holds-Within (λ e. v == e) (λ x. v ≡ x) c.exact (λ x. ==_iff v x)).0 exact;
      is_value =
          (holds-Within (any (◌==◌ v)) (λ xs. any (◌==◌ v) xs ≡ true) c.values
              (λ xs. (λ h. h, λ h. h))).0
            there;
      is_greater = (holds-Within (λ x. ltb x v) (λ x. x < v) c.gt (λ x. ground arith)).0 gt_met;
      is_from = (holds-Within (λ x. leb x v) (λ x. x ≤ v) c.gte (λ x. ground arith)).0 gte_met;
      is_less = (holds-Within (λ x. ltb v x) (λ x. v < x) c.lt (λ x. ground arith)).0 lt_met;
      is_to = (holds-Within (λ x. leb v x) (λ x. v ≤ x) c.lte (λ x. ground arith)).0 lte_met;
      is_least =
          (holds-Within (λ x. leb x v) (λ x. x ≤ v) c.minimum (λ x. ground arith)).0 least_met;
    }

IsMatch-IsHit : (c : IntCriteria) (v : ℕ) → IsMatch c v → IsHit c v
unfolding allowed
IsMatch-IsHit c v m =
    let least_met =
      (holds-Within (λ x. leb x v) (λ x. x ≤ v) c.minimum (λ x. ground arith)).1 m.is_least in
    let gt_met =
      (holds-Within (λ x. ltb x v) (λ x. x < v) c.gt (λ x. ground arith)).1 m.is_greater in
    let gte_met =
      (holds-Within (λ x. leb x v) (λ x. x ≤ v) c.gte (λ x. ground arith)).1 m.is_from in
    let lt_met = (holds-Within (λ x. ltb v x) (λ x. v < x) c.lt (λ x. ground arith)).1 m.is_less in
    let lte_met = (holds-Within (λ x. leb v x) (λ x. v ≤ x) c.lte (λ x. ground arith)).1 m.is_to in
    (
      m.is_int,
      ap₂ ◌&&◌ (ap₂ ◌&&◌ (ap₂ ◌&&◌ (ap₂ ◌&&◌ least_met gt_met) gte_met) lt_met) lte_met,
      (holds-Within (λ e. v == e) (λ x. v ≡ x) c.exact (λ x. ==_iff v x)).1 m.is_exact,
      (holds-Within (any (◌==◌ v)) (λ xs. any (◌==◌ v) xs ≡ true) c.values
            (λ xs. (λ h. h, λ h. h))).1
          m.is_value,
    )

-- Criteria that are ints are found possible exactly where none of the listed values is below the
-- minimum, and some int meets them all: it is the exact value and a listed one, where these are given,
-- and stands within every bound that is given.
pub int_possible_iff :
    (c : IntCriteria)
    → IsIntCriteria c
    → (int_possible c ≡ true) ↔ ((are_from_minimum c ≡ true) × ((v : ℕ) × IsMatch c v))
int_possible_iff c fits = (
  (λ h.
      (let (above, v, hit) = possible-IsHit c.exact c.values c fits h in
        (above, (v, hit-IsMatch c v hit)))),
  λ (above, (v, met)). hit-possible c.exact c.values c v fits above (IsMatch-IsHit c v met),
)
