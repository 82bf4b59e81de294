-- ===== src/Filter/Ranges.antt =====
-- The bounds of integer criteria, and the ints between them.

use libtmux_go.Base.{
  ℕ, ◌+◌, ◌-◌, ◌≤◌, ◌≡◌, ◌↔◌, refl, ap₂, sym, ◌∙◌, Bool, true, false, ◌&&◌, Option, none, some, ltb,
  leb, if◌then◌else◌, arith,
}
use libtmux_go.Filter.{
  all, holds, IntCriteria, int_max, allowed, Bound, unbounded, set_lower, set_upper, lower_bound,
  upper_bound, range_possible,
}

abbrev pub is_above : Bound → ℕ → Bool
is_above b v = if b.is_set then (if b.is_strict then ltb b.value v else leb b.value v) else true

abbrev pub is_below : Bound → ℕ → Bool
is_below b v = if b.is_set then (if b.is_strict then ltb v b.value else leb v b.value) else true

set_lower-true :
    (o : Option ℕ) (b : Bound) (v : ℕ)
    → is_above (set_lower true o b) v ≡ (is_above b v && holds (λ x. ltb x v) o)
unfolding set_lower
set_lower-true none b v = ground arith
set_lower-true (some x) b v = ground arith

set_lower-false :
    (o : Option ℕ) (b : Bound) (v : ℕ)
    → is_above (set_lower false o b) v ≡ (is_above b v && holds (λ x. leb x v) o)
unfolding set_lower
set_lower-false none b v = ground arith
set_lower-false (some x) b v = ground arith

set_upper-true :
    (o : Option ℕ) (b : Bound) (v : ℕ)
    → is_below (set_upper true o b) v ≡ (is_below b v && holds (λ x. ltb v x) o)
unfolding set_upper
set_upper-true none b v = ground arith
set_upper-true (some x) b v = ground arith

set_upper-false :
    (o : Option ℕ) (b : Bound) (v : ℕ)
    → is_below (set_upper false o b) v ≡ (is_below b v && holds (λ x. leb v x) o)
unfolding set_upper
set_upper-false none b v = ground arith
set_upper-false (some x) b v = ground arith

-- The least int above a lower bound, or else the greatest below an upper one.
abbrev pub between : Bound → Bound → ℕ
between l u =
    if l.is_set
    then (if l.is_strict then l.value + 1 else l.value)
    else (if u.is_set then (if u.is_strict then u.value - 1 else u.value) else 0)

pub range_possible-between :
    (l u : Bound)
    → l.value ≤ int_max
    → u.value ≤ int_max
    → range_possible l u ≡ true
    → (between l u ≤ int_max)
      × (is_above l (between l u) ≡ true)
      × (is_below u (between l u) ≡ true)
unfolding range_possible
range_possible-between l u hl hu h =
    (ground (arith, hl, hu, h), ground (arith, hl, hu, h), ground (arith, hl, hu, h))

pub range_possible_complete :
    (l u : Bound) (v : ℕ)
    → v ≤ int_max
    → is_above l v ≡ true
    → is_below u v ≡ true
    → range_possible l u ≡ true
unfolding range_possible
range_possible_complete l u v hv above below = ground (arith, hv, above, below)

regroup : (a b c : Bool) → (a && b && c) ≡ (a && (b && c))
regroup false b c = refl
regroup true b c = refl

-- The ints that the criteria allow are those between the bounds.
pub allowed-bounds :
    (c : IntCriteria) (v : ℕ)
    → allowed c v ≡ (is_above (lower_bound c) v && is_below (upper_bound c) v)
unfolding allowed
allowed-bounds c v =
    let l1 = set_lower-false c.minimum unbounded v in
    let l2 = set_lower-true c.gt (set_lower false c.minimum unbounded) v in
    let l3 = set_lower-false c.gte (set_lower true c.gt (set_lower false c.minimum unbounded)) v in
    let u1 = set_upper-true c.lt unbounded v in
    let u2 = set_upper-false c.lte (set_upper true c.lt unbounded) v in
    rw (l3, l2, l1, u2, u1)
      (regroup
        (holds (λ x. leb x v) c.minimum && holds (λ x. ltb x v) c.gt && holds (λ x. leb x v) c.gte)
        (holds (λ x. ltb v x) c.lt) (holds (λ x. leb v x) c.lte))

set_lower-le :
    (strict : Bool) (o : Option ℕ) (b : Bound)
    → holds (λ x. leb x int_max) o ≡ true
    → b.value ≤ int_max
    → (set_lower strict o b).value ≤ int_max
unfolding set_lower
set_lower-le strict none b fits h = h
set_lower-le strict (some x) b fits h = ground (arith, fits, h)

set_upper-le :
    (strict : Bool) (o : Option ℕ) (b : Bound)
    → holds (λ x. leb x int_max) o ≡ true
    → b.value ≤ int_max
    → (set_upper strict o b).value ≤ int_max
unfolding set_upper
set_upper-le strict none b fits h = h
set_upper-le strict (some x) b fits h = ground (arith, fits, h)

-- Every criterion is an int.
pub record IsIntCriteria (c : IntCriteria) : Type 0 where
  pub exact_fits : holds (λ x. leb x int_max) c.exact ≡ true
  pub values_fit : holds (all (λ x. leb x int_max)) c.values ≡ true
  pub gt_fits : holds (λ x. leb x int_max) c.gt ≡ true
  pub gte_fits : holds (λ x. leb x int_max) c.gte ≡ true
  pub lt_fits : holds (λ x. leb x int_max) c.lt ≡ true
  pub lte_fits : holds (λ x. leb x int_max) c.lte ≡ true
  pub minimum_fits : holds (λ x. leb x int_max) c.minimum ≡ true

pub both : (a b : Bool) → (a && b) ≡ true → (a ≡ true) × (b ≡ true)
both false b h = cc
both true b h = (refl, h)

-- The range between the bounds is found possible exactly where an int is allowed.
pub range-allowed :
    (c : IntCriteria)
    → IsIntCriteria c
    → (range_possible (lower_bound c) (upper_bound c) ≡ true)
      ↔ ((v : ℕ) × (v ≤ int_max) × (allowed c v ≡ true))
range-allowed c fits =
    let lower : (lower_bound c).value ≤ int_max = set_lower-le false c.gte _ fits.gte_fits (
      set_lower-le true c.gt _ fits.gt_fits
        (set_lower-le false c.minimum unbounded fits.minimum_fits (omega arith))) in
    let upper : (upper_bound c).value ≤ int_max =
      set_upper-le false c.lte _ fits.lte_fits
        (set_upper-le true c.lt unbounded fits.lt_fits (omega arith)) in
    (
      (λ h.
          (let (small, above, below) =
              range_possible-between (lower_bound c) (upper_bound c) lower upper h in
            (
              between (lower_bound c) (upper_bound c),
              small,
              allowed-bounds c _ ∙ ap₂ ◌&&◌ above below,
            ))),
      λ (v, small, meets).
          (let (above, below) = both _ _ (sym (allowed-bounds c v) ∙ meets) in
            range_possible_complete (lower_bound c) (upper_bound c) v small above below),
    )
