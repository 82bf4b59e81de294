-- ===== src/Plan/Grouping.antt =====
-- What `checkGrouping` accepts, and that both planners produce it.

use libtmux_go.Base.{
  ℕ, zero, suc, ◌+◌, ◌≡◌, ◌≢◌, refl, ap, ap₂, sym, ◌∙◌, ◌↔◌, false, none, some, List, [], ◌∷◌, ◌++◌,
  length, length-append, All, ◌==◌, arith, Bool-cases, inl, inr,
}
use libtmux_go.Base.Result.{Result-cases, ok, >>=-ok}
use libtmux_go.Plan.{Op, Dispatch, from, check_ops, check_dispatches, check_grouping}

-- The operations of dispatches, one after the other.
abbrev pub flatten : List Dispatch → List ℕ
flatten [] = []
flatten (d ∷ ds) = d.ops ++ flatten ds

abbrev pub IsFilled : Dispatch → Type 0
IsFilled d = d.ops ≢ []

pub length-from : (start n : ℕ) → length (from start n) ≡ n
length-from start zero = refl
length-from start (suc n) = ap suc (length-from (start + 1) n)

pub from-eq : {a b m n : ℕ} → a ≡ b → m ≡ n → from a m ≡ from b n
from-eq p q = rw (p, q) refl

pub from-append : (start m n : ℕ) → from start m ++ from (start + m) n ≡ from start (m + n)
from-append start zero n = from-eq (omega arith) (omega arith)
from-append start (suc m) n =
    let next : from (start + 1) m ++ from (start + suc m) n
        ≡ from (start + 1) m ++ from (start + 1 + m) n =
      ap (◌++◌ (from (start + 1) m)) (from-eq (omega arith) refl) in
    ap (◌∷◌ start) (next ∙ from-append (start + 1) m n)
    ∙ from-eq {a = start} {b = start} {m = suc (m + n)} {n = suc m + n} refl (omega arith)

from-split :
    (xs ys : List ℕ) (e : ℕ)
    → xs ++ ys ≡ from e (length (xs ++ ys))
    → (xs ≡ from e (length xs)) × (ys ≡ from (e + length xs) (length ys))
from-split [] ys e h = (refl, h ∙ from-eq (omega arith) refl)
from-split (x ∷ xs) ys e h =
    let head : x ≡ e = cc in
    let tail : xs ++ ys ≡ from (e + 1) (length (xs ++ ys)) = cc in
    let (front, back) = from-split xs ys (e + 1) tail in
    (rw head (ap (◌∷◌ e) front), back ∙ from-eq (omega arith) refl)

length-ne : (xs : List ℕ) → (length xs == 0) ≡ false → xs ≢ []
length-ne [] h e = ground (arith, h)
length-ne (x ∷ xs) h e = cc

ne-length : (xs : List ℕ) → xs ≢ [] → (length xs == 0) ≡ false
ne-length [] h = absurd (h refl)
ne-length (x ∷ xs) h = ground arith

joined :
    (e : ℕ) (xs ys : List ℕ)
    → xs ≡ from e (length xs)
    → ys ≡ from (e + length xs) (length ys)
    → xs ++ ys ≡ from e (length (xs ++ ys))
joined e xs ys front back =
    ap₂ ◌++◌ front back
    ∙ from-append e (length xs) (length ys)
    ∙ from-eq refl (sym (length-append xs ys))

module _ {E : Type 0} where
  check_ops-ok :
      (e : ℕ) (xs : List ℕ) {f : ℕ}
      → check_ops {E = E} e xs ≡ ok f
      → (xs ≡ from e (length xs)) × (f ≡ e + length xs)
  unfolding check_ops
  check_ops-ok e [] {f} h = ground arith
  check_ops-ok e (x ∷ xs) {f} h = elim (Bool-cases (x == e)) [
    | inl same ↦
        let (front, last) = check_ops-ok (e + 1) xs {f = f} (rw same at h) in
        let here : x ≡ e = ground (arith, same) in (rw here (ap (◌∷◌ e) front), omega (arith, last))
    | inr other ↦ ground (arith, h, other)
  ]

  check_ops-from : (e n : ℕ) → check_ops {E = E} e (from e n) ≡ ok (e + n)
  unfolding check_ops
  check_ops-from e zero = ap ok (omega arith)
  check_ops-from e (suc n) = ground (arith, check_ops-from (e + 1) n)

  check_dispatches-ok :
      (e : ℕ) (ds : List Dispatch) {f : ℕ}
      → check_dispatches {E = E} e ds ≡ ok f
      → All IsFilled ds
        × (flatten ds ≡ from e (length (flatten ds)))
        × (f ≡ e + length (flatten ds))
  unfolding check_dispatches
  check_dispatches-ok e [] {f} h = (tt, refl, ground arith)
  check_dispatches-ok e (d ∷ ds) {f} h = elim (Bool-cases (length d.ops == 0)) [
    | inl empty ↦ absurd (let clash : ⊥ = ground (arith, h, empty) in clash)
    | inr some_ops ↦
        let (mid, e1, e2) =
          >>=-ok (λ next. check_dispatches next ds) (check_ops e d.ops) (rw some_ops at h) in
        let (front, m) = check_ops-ok e d.ops e1 in
        let (filled, tail, last) = check_dispatches-ok mid ds e2 in
        let total = length-append d.ops (flatten ds) in
        (
          (length-ne d.ops some_ops, filled),
          joined e d.ops (flatten ds) front (tail ∙ from-eq m refl),
          omega (arith, m, last, total),
        )
  ]

  check_dispatches-flatten :
      (e : ℕ) (ds : List Dispatch)
      → All IsFilled ds
      → flatten ds ≡ from e (length (flatten ds))
      → check_dispatches {E = E} e ds ≡ ok (e + length (flatten ds))
  unfolding check_dispatches
  check_dispatches-flatten e [] filled h = ap ok (omega arith)
  check_dispatches-flatten e (d ∷ ds) (ne, filled) h =
      let (front, tail) = from-split d.ops (flatten ds) e h in
      let start : check_ops {E = E} e d.ops ≡ ok (e + length d.ops) =
        ap (check_ops e) front ∙ check_ops-from e (length d.ops) in
      rw (ne-length d.ops ne) (
        rw start (
          check_dispatches-flatten (e + length d.ops) ds filled tail
          ∙ ap ok (omega (arith, length-append d.ops (flatten ds)))))

-- The grouping check passes exactly when no dispatch is empty, and the dispatches' operations, one
-- after the other, are all the plan's, each once, in the order in which they were recorded.
pub check_grouping_iff :
    {E R : Type 0} (ops : List (Op E R)) (ds : List Dispatch)
    → (check_grouping ops ds ≡ none) ↔ (All IsFilled ds × (flatten ds ≡ from 0 (length ops)))
unfolding check_grouping
check_grouping_iff {E} {R} ops ds = (accepted, complete)
  where
    accepted : check_grouping ops ds ≡ none → All IsFilled ds × (flatten ds ≡ from 0 (length ops))
    accepted h = elim (Result-cases (check_dispatches {E = E} 0 ds)) [
      | inl (f, e) ↦
          let (filled, flat, last) = check_dispatches-ok {E = E} 0 ds e in
          let whole : f ≡ length ops = ground (arith, rw (e, check_grouping) at h) in
          (filled, flat ∙ from-eq refl (omega (arith, last, whole)))
      | inr (x, e) ↦
          absurd
            (let clash : some x ≡ none = rw (e, check_grouping) at h in (let no : ⊥ = cc in no))
    ]

    complete : All IsFilled ds × (flatten ds ≡ from 0 (length ops)) → check_grouping ops ds ≡ none
    complete (filled, h) =
        let size : length (flatten ds) ≡ length ops = ap length h ∙ length-from 0 (length ops) in
        let run = check_dispatches-flatten {E = E} 0 ds filled (h ∙ from-eq refl (sym size)) in
        rw (run, check_grouping) (ground (arith, size))
