-- ===== src/Layout/Fuel.antt =====
-- The layout parser consumes its text, so the fuel that `count_cells` gives it never runs out.
use libtmux_go.Base.{
  ℕ, zero, suc, ◌+◌, ◌*◌, ◌<◌, ◌≤◌, ◌≡◌, Option, none, some, [], ◌∷◌, Bytes, length, ltb, arith,
  Option-cases, Bool-cases, inl, inr,
}
use libtmux_go.Layout.{
  take_byte, span_digits, number, geometry, pane_id, opening, Outcome, cells, refused, exhausted,
  cell, children, close_with, fuel_for, ◌then_◌,
}

take_byte-lt : (c : ℕ) (s : Bytes) {r : Bytes} → take_byte c s ≡ some r → length r < length s
unfolding take_byte
take_byte-lt c [] h = cc
take_byte-lt c (x ∷ s) h = ground arith

span_digits-le : (s : Bytes) → length (span_digits s).1 ≤ length s
unfolding span_digits
span_digits-le [] = omega arith
span_digits-le (c ∷ s) = ground (arith, span_digits-le s)

number-le : (s : Bytes) {r : Bytes} → number s ≡ some r → length r ≤ length s
unfolding number
number-le s {r} h = ground (arith, span_digits-le s)

-- A step that does not lengthen its text.
abbrev Shortens : (Bytes → Option Bytes) → Type 0
Shortens f = (s t : Bytes) → f s ≡ some t → length t ≤ length s

then_-le : (f g : Bytes → Option Bytes) → Shortens f → Shortens g → Shortens (λ s. f s then_ g)
then_-le f g first second s t h = elim (Option-cases (f s)) [
  | inl e ↦ ground arith
  | inr (u, e) ↦ ground (arith, first s u e, second u t)
]

number-Shortens : Shortens number
number-Shortens s t h = number-le s h

take_byte-Shortens : (c : ℕ) → Shortens (take_byte c)
take_byte-Shortens c s t h = omega (arith, take_byte-lt c s h)

geometry-Shortens : Shortens geometry
unfolding geometry
geometry-Shortens =
    then_-le _ number
      (then_-le _ (take_byte b',')
        (then_-le _ number
          (then_-le _ (take_byte b',')
            (then_-le _ number
              (then_-le number (take_byte b'x') number-Shortens (take_byte-Shortens b'x'))
              number-Shortens)
            (take_byte-Shortens b','))
          number-Shortens)
        (take_byte-Shortens b','))
      number-Shortens

pane_id-Shortens : Shortens pane_id
unfolding pane_id
pane_id-Shortens s t h = elim (Option-cases (take_byte b',' s)) [
  | inl e ↦ ground arith
  | inr (r, e) ↦ elim (Option-cases (number r)) [
    | inl q ↦ ground arith
    | inr (u, q) ↦ ground (arith, take_byte-lt b',' s e, number-le r q)
  ]
]

opening-lt : (s : Bytes) {c : ℕ} {r : Bytes} → opening s ≡ some (c, r) → length r < length s
unfolding opening
opening-lt [] h = cc
opening-lt (x ∷ s) h = ground arith

-- An outcome that is not the end of the fuel and leaves no more than the bound.
abbrev pub Settled : ℕ → Outcome → Type 0
Settled m (cells n r) = length r ≤ m
Settled m refused = Unit {0}
Settled m exhausted = ⊥

Settled-mono : {m k : ℕ} (o : Outcome) → m ≤ k → Settled m o → Settled k o
Settled-mono (cells n r) bound h = omega arith
Settled-mono refused bound h = tt
Settled-mono exhausted bound h = h

close_with-Settled : (c n : ℕ) (s : Bytes) → Settled (length s) (close_with c n s)
close_with-Settled c n s = elim (Option-cases (take_byte c s)) [
  | inl e ↦ rw (close_with, e) tt
  | inr (r, e) ↦ rw (close_with, e) (take_byte-Shortens c s r e)
]

-- What follows a child: the end of the list, or its other children.
after_child :
    (fuel depth closing n m : ℕ) (o : Outcome)
    → Settled m o
    → ((k : ℕ) (more : Bytes)
        → length more < m
        → Settled (length more) (children fuel depth closing k more))
    → Settled m (elim o [
      | exhausted ↦ exhausted
      | refused ↦ refused
      | cells k rest ↦ elim (take_byte b',' rest) [
        | some more ↦ children fuel depth closing (n + k) more
        | none ↦ close_with closing (n + k) rest
      ]
    ])
after_child fuel depth closing n m exhausted h next = h
after_child fuel depth closing n m refused h next = tt
after_child fuel depth closing n m (cells k rest) h next =
    elim (Option-cases (take_byte b',' rest)) [
      | inl e ↦ rw e (
          Settled-mono (close_with closing (n + k) rest) h
            (close_with-Settled closing (n + k) rest))
      | inr (more, e) ↦
          let shorter : length more < m = omega (arith, take_byte-lt b',' rest e) in
          rw e (
            Settled-mono (children fuel depth closing (n + k) more) (omega arith)
              (next (n + k) more shorter))
    ]

mutual
  unfolding cell

  pub cell-Settled :
      (fuel depth : ℕ) (s : Bytes) → 2 * length s < fuel → Settled (length s) (cell fuel depth s)
  cell-Settled zero depth s enough = omega arith
  cell-Settled (suc fuel) depth s enough = elim (Bool-cases (ltb 256 depth)) [
    | inl deep ↦ rw deep tt
    | inr shallow ↦ elim (Option-cases (geometry s)) [
      | inl e ↦ rw (shallow, e) tt
      | inr (r, e) ↦ elim (Option-cases (pane_id r)) [
        | inl q ↦ rw (shallow, e, q) tt
        | inr (rest, q) ↦
            let kept : length rest ≤ length s =
              omega (arith, geometry-Shortens s r e, pane_id-Shortens r rest q) in
            elim (Option-cases (opening rest)) [
              | inl v ↦ rw (shallow, e, q, v) kept
              | inr ((closing, inner), v) ↦
                  rw (shallow, e, q, v)
                    (Settled-mono (children fuel depth closing 0 inner)
                      (omega (arith, opening-lt rest v))
                      (children-Settled fuel depth closing 0 inner
                        (omega (arith, opening-lt rest v))))
            ]
      ]
    ]
  ]

  children-Settled :
      (fuel depth closing n : ℕ) (s : Bytes)
      → 2 * length s + 1 < fuel
      → Settled (length s) (children fuel depth closing n s)
  children-Settled zero depth closing n s enough = omega arith
  children-Settled (suc fuel) depth closing n s enough =
      after_child fuel depth closing n (length s) (cell fuel (depth + 1) s)
        (cell-Settled fuel (depth + 1) s (omega arith))
        (λ k more shorter. children-Settled fuel depth closing k more (omega arith))

-- On every text, the layout parser with the fuel that `count_cells` gives it comes to an end of its
-- own: it refuses the text, or counts cells and leaves no more than the text.
pub cell-fuel_for : (s : Bytes) → Settled (length s) (cell (fuel_for s) 0 s)
cell-fuel_for s = cell-Settled (fuel_for s) 0 s (omega arith)
