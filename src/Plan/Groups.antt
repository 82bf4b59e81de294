-- ===== src/Plan/Groups.antt =====
-- Folding groups nothing but operations that neither answer nor create, and leaves none out.

use libtmux_go.Base.{
  ℕ, zero, suc, ◌+◌, ◌≤◌, ◌≡◌, ◌≢◌, refl, ap, ap₂, subst, ◌∙◌, ◌⊎◌, Bool, true, false, none, some,
  List, [], ◌∷◌, ◌++◌, length, get_elem?, drop, length-drop, All, arith, Bool-cases, inl, inr,
}
use libtmux_go.Plan.{
  Op, Dispatch, from, chainable, sequential, chain_length, fold_from, folding_loop, folding,
  check_grouping,
}
use libtmux_go.Plan.Grouping.{
  flatten, IsFilled, check_grouping_iff, from-eq, from-append, length-from,
}

module _ {E R : Type 0} (all : List (Op E R)) where
  abbrev pub is_chainable_at : ℕ → Bool
  is_chainable_at i = elim (get_elem? all i) [ none ↦ false | some op ↦ chainable op ]

  -- A dispatch of one operation, or of operations that neither answer nor create.
  abbrev pub IsFair : Dispatch → Type 0
  IsFair d = (length d.ops ≤ 1) ⊎ All (λ i. is_chainable_at i ≡ true) d.ops

  nonempty : (xs : List ℕ) → 1 ≤ length xs → xs ≢ []
  nonempty [] h e = omega arith
  nonempty (x ∷ xs) h e = cc

  -- The operations from an index on.
  abbrev From : ℕ → List (Op E R) → Type 0
  From index ops = (k : ℕ) → get_elem? all (index + k) ≡ get_elem? ops k

  From-suc :
      (index : ℕ) (op : Op E R) (ops : List (Op E R)) → From index (op ∷ ops) → From (index + 1) ops
  From-suc index op ops h k = ap (get_elem? all) (omega arith) ∙ h (suc k)

  From-drop : (n index : ℕ) (ops : List (Op E R)) → From index ops → From (index + n) (drop n ops)
  From-drop zero index ops h k = ap (get_elem? all) (omega arith) ∙ h k
  From-drop (suc n) index [] h k = ap (get_elem? all) (omega arith) ∙ h (suc n + k)
  From-drop (suc n) index (op ∷ ops) h k =
      ap (get_elem? all) (omega arith) ∙ From-drop n (index + 1) ops (From-suc index op ops h) k

  chain-All :
      (index : ℕ) (ops : List (Op E R))
      → From index ops
      → All (λ i. is_chainable_at i ≡ true) (from index (chain_length ops))
  unfolding chain_length
  chain-All index [] h = tt
  chain-All index (op ∷ ops) h = elim (Bool-cases (chainable op)) [
    | inl chains ↦
        let at_index : get_elem? all index ≡ some op = ap (get_elem? all) (omega arith) ∙ h 0 in
        let here : is_chainable_at index ≡ true = rw (at_index, is_chainable_at) chains in
        rw chains (here, chain-All (index + 1) ops (From-suc index op ops h))
    | inr ends ↦ rw ends tt
  ]

  chain_length-le : (ops : List (Op E R)) → chain_length ops ≤ length ops
  unfolding chain_length
  chain_length-le [] = omega arith
  chain_length-le (op ∷ ops) = ground (arith, chain_length-le ops)

  chain_length-suc :
      (op : Op E R) (ops : List (Op E R))
      → chainable op ≡ true
      → chain_length (op ∷ ops) ≡ suc (chain_length ops)
  unfolding chain_length
  chain_length-suc op ops h = rw h refl

  -- The operations of one round.
  record IsRound (index : ℕ) (size : ℕ) (d : Dispatch) : Type 0 where
    count : ℕ
    positive : 1 ≤ count
    bounded : count ≤ size
    taken : d.ops ≡ from index count
    fair : IsFair d

  fold_from-IsRound :
      (index : ℕ) (op : Op E R) (ops : List (Op E R))
      → From index (op ∷ ops)
      → IsRound index (suc (length ops)) (fold_from index op ops)
  unfolding fold_from
  fold_from-IsRound index op ops h = elim (Bool-cases (chainable op)) [
    | inl chains ↦
        let front = chain-All index (op ∷ ops) h in
        rw chains (record {
          count = suc (chain_length ops);
          positive = omega arith;
          bounded = omega (arith, chain_length-le ops);
          taken = refl;
          fair = inr (
              subst (λ n. All (λ i. is_chainable_at i ≡ true) (from index n))
                (chain_length-suc op ops chains) front);
        })
    | inr ends ↦ rw ends (record {
      count = 1;
      positive = omega arith;
      bounded = omega arith;
      taken = refl;
      fair = inl (omega arith);
    })
  ]

  folding_loop-IsFair :
      (fuel index : ℕ) (ops : List (Op E R))
      → From index ops
      → length ops ≤ fuel
      → All IsFilled (folding_loop fuel index ops)
        × (flatten (folding_loop fuel index ops) ≡ from index (length ops))
        × All IsFair (folding_loop fuel index ops)
  unfolding folding_loop
  folding_loop-IsFair fuel index [] h enough = (tt, refl, tt)
  folding_loop-IsFair zero index (op ∷ ops) h enough =
      absurd (let no : ⊥ = omega (arith, enough) in no)
  folding_loop-IsFair (suc fuel) index (op ∷ ops) h enough =
      let d = fold_from index op ops in
      let round = fold_from-IsRound index op ops h in
      let size : length d.ops ≡ round.count =
        ap length round.taken ∙ length-from index round.count in
      let left = length-drop (length d.ops) (op ∷ ops) in
      let (filled, flat, fair) =
        folding_loop-IsFair fuel (index + length d.ops) (drop (length d.ops) (op ∷ ops))
          (From-drop (length d.ops) index (op ∷ ops) h)
          (omega (arith, left, size, round.positive, enough)) in
      (
        (nonempty d.ops (omega (arith, size, round.positive)), filled),
        (ap₂ ◌++◌ round.taken (flat ∙ from-eq (omega (arith, size)) refl)
            ∙ from-append index round.count (length (drop (length d.ops) (op ∷ ops)))
            ∙ from-eq {n = suc (length ops)} refl (omega (arith, left, size, round.bounded))),
        (round.fair, fair),
      )

-- A grouping that the check accepts, and in which an operation that answers or creates stands alone.
abbrev pub IsGrouping : {E R : Type 0} → List (Op E R) → List Dispatch → Type 0
IsGrouping ops ds = (check_grouping ops ds ≡ none) × All (IsFair ops) ds

-- Whatever the plan, folding gives a grouping that the check accepts: every operation once, in the
-- recorded order. Each of its dispatches is one operation, or only operations that neither answer nor
-- create.
pub folding-IsGrouping : {E R : Type 0} (ops : List (Op E R)) → IsGrouping ops (folding ops)
unfolding folding
folding-IsGrouping ops =
    let (filled, flat, fair) =
      folding_loop-IsFair ops (length ops) 0 ops (λ k. ap (get_elem? ops) (omega arith))
        (omega arith) in
    ((check_grouping_iff ops (folding_loop (length ops) 0 ops)).1 (filled, flat), fair)

sequential-IsFair :
    {E R : Type 0} (all : List (Op E R)) (index : ℕ) (ops : List (Op E R))
    → All IsFilled (sequential index ops)
      × (flatten (sequential index ops) ≡ from index (length ops))
      × All (IsFair all) (sequential index ops)
unfolding sequential
sequential-IsFair all index [] = (tt, refl, tt)
sequential-IsFair all index (op ∷ ops) =
    let (filled, flat, fair) = sequential-IsFair all (index + 1) ops in
    (((λ e. (let no : ⊥ = cc in no)), filled), ap (◌∷◌ index) flat, (inl (omega arith), fair))

-- The same of the planner that sends every operation alone.
pub sequential-IsGrouping : {E R : Type 0} (ops : List (Op E R)) → IsGrouping ops (sequential 0 ops)
sequential-IsGrouping ops =
    let (filled, flat, fair) = sequential-IsFair ops 0 ops in
    ((check_grouping_iff ops (sequential 0 ops)).1 (filled, flat), fair)
