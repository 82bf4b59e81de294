-- ===== src/Plan/Rendering.antt =====
-- `renderDispatch`: the arguments of a dispatch, one operation's or several with separators between.

use libtmux_go.Base.{ℕ, Bool, Option, none, some, List, [], ◌∷◌, ◌++◌, Bytes, get_elem?}
use libtmux_go.Base.Result.{Result, ok, err, ◌>>=◌}
use libtmux_go.Plan.{Op, Dispatch, PlanError, plan_error, no_command, render_op, refuse_if_grouped}

abbrev pub separator : List Bytes
separator = (b';' ∷ []) ∷ []

module _ {E : Type 0} {R : Type 0} where
  -- An operation that a dispatch names; one out of range panics in the source, and `check_grouping`
  -- lets none through.
  unfoldable pub render_at :
      List (Op E R) → ℕ → List (ℕ × Bytes) → R → Result (PlanError E) (List Bytes)
  render_at ops index created r = elim (get_elem? ops index) [
    | none ↦ err (plan_error index no_command)
    | some op ↦ render_op index op created r
  ]

  unfoldable pub refuse_at : List (Op E R) → ℕ → Result (PlanError E) Bool
  refuse_at ops index = elim (get_elem? ops index) [
    | none ↦ err (plan_error index no_command)
    | some op ↦ refuse_if_grouped index op
  ]

  -- The loop of `renderDispatch`; `argv` is what stands in front, if anything does.
  unfoldable pub render_group :
      List (Op E R)
      → List ℕ
      → List (ℕ × Bytes)
      → R
      → Option (List Bytes)
      → Result (PlanError E) (List Bytes)
  render_group ops [] created r none = ok []
  render_group ops [] created r (some argv) = ok argv
  render_group ops (index ∷ more) created r argv = do
    _ ← refuse_at ops index
    rendered ← render_at ops index created r
    render_group ops more created r
        (some (elim argv [ none ↦ rendered | some front ↦ (front ++ separator) ++ rendered ]))

  -- `renderDispatch`.
  unfoldable pub render_dispatch :
      List (Op E R) → Dispatch → List (ℕ × Bytes) → R → Result (PlanError E) (List Bytes)
  render_dispatch ops d created r = elim (d.ops) [
    | [] ↦ ok []
    | index ∷ more ↦ elim more [
      | [] ↦ render_at ops index created r
      | second ∷ rest ↦ render_group ops (index ∷ second ∷ rest) created r none
    ]
  ]

  abbrev pub op_name : List (Op E R) → ℕ → Bytes
  op_name ops index = elim (get_elem? ops index) [ none ↦ [] | some op ↦ op.name ]
