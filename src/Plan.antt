-- ===== src/Plan.antt =====
-- tmux/plan.go: recorded operations, their grouping into invocations, and their run. The builder of
-- an operation's arguments, and the server that runs them, are parameters.
pub mod Grouping
pub mod Groups
pub mod Planners
pub mod Complete
pub mod Attribution
pub mod Traces
pub mod Dispatched
pub mod Statuses
pub mod Preview
pub mod Previewed
pub mod PreviewTests
pub mod Independence
pub mod Running
pub mod Results
pub mod Rendering
pub mod Chained
pub mod Tests
use mathlib.Core.Bool.{not}
use libtmux_go.Base.{
  ℕ, zero, suc, ◌+◌, ◌-◌, Bool, true, false, ◌&&◌, ◌||◌, Option, none, some, List, [], ◌∷◌, ◌++◌,
  Bytes, codes, length, get_elem?, drop, bytes_eq, ◌==◌, if◌then◌else◌,
}
use libtmux_go.Base.Result.{Result, ok, err, ◌>>=◌}

-- `snapshotServerIdentity`, with the version's text.
pub record Identity : Type 0 where
  pub version : Bytes
  pub pid : Bytes
  pub start_time : Bytes
  pub socket_path : Bytes

-- `sameSnapshotIdentity`.
unfoldable pub same_identity : Identity → Identity → Bool
same_identity l r =
    bytes_eq l.version r.version
    && bytes_eq l.pid r.pid
    && bytes_eq l.start_time r.start_time
    && bytes_eq l.socket_path r.socket_path

-- `Ref`; `step` is one-based, and 0 for an object that exists already.
pub record Ref : Type 0 where
  pub target : Bytes
  pub step : ℕ
  pub daemon : Option Identity

abbrev pub zero_ref : Ref
zero_ref = record { target = []; step = 0; daemon = none }

-- `op.source != (Ref{})`.
abbrev pub is_zero_ref : Ref → Bool
is_zero_ref r =
    bytes_eq r.target [] && r.step == 0 && elim (r.daemon) [ none ↦ true | some d ↦ false ]

-- What a plan refuses: `PlanError` by its reason, or a builder's error with the step it names.
pub data Reason : Type 0 where
  no_target no_command empty_dispatch no_id other_daemon : Reason
  not_created out_of_order : ℕ → Reason
  grouped_count : ℕ → ℕ → Reason
  prints_output creates_object : Bytes → Reason

pub data PlanError (E : Type 0) : Type 0 where
  plan_error : ℕ → Reason → PlanError E
  build_error : ℕ → Bytes → E → PlanError E

-- `Op`, without its layout; `build` takes the resolved target and source and what a run freezes.
pub record Op (E : Type 0) (R : Type 0) : Type 0 where
  pub name : Bytes
  pub target : Ref
  pub source : Ref
  pub build : Option (Bytes → Bytes → R → Result E (List Bytes))
  pub creates : Bool
  pub captures : Bool
  pub untargets : Bool
  pub needs_version : Bool

-- `Dispatch`, its reason by name.
pub data Grouped : Type 0 where
  chained creates captures alone : Grouped

pub record Dispatch : Type 0 where
  pub ops : List ℕ
  pub reason : Grouped

-- The IDs of created objects by step: the map `created`, the newest first.
unfoldable pub created_get : List (ℕ × Bytes) → ℕ → Option Bytes
created_get [] step = none
created_get ((key, id) ∷ rest) step = if key == step then some id else created_get rest step

-- `start`, `start + 1` and so on.
abbrev pub from : ℕ → ℕ → List ℕ
from start zero = []
from start (suc n) = start ∷ from (start + 1) n

module _ {E : Type 0} where
  -- The inner loop of `checkGrouping`: the index expected behind a dispatch.
  unfoldable pub check_ops : ℕ → List ℕ → Result (PlanError E) ℕ
  check_ops expected [] = ok expected
  check_ops expected (index ∷ more) =
      let rest = check_ops (expected + 1) more in
      if not (index == expected) then err (plan_error expected (out_of_order index)) else rest

  unfoldable pub check_dispatches : ℕ → List Dispatch → Result (PlanError E) ℕ
  check_dispatches expected [] = ok expected
  check_dispatches expected (d ∷ ds) =
      let rest = (do next ← check_ops expected d.ops; check_dispatches next ds) in
      if length d.ops == 0 then err (plan_error expected empty_dispatch) else rest

  -- `resolve`.
  unfoldable pub resolve : Ref → List (ℕ × Bytes) → ℕ → Result (PlanError E) Bytes
  resolve ref created step =
      if ref.step == 0
      then (if bytes_eq ref.target [] then err (plan_error step no_target) else ok ref.target)
      else elim (created_get created (ref.step - 1)) [
        | none ↦ err (plan_error step (not_created (ref.step - 1)))
        | some target ↦ ok target
      ]

module _ {E : Type 0} {R : Type 0} where
  abbrev pub chainable : Op E R → Bool
  chainable op = not op.captures && not op.creates

  abbrev pub alone_reason : Op E R → Grouped → Grouped
  alone_reason op other = if op.creates then creates else if op.captures then captures else other

  unfoldable pub needs_version : List (Op E R) → Bool
  needs_version [] = false
  needs_version (op ∷ ops) = if op.needs_version then true else needs_version ops

  -- `Sequential.Plan`, from the operation at `index` on.
  unfoldable pub sequential : ℕ → List (Op E R) → List Dispatch
  sequential index [] = []
  sequential index (op ∷ ops) =
      record { ops = index ∷ []; reason = alone_reason op alone } ∷ sequential (index + 1) ops

  -- How many operations in front can share an invocation.
  unfoldable pub chain_length : List (Op E R) → ℕ
  chain_length [] = 0
  chain_length (op ∷ ops) = if chainable op then suc (chain_length ops) else 0

  -- `foldFrom`, with the operations from `index` on.
  unfoldable pub fold_from : ℕ → Op E R → List (Op E R) → Dispatch
  fold_from index op ops =
      if not (chainable op)
      then record { ops = index ∷ []; reason = (if op.creates then creates else captures) }
      else record {
        ops = from index (suc (chain_length ops));
        reason = (if suc (chain_length ops) == 1 then alone else chained);
      }

  -- `Folding.Plan`: each round takes at least one operation, so that as many rounds as operations are
  -- enough.
  unfoldable pub folding_loop : ℕ → ℕ → List (Op E R) → List Dispatch
  folding_loop fuel index [] = []
  folding_loop zero index (op ∷ ops) = []
  folding_loop (suc fuel) index (op ∷ ops) =
      let d = fold_from index op ops in
      d ∷ folding_loop fuel (index + length d.ops) (drop (length d.ops) (op ∷ ops))

  unfoldable pub folding : List (Op E R) → List Dispatch
  folding ops = folding_loop (length ops) 0 ops

  -- `checkGrouping`.
  unfoldable pub check_grouping : List (Op E R) → List Dispatch → Option (PlanError E)
  check_grouping ops ds = elim (check_dispatches 0 ds) [
    | err e ↦ some e
    | ok expected ↦
        (if not (expected == length ops)
          then some (plan_error expected (grouped_count expected (length ops)))
          else none)
  ]

  -- `render` of one operation.
  unfoldable pub render_op : ℕ → Op E R → List (ℕ × Bytes) → R → Result (PlanError E) (List Bytes)
  render_op index op created r = elim (op.build) [
    | none ↦ err (plan_error index no_command)
    | some build ↦ (do
      target ← (if op.untargets then ok [] else resolve op.target created index)
      source ← (if is_zero_ref op.source then ok [] else resolve op.source created index)
      elim (build target source r) [
        | ok argv ↦ ok argv
        | err e ↦ err (build_error index op.name e)
      ])
  ]

  -- `refuseIfGrouped`.
  unfoldable pub refuse_if_grouped : ℕ → Op E R → Result (PlanError E) Bool
  refuse_if_grouped index op =
      if chainable op
      then ok true
      else err
          (plan_error index (if op.creates then creates_object op.name else prints_output op.name))
