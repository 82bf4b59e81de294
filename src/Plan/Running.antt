-- ===== src/Plan/Running.antt =====
-- `Plan.RunWith`: the dispatches of a plan, rendered, sent and attributed one after the other. The
-- server is a parameter: what it does with a command list.
use mathlib.Core.Bool.{not}
use libtmux_go.Base.{
  ℕ, ◌+◌, Bool, true, false, ◌&&◌, Option, none, some, List, [], ◌∷◌, Bytes, codes, length,
  get_elem?, bytes_eq, ◌==◌, if◌then◌else◌,
}
use libtmux_go.Base.Result.{Result, ok, err, ◌>>=◌}
use libtmux_go.Command.{CommandResult, new_error}
use libtmux_go.Text.{trim_space}
use libtmux_go.Plan.{
  Identity, Ref, Op, Dispatch, PlanError, plan_error, no_id, other_daemon, same_identity,
  check_grouping, needs_version,
}
use libtmux_go.Plan.Rendering.{render_dispatch, op_name}
use libtmux_go.Plan.Results.{
  OpStatus, op_complete, op_failed, op_indeterminate, op_skipped, RunError, refused, failed,
  transport, OpResult, Sent, completed, not_sent, is_success, update, with_status, with_error,
  update_all, Run, Next, goes_on, stops,
}

abbrev pub first_line : List Bytes → Bytes
first_line [] = []
first_line (line ∷ lines) = trim_space line

module _ {E R X S : Type 0} where
  -- The output of an operation that captures it.
  unfoldable pub with_output : ℕ → Op E R → CommandResult → Run E X S → Run E X S
  with_output index op result run =
      if op.captures
      then record run {
        results = update run.results index (λ o. record o { stdout = result.stdout });
      }
      else run

  -- What `attribute` does for the one operation of a completed dispatch: the run, and whether it goes on.
  unfoldable pub attribute_one : ℕ → Op E R → CommandResult → Run E X S → Bool × Run E X S
  attribute_one index op result run =
      let read = with_output index op result run in
      let id = first_line result.stdout in
      if not op.creates
      then (true, read)
      else if bytes_eq id []
      then (
        false,
        record read {
          results =
              update read.results index (with_error op_failed (refused (plan_error index no_id)));
        },
      )
      else (
        true,
        record read {
          results = update read.results index (λ o. record o { created = id });
          created = (index, id) ∷ read.created;
        },
      )

module _ {E R X S : Type 0} (ops : List (Op E R)) where
  abbrev pub attribute_single : ℕ → CommandResult → Run E X S → Bool × Run E X S
  attribute_single index result run = elim (get_elem? ops index) [
    | none ↦ (true, run)
    | some op ↦ attribute_one index op result run
  ]

  -- `attribute`.
  unfoldable pub attribute : Dispatch → CommandResult → Run E X S → Bool × Run E X S
  attribute d result run =
      if not (is_success result)
      then elim (d.ops) [
        | [] ↦ (false, run)
        | index ∷ more ↦ elim more [
          | [] ↦ (
            false,
            record run {
              results =
                  update run.results index
                    (with_error op_failed (failed (new_error (op_name ops index) result)));
            },
          )
          | second ∷ rest ↦ (
            false,
            record run {
              results =
                  update_all run.results d.ops (
                    with_error op_indeterminate (failed (new_error (codes "command list") result)));
            },
          )
        ]
      ]
      else (let done = record run {
        results = update_all run.results d.ops (with_status op_complete);
      } in
          elim (d.ops) [
            | [] ↦ (true, done)
            | index ∷ more ↦ elim more [
              | [] ↦ attribute_single index result done
              | second ∷ rest ↦ (true, done)
            ]
          ])

  -- What the loop makes of what was sent.
  unfoldable pub answer : Dispatch → Run E X S → Sent X → Next E X S
  answer d run (not_sent unknown e) =
      if unknown
      then stops
          (record run {
            results = update_all run.results d.ops (with_error op_indeterminate (transport e));
          })
          (some (transport e))
      else stops run (some (transport e))
  answer d run (completed result) =
      let next = attribute d result run in if next.0 then goes_on (next.1) else stops (next.1) none

module _ {E R X S : Type 0} (exec : S → List Bytes → Sent X × S) (ops : List (Op E R)) (r : R) where
  -- The body of the loop over the dispatches.
  unfoldable pub run_dispatch : Dispatch → Run E X S → Next E X S
  run_dispatch d run = elim (render_dispatch ops d run.created r) [
    | err e ↦ stops run (some (refused e))
    | ok argv ↦
        (let sent = exec run.server argv in answer ops d (record run { server = sent.1 }) (sent.0))
  ]

  -- The loop over the dispatches. The error is the one `RunWith` returns.
  unfoldable pub run_loop : List Dispatch → Run E X S → Run E X S × Option (RunError E X)
  run_loop [] run = (run, none)
  run_loop (d ∷ ds) run = elim (run_dispatch d run) [
    | stops final e ↦ (final, e)
    | goes_on next ↦ run_loop ds next
  ]

  -- From the dispatches on: `checkGrouping`, and the loop.
  unfoldable pub run_dispatches : List Dispatch → Run E X S → Run E X S × Option (RunError E X)
  run_dispatches ds run = elim (check_grouping ops ds) [
    | some e ↦ (run, some (refused e))
    | none ↦ run_loop ds run
  ]

-- `expectedDaemon`: the one server that the references stand for, if any does.
unfoldable pub expect :
    {E : Type 0} → ℕ → Ref → Option Identity → Result (PlanError E) (Option Identity)
expect index ref expected = elim (ref.daemon) [
  | none ↦ ok expected
  | some d ↦ elim expected [
    | none ↦ ok (some d)
    | some e ↦ if same_identity e d then ok (some d) else err (plan_error index other_daemon)
  ]
]

unfoldable pub expected_daemon :
    {E R : Type 0} → ℕ → List (Op E R) → Option Identity → Result (PlanError E) (Option Identity)
expected_daemon index [] expected = ok expected
expected_daemon index (op ∷ ops) expected = do
  first ← expect index op.target expected
  second ← expect index op.source first
  expected_daemon (index + 1) ops second

abbrev pub initial : {E R X : Type 0} → List (Op E R) → List (OpResult E X)
initial [] = []
initial (op ∷ ops) =
    record { command = op.name; status = op_skipped; created = []; stdout = []; error = none }
    ∷ initial ops

-- The results and the error of a run.
unfoldable pub run_prepared :
    {E R X S : Type 0} (exec : S → List Bytes → Sent X × S) (ops : List (Op E R)) (r : R)
    → Run E X S
    → List Dispatch
    → List (OpResult E X) × Option (RunError E X)
run_prepared exec ops r run ds =
    let final = run_dispatches exec ops r ds run in ((final.0).results, final.1)

-- What `RunWith` asks of the server before it plans: the server's own refusal, the one for an expected
-- daemon, the validation of the plan's layouts, the version, and the frozen inputs of the two versions.
pub record Host (E : Type 0) (R : Type 0) (X : Type 0) (S : Type 0) (V : Type 0) : Type 0 where
  pub state : Option X
  pub with_daemon : Option Identity → S
  pub validate_layouts : List (Op E R) → S → Result X V
  pub version : S → Result X V
  pub no_version : V
  pub freeze : V → V → R

module _ {E R X S V : Type 0} (host : Host E R X S V) where
  abbrev pub probe : List (Op E R) → S → Result X V
  probe ops server = if needs_version ops then host.version server else ok host.no_version

  -- What the run freezes.
  unfoldable pub prepare : List (Op E R) → S → Result X R
  prepare ops server = do
    layout_version ← host.validate_layouts ops server
    version ← probe ops server
    ok (host.freeze version layout_version)

-- `RunWith`.
module _ {E R X S V : Type 0} (exec : S → List Bytes → Sent X × S) (host : Host E R X S V) where
  unfoldable pub run_with :
      (List (Op E R) → List Dispatch) → List (Op E R) → List (OpResult E X) × Option (RunError E X)
  run_with planner ops = elim (host.state) [
    | some e ↦ (initial ops, some (transport e))
    | none ↦
        (if length ops == 0 then ([], none) else elim (expected_daemon 0 ops none) [
          | err e ↦ (initial ops, some (refused e))
          | ok expected ↦ elim (prepare host ops (host.with_daemon expected)) [
            | err e ↦ (initial ops, some (transport e))
            | ok r ↦
                run_prepared exec ops r
                  (record {
                    results = initial ops;
                    created = [];
                    server = host.with_daemon expected;
                  })
                  (planner ops)
          ]
        ])
  ]

-- `PlanResult.OK`.
abbrev pub is_complete : OpStatus → Bool
is_complete op_complete = true
is_complete _ = false

abbrev pub is_ok : {E X : Type 0} → List (OpResult E X) → Bool
is_ok [] = true
is_ok (o ∷ os) = is_complete o.status && is_ok os
