-- ===== src/Plan/Traces.antt =====
-- A run that sends every operation alone, as a relation on what the server answers to each.
use libtmux_go.Base.{
  ℕ, ◌+◌, ◌≡◌, ◌≢◌, ◌⊎◌, refl, true, false, Option, none, some, List, [], ◌∷◌, Bytes, ◌==◌, arith,
  inr,
}
use libtmux_go.Base.Int.{ℤ, pos, negsuc}
use libtmux_go.Base.Result.{ok, err}
use libtmux_go.Command.{CommandResult, new_error}
use libtmux_go.Plan.{Op, PlanError, plan_error, no_id, render_op}
use libtmux_go.Plan.Attribution.{result_of, skipped, kept_lines}
use libtmux_go.Plan.Results.{
  OpResult, RunError, refused, failed, transport, Sent, completed, not_sent, is_success,
  op_complete, op_failed, op_indeterminate,
}
use libtmux_go.Plan.Running.{first_line, initial}

-- What the operations from an index on come to on a server in a state, and the error that is returned: each
-- is rendered and sent, and as long as the server answers with exit code 0, and with an ID where one is to
-- be created, the next one follows.
pub data IsTraced {E R X S : Type 0} (exec : S → List Bytes → Sent X × S) (r : R)
    : ℕ
      → S
      → List (ℕ × Bytes)
      → List (Op E R)
      → List (OpResult E X)
      → Option (RunError E X)
      → Type 0 where
  ends : (i : ℕ) (s : S) (created : List (ℕ × Bytes)) → IsTraced exec r i s created [] [] none
  not_rendered :
      (i : ℕ) (s : S) (created : List (ℕ × Bytes)) (op : Op E R) (ops : List (Op E R))
      (e : PlanError E)
      → render_op i op created r ≡ err e
      → IsTraced exec r i s created (op ∷ ops) (skipped op ∷ initial ops) (some (refused e))
  never_sent :
      (i : ℕ) (s t : S) (created : List (ℕ × Bytes)) (op : Op E R) (ops : List (Op E R))
      (argv : List Bytes) (x : X)
      → render_op i op created r ≡ ok argv
      → exec s argv ≡ (not_sent false x, t)
      → IsTraced exec r i s created (op ∷ ops) (skipped op ∷ initial ops) (some (transport x))
  unknown :
      (i : ℕ) (s t : S) (created : List (ℕ × Bytes)) (op : Op E R) (ops : List (Op E R))
      (argv : List Bytes) (x : X)
      → render_op i op created r ≡ ok argv
      → exec s argv ≡ (not_sent true x, t)
      → IsTraced exec r i s created
          (op ∷ ops)
          (result_of op op_indeterminate [] [] (some (transport x)) ∷ initial ops)
          (some (transport x))
  fails :
      (i : ℕ) (s t : S) (created : List (ℕ × Bytes)) (op : Op E R) (ops : List (Op E R))
      (argv : List Bytes) (result : CommandResult)
      → render_op i op created r ≡ ok argv
      → exec s argv ≡ (completed result, t)
      → result.exit_code ≢ pos 0
      → IsTraced exec r i s created
          (op ∷ ops)
          (result_of op op_failed [] [] (some (failed (new_error op.name result))) ∷ initial ops)
          none
  nameless :
      (i : ℕ) (s t : S) (created : List (ℕ × Bytes)) (op : Op E R) (ops : List (Op E R))
      (argv : List Bytes) (result : CommandResult)
      → render_op i op created r ≡ ok argv
      → exec s argv ≡ (completed result, t)
      → result.exit_code ≡ pos 0
      → op.creates ≡ true
      → first_line result.stdout ≡ []
      → IsTraced exec r i s created
          (op ∷ ops)
          (result_of op op_failed [] (kept_lines op result) (some (refused (plan_error i no_id)))
            ∷ initial ops)
          none
  answers :
      (i : ℕ) (s t : S) (created : List (ℕ × Bytes)) (op : Op E R) (ops : List (Op E R))
      (argv : List Bytes) (result : CommandResult) (results : List (OpResult E X))
      (e : Option (RunError E X))
      → render_op i op created r ≡ ok argv
      → exec s argv ≡ (completed result, t)
      → result.exit_code ≡ pos 0
      → op.creates ≡ false
      → IsTraced exec r (i + 1) t created ops results e
      → IsTraced exec r i s created
          (op ∷ ops)
          (result_of op op_complete [] (kept_lines op result) none ∷ results)
          e
  creates_one :
      (i : ℕ) (s t : S) (created : List (ℕ × Bytes)) (op : Op E R) (ops : List (Op E R))
      (argv : List Bytes) (result : CommandResult) (results : List (OpResult E X))
      (e : Option (RunError E X))
      → render_op i op created r ≡ ok argv
      → exec s argv ≡ (completed result, t)
      → result.exit_code ≡ pos 0
      → op.creates ≡ true
      → first_line result.stdout ≢ []
      → IsTraced exec r (i + 1) t ((i, first_line result.stdout) ∷ created) ops results e
      → IsTraced exec r i s created
          (op ∷ ops)
          (result_of op op_complete (first_line result.stdout) (kept_lines op result) none
            ∷ results)
          e

pub is_success-cases :
    (result : CommandResult)
    → ((result.exit_code ≡ pos 0) × (is_success result ≡ true))
      ⊎ ((result.exit_code ≢ pos 0) × (is_success result ≡ false))
is_success-cases result = code-cases result.exit_code
  where
    code-cases :
        (n : ℤ)
        → ((n ≡ pos 0) × ((elim n [ pos k ↦ k == 0 | negsuc k ↦ false ]) ≡ true))
          ⊎ ((n ≢ pos 0) × ((elim n [ pos k ↦ k == 0 | negsuc k ↦ false ]) ≡ false))
    code-cases (pos k) = ground arith
    code-cases (negsuc k) = inr ((λ e. (let no : ⊥ = cc in no)), refl)
