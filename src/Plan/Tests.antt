-- ===== src/Plan/Tests.antt =====
-- Plans of a few operations, run on a server that keeps a log of the arguments it was sent.
use libtmux_go.Base.{
  ◌≡◌, refl, ap, sym, ◌∙◌, Bool, true, false, none, some, List, [], ◌∷◌, ◌++◌, append_assoc,
  append-nil, Bytes, codes, All, bytes_eq, if◌then◌else◌,
}
use mathlib.Core.Logic.{◌↔◌}
use libtmux_go.Base.Int.{pos}
use libtmux_go.Base.Result.{ok}
use libtmux_go.Command.{CommandResult}
use libtmux_go.Plan.{
  Ref, zero_ref, Op, needs_version, creates, chained, no_target, plan_error, sequential, folding,
  folding_loop, fold_from, chain_length, check_grouping, check_dispatches, check_ops, render_op,
  resolve, created_get,
}
use libtmux_go.Text.{trim_space, trim_back, trim_left}
use libtmux_go.Plan.Grouping.{check_grouping_iff, IsFilled, flatten}
use libtmux_go.Plan.Groups.{IsGrouping, folding-IsGrouping}
use libtmux_go.Plan.Results.{
  Sent, completed, OpResult, refused, op_complete, op_skipped, update, update_all,
}
use libtmux_go.Plan.Rendering.{render_at, separator, render_dispatch}
use libtmux_go.Plan.Running.{
  with_output, attribute_one, attribute, answer, run_dispatch, run_loop, run_dispatches,
  run_prepared, Host, prepare, expect, expected_daemon, run_with,
}
use libtmux_go.Plan.Chained.{Chains}
use libtmux_go.Plan.Traces.{IsTraced}
use libtmux_go.Plan.Statuses.{run_with-IsTraced}
use libtmux_go.Plan.Independence.{run_with-sequential}

-- The arguments of a command list but its separators.
abbrev words : List Bytes → List Bytes
words [] = []
words (x ∷ xs) = if bytes_eq x (codes ";") then words xs else x ∷ words xs

words-append : (xs ys : List Bytes) → words (xs ++ ys) ≡ words xs ++ words ys
words-append [] ys = refl
words-append (x ∷ xs) ys =
    elim (bytes_eq x (codes ";"))
      as (λ b.
        (if b then words (xs ++ ys) else x ∷ words (xs ++ ys))
        ≡ (if b then words xs else x ∷ words xs) ++ words ys) [
          | true ↦ words-append xs ys
          | false ↦ ap (◌∷◌ x) (words-append xs ys)
        ]

abbrev answered : CommandResult
answered = record {
  command = [];
  stdout = codes " %7 " ∷ [];
  raw_stdout = [];
  stderr = [];
  exit_code = pos 0;
}

-- A server that answers every list with an ID, and logs it.
abbrev log_exec : List Bytes → List Bytes → Sent Bytes × List Bytes
log_exec s argv = (completed answered, s ++ words argv)

log_exec-Chains : Chains log_exec
log_exec-Chains s t u front back (x, e, works, first) (y, f, works_too, second) = (
  answered,
  refl,
  refl,
  ap (◌++◌ s) (
        words-append (front ++ separator) back
        ∙ ap (λ v. v ++ words back) (words-append front separator ∙ append-nil (words front)))
      ∙ sym (append_assoc s (words front) (words back))
      ∙ ap (λ v. v ++ words back) first
      ∙ second,
)

-- An operation that sends its name and its target.
abbrev command : Bytes → Ref → Bool → Op Bytes Bytes
command name target makes = record {
  name = name;
  target = target;
  source = zero_ref;
  build = some (λ t s r. ok (name ∷ t ∷ []));
  creates = makes;
  captures = false;
  untargets = false;
  needs_version = false;
}

abbrev at : Bytes → Ref
at target = record { target = target; step = 0; daemon = none }

abbrev sample : List (Op Bytes Bytes)
sample =
    command (codes "split-window") (at (codes "%1")) true
    ∷ command (codes "send-keys") (record { target = []; step = 1; daemon = none }) false
    ∷ command (codes "select-pane") (at (codes "%1")) false
    ∷ []

abbrev done : Bytes → Bytes → OpResult Bytes Bytes
done name created = record {
  command = name;
  status = op_complete;
  created = created;
  stdout = [];
  error = none;
}

abbrev sample_results : List (OpResult Bytes Bytes)
sample_results =
    done (codes "split-window") (codes "%7")
    ∷ done (codes "send-keys") []
    ∷ done (codes "select-pane") []
    ∷ []

abbrev host : Host Bytes Bytes Bytes (List Bytes) Bytes
host = record {
  state = none;
  with_daemon = λ expected. [];
  validate_layouts = λ ops server. ok [];
  version = λ server. ok (codes "3.6");
  no_version = [];
  freeze = λ version layout_version. version;
}

folded : folding sample ≡ (
    record { ops = 0 ∷ []; reason = creates } ∷ record { ops = 1 ∷ 2 ∷ []; reason = chained } ∷ [])
unfolding folding folding_loop fold_from chain_length
folded = refl

one_by_one : run_with log_exec host (sequential 0) sample ≡ (sample_results, none)
unfolding run_with prepare needs_version run_prepared run_dispatches run_loop run_dispatch answer
    attribute attribute_one with_output update_all update render_dispatch render_at render_op
    resolve created_get expected_daemon expect check_grouping check_dispatches check_ops sequential
    trim_space trim_back trim_left
one_by_one = refl

run_with-sequential_example : run_with log_exec host folding sample ≡ (sample_results, none)
run_with-sequential_example =
    run_with-sequential log_exec host folding sample sample_results log_exec-Chains
      (folding-IsGrouping sample) one_by_one refl

folding-IsGrouping_example : IsGrouping sample (folding sample)
folding-IsGrouping_example = folding-IsGrouping sample

check_grouping_iff_example :
    (check_grouping sample (sequential 1 sample) ≡ none)
    ↔ (All IsFilled (sequential 1 sample) × (flatten (sequential 1 sample) ≡ 0 ∷ 1 ∷ 2 ∷ []))
check_grouping_iff_example = check_grouping_iff sample (sequential 1 sample)

-- A plan with an operation that names no target sends nothing.
no_target_run : run_with log_exec host folding (command (codes "kill-pane") zero_ref false ∷ []) ≡ (
  (record {
    command = codes "kill-pane";
    status = op_skipped;
    created = [];
    stdout = [];
    error = none;
  })
      ∷ [],
  some (refused (plan_error 0 no_target)),
)
unfolding run_with prepare needs_version run_prepared run_dispatches run_loop run_dispatch
    render_dispatch render_at render_op resolve expected_daemon expect check_grouping
    check_dispatches check_ops folding folding_loop fold_from chain_length
no_target_run = refl

one_daemon : expected_daemon {E = Bytes} 0 sample none ≡ ok none
unfolding expected_daemon expect
one_daemon = refl

frozen : prepare host sample [] ≡ ok []
unfolding prepare needs_version
frozen = refl

run_with-IsTraced_example :
    IsTraced log_exec [] 0 [] [] sample
      (run_with log_exec host (sequential 0) sample).0
      (run_with log_exec host (sequential 0) sample).1
run_with-IsTraced_example = run_with-IsTraced log_exec host sample none [] refl one_daemon frozen
