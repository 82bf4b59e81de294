-- ===== src/Plan/Independence.antt =====
-- The results of a run do not depend on the planner.

use libtmux_go.Base.{
  ℕ, suc, ◌+◌, ◌≤◌, ◌≡◌, refl, ap, ap₂, subst, sym, ◌∙◌, ◌⊎◌, true, Option, none, List, [], ◌∷◌,
  Bytes, length, ◌==◌, arith, Bool-cases, Option-cases, inl, inr,
}
use libtmux_go.Base.Result.{Result-cases}
use libtmux_go.Plan.{Op, Dispatch, alone, alone_reason, from, sequential}
use libtmux_go.Plan.Grouping.{check_grouping_iff}
use libtmux_go.Plan.Groups.{IsGrouping, sequential-IsGrouping}
use libtmux_go.Plan.Results.{OpResult, RunError, Run, Sent, Next, goes_on, stops}
use libtmux_go.Plan.Running.{
  run_dispatch, run_loop, run_dispatches, is_ok, Host, prepare, run_with, run_prepared, initial,
  expected_daemon,
}
use libtmux_go.Plan.Chained.{Singles, lone, run_dispatch-ops, Chains, Runs-run_loop}
use libtmux_go.Plan.Planners.{Singles-Runs}
use libtmux_go.Plan.Complete.{goes_on-length, stops-fails}

pub Next-cases :
    {E X S : Type 0} (n : Next E X S)
    → ((next : Run E X S) × (n ≡ goes_on next))
      ⊎ ((final : Run E X S) × (e : Option (RunError E X)) × (n ≡ stops final e))
Next-cases (goes_on next) = inl (next, refl)
Next-cases (stops final e) = inr (final, e, refl)

pub length-initial :
    {E R : Type 0} (X : Type 0) (ops : List (Op E R))
    → length (initial {E = E} {R = R} {X = X} ops) ≡ length ops
length-initial X [] = refl
length-initial X (op ∷ ops) = ap suc (length-initial X ops)

module _ {E R X S : Type 0} (exec : S → List Bytes → Sent X × S) (ops : List (Op E R)) (r : R) where
  sequential-Singles :
      (index : ℕ) (more : List (Op E R)) (run final : Run E X S)
      → run_loop exec ops r (sequential index more) run ≡ (final, none)
      → is_ok final.results ≡ true
      → index + length more ≤ length run.results
      → Singles exec ops r (from index (length more)) run final
  unfolding run_loop sequential Singles
  sequential-Singles index [] run final h all inside = ap (λ u. u.0) h
  sequential-Singles index (op ∷ more) run final h all inside =
      let alone_is =
        run_dispatch-ops exec ops r (record { ops = index ∷ []; reason = alone_reason op alone })
          run (index ∷ []) refl in
      elim (Next-cases (run_dispatch exec ops r (lone index) run)) [
        | inl (next, e) ↦
            (let size = goes_on-length exec ops r index run next e (omega (arith, inside)) in
              (
                next,
                e,
                sequential-Singles (index + 1) more next final (rw (alone_is, e, run_loop) at h) all
                    (omega (arith, size, inside)),
              ))
        | inr (ended, x, e) ↦
            (let ends = rw (alone_is, e, run_loop) at h in
              let quiet : x ≡ none = ap (λ u. u.1) ends in
              let fails =
                stops-fails exec ops r index run ended (e ∙ ap (stops ended) quiet)
                  (omega (arith, inside)) in
              absurd (
                let no : ⊥ =
                  (let same : ended ≡ final = ap (λ u. u.0) ends in
                    let bad = ap (λ u. is_ok u.results) same in cc) in
                no))
      ]

  -- The loop over a grouping ends as the one over lone operations, where that one completes.
  grouping-run :
      (chains : Chains exec) (ds : List Dispatch) (run final : Run E X S)
      → IsGrouping ops ds
      → length ops ≤ length run.results
      → run_dispatches exec ops r (sequential 0 ops) run ≡ (final, none)
      → is_ok final.results ≡ true
      → run_dispatches exec ops r ds run ≡ (final, none)
  unfolding run_dispatches
  grouping-run chains ds run final (checked, fair) inside h all =
      let (filled, flat) = (check_grouping_iff ops ds).0 checked in
      let loop = rw ((sequential-IsGrouping ops).0, run_dispatches) at h in
      let singles = sequential-Singles 0 ops run final loop all (omega (arith, inside)) in
      let runs =
        Singles-Runs exec ops r chains ds run final filled fair
          (subst (λ u. Singles exec ops r u run final) (sym flat) singles) in
      rw (checked, run_dispatches) (Runs-run_loop exec ops r ds run final runs)

  run_prepared-sequential :
      (chains : Chains exec) (ds : List Dispatch) (run : Run E X S) (results : List (OpResult E X))
      → IsGrouping ops ds
      → length ops ≤ length run.results
      → run_prepared exec ops r run (sequential 0 ops) ≡ (results, none)
      → is_ok results ≡ true
      → run_prepared exec ops r run ds ≡ (results, none)
  unfolding run_prepared
  run_prepared-sequential chains ds run results grouping inside h all =
      let final = (run_dispatches exec ops r (sequential 0 ops) run).0 in
      let ends : run_dispatches exec ops r (sequential 0 ops) run ≡ (final, none) =
        ap (λ u. (final, u)) (ap (λ u. u.1) h) in
      let complete : is_ok final.results ≡ true = ap (λ u. is_ok (u.0)) h ∙ all in
      ap (λ u. ((u.0).results, u.1))
        (grouping-run chains ds run final grouping inside ends complete)
      ∙ ap₂ (λ a b. (a, b)) (ap (λ u. u.0) h) refl

module _ {E R X S V : Type 0} (exec : S → List Bytes → Sent X × S) (host : Host E R X S V) where
  -- On a server that runs the commands of a list one after the other, a planner whose groupings are
  -- fair gives the run that sends every operation alone, where that run completes every operation: the
  -- same results, and no error.
  pub run_with-sequential :
      (planner : List (Op E R) → List Dispatch) (ops : List (Op E R))
      (results : List (OpResult E X))
      → Chains exec
      → IsGrouping ops (planner ops)
      → run_with exec host (sequential 0) ops ≡ (results, none)
      → is_ok results ≡ true
      → run_with exec host planner ops ≡ (results, none)
  unfolding run_with prepare
  run_with-sequential planner ops results chains grouping h all = elim (Option-cases host.state) [
    | inr (e, broken) ↦ rw broken (rw broken at h)
    | inl usable ↦ elim (Bool-cases (length ops == 0)) [
      | inl is_empty ↦ rw (usable, is_empty) (rw (usable, is_empty) at h)
      | inr not_empty ↦ elim (Result-cases (expected_daemon 0 ops none)) [
        | inr (e, mixed) ↦ rw (usable, not_empty, mixed) (rw (usable, not_empty, mixed) at h)
        | inl (expected, one_daemon) ↦
            elim (Result-cases (prepare host ops (host.with_daemon expected))) [
              | inr (e, unprepared) ↦
                  rw (usable, not_empty, one_daemon, unprepared)
                    (rw (usable, not_empty, one_daemon, unprepared) at h)
              | inl (r, prepared) ↦
                  rw (usable, not_empty, one_daemon, prepared)
                    (run_prepared-sequential exec ops r chains (planner ops)
                      (record {
                        results = initial ops;
                        created = [];
                        server = host.with_daemon expected;
                      })
                      results grouping (omega (arith, length-initial {E = E} {R = R} X ops))
                      (rw (usable, not_empty, one_daemon, prepared) at h) all)
            ]
      ]
    ]
  ]
