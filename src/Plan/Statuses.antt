-- ===== src/Plan/Statuses.antt =====
-- Where every operation is sent alone, the results tell exactly what the server answered.
use libtmux_go.Base.{
  ℕ, ◌+◌, ◌≡◌, refl, ap, subst, sym, ◌∙◌, true, false, Option, none, some, List, [], ◌∷◌, ◌++◌,
  append_assoc, Bytes, length, length-append, get_elem?, ◌==◌, arith, inl, inr,
}
use libtmux_go.Base.Result.{ok, Result-cases}
use libtmux_go.Plan.{Identity, Op, sequential, render_op}
use libtmux_go.Plan.Dispatched.{
  Traced, Sent-cases, get_elem?-here, stops-Traced, completed-Traced, dispatched-refused,
  dispatched-sent,
}
use libtmux_go.Plan.Attribution.{skipped, update_here}
use libtmux_go.Plan.Groups.{sequential-IsGrouping}
use libtmux_go.Plan.Traces.{IsTraced, ends, not_rendered, never_sent, unknown}
use libtmux_go.Plan.Results.{
  OpResult, refused, transport, Run, Sent, not_sent, stops, op_indeterminate, with_error,
  update_all,
}
use libtmux_go.Plan.Running.{
  answer, run_loop, run_dispatches, run_prepared, Host, prepare, run_with, expected_daemon, initial,
}

module _ {E R X S : Type 0} (exec : S → List Bytes → Sent X × S) (ops : List (Op E R)) (r : R) where
  -- The run of the operations behind those whose results are known.
  loop-Traced :
      (more passed : List (Op E R)) (front : List (OpResult E X)) (created : List (ℕ × Bytes))
      (server : S)
      → ops ≡ passed ++ more
      → length passed ≡ length front
      → Traced exec ops r (length front) front more created server
  unfolding run_loop sequential answer update_all
  loop-Traced [] passed front created server parts same =
      ([], refl, ends (length front) server created)
  loop-Traced (op ∷ more) passed front created server parts same =
      let found : get_elem? ops (length front) ≡ some op =
        ap (λ os. get_elem? os (length front)) parts
        ∙ ap (get_elem? (passed ++ op ∷ more)) (sym same)
        ∙ get_elem?-here passed more op in
      elim (Result-cases (render_op (length front) op created r)) [
        | inr (e, bad) ↦
            stops-Traced exec ops r front op more created server server (skipped op)
              (some (refused e))
              (dispatched-refused exec ops r front op more created server e found bad)
              (not_rendered (length front) server created op more e bad)
        | inl (argv, good) ↦ elim (Sent-cases (exec server argv)) [
          | inl (result, after, sent) ↦
              completed-Traced exec ops r front op more created server after argv result found good
                sent
                (λ u later.
                  loop-Traced more (passed ++ op ∷ []) (front ++ u ∷ []) later after
                    (parts ∙ sym (append_assoc passed (op ∷ []) more))
                    (length-append passed (op ∷ [])
                      ∙ ap (λ n. n + 1) same
                      ∙ sym (length-append front (u ∷ []))))
          | inr (inl (x, after, sent)) ↦
              stops-Traced exec ops r front op more created server after _ (some (transport x))
                (dispatched-sent exec ops r front op more created server after argv
                    (not_sent true x) found good sent
                  ∙ ap
                      (λ rs.
                        stops (record { results = rs; created = created; server = after })
                          (some (transport x)))
                      (update_here front (initial more) (skipped op)
                        (with_error op_indeterminate (transport x))))
                (unknown (length front) server after created op more argv x good sent)
          | inr (inr (x, after, sent)) ↦
              stops-Traced exec ops r front op more created server after (skipped op)
                (some (transport x))
                (dispatched-sent exec ops r front op more created server after argv
                  (not_sent false x) found good sent)
                (never_sent (length front) server after created op more argv x good sent)
        ]
      ]

run_prepared-IsTraced :
    {E R X S : Type 0} (exec : S → List Bytes → Sent X × S) (ops : List (Op E R)) (r : R)
    (server : S)
    → let out =
        run_prepared exec ops r
          (record { results = initial ops; created = []; server = server })
          (sequential 0 ops) in
      IsTraced exec r 0 server [] ops out.0 out.1
unfolding run_prepared run_dispatches
run_prepared-IsTraced {E} {R} {X} {S} exec ops r server =
    let run : Run E X S = record { results = initial {X = X} ops; created = []; server = server } in
    let loop : run_dispatches exec ops r (sequential 0 ops) run
        ≡ run_loop exec ops r (sequential 0 ops) run =
      rw ((sequential-IsGrouping ops).0, run_dispatches) refl in
    let (results, same, trace) = loop-Traced exec ops r ops [] [] [] server refl refl in
    subst (λ v. IsTraced exec r 0 server [] ops ((v.0).results) v.1) (sym loop)
      (subst
        (λ rs. IsTraced exec r 0 server [] ops rs (run_loop exec ops r (sequential 0 ops) run).1)
        (sym same) trace)

module _ {E R X S V : Type 0} (exec : S → List Bytes → Sent X × S) (host : Host E R X S V) where
  -- Where the server can be used, the plan's references stand for one daemon and the run is prepared, the
  -- results and the error of a run that sends every operation alone are those of its trace: an operation is
  -- complete exactly where it was sent and answered with exit code 0, and with an ID if it creates; the first
  -- that is not ends the run, as failed, as indeterminate where the outcome is unknown, or as skipped; and
  -- every one behind it was skipped.
  pub run_with-IsTraced :
      (ops : List (Op E R)) (expected : Option Identity) (r : R)
      → host.state ≡ none
      → expected_daemon 0 ops none ≡ ok expected
      → prepare host ops (host.with_daemon expected) ≡ ok r
      → IsTraced exec r 0
          (host.with_daemon expected)
          []
          ops
          (run_with exec host (sequential 0) ops).0
          (run_with exec host (sequential 0) ops).1
  unfolding run_with prepare
  run_with-IsTraced [] expected r usable one_daemon prepared =
      rw usable (ends 0 (host.with_daemon expected) [])
  run_with-IsTraced (op ∷ ops) expected r usable one_daemon prepared =
      let not_empty : (length (op ∷ ops) == 0) ≡ false = ground arith in
      let prepared_run =
        run_prepared exec (op ∷ ops) r
          (record {
            results = initial (op ∷ ops);
            created = [];
            server = host.with_daemon expected;
          })
          (sequential 0 (op ∷ ops)) in
      let leads : run_with exec host (sequential 0) (op ∷ ops) ≡ prepared_run =
        rw (usable, not_empty, one_daemon, prepared) refl in
      subst (λ v. IsTraced exec r 0 (host.with_daemon expected) [] (op ∷ ops) v.0 v.1) (sym leads)
        (run_prepared-IsTraced exec (op ∷ ops) r (host.with_daemon expected))
