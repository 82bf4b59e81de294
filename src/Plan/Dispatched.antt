-- ===== src/Plan/Dispatched.antt =====
-- One operation that is sent alone, and the trace that it begins.
use libtmux_go.Base.{
  ℕ, ◌+◌, ◌≡◌, ◌⊎◌, refl, ap, subst, sym, ◌∙◌, true, false, Option, none, some, List, [], ◌∷◌, ◌++◌,
  append_assoc, Bytes, length, length-append, get_elem?, Bool-cases, inl, inr, bytes_eq,
  bytes_eq_iff,
}
use libtmux_go.Command.{CommandResult}
use libtmux_go.Base.Result.{ok, err}
use libtmux_go.Plan.{Op, PlanError, alone, alone_reason, sequential, render_op}
use libtmux_go.Plan.Attribution.{
  only, attribute-silent, attribute-creates, attribute-nameless, attribute-fails,
}
use libtmux_go.Plan.Traces.{IsTraced, fails, nameless, answers, creates_one, is_success-cases}
use libtmux_go.Plan.Results.{
  OpResult, RunError, refused, Run, Sent, completed, not_sent, Next, goes_on, stops,
}
use libtmux_go.Plan.Rendering.{render_at, render_dispatch}
use libtmux_go.Plan.Running.{answer, first_line, run_dispatch, run_loop, initial}

pub Sent-cases :
    {X S : Type 0} (v : Sent X × S)
    → ((result : CommandResult) × (after : S) × (v ≡ (completed result, after)))
      ⊎ (((x : X) × (after : S) × (v ≡ (not_sent true x, after)))
          ⊎ ((x : X) × (after : S) × (v ≡ (not_sent false x, after))))
Sent-cases (completed result, after) = inl (result, after, refl)
Sent-cases (not_sent true x, after) = inr (inl (x, after, refl))
Sent-cases (not_sent false x, after) = inr (inr (x, after, refl))

pub get_elem?-here :
    {A : Type 0} (front back : List A) (x : A)
    → get_elem? (front ++ x ∷ back) (length front) ≡ some x
get_elem?-here [] back x = refl
get_elem?-here (y ∷ front) back x = get_elem?-here front back x

module _ {E R X S : Type 0} (exec : S → List Bytes → Sent X × S) (ops : List (Op E R)) (r : R) where
  -- A run in front of which the results are known, and behind which nothing was sent.
  abbrev pub run_of : List (OpResult E X) → List (OpResult E X) → List (ℕ × Bytes) → S → Run E X S
  run_of front back created server = record {
    results = front ++ back;
    created = created;
    server = server;
  }

  abbrev pub Traced : ℕ → List (OpResult E X) → List (Op E R) → List (ℕ × Bytes) → S → Type 0
  Traced i front more created server =
      (results : List (OpResult E X)) × (((run_loop exec ops r (sequential i more)
            (run_of front (initial more) created server)).0
          ).results
        ≡ front ++ results)
      × IsTraced exec r i server created more results
          (run_loop exec ops r (sequential i more) (run_of front (initial more) created server)).1

  abbrev pub dispatched :
      List (OpResult E X) → Op E R → List (Op E R) → List (ℕ × Bytes) → S → Next E X S
  dispatched front op more created server =
      run_dispatch exec ops r (only (length front) (alone_reason op alone))
        (run_of front (initial (op ∷ more)) created server)

  pub stops-Traced :
      (front : List (OpResult E X)) (op : Op E R) (more : List (Op E R))
      (created : List (ℕ × Bytes)) (server after : S) (u : OpResult E X) (e : Option (RunError E X))
      → dispatched front op more created server
        ≡ stops (run_of front (u ∷ initial more) created after) e
      → IsTraced exec r (length front) server created (op ∷ more) (u ∷ initial more) e
      → Traced (length front) front (op ∷ more) created server
  unfolding run_loop sequential
  stops-Traced front op more created server after u e step trace =
      (u ∷ initial more, rw (step, run_loop) refl, rw (step, run_loop) trace)

  goes-Traced :
      (front : List (OpResult E X)) (op : Op E R) (more : List (Op E R))
      (created later : List (ℕ × Bytes)) (server after : S) (u : OpResult E X)
      → dispatched front op more created server
        ≡ goes_on (run_of front (u ∷ initial more) later after)
      → ((results : List (OpResult E X)) (e : Option (RunError E X))
          → IsTraced exec r (length front + 1) after later more results e
          → IsTraced exec r (length front) server created (op ∷ more) (u ∷ results) e)
      → Traced (length (front ++ u ∷ [])) (front ++ u ∷ []) more later after
      → Traced (length front) front (op ∷ more) created server
  unfolding run_loop sequential
  goes-Traced front op more created later server after u step trace behind =
      let (results, same, rest) =
        subst (λ i. Traced i (front ++ u ∷ []) more later after) (length-append front (u ∷ []))
          behind in
      let loop : Run E X S → Run E X S × Option (RunError E X) =
        run_loop exec ops r (sequential (length front + 1) more) in
      let moved : run_of (front ++ u ∷ []) (initial more) later after
          ≡ run_of front (u ∷ initial more) later after =
        ap (λ rs. record { results = rs; created = later; server = after })
          (append_assoc front (u ∷ []) (initial more)) in
      let again = ap loop moved in
      (
        u ∷ results,
        rw (step, run_loop)
            (ap (λ v. (v.0).results) (sym again) ∙ same ∙ append_assoc front (u ∷ []) results),
        rw (step, run_loop)
            (subst
              (λ v. IsTraced exec r (length front) server created (op ∷ more) (u ∷ results) v.1)
              again (trace results _ rest)),
      )

  render_dispatch-only :
      (i : ℕ) (op : Op E R) (created : List (ℕ × Bytes))
      → get_elem? ops i ≡ some op
      → render_dispatch ops (only i (alone_reason op alone)) created r ≡ render_op i op created r
  unfolding render_dispatch render_at
  render_dispatch-only i op created found = rw (found, render_at) refl

  pub dispatched-refused :
      (front : List (OpResult E X)) (op : Op E R) (more : List (Op E R))
      (created : List (ℕ × Bytes)) (server : S) (e : PlanError E)
      → get_elem? ops (length front) ≡ some op
      → render_op (length front) op created r ≡ err e
      → dispatched front op more created server
        ≡ stops (run_of front (initial (op ∷ more)) created server) (some (refused e))
  unfolding run_dispatch
  dispatched-refused front op more created server e found bad =
      let shown = render_dispatch-only (length front) op created found ∙ bad in
      rw (shown, run_dispatch) refl

  pub dispatched-sent :
      (front : List (OpResult E X)) (op : Op E R) (more : List (Op E R))
      (created : List (ℕ × Bytes)) (server after : S) (argv : List Bytes) (a : Sent X)
      → get_elem? ops (length front) ≡ some op
      → render_op (length front) op created r ≡ ok argv
      → exec server argv ≡ (a, after)
      → dispatched front op more created server
        ≡ answer ops
            (only (length front) (alone_reason op alone))
            (run_of front (initial (op ∷ more)) created after)
            a
  unfolding run_dispatch
  dispatched-sent front op more created server after argv a found good sent =
      let shown = render_dispatch-only (length front) op created found ∙ good in
      rw (shown, run_dispatch)
        (ap
          (λ v.
            answer ops (only (length front) (alone_reason op alone))
              (run_of front (initial (op ∷ more)) created v.1) (v.0))
          sent)

  pub completed-Traced :
      (front : List (OpResult E X)) (op : Op E R) (more : List (Op E R))
      (created : List (ℕ × Bytes)) (server after : S) (argv : List Bytes) (result : CommandResult)
      → get_elem? ops (length front) ≡ some op
      → render_op (length front) op created r ≡ ok argv
      → exec server argv ≡ (completed result, after)
      → ((u : OpResult E X) (later : List (ℕ × Bytes))
          → Traced (length (front ++ u ∷ [])) (front ++ u ∷ []) more later after)
      → Traced (length front) front (op ∷ more) created server
  unfolding answer
  completed-Traced front op more created server after argv result found good sent behind =
      let back = initial more in
      let reason = alone_reason op alone in
      let i = length front in
      let run = run_of front (initial (op ∷ more)) created after in
      let step =
        dispatched-sent front op more created server after argv (completed result) found good
          sent in
      elim (is_success-cases result) [
        | inr (nonzero, bad) ↦
            (let e = attribute-fails ops front back op reason result run found bad in
              stops-Traced front op more created server after _ none (step ∙ rw e refl)
                (fails i server after created op more argv result good sent nonzero))
        | inl (zero_code, works) ↦ elim (Bool-cases op.creates) [
          | inr silent ↦
              (let e = attribute-silent ops front back op reason result run found works silent in
                goes-Traced front op more created created server after _ (step ∙ rw e refl)
                  (λ results err_after.
                    answers i server after created op more argv result results err_after good sent
                      zero_code silent)
                  (behind _ created))
          | inl makes ↦ elim (Bool-cases (bytes_eq (first_line result.stdout) [])) [
            | inl no_line ↦
                (let e =
                    attribute-nameless ops front back op reason result run found works makes
                      no_line in
                  stops-Traced front op more created server after _ none (step ∙ rw e refl) (
                    nameless i server after created op more argv result good sent zero_code makes
                      ((bytes_eq_iff (first_line result.stdout) []).0 no_line)))
            | inr line ↦
                (let e =
                    attribute-creates ops front back op reason result run found works makes line in
                  let later = (i, first_line result.stdout) ∷ created in
                  goes-Traced front op more created later server after _ (step ∙ rw e refl)
                    (λ results err_after.
                      creates_one i server after created op more argv result results err_after good
                        sent zero_code makes
                        (λ same.
                          (let said = (bytes_eq_iff (first_line result.stdout) []).1 same in
                            let clash : ⊥ = cc in clash)))
                    (behind _ later))
          ]
        ]
      ]
