-- ===== src/Plan/Planners.antt =====
-- A grouping does what its operations do one by one.

use libtmux_go.Base.{
  ℕ, ◌≤◌, ◌≡◌, ◌≢◌, refl, ap, ap₂, subst, sym, ◌∙◌, true, none, some, List, [], ◌∷◌, ◌++◌, Bytes,
  length, get_elem?, All, arith, Option-cases, inl, inr,
}
use libtmux_go.Base.Result.{ok}
use libtmux_go.Command.{CommandResult}
use libtmux_go.Plan.{Op, Dispatch, alone}
use libtmux_go.Plan.Grouping.{flatten, IsFilled}
use libtmux_go.Plan.Groups.{is_chainable_at, IsFair}
use libtmux_go.Plan.Results.{op_complete, Run, Sent, completed, update_all, with_status, goes_on}
use libtmux_go.Plan.Rendering.{render_at, separator, render_group, render_dispatch}
use libtmux_go.Plan.Running.{attribute, answer, run_dispatch}
use libtmux_go.Plan.Chained.{
  refuse_at-ok, lone, Chained, Runs, Singles, Singles-append, run_dispatch-ops, run_dispatch-inv,
  answer-inv, attribute-inv, attribute_group, IsSuccess, Chains,
}

module _ {E R X S : Type 0} (exec : S → List Bytes → Sent X × S) (ops : List (Op E R)) (r : R) where
  run_dispatch-Chained :
      (i : ℕ) (run next : Run E X S)
      → is_chainable_at ops i ≡ true
      → run_dispatch exec ops r (lone i) run ≡ goes_on next
      → Chained exec ops r i run next
  unfolding render_dispatch
  run_dispatch-Chained i run next fair h = elim (Option-cases (get_elem? ops i)) [
    | inl none_there ↦
        (let no : ⊥ = (let bad = rw (none_there, is_chainable_at) at fair in cc) in absurd no)
    | inr (op, found) ↦
        (let (argv, rendered, answered) = run_dispatch-inv exec ops r (lone i) run next h in
          let (result, sent, attributed) = answer-inv ops (lone i) _ next _ answered in
          let (works, same) =
            attribute-inv ops i op result _ next found (rw (found, is_chainable_at) at fair)
              attributed in
          record {
            argv = argv;
            rendered = rendered;
            succeeds = (result, sent, works, sym (ap (λ u. u.server) same));
            same_ids = ap (λ u. u.created) same;
            marked = ap (λ u. u.results) same;
          })
  ]

  -- Behind the operations of a list that is rendered already, at most the IDs `ids` being known.
  render_behind :
      (chains : Chains exec) (is : List ℕ) (front : List Bytes) (s : S) (ids : List (ℕ × Bytes))
      (run final : Run E X S)
      → IsSuccess (exec s front) run.server
      → run.created ≡ ids
      → All (λ i. is_chainable_at ops i ≡ true) is
      → Singles exec ops r is run final
      → (whole : List Bytes) × (render_group ops is ids r (some front) ≡ ok whole)
        × IsSuccess (exec s whole) final.server
        × (final.created ≡ ids)
        × (final.results ≡ update_all run.results is (with_status op_complete))
  unfolding render_group update_all Singles
  render_behind chains [] front s ids run final sent known fair h = (
    front,
    refl,
    subst (λ u. IsSuccess (exec s front) u.server) h sent,
    ap (λ u. u.created) (sym h) ∙ known,
    ap (λ u. u.results) (sym h),
  )
  render_behind chains (i ∷ is) front s ids run final sent known (here, fair) (next, e, more) =
      let c = run_dispatch-Chained i run next here e in
      let rendered = subst (λ u. render_at ops i u r ≡ ok c.argv) known c.rendered in
      let (whole, listed, works, created, marked) =
        render_behind chains is ((front ++ separator) ++ c.argv) s ids next final
          (chains s run.server next.server front c.argv sent c.succeeds) (c.same_ids ∙ known) fair
          more in
      (
        whole,
        rw (refuse_at-ok ops i here, rendered) listed,
        works,
        created,
        marked ∙ ap (λ u. update_all u is (with_status op_complete)) c.marked,
      )

  run_dispatch-made :
      (d : Dispatch) (run final : Run E X S) (argv : List Bytes) (result : CommandResult)
      → render_dispatch ops d run.created r ≡ ok argv
      → (exec run.server argv).0 ≡ completed result
      → (exec run.server argv).1 ≡ final.server
      → attribute ops d result (record run { server = final.server }) ≡ (true, final)
      → run_dispatch exec ops r d run ≡ goes_on final
  unfolding run_dispatch answer
  run_dispatch-made d run final argv result rendered sent moved attributed =
      rw (rendered, run_dispatch)
        (ap₂ (λ s x. answer ops d (record run { server = s }) x) moved sent
          ∙ rw (attributed, answer) refl)

  -- Operations that share an invocation do what they do one by one.
  run_group :
      (chains : Chains exec) (is : List ℕ) (run final : Run E X S)
      → 2 ≤ length is
      → All (λ i. is_chainable_at ops i ≡ true) is
      → Singles exec ops r is run final
      → run_dispatch exec ops r (record { ops = is; reason = alone }) run ≡ goes_on final
  unfolding run_dispatch render_dispatch render_group answer Singles update_all
  run_group chains [] run final many fair h = absurd (let no : ⊥ = omega (arith, many) in no)
  run_group chains (i ∷ []) run final many fair h = absurd (let no : ⊥ = omega (arith, many) in no)
  run_group chains (i ∷ j ∷ is) run final many (here, fair) (next, e, more) =
      let c = run_dispatch-Chained i run next here e in
      let (whole, listed, (result, sent, works, moved), created, marked) =
        render_behind chains (j ∷ is) c.argv run.server run.created next final c.succeeds c.same_ids
          fair more in
      let listed_first : render_group ops (i ∷ j ∷ is) run.created r none ≡ ok whole =
        rw (refuse_at-ok ops i here, c.rendered) listed in
      run_dispatch-made (record { ops = i ∷ j ∷ is; reason = alone }) run final whole result
        listed_first sent moved
        (attribute_group ops (i ∷ j ∷ is) result (record run { server = final.server }) many works
          ∙ ap₂ (λ a b. (true, record { results = a; created = b; server = final.server }))
              (sym (marked ∙ ap (λ u. update_all u (j ∷ is) (with_status op_complete)) c.marked))
              (sym created))

  -- Each dispatch of a grouping does what its operations do one by one.
  run_ops :
      (chains : Chains exec) (is : List ℕ) (run final : Run E X S)
      → is ≢ []
      → IsFair ops (record { ops = is; reason = alone })
      → Singles exec ops r is run final
      → run_dispatch exec ops r (record { ops = is; reason = alone }) run ≡ goes_on final
  unfolding Singles
  run_ops chains [] run final filled fair h = absurd (filled refl)
  run_ops chains (i ∷ []) run final filled fair (next, e, last) = e ∙ ap goes_on last
  run_ops chains (i ∷ j ∷ is) run final filled (inl few) h =
      absurd (let no : ⊥ = omega (arith, few) in no)
  run_ops chains (i ∷ j ∷ is) run final filled (inr all) h =
      run_group chains (i ∷ j ∷ is) run final (omega arith) all h

  pub Singles-Runs :
      (chains : Chains exec) (ds : List Dispatch) (run final : Run E X S)
      → All IsFilled ds
      → All (IsFair ops) ds
      → Singles exec ops r (flatten ds) run final
      → Runs exec ops r ds run final
  unfolding Runs Singles
  Singles-Runs chains [] run final filled fair h = h
  Singles-Runs chains (d ∷ ds) run final (filled, more_filled) (fair, more_fair) h =
      let (mid, front, back) = Singles-append exec ops r d.ops (flatten ds) run final h in
      (
        mid,
        run_dispatch-ops exec ops r d run d.ops refl
            ∙ run_ops chains d.ops run mid filled fair front,
        Singles-Runs chains ds mid final more_filled more_fair back,
      )
