-- ===== src/Plan/Complete.antt =====
-- A run with no error stops early only where an operation failed.

use libtmux_go.Base.{
  ℕ, zero, suc, ◌<◌, ◌≡◌, refl, ap, subst, sym, ◌∙◌, ◌⊎◌, Bool, true, false, none, List, [], ◌∷◌,
  Bytes, length, get_elem?, arith, Bool-cases, Option-cases, inl, inr, bytes_eq,
}
use libtmux_go.Base.Result.{Result-cases}
use libtmux_go.Command.{CommandResult}
use libtmux_go.Plan.{Op, Dispatch}
use libtmux_go.Plan.Results.{
  op_complete, OpResult, Run, Sent, completed, not_sent, is_success, update, update_all,
  with_status, goes_on, stops,
}
use libtmux_go.Plan.Rendering.{render_at, render_dispatch}
use libtmux_go.Plan.Running.{
  with_output, attribute_one, attribute_single, attribute, answer, run_dispatch, is_ok, is_complete,
  first_line,
}
use libtmux_go.Plan.Chained.{answer-inv, run_dispatch-inv, lone}

module _ {E X : Type 0} where
  length-update :
      (rs : List (OpResult E X)) (i : ℕ) (f : OpResult E X → OpResult E X)
      → length (update rs i f) ≡ length rs
  unfolding update
  length-update [] i f = refl
  length-update (r ∷ rs) zero f = refl
  length-update (r ∷ rs) (suc i) f = ap suc (length-update rs i f)

  is_ok-update :
      (rs : List (OpResult E X)) (i : ℕ) (f : OpResult E X → OpResult E X)
      → i < length rs
      → ((o : OpResult E X) → is_complete (f o).status ≡ false)
      → is_ok (update rs i f) ≡ false
  unfolding update
  is_ok-update [] i f inside bad = absurd (let no : ⊥ = omega (arith, inside) in no)
  is_ok-update (r ∷ rs) zero f inside bad = rw (bad r) refl
  is_ok-update (r ∷ rs) (suc i) f inside bad = elim (Bool-cases (is_complete r.status)) [
    | inl yes_r ↦ rw yes_r (is_ok-update rs i f (omega (arith, inside)) bad)
    | inr no_r ↦ rw no_r refl
  ]

module _ {E R X S : Type 0} (ops : List (Op E R)) where
  -- A step goes on with as many results, or fails one.
  Settles : Bool × Run E X S → ℕ → Type 0
  Settles out size =
      ((out.0 ≡ true) × (length (out.1).results ≡ size))
      ⊎ ((out.0 ≡ false) × (is_ok (out.1).results ≡ false))

  length-with_output :
      (i : ℕ) (op : Op E R) (result : CommandResult) (run : Run E X S)
      → length (with_output i op result run).results ≡ length run.results
  unfolding with_output
  length-with_output i op result run = elim (Bool-cases op.captures) [
    | inl prints ↦
        rw prints (length-update run.results i (λ o. record o { stdout = result.stdout }))
    | inr silent ↦ rw silent refl
  ]

  attribute_one-Settles :
      (i : ℕ) (op : Op E R) (result : CommandResult) (run : Run E X S)
      → i < length run.results
      → Settles (attribute_one i op result run) (length run.results)
  unfolding attribute_one Settles with_output
  attribute_one-Settles i op result run inside =
      let kept = length-with_output i op result run in
      elim (Bool-cases op.creates) [
        | inr makes_none ↦ rw makes_none (inl (refl, kept))
        | inl makes ↦ elim (Bool-cases (bytes_eq (first_line result.stdout) [])) [
          | inl no_line ↦
              rw (makes, no_line)
                (inr (
                  refl,
                  is_ok-update (with_output i op result run).results i _
                      (omega (arith, kept, inside)) (λ o. refl),
                ))
          | inr line ↦
              rw (makes, line)
                (inl (refl, length-update (with_output i op result run).results i _ ∙ kept))
        ]
      ]

  attribute-Settles :
      (i : ℕ) (result : CommandResult) (run : Run E X S)
      → i < length run.results
      → Settles (attribute ops (lone i) result run) (length run.results)
  unfolding attribute Settles update_all
  attribute-Settles i result run inside = elim (Bool-cases (is_success result)) [
    | inr fails ↦
        rw (fails, is_success) (inr (refl, is_ok-update run.results i _ inside (λ o. refl)))
    | inl works ↦ elim (Option-cases (get_elem? ops i)) [
      | inl none_there ↦
          rw (works, is_success, none_there, attribute, attribute_single)
            (inl (refl, length-update run.results i _))
      | inr (op, found) ↦
          (let done = record run { results = update run.results i (with_status op_complete) } in
            let same = length-update run.results i (with_status op_complete) in
            rw (works, is_success, found, attribute, attribute_single)
              (subst (Settles (attribute_one i op result done)) same
                (attribute_one-Settles i op result done (omega (arith, same, inside)))))
    ]
  ]

  answer-stops :
      (d : Dispatch) (run final : Run E X S) (sent : Sent X)
      → answer ops d run sent ≡ stops final none
      → (result : CommandResult) × (sent ≡ completed result)
        × ((attribute ops d result run).0 ≡ false)
        × (final ≡ (attribute ops d result run).1)
  unfolding answer
  answer-stops d run final (not_sent true e) h = cc
  answer-stops d run final (not_sent false e) h = cc
  answer-stops d run final (completed result) h =
      elim (Bool-cases ((attribute ops d result run).0)) [
        | inr off ↦ (let same = rw (off, answer) at h in (result, refl, off, cc))
        | inl on ↦ (let no : ⊥ = (let bad = rw (on, answer) at h in cc) in absurd no)
      ]

module _ {E R X S : Type 0} (exec : S → List Bytes → Sent X × S) (ops : List (Op E R)) (r : R) where
  -- An operation sent alone goes on with as many results as before, or else ends the run with an
  -- error or a failed result.
  pub goes_on-length :
      (i : ℕ) (run next : Run E X S)
      → run_dispatch exec ops r (lone i) run ≡ goes_on next
      → i < length run.results
      → length next.results ≡ length run.results
  unfolding Settles
  goes_on-length i run next h inside =
      let (argv, rendered, answered) = run_dispatch-inv exec ops r (lone i) run next h in
      let (result, sent, attributed) = answer-inv ops (lone i) _ next _ answered in
      elim (attribute-Settles ops i result (record run { server = (exec run.server argv).1 })
        inside) [
          | inl (on, same) ↦ ap (λ u. length (u.1).results) (sym attributed) ∙ same
          | inr (off, failed) ↦ absurd (let no : ⊥ = cc in no)
        ]

  pub stops-fails :
      (i : ℕ) (run final : Run E X S)
      → run_dispatch exec ops r (lone i) run ≡ stops final none
      → i < length run.results
      → is_ok final.results ≡ false
  unfolding run_dispatch render_dispatch Settles
  stops-fails i run final h inside = elim (Result-cases (render_at ops i run.created r)) [
    | inr (e, refused_as) ↦
        (let no : ⊥ = (let bad = rw (refused_as, run_dispatch) at h in cc) in absurd no)
    | inl (argv, rendered) ↦
        (let (result, sent, off, same) =
            answer-stops ops (lone i) _ final _ (rw (rendered, run_dispatch) at h) in
          elim (attribute-Settles ops i result (record run { server = (exec run.server argv).1 })
            inside) [
              | inl (on, size) ↦ absurd (let no : ⊥ = cc in no)
              | inr (ended, failed) ↦ ap (λ u. is_ok u.results) same ∙ failed
            ])
  ]
