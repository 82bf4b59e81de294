-- ===== src/Plan/Chained.antt =====
-- One operation that neither answers nor creates, sent alone or with others.
use mathlib.Core.Bool.{not}
use libtmux_go.Base.{
  ℕ, ◌≤◌, ◌≡◌, refl, ap, ap₂, sym, Bool, true, false, ◌&&◌, none, some, List, [], ◌∷◌, ◌++◌, Bytes,
  length, get_elem?, arith, Bool-cases, Option-cases, inl, inr,
}
use libtmux_go.Base.Result.{ok, Result-cases}
use libtmux_go.Command.{CommandResult}
use libtmux_go.Plan.{Op, Dispatch, alone, chainable, refuse_if_grouped}
use libtmux_go.Plan.Groups.{is_chainable_at}
use libtmux_go.Plan.Results.{
  op_complete, Run, Sent, completed, not_sent, is_success, update, update_all, with_status, goes_on,
}
use libtmux_go.Plan.Rendering.{render_at, refuse_at, separator, render_dispatch}
use libtmux_go.Plan.Running.{
  with_output, attribute_one, attribute_single, attribute, answer, run_dispatch, run_loop,
}

-- A command list runs its commands one after the other: when each completes with exit code 0, so does
-- the list, and it leaves the server as they do.
abbrev pub IsSuccess : {X S : Type 0} → Sent X × S → S → Type 0
IsSuccess {X} sent server =
    (result : CommandResult) × (sent.0 ≡ completed result)
    × (is_success result ≡ true)
    × (sent.1 ≡ server)

abbrev pub Chains : {X S : Type 0} → (S → List Bytes → Sent X × S) → Type 0
Chains {X} {S} exec =
    (s t u : S) (front back : List Bytes)
    → IsSuccess (exec s front) t
    → IsSuccess (exec t back) u
    → IsSuccess (exec s ((front ++ separator) ++ back)) u

both_false : (b c : Bool) → (not b && not c) ≡ true → (b ≡ false) × (c ≡ false)
both_false false false h = (refl, refl)
both_false false true h = cc
both_false true c h = cc

abbrev pub lone : ℕ → Dispatch
lone i = record { ops = i ∷ []; reason = alone }

pub refuse_at-ok :
    {E R : Type 0} (ops : List (Op E R)) (i : ℕ)
    → is_chainable_at ops i ≡ true
    → refuse_at ops i ≡ ok true
unfolding refuse_at refuse_if_grouped
refuse_at-ok ops i fair = elim (Option-cases (get_elem? ops i)) [
  | inl none_there ↦
      (let no : ⊥ = (let bad = rw (none_there, is_chainable_at) at fair in cc) in absurd no)
  | inr (op, found) ↦
      rw (found, refuse_at) (let is_fair = rw (found, is_chainable_at) at fair in rw is_fair refl)
]

-- What becomes of an operation that neither answers nor creates.
pub record Chained {E R X S : Type 0} (exec : S → List Bytes → Sent X × S) (ops : List (Op E R))
    (r : R) (i : ℕ) (run next : Run E X S) : Type 0 where
  pub argv : List Bytes
  pub rendered : render_at ops i run.created r ≡ ok argv
  pub succeeds : IsSuccess (exec run.server argv) next.server
  pub same_ids : next.created ≡ run.created
  pub marked : next.results ≡ update run.results i (with_status op_complete)

module _ {E R X S : Type 0} (exec : S → List Bytes → Sent X × S) (ops : List (Op E R)) (r : R) where
  -- The dispatches of a run that all go on.
  unfoldable pub Runs : List Dispatch → Run E X S → Run E X S → Type 0
  Runs [] run final = run ≡ final
  Runs (d ∷ ds) run final =
      (next : Run E X S) × (run_dispatch exec ops r d run ≡ goes_on next) × Runs ds next final

  unfoldable pub Singles : List ℕ → Run E X S → Run E X S → Type 0
  Singles [] run final = run ≡ final
  Singles (i ∷ is) run final =
      (next : Run E X S) × (run_dispatch exec ops r (lone i) run ≡ goes_on next)
      × Singles is next final

  pub Runs-run_loop :
      (ds : List Dispatch) (run final : Run E X S)
      → Runs ds run final
      → run_loop exec ops r ds run ≡ (final, none)
  unfolding Runs run_loop
  Runs-run_loop [] run final h = ap (λ u. (u, none)) h
  Runs-run_loop (d ∷ ds) run final (next, e, more) =
      rw (e, run_loop) (Runs-run_loop ds next final more)

  pub Singles-append :
      (xs ys : List ℕ) (run final : Run E X S)
      → Singles (xs ++ ys) run final
      → (mid : Run E X S) × Singles xs run mid × Singles ys mid final
  unfolding Singles
  Singles-append [] ys run final h = (run, refl, h)
  Singles-append (x ∷ xs) ys run final (next, e, more) =
      let (mid, front, back) = Singles-append xs ys next final more in (mid, (next, e, front), back)

  pub run_dispatch-ops :
      (d : Dispatch) (run : Run E X S) (is : List ℕ)
      → d.ops ≡ is
      → run_dispatch exec ops r d run
        ≡ run_dispatch exec ops r (record { ops = is; reason = alone }) run
  unfolding run_dispatch render_dispatch answer attribute
  run_dispatch-ops d run is h =
      ap (λ u. run_dispatch exec ops r (record { ops = u; reason = alone }) run) h

  pub run_dispatch-inv :
      (d : Dispatch) (run next : Run E X S)
      → run_dispatch exec ops r d run ≡ goes_on next
      → (argv : List Bytes) × (render_dispatch ops d run.created r ≡ ok argv)
        × (answer ops d
              (record run { server = (exec run.server argv).1 })
              ((exec run.server argv).0)
            ≡ goes_on next)
  unfolding run_dispatch
  run_dispatch-inv d run next h = elim (Result-cases (render_dispatch ops d run.created r)) [
    | inr (e, refused_as) ↦
        (let no : ⊥ = (let bad = rw (refused_as, run_dispatch) at h in cc) in absurd no)
    | inl (argv, rendered) ↦ (argv, rendered, rw (rendered, run_dispatch) at h)
  ]

module _ {E R X S : Type 0} (ops : List (Op E R)) where
  pub answer-inv :
      (d : Dispatch) (run next : Run E X S) (sent : Sent X)
      → answer ops d run sent ≡ goes_on next
      → (result : CommandResult) × (sent ≡ completed result)
        × (attribute ops d result run ≡ (true, next))
  unfolding answer
  answer-inv d run next (not_sent true e) h = cc
  answer-inv d run next (not_sent false e) h = cc
  answer-inv d run next (completed result) h = elim (Bool-cases ((attribute ops d result run).0)) [
    | inl on ↦
        (let same = rw (on, answer) at h in
          (let inj : (attribute ops d result run).1 ≡ next = cc in
            (result, refl, ap₂ (λ x y. (x, y)) on inj)))
    | inr off ↦ (let no : ⊥ = (let bad = rw (off, answer) at h in cc) in absurd no)
  ]

  pub attribute-inv :
      (i : ℕ) (op : Op E R) (result : CommandResult) (run next : Run E X S)
      → get_elem? ops i ≡ some op
      → chainable op ≡ true
      → attribute ops (record { ops = i ∷ []; reason = alone }) result run ≡ (true, next)
      → (is_success result ≡ true)
        × (next ≡ record run { results = update run.results i (with_status op_complete) })
  unfolding attribute update_all attribute_one with_output
  attribute-inv i op result run next found fair h = elim (Bool-cases (is_success result)) [
    | inr fails ↦
        (let no : ⊥ = (let bad = rw (fails, is_success, attribute) at h in cc) in absurd no)
    | inl works ↦
        (let (silent, makes_none) = both_false op.captures op.creates fair in
          let same =
            rw
              (
                works, is_success, found, attribute, attribute_single, attribute_one, with_output,
                silent, makes_none,
              )
              at h in
          (works, ap (λ u. u.1) (sym same)))
  ]

  pub attribute_group :
      (is : List ℕ) (result : CommandResult) (run : Run E X S)
      → 2 ≤ length is
      → is_success result ≡ true
      → attribute ops (record { ops = is; reason = alone }) result run
        ≡ (true, record run { results = update_all run.results is (with_status op_complete) })
  unfolding attribute
  attribute_group [] result run many works = absurd (let no : ⊥ = omega (arith, many) in no)
  attribute_group (i ∷ []) result run many works = absurd (let no : ⊥ = omega (arith, many) in no)
  attribute_group (i ∷ j ∷ is) result run many works = rw (works, is_success) refl
