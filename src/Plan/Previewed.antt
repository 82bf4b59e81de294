-- ===== src/Plan/Previewed.antt =====
-- What a preview shows, entry by entry, and where it ends.
use mathlib.Core.Bool.{not}
use libtmux_go.Base.{
  ℕ, ◌+◌, ◌≡◌, refl, ap, ap₂, ◌∙◌, ◌⊎◌, inl, inr, Bool, true, false, ◌&&◌, ◌||◌, Option, none, some,
  List, [], ◌∷◌, ◌++◌, length, Bytes, ◌==◌, if◌then◌else◌, arith, Bool-cases,
}
use libtmux_go.Base.Result.{Result, ok, err, ◌>>=◌, Result-cases}
use libtmux_go.Plan.{
  plan_error, build_error, no_command, Op, Ref, PlanError, is_zero_ref, resolve, render_op,
}
use libtmux_go.Plan.Preview.{
  fail_unsupported, RenderContext, awaits_earlier, no_entries, preview_from, preview,
}

resolve-fixed :
    {E : Type 0} (ref : Ref) (created : List (ℕ × Bytes)) (index : ℕ)
    → (ref.step == 0) ≡ true
    → resolve {E = E} ref created index ≡ resolve ref [] index
unfolding resolve
resolve-fixed ref created index h = rw h refl

zero_ref-step : (ref : Ref) → is_zero_ref ref ≡ true → (ref.step == 0) ≡ true
zero_ref-step ref h = ground (arith, h)

-- No earlier step awaited: neither reference that is resolved is to a step.
neither :
    (u t s : Bool) → ((not u && not t) || not s) ≡ false → ((u ≡ true) ⊎ (t ≡ true)) × (s ≡ true)
neither true t true h = (inl refl, refl)
neither true t false h = cc
neither false true true h = (inr refl, refl)
neither false true false h = cc
neither false false s h = cc

module _ {E R : Type 0} where
  -- The arguments of an operation that awaits no earlier one do not depend on what was created.
  pub render_op-fixed :
      (index : ℕ) (op : Op E R) (created : List (ℕ × Bytes)) (r : R)
      → awaits_earlier op ≡ false
      → render_op index op created r ≡ render_op index op [] r
  unfolding render_op awaits_earlier
  render_op-fixed index op created r h =
      let (fixed, source_fixed) =
        neither op.untargets (op.target.step == 0) (op.source.step == 0) h in
      let target_same : (if op.untargets then ok [] else resolve {E = E} op.target created index)
          ≡ (if op.untargets then ok [] else resolve op.target [] index) =
        elim fixed [
          | inl unneeded ↦ rw unneeded refl
          | inr concrete ↦
              ap (λ v. if op.untargets then ok [] else v)
                (resolve-fixed op.target created index concrete)
        ] in
      let source_same : (if is_zero_ref op.source
            then ok []
            else resolve {E = E} op.source created index)
          ≡ (if is_zero_ref op.source then ok [] else resolve op.source [] index) =
        ap (λ v. if is_zero_ref op.source then ok [] else v)
          (resolve-fixed op.source created index source_fixed) in
      ap₂
        (λ t s. elim (op.build) [
          | none ↦ err (plan_error index no_command)
          | some build ↦ (do
            target ← t
            source ← s
            elim (build target source r) [
              | ok argv ↦ ok argv
              | err e ↦ err (build_error index op.name e)
            ])
        ])
        target_same source_same

  -- The references that an operation resolves are to objects that exist already.
  abbrev pub IsConcrete : Op E R → Type 0
  IsConcrete op = ((op.untargets ≡ true) ⊎ (op.target.step ≡ 0)) × (op.source.step ≡ 0)

  -- What the operation at an index renders to, whatever was created in front of it.
  abbrev pub Renders : R → ℕ → Op E R → Result (PlanError E) (List Bytes) → Type 0
  Renders r index op outcome = (created : List (ℕ × Bytes)) → render_op index op created r ≡ outcome

  -- An entry holds what a concrete operation renders to, and nothing for one that is not.
  abbrev pub IsEntry : R → ℕ → Op E R → Option (List Bytes) → Type 0
  IsEntry r index op entry =
      (IsConcrete op × ((argv : List Bytes) × (entry ≡ some argv) × Renders r index op (ok argv)))
      ⊎ ((IsConcrete op → ⊥) × (entry ≡ none))

  abbrev pub IsEntries : R → ℕ → List (Op E R) → List (Option (List Bytes)) → Type 0
  IsEntries r index [] [] = Unit
  IsEntries r index (op ∷ ops) (entry ∷ entries) =
      IsEntry r index op entry × IsEntries r (index + 1) ops entries
  IsEntries r index _ _ = ⊥

  -- A first concrete operation that is refused, with the entries in front of it.
  pub record Refusal (r : R) (index : ℕ) (ops : List (Op E R)) : Type 0 where
    pub front : List (Op E R)
    pub op : Op E R
    pub back : List (Op E R)
    pub shown : List (Option (List Bytes))
    pub error : PlanError E
    pub parts : ops ≡ front ++ op ∷ back
    pub entries : IsEntries r index front shown
    pub concrete : IsConcrete op
    pub refused : Renders r (index + length front) op (err error)

  -- All of the operations previewed, or those in front of a refusal.
  abbrev pub IsPreview :
      R → ℕ → List (Op E R) → List (Option (List Bytes)) × Option (PlanError E) → Type 0
  IsPreview r index ops out =
      (IsEntries r index ops out.0 × (out.1 ≡ none))
      ⊎ ((x : Refusal r index ops) × (out.0 ≡ x.shown ++ no_entries (x.op ∷ x.back))
          × (out.1 ≡ some x.error))

  awaits_earlier-cases :
      (op : Op E R)
      → ((awaits_earlier op ≡ true) × (IsConcrete op → ⊥))
        ⊎ ((awaits_earlier op ≡ false) × IsConcrete op)
  unfolding awaits_earlier
  awaits_earlier-cases op = ground (
    arith,
    Bool-cases op.untargets,
    Bool-cases (op.target.step == 0),
    Bool-cases (op.source.step == 0),
  )

  Refusal-behind :
      (r : R) (index : ℕ) (op : Op E R) (entry : Option (List Bytes)) (ops : List (Op E R))
      → IsEntry r index op entry
      → Refusal r (index + 1) ops
      → Refusal r index (op ∷ ops)
  Refusal-behind r index op entry ops first x = record {
    front = op ∷ x.front;
    op = x.op;
    back = x.back;
    shown = entry ∷ x.shown;
    error = x.error;
    parts = ap (◌∷◌ op) x.parts;
    entries = (first, x.entries);
    concrete = x.concrete;
    refused = λ created. ap (λ i. render_op i x.op created r) (omega arith) ∙ x.refused created;
  }

  IsPreview-behind :
      (r : R) (index : ℕ) (op : Op E R) (entry : Option (List Bytes)) (ops : List (Op E R))
      (rest : List (Option (List Bytes)) × Option (PlanError E))
      → IsEntry r index op entry
      → IsPreview r (index + 1) ops rest
      → IsPreview r index (op ∷ ops) (entry ∷ rest.0, rest.1)
  unfolding Refusal-behind
  IsPreview-behind r index op entry ops rest first (inl (all, worked)) = inl ((first, all), worked)
  IsPreview-behind r index op entry ops rest first (inr (x, same, failed)) =
      inr (Refusal-behind r index op entry ops first x, ap (◌∷◌ entry) same, failed)

  preview_from-IsPreview :
      (index : ℕ) (ops : List (Op E R)) (r : R) → IsPreview r index ops (preview_from index ops r)
  unfolding preview_from
  preview_from-IsPreview index [] r = inl (tt, refl)
  preview_from-IsPreview index (op ∷ ops) r =
      let rest = preview_from (index + 1) ops r in
      let behind = preview_from-IsPreview (index + 1) ops r in
      elim (awaits_earlier-cases op) [
        | inl (waits, open_reference) ↦
            rw waits (IsPreview-behind r index op none ops rest (inr (open_reference, refl)) behind)
        | inr (ready, concrete) ↦ elim (Result-cases (render_op index op [] r)) [
          | inl (argv, rendered) ↦
              (let shown : Renders r index op (ok argv) =
                  (λ created. render_op-fixed index op created r ready ∙ rendered) in
                let first : IsEntry r index op (some argv) = inl (concrete, (argv, refl, shown)) in
                rw (ready, rendered)
                  (IsPreview-behind r index op (some argv) ops rest first behind))
          | inr (e, bad) ↦
              (let x : Refusal r index (op ∷ ops) = record {
                front = [];
                op = op;
                back = ops;
                shown = [];
                error = e;
                parts = refl;
                entries = tt;
                concrete = concrete;
                refused = λ created.
                    ap (λ i. render_op i op created r) (omega arith)
                    ∙ render_op-fixed index op created r ready
                    ∙ bad;
              } in
                rw (ready, bad) (inr (x, refl, refl)))
        ]
      ]

-- A preview for a version renders in the context of that version alone, which fails on what it does not
-- support. Either it has no error, and the entry of every operation whose references are to existing objects
-- holds what is rendered for it, whatever was created before, and every other entry is empty; or its error
-- is the one of the first such operation that is refused, the entries in front of that one are as said, and
-- those from it on are empty.
pub preview-IsPreview :
    {E V W : Type 0} (version : V) (ops : List (Op E (RenderContext V W)))
    → IsPreview
        (record {
          version = version;
          layout_version = version;
          unsupported = fail_unsupported;
          warning_handler = none;
        })
        0
        ops
        (preview version ops)
unfolding preview
preview-IsPreview version ops = preview_from-IsPreview 0 ops _
