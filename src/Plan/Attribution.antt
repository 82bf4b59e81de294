-- ===== src/Plan/Attribution.antt =====
-- What the answer to one operation that is sent alone makes of its result, and of no other.
use libtmux_go.Base.{
  ℕ, ◌≡◌, refl, ap, true, false, Option, none, some, List, [], ◌∷◌, ◌++◌, length, get_elem?,
  Bool-cases, inl, inr, bytes_eq, Bytes, if◌then◌else◌,
}
use libtmux_go.Command.{CommandResult, new_error}
use libtmux_go.Plan.{plan_error, no_id, Grouped, Op, Dispatch}
use libtmux_go.Plan.Results.{
  OpStatus, op_complete, op_failed, op_skipped, OpResult, RunError, refused, failed, Run,
  is_success, update, update_all, with_status, with_error,
}
use libtmux_go.Plan.Rendering.{op_name}
use libtmux_go.Plan.Running.{with_output, attribute_one, attribute_single, attribute, first_line}

-- The dispatch of one operation.
abbrev pub only : ℕ → Grouped → Dispatch
only index reason = record { ops = index ∷ []; reason = reason }

module _ {E R X : Type 0} where
  -- An operation's result, part by part.
  abbrev pub result_of :
      Op E R → OpStatus → Bytes → List Bytes → Option (RunError E X) → OpResult E X
  result_of op status id lines e = record {
    command = op.name;
    status = status;
    created = id;
    stdout = lines;
    error = e;
  }

  abbrev pub skipped : Op E R → OpResult E X
  skipped op = result_of op op_skipped [] [] none

-- The lines that an operation's result keeps of what the server answered.
abbrev pub kept_lines : {E R : Type 0} → Op E R → CommandResult → List Bytes
kept_lines op result = if op.captures then result.stdout else []

pub update_here :
    {E X : Type 0} (front back : List (OpResult E X)) (o : OpResult E X)
    (f : OpResult E X → OpResult E X)
    → update (front ++ o ∷ back) (length front) f ≡ front ++ f o ∷ back
unfolding update
update_here [] back o f = refl
update_here (u ∷ front) back o f = ap (◌∷◌ u) (update_here front back o f)

module _ {E R X S : Type 0} (ops : List (Op E R)) (front back : List (OpResult E X)) (op : Op E R)
    (reason : Grouped) where
  -- A run whose results have `o` between the two lists.
  abbrev pub at_result : Run E X S → OpResult E X → Run E X S
  at_result run o = record run { results = front ++ o ∷ back }

  with_output-at :
      (result : CommandResult) (run : Run E X S)
      → with_output (length front) op result (at_result run (result_of op op_complete [] [] none))
        ≡ at_result run (result_of op op_complete [] (kept_lines op result) none)
  unfolding with_output
  with_output-at result run = elim (Bool-cases op.captures) [
    | inl prints ↦ rw prints (
        ap (λ rs. record run { results = rs })
          (update_here front back (result_of op op_complete [] [] none)
            (λ u. record u { stdout = result.stdout })))
    | inr silent ↦ rw silent refl
  ]

  pub attribute-silent :
      (result : CommandResult) (run : Run E X S)
      → get_elem? ops (length front) ≡ some op
      → is_success result ≡ true
      → op.creates ≡ false
      → attribute ops (only (length front) reason) result (at_result run (skipped op))
        ≡ (true, at_result run (result_of op op_complete [] (kept_lines op result) none))
  unfolding attribute update_all attribute_one
  attribute-silent result run found works makes_none =
      rw (works, is_success, found, attribute, attribute_single)
        (rw (update_here front back (skipped op) (with_status op_complete))
          (rw (with_output-at result run) (rw makes_none refl)))

  pub attribute-creates :
      (result : CommandResult) (run : Run E X S)
      → get_elem? ops (length front) ≡ some op
      → is_success result ≡ true
      → op.creates ≡ true
      → bytes_eq (first_line result.stdout) [] ≡ false
      → attribute ops (only (length front) reason) result (at_result run (skipped op)) ≡ (
        true,
        record (at_result run
            (result_of op op_complete (first_line result.stdout) (kept_lines op result) none)) {
              created = (length front, first_line result.stdout) ∷ run.created;
            },
      )
  unfolding attribute update_all attribute_one
  attribute-creates result run found works makes line =
      rw (works, is_success, found, attribute, attribute_single)
        (rw (update_here front back (skipped op) (with_status op_complete)) (
          rw (with_output-at result run) (
            rw (makes, line)
              (ap
                (λ rs. (
                  true,
                  record run {
                    results = rs;
                    created = (length front, first_line result.stdout) ∷ run.created;
                  },
                ))
                (update_here front back (result_of op op_complete [] (kept_lines op result) none)
                  (λ w. record w { created = first_line result.stdout }))))))

  pub attribute-nameless :
      (result : CommandResult) (run : Run E X S)
      → get_elem? ops (length front) ≡ some op
      → is_success result ≡ true
      → op.creates ≡ true
      → bytes_eq (first_line result.stdout) [] ≡ true
      → attribute ops (only (length front) reason) result (at_result run (skipped op)) ≡ (
        false,
        at_result run (
            result_of op op_failed []
              (kept_lines op result)
              (some (refused (plan_error (length front) no_id)))),
      )
  unfolding attribute update_all attribute_one
  attribute-nameless result run found works makes line =
      rw (works, is_success, found, attribute, attribute_single)
        (rw (update_here front back (skipped op) (with_status op_complete)) (
          rw (with_output-at result run) (
            rw (makes, line)
              (ap (λ rs. (false, record run { results = rs }))
                (update_here front back (result_of op op_complete [] (kept_lines op result) none)
                  (with_error op_failed (refused (plan_error (length front) no_id))))))))

  pub attribute-fails :
      (result : CommandResult) (run : Run E X S)
      → get_elem? ops (length front) ≡ some op
      → is_success result ≡ false
      → attribute ops (only (length front) reason) result (at_result run (skipped op)) ≡ (
        false,
        at_result run (result_of op op_failed [] [] (some (failed (new_error op.name result)))),
      )
  unfolding attribute
  attribute-fails result run found fails =
      rw (fails, is_success, found, op_name)
        (ap (λ rs. (false, record run { results = rs }))
          (update_here front back (skipped op)
            (with_error op_failed (failed (new_error op.name result)))))
