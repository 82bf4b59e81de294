-- ===== src/Queue/Drain.antt =====
-- `take` on the ring: its loop ends, and gives what the backlog gives.
use native.Mathlib.Numerals.{add-one}
use libtmux_go.Base.{
  ℕ, zero, suc, ◌+◌, ◌<◌, ◌≡◌, refl, ◌∙◌, inl, inr, false, some, List, [], ◌∷◌, Bytes, ltb,
  if◌then◌else◌, Bool-cases, arith,
}
use libtmux_go.Queue.Spec.{Backlog, size, empty_backlog, take_items}
use libtmux_go.Queue.Spec
use libtmux_go.Queue.Steps.{head_sequence-Live, head_record-Live, advance-Live}
use libtmux_go.Queue.Refine.{Holds, Same}
use libtmux_go.Queue.{
  Taken, wait, taken, ended, Queue, header_size, head_length, advance, take_loop, take_record,
  or_else, closed_by_caller, eof,
}

-- One record leaves the ring and the backlog.
module _ (n : ℕ) (bs : Bytes) (items : List (ℕ × Bytes)) (q : Queue) (b : Backlog)
    (h : Holds q (record b { items = (n, bs) ∷ items })) (open_ : b.closed ≡ false) where
  advance-Holds : Holds (advance (header_size + head_length q) q) (record b { items = items })
  advance-Holds = record {
    limit_eq = unfold advance in h.limit_eq;
    finished_eq = unfold advance in h.finished_eq;
    failure_eq = unfold advance in h.failure_eq;
    closed_eq = unfold advance in h.closed_eq;
    live = λ _. advance-Live q n bs items (h.live open_);
    bounded = unfold advance in h.bounded;
    fits = (advance-Live q n bs items (h.live open_)).fits;
    within = (advance-Live q n bs items (h.live open_)).within;
  }

  take_loop_round :
      (fuel after : ℕ)
      → take_loop (suc fuel) after q ≡ (
          if ltb after n
          then some (taken bs, advance (header_size + head_length q) q)
          else take_loop fuel after (advance (header_size + head_length q) q))
  unfolding take_loop
  take_loop_round fuel after =
      let l = h.live open_ in
      ground (
        arith,
        h.closed_eq,
        l.used_eq,
        head_sequence-Live q n bs items l,
        head_record-Live q n bs items l,
      )

-- With no record left, `take` reports the end, or waits.
take_loop-zero :
    (fuel after : ℕ) (q : Queue) (b : Backlog)
    → Holds q (record b { items = [] })
    → b.closed ≡ false
    → take_loop (suc fuel) after q
      ≡ some (if b.finished then ended (or_else b.failure eof) else wait, q)
unfolding take_loop
take_loop-zero fuel after q b h open_ =
    let l = h.live open_ in ground (arith, h.closed_eq, h.finished_eq, h.failure_eq, l.used_eq)

take_items-older :
    (after n : ℕ) (bs : Bytes) (items : List (ℕ × Bytes)) (b : Backlog)
    → ltb after n ≡ false
    → take_items after ((n, bs) ∷ items) b ≡ take_items after items b
unfolding take_items
take_items-older after n bs items b older = rw older refl

-- The loop of `take` on enough fuel: it never runs out, and returns what the backlog does.
take_loop-Same :
    (items : List (ℕ × Bytes)) (fuel after : ℕ) (q : Queue) (b : Backlog)
    → size items < fuel
    → Holds q (record b { items = items })
    → b.closed ≡ false
    → (r : Taken × Queue) × (take_loop fuel after q ≡ some r) × Same r (take_items after items b)
take_loop-Same items zero after q b enough h open_ = elim enough [ ]
take_loop-Same [] (suc fuel) after q b enough h open_ = (
  (if b.finished then ended (or_else b.failure eof) else wait, q),
  take_loop-zero fuel after q b h open_,
  unfold take_items in record { result = refl; holds = h },
)
take_loop-Same ((n, bs) ∷ items) (suc fuel) after q b enough h open_ =
    let q' = advance (header_size + head_length q) q in
    let h' = advance-Holds n bs items q b h open_ in
    let round = take_loop_round n bs items q b h open_ fuel after in
    let (r, later, same) = take_loop-Same items fuel after q' b (omega arith) h' open_ in
    elim (Bool-cases (ltb after n)) [
      | inl newer ↦ (
        (taken bs, q'),
        round ∙ rw newer,
        (unfold take_items in rw newer (record { result = refl; holds = h' })),
      )
      | inr older ↦ (r, round ∙ rw older later, rw (take_items-older after n bs items b older) same)
    ]

-- `take` always returns, and gives what the backlog gives.
pub take_record-Same :
    (after : ℕ) (q : Queue) (b : Backlog)
    → Holds q b
    → (r : Taken × Queue) × (take_record after q ≡ some r) × Same r (Spec.take_record after b)
take_record-Same after q b h = elim (Bool-cases b.closed) [
  | inl shut ↦
      let run : take_record after q ≡ some (ended closed_by_caller, q) =
        (unfold take_record take_loop in rw add-one (ground (arith, h.closed_eq))) in
      let spec : Spec.take_record after b ≡ (ended closed_by_caller, b) =
        (unfold Spec.take_record in ground arith) in
      ((ended closed_by_caller, q), run, rw spec (record { result = refl; holds = h }))
  | inr open_ ↦
      let l = h.live open_ in
      let spec : Spec.take_record after b ≡ take_items after b.items b =
        (unfold Spec.take_record in rw open_ refl) in
      let (r, run, same) =
        take_loop-Same b.items (q.used + 1) after q b (omega (arith, l.used_eq)) h open_ in
      (r, (unfold take_record in run), rw spec same)
]
