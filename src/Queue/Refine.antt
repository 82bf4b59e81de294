-- ===== src/Queue/Refine.antt =====
-- A ring that holds a backlog still does after `append`, `finish` and `Close`, and `append` reports
-- the same on both.

use libtmux_go.Base.{
  ℕ, ◌+◌, ◌^◌, ◌<◌, ◌≤◌, ◌≡◌, refl, ◌∙◌, inl, inr, true, false, Option, none, some, List, [], ◌∷◌,
  ◌++◌, Bytes, length, leb, ◌||◌, Bool-cases, leb→le, arith,
}
use libtmux_go.Queue.Spec.{Backlog, size, empty_backlog, take_items}
use libtmux_go.Queue.Spec
use libtmux_go.Queue.Ring.Slots.{window, content}
use libtmux_go.Queue.Live.{Live}
use libtmux_go.Queue.Steps.{write_record-Live}
use libtmux_go.Queue.{
  Failure, Queue, header, header_size, new_queue, reserve, write, signal, append, finish, close,
  overflow,
}

-- The queue `q` holds the backlog `b`.
pub record Holds (q : Queue) (b : Backlog) : Type 0 where
  pub limit_eq : q.limit ≡ b.limit
  pub finished_eq : q.finished ≡ b.finished
  pub failure_eq : q.failure ≡ b.failure
  pub closed_eq : q.closed ≡ b.closed
  pub live : b.closed ≡ false → Live q b.items
  pub bounded : q.limit < 2 ^ 32
  pub fits : q.used ≤ length q.buf
  pub within : length q.buf ≤ q.limit

pub record Same {A : Type 0} (x : A × Queue) (y : A × Backlog) : Type 0 where
  pub result : x.0 ≡ y.0
  pub holds : Holds x.1 y.1

new_queue-Live : (limit : ℕ) → Live (new_queue limit) []
unfolding new_queue content window
new_queue-Live limit = record {
  used_eq = refl;
  fits = omega arith;
  within = omega arith;
  head_in = inr refl;
  spelled = refl;
  sized = tt;
}

-- Fields that the ring does not read may change.
Live-signal : (q : Queue) {items : List (ℕ × Bytes)} → Live q items → Live (signal q) items
unfolding signal
Live-signal q l = record {
  used_eq = l.used_eq;
  fits = l.fits;
  within = l.within;
  head_in = l.head_in;
  spelled = l.spelled;
  sized = l.sized;
}

Live-ended :
    (e : Option Failure) (q : Queue) {items : List (ℕ × Bytes)}
    → Live q items
    → Live (signal (record q { failure = e; finished = true })) items
unfolding signal
Live-ended e q l = record {
  used_eq = l.used_eq;
  fits = l.fits;
  within = l.within;
  head_in = l.head_in;
  spelled = l.spelled;
  sized = l.sized;
}

pub new_queue-Holds : (limit : ℕ) → limit < 2 ^ 32 → Holds (new_queue limit) (empty_backlog limit)
unfolding new_queue
new_queue-Holds limit h = record {
  limit_eq = refl;
  finished_eq = refl;
  failure_eq = refl;
  closed_eq = refl;
  live = λ _. new_queue-Live limit;
  bounded = h;
  fits = omega arith;
  within = omega arith;
}

-- Storing a record leaves the other fields alone.
write_record_fields :
    (n : ℕ) (bs : Bytes) (q : Queue)
    → let q' = write bs (write (header n bs) (reserve (header_size + length bs) q)) in
      (q'.limit ≡ q.limit)
      × (q'.finished ≡ q.finished)
      × (q'.failure ≡ q.failure)
      × (q'.closed ≡ q.closed)
unfolding write reserve
write_record_fields n bs q = ground arith

module _ (n : ℕ) (bs : Bytes) (q : Queue) (b : Backlog) (h : Holds q b) where
  append_closed : b.closed ≡ true → Same (append n bs q) (Spec.append n bs b)
  unfolding append Spec.append
  append_closed shut = simp (shut, h.closed_eq) (record { result = refl; holds = h })

  append_finished : b.closed ≡ false → b.finished ≡ true → Same (append n bs q) (Spec.append n bs b)
  unfolding append Spec.append
  append_finished open_ over =
      simp (open_, h.closed_eq, over, h.finished_eq)
        (record { result = simp h.failure_eq; holds = h })

  append_full :
      b.closed ≡ false
      → b.finished ≡ false
      → leb (size b.items + (header_size + length bs)) b.limit ≡ false
      → Same (append n bs q) (Spec.append n bs b)
  append_full open_ going full =
      let l = h.live open_ in
      let e = overflow q.limit q.used (length bs) in
      let run : append n bs q ≡ (some e, signal (record q { failure = some e; finished = true })) =
        (unfold append in ground (arith, l.used_eq, h.limit_eq)) in
      let spec : Spec.append n bs b ≡ (some e, record b { failure = some e; finished = true }) =
        (unfold Spec.append in ground (arith, l.used_eq, h.limit_eq)) in
      rw (run, spec)
        (record {
          result = refl;
          holds = record {
            limit_eq = unfold signal in h.limit_eq;
            finished_eq = unfold signal in refl;
            failure_eq = unfold signal in refl;
            closed_eq = unfold signal in h.closed_eq;
            live = λ _. Live-ended (some e) q l;
            bounded = unfold signal in h.bounded;
            fits = unfold signal in h.fits;
            within = unfold signal in h.within;
          };
        })

  append_fits :
      n < 2 ^ 64
      → b.closed ≡ false
      → b.finished ≡ false
      → leb (size b.items + (header_size + length bs)) b.limit ≡ true
      → Same (append n bs q) (Spec.append n bs b)
  append_fits lt open_ going fits =
      let l = h.live open_ in
      let q' = write bs (write (header n bs) (reserve (header_size + length bs) q)) in
      let kept = write_record_fields n bs q in
      let small : length bs < 2 ^ 32 = omega (arith, h.bounded, h.limit_eq, leb→le _ _ fits) in
      let stored = Live-signal q' (
        write_record-Live n bs q l (lt, small)
          (omega (arith, l.used_eq, h.limit_eq, leb→le _ _ fits))) in
      let run : append n bs q ≡ (none, signal q') =
        (unfold append in ground (arith, l.used_eq, h.limit_eq, leb→le _ _ fits)) in
      let spec : Spec.append n bs b ≡ (none, record b { items = b.items ++ (n, bs) ∷ [] }) =
        (unfold Spec.append in ground (arith, l.used_eq, h.limit_eq)) in
      rw (run, spec)
        (record {
          result = refl;
          holds = record {
            limit_eq = unfold signal in kept.0 ∙ h.limit_eq;
            finished_eq = unfold signal in kept.1 ∙ h.finished_eq;
            failure_eq = unfold signal in kept.2 ∙ h.failure_eq;
            closed_eq = unfold signal in kept.3 ∙ h.closed_eq;
            live = λ _. stored;
            bounded = unfold signal in omega (arith, kept.0, h.bounded);
            fits = stored.fits;
            within = stored.within;
          };
        })

-- `append` reports the same error or none, and the records stay the same.
pub append-Same :
    (n : ℕ) (bs : Bytes) (q : Queue) (b : Backlog)
    → Holds q b
    → n < 2 ^ 64
    → Same (append n bs q) (Spec.append n bs b)
append-Same n bs q b h lt = elim (Bool-cases b.closed) [
  | inl shut ↦ append_closed n bs q b h shut
  | inr open_ ↦ elim (Bool-cases b.finished) [
    | inl over ↦ append_finished n bs q b h open_ over
    | inr going ↦ elim (Bool-cases (leb (size b.items + (header_size + length bs)) b.limit)) [
      | inl fits ↦ append_fits n bs q b h lt open_ going fits
      | inr full ↦ append_full n bs q b h open_ going full
    ]
  ]
]

pub finish-Holds :
    (e : Option Failure) (q : Queue) (b : Backlog)
    → Holds q b
    → Holds (finish e q) (Spec.finish e b)
finish-Holds e q b h = elim (Bool-cases (b.closed || b.finished)) [
  | inl over ↦
      let run : finish e q ≡ q = (unfold finish in ground (arith, h.closed_eq, h.finished_eq)) in
      let spec : Spec.finish e b ≡ b = (unfold Spec.finish in ground arith) in rw (run, spec) h
  | inr going ↦
      let open_ : b.closed ≡ false = ground arith in
      let run : finish e q ≡ signal (record q { finished = true; failure = e }) =
        (unfold finish in ground (arith, h.closed_eq, h.finished_eq)) in
      let spec : Spec.finish e b ≡ record b { finished = true; failure = e } =
        (unfold Spec.finish in ground arith) in
      rw (run, spec)
        (record {
          limit_eq = unfold signal in h.limit_eq;
          finished_eq = unfold signal in refl;
          failure_eq = unfold signal in refl;
          closed_eq = unfold signal in h.closed_eq;
          live = λ _. Live-ended e q (h.live open_);
          bounded = unfold signal in h.bounded;
          fits = unfold signal in h.fits;
          within = unfold signal in h.within;
        })
]

pub close-Holds : (q : Queue) (b : Backlog) → Holds q b → Holds (close q) (Spec.close b)
close-Holds q b h = elim (Bool-cases b.closed) [
  | inl shut ↦
      let run : close q ≡ q = (unfold close in ground (arith, h.closed_eq)) in
      let spec : Spec.close b ≡ b = (unfold Spec.close in ground arith) in rw (run, spec) h
  | inr open_ ↦
      let run : close q ≡ signal (record q { closed = true; buf = []; used = 0 }) =
        (unfold close in ground (arith, h.closed_eq)) in
      let spec : Spec.close b ≡ record b { closed = true; items = [] } =
        (unfold Spec.close in ground arith) in
      rw (run, spec)
        (record {
          limit_eq = unfold signal in h.limit_eq;
          finished_eq = unfold signal in h.finished_eq;
          failure_eq = unfold signal in h.failure_eq;
          closed_eq = unfold signal in refl;
          live = λ e. absurd (let clash : ⊥ = cc in clash);
          bounded = unfold signal in h.bounded;
          fits = unfold signal in omega arith;
          within = unfold signal in omega arith;
        })
]
