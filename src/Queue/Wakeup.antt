-- ===== src/Queue/Wakeup.antt =====
-- `next` beside the producer of records: one reader, which waits on the one-place channel `ready`,
-- and calls of `append`, `finish` and `Close` at any moment. No wake-up is lost.
use libtmux_go.Base.{
  ℕ, zero, suc, ◌+◌, ◌≡◌, ◌≢◌, ◌⊎◌, inl, inr, ap, ◌∙◌, subst, true, false, Option, some, Bytes,
  arith,
}
use libtmux_go.Queue.{
  Failure, taken, wait, ended, Queue, new_queue, append, signal, take_loop, take_record, advance,
  finish, close, header_size, head_length,
}

-- Where the reader is in `next`: outside it, about to call `take`, or in its `select`.
pub data Phase : Type 0 where
  outside : Phase
  trying : ℕ → Phase
  waiting : ℕ → Phase

pub record System : Type 0 where
  pub queue : Queue
  pub phase : Phase

-- One atomic move. `cancel` is the end of the reader's context, `wake` its receive from `ready`.
pub data Step : System → System → Type 0 where
  producer_append :
      (n : ℕ) (bs : Bytes) (s : System) → Step s (record s { queue = (append n bs s.queue).1 })
  producer_finish :
      (e : Option Failure) (s : System) → Step s (record s { queue = finish e s.queue })
  producer_close : (s : System) → Step s (record s { queue = close s.queue })
  enter : (after : ℕ) (s : System) → s.phase ≡ outside → Step s (record s { phase = trying after })
  block :
      (after : ℕ) (s : System) (q : Queue)
      → s.phase ≡ trying after
      → take_record after s.queue ≡ some (wait, q)
      → Step s (record { queue = q; phase = waiting after })
  return_record :
      (after : ℕ) (s : System) (q : Queue) (bs : Bytes)
      → s.phase ≡ trying after
      → take_record after s.queue ≡ some (taken bs, q)
      → Step s (record { queue = q; phase = outside })
  return_end :
      (after : ℕ) (s : System) (q : Queue) (e : Failure)
      → s.phase ≡ trying after
      → take_record after s.queue ≡ some (ended e, q)
      → Step s (record { queue = q; phase = outside })
  wake :
      (after : ℕ) (s : System)
      → s.phase ≡ waiting after
      → s.queue.ready ≡ true
      → Step s (record { queue = record (s.queue) { ready = false }; phase = trying after })
  cancel : (s : System) → Step s (record s { phase = outside })

pub data Reach (s : System) : System → Type 0 where
  here : Reach s s
  later : {t u : System} → Reach s t → Step t u → Reach s u

abbrev pub start : ℕ → System
start limit = record { queue = new_queue limit; phase = outside }

-- There is a record to take, or an end to report.
abbrev pub HasNews : Queue → Type 0
HasNews q = (q.used ≢ 0) ⊎ (q.finished ≡ true) ⊎ (q.closed ≡ true)

abbrev Quiet : Queue → Type 0
Quiet q = (q.used ≡ 0) × (q.finished ≡ false) × (q.closed ≡ false)

-- `take` makes its caller wait only on a queue with nothing to report.
take_loop-Quiet :
    (fuel after : ℕ) (q q' : Queue) → take_loop fuel after q ≡ some (wait, q') → Quiet q'
unfolding take_loop
take_loop-Quiet zero after q q' h = cc
take_loop-Quiet (suc fuel) after q q' h =
    ground (arith, take_loop-Quiet fuel after (advance (header_size + head_length q) q) q')

abbrev IsAwake : System → Type 0
IsAwake s = (after : ℕ) → s.phase ≡ waiting after → HasNews s.queue → s.queue.ready ≡ true

append-ready :
    (n : ℕ) (bs : Bytes) (q : Queue) → ((append n bs q).1.ready ≡ true) ⊎ ((append n bs q).1 ≡ q)
unfolding append signal
append-ready n bs q = ground arith

finish-ready : (e : Option Failure) (q : Queue) → ((finish e q).ready ≡ true) ⊎ (finish e q ≡ q)
unfolding finish signal
finish-ready e q = ground arith

close-ready : (q : Queue) → ((close q).ready ≡ true) ⊎ (close q ≡ q)
unfolding close signal
close-ready q = ground arith

-- A call of the producer signals, or changes nothing.
stays_awake :
    (s : System) {q : Queue}
    → IsAwake s
    → (after : ℕ) → s.phase ≡ waiting after
    → HasNews q
    → (q.ready ≡ true) ⊎ (q ≡ s.queue)
    → q.ready ≡ true
stays_awake s h after p news (inl r) = r
stays_awake s h after p news (inr same) =
    ap (λ q. q.ready) same ∙ h after p (subst HasNews same news)

Step-IsAwake : {s t : System} → Step s t → IsAwake s → IsAwake t
Step-IsAwake (producer_append n bs s) h after p news =
    stays_awake s h after p news (append-ready n bs s.queue)
Step-IsAwake (producer_finish e s) h after p news =
    stays_awake s h after p news (finish-ready e s.queue)
Step-IsAwake (producer_close s) h after p news = stays_awake s h after p news (close-ready s.queue)
Step-IsAwake (enter k s e) h after p news = cc
Step-IsAwake (block k s q e f) h after p news =
    ground (arith, take_loop-Quiet (s.queue.used + 1) k s.queue q (unfold take_record in f))
Step-IsAwake (return_record k s q bs e f) h after p news = cc
Step-IsAwake (return_end k s q x e f) h after p news = cc
Step-IsAwake (wake k s e r) h after p news = cc
Step-IsAwake (cancel s) h after p news = cc

-- However the producer's calls and the reader's moves interleave from a new queue, a reader that
-- waits while there is a record to take or an end to report has its signal in the channel.
pub Reach-awake :
    (limit : ℕ) {s : System} (after : ℕ)
    → Reach (start limit) s
    → s.phase ≡ waiting after
    → HasNews s.queue
    → s.queue.ready ≡ true
Reach-awake limit after r p news = awake r after p news
  where
    awake : {s : System} → Reach (start limit) s → IsAwake s
    awake here = λ after p news. cc
    awake (later r st) = Step-IsAwake st (awake r)
