-- ===== src/Queue/Traces.antt =====
-- Sequences of calls on one queue: the ring gives the results of the backlog, call by call.

use libtmux_go.Base.{
  ℕ, ◌^◌, ◌<◌, ◌≡◌, refl, ap, ◌∙◌, ◌>>=◌, Option, some, List, [], ◌∷◌, Bytes, All,
}
use libtmux_go.Queue.Drain.{take_record-Same}
use libtmux_go.Queue.Refine.{Holds, Same, new_queue-Holds, append-Same, finish-Holds, close-Holds}
use libtmux_go.Queue.Spec
use libtmux_go.Queue.Spec.{Backlog, empty_backlog, size}
use libtmux_go.Queue.{Failure, Taken, Queue, new_queue, append, take_record, finish, close}

-- A call of a method, and what it returns.
pub data Call : Type 0 where
  append_call : ℕ → Bytes → Call
  take_call : ℕ → Call
  finish_call : Option Failure → Call
  close_call : Call

pub data Outcome : Type 0 where
  appended : Option Failure → Outcome
  took : Taken → Outcome
  done : Outcome

-- A sequence number is a `uint64`.
abbrev pub IsSized : Call → Type 0
IsSized (append_call n bs) = n < 2 ^ 64
IsSized _ = Unit

-- One call on the ring; `none` is a `take` that ran out of rounds.
unfoldable pub call : Call → Queue → Option (Outcome × Queue)
call (append_call n bs) q = let r = append n bs q in some (appended r.0, r.1)
call (take_call after) q = do r ← take_record after q; some (took r.0, r.1)
call (finish_call e) q = some (done, finish e q)
call close_call q = some (done, close q)

unfoldable pub run : List Call → Queue → Option (List Outcome × Queue)
run [] q = some ([], q)
run (c ∷ cs) q = do r ← call c q; s ← run cs r.1; some (r.0 ∷ s.0, s.1)

unfoldable pub spec_call : Call → Backlog → Outcome × Backlog
spec_call (append_call n bs) b = let r = Spec.append n bs b in (appended r.0, r.1)
spec_call (take_call after) b = let r = Spec.take_record after b in (took r.0, r.1)
spec_call (finish_call e) b = (done, Spec.finish e b)
spec_call close_call b = (done, Spec.close b)

unfoldable pub spec_run : List Call → Backlog → List Outcome × Backlog
spec_run [] b = ([], b)
spec_run (c ∷ cs) b = let r = spec_call c b in let s = spec_run cs r.1 in (r.0 ∷ s.0, s.1)

call-Same :
    (c : Call) (q : Queue) (b : Backlog)
    → Holds q b
    → IsSized c
    → (r : Outcome × Queue) × (call c q ≡ some r) × Same r (spec_call c b)
unfolding call spec_call
call-Same (append_call n bs) q b h lt =
    let same = append-Same n bs q b h lt in
    let r = append n bs q in
    ((appended r.0, r.1), refl, record { result = ap appended same.result; holds = same.holds })
call-Same (take_call after) q b h _ =
    let (r, run, same) = take_record-Same after q b h in
    ((took r.0, r.1), rw run refl, record { result = ap took same.result; holds = same.holds })
call-Same (finish_call e) q b h _ =
    ((done, finish e q), refl, record { result = refl; holds = finish-Holds e q b h })
call-Same close_call q b h _ =
    ((done, close q), refl, record { result = refl; holds = close-Holds q b h })

pub run-Same :
    (cs : List Call) (q : Queue) (b : Backlog)
    → Holds q b
    → All IsSized cs
    → (r : List Outcome × Queue) × (run cs q ≡ some r) × Same r (spec_run cs b)
unfolding run spec_run
run-Same [] q b h _ = (([], q), refl, record { result = refl; holds = h })
run-Same (c ∷ cs) q b h (s, ss) =
    let (r, now, same) = call-Same c q b h s in
    let (t, later, rest) = run-Same cs r.1 (spec_call c b).1 same.holds ss in
    (
      (r.0 ∷ t.0, t.1),
      rw (now, later) refl,
      record { result = cc (same.result, rest.result); holds = rest.holds },
    )

-- From a new queue whose limit is below 4 GiB, every sequence of calls, each with a 64-bit sequence
-- number, runs to its end on the ring, returns exactly what the list of records returns, and
-- leaves a ring that holds the records left in that list, in no more bytes than the limit.
pub run_refines :
    (limit : ℕ) (cs : List Call)
    → limit < 2 ^ 32
    → All IsSized cs
    → (q : Queue) × (run cs (new_queue limit) ≡ some ((spec_run cs (empty_backlog limit)).0, q))
      × Holds q (spec_run cs (empty_backlog limit)).1
run_refines limit cs small sized =
    let ((out, q), ran, same) =
      run-Same cs (new_queue limit) (empty_backlog limit) (new_queue-Holds limit small) sized in
    (q, ran ∙ ap (λ o. some (o, q)) same.result, same.holds)
