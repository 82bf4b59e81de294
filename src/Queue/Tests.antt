-- ===== src/Queue/Tests.antt =====
-- Runs of the notification queue at small inputs, and its theorems at concrete ones.
use libtmux_go.Base.{◌≡◌, refl, true, none, some, List, [], ◌∷◌, codes, inl, arith}
use mathlib.Core.Option
use libtmux_go.Queue.Header.{be_bytes, be_value}
use libtmux_go.Queue.Refine.{Holds}
use libtmux_go.Queue.Ring.{ring_write, ring_read, ring_clear, ring_grow}
use libtmux_go.Queue.Ring.{overwrite}
use libtmux_go.Queue.Spec.{empty_backlog}
use libtmux_go.Queue.Traces.{
  Call, append_call, take_call, close_call, appended, took, done, call, run, spec_run, run_refines,
}
use libtmux_go.Queue.Wakeup.{
  System, producer_append, enter, block, Reach, here, later, start, waiting, Reach-awake,
}
use libtmux_go.Queue.{
  Queue, overflow, closed_by_caller, new_queue, append, take_record, take_loop, taken, wait, ended,
  reserve, write, signal, advance, head_sequence, head_length, head_record, close,
}

-- 64 bytes hold two records of 20; the third crosses the bound and ends the queue, which still
-- gives what it holds.
abbrev calls : List Call
calls =
    append_call 3 (codes "%window-add @1 first")
    ∷ take_call 5
    ∷ append_call 7 (codes "%window-add @1 third")
    ∷ append_call 9 (codes "%window-add @1 forth")
    ∷ append_call 11 (codes "late")
    ∷ take_call 0
    ∷ take_call 0
    ∷ take_call 0
    ∷ close_call
    ∷ take_call 0
    ∷ []

run_outcomes :
    Option.map (λ r. r.0) (run calls (new_queue 64))
    ≡ some (
        appended none
        ∷ took wait
        ∷ appended none
        ∷ appended none
        ∷ appended (some (overflow 64 64 4))
        ∷ took (taken (codes "%window-add @1 third"))
        ∷ took (taken (codes "%window-add @1 forth"))
        ∷ took (ended (overflow 64 64 4))
        ∷ done
        ∷ took (ended closed_by_caller)
        ∷ [])
unfolding run call append take_record take_loop reserve write signal advance head_sequence
    head_length head_record close new_queue ring_write ring_read ring_clear ring_grow overwrite
    be_bytes be_value
run_outcomes = refl

run_refines_example :
    (q : Queue) × (run calls (new_queue 64) ≡ some ((spec_run calls (empty_backlog 64)).0, q))
    × Holds q (spec_run calls (empty_backlog 64)).1
run_refines_example = run_refines 64 calls (omega arith) (omega arith)

abbrev blocked : System
blocked = record { queue = new_queue 64; phase = waiting 2 }

abbrev news : System
news = record { queue = (append 3 (codes "%exit") (new_queue 64)).1; phase = waiting 2 }

Reach-news : Reach (start 64) news
unfolding take_record take_loop new_queue
Reach-news =
    later (later (later here (enter 2 (start 64) refl)) (block 2 _ (new_queue 64) refl refl))
      (producer_append 3 (codes "%exit") blocked)

news_used : (append 3 (codes "%exit") (new_queue 64)).1.used ≡ 17
unfolding append reserve write signal new_queue ring_write ring_grow overwrite be_bytes
news_used = refl

Reach-awake_example : (append 3 (codes "%exit") (new_queue 64)).1.ready ≡ true
Reach-awake_example =
    Reach-awake 64 {s = news} 2 Reach-news refl (inl (λ e. omega (arith, news_used)))
