-- ===== src/Queue.antt =====
-- tmux/control_notification_queue.go: the bounded backlog of control-mode notifications, a ring of
-- bytes that holds each record behind a 12-byte header. Each method runs under the queue's mutex, so
-- it is one function from state to state. `limit` and the other sizes are not negative in the
-- program, and are numbers here.
pub mod Ring
pub mod Header
pub mod Spec
pub mod Live
pub mod Steps
pub mod Refine
pub mod Drain
pub mod Traces
pub mod Wakeup
pub mod Tests
use libtmux_go.Base.{
  ℕ, zero, suc, ◌+◌, ◌-◌, ◌*◌, ◌%◌, ◌^◌, ◌<◌, ◌≤◌, min, max, Bool, true, false, not, ◌&&◌, Option,
  none, some, String, List, [], ◌∷◌, ◌++◌, Bytes, length, take, drop, ltb, leb, ◌==◌, if◌then◌else◌,
}
use libtmux_go.Queue.Header.{be_bytes, be_value}
use libtmux_go.Queue.Ring.{ring_write, ring_read, ring_clear, ring_grow}

abbrev pub header_size : ℕ
header_size = 12

-- The errors that the queue reports; `terminal` is one that `finish` was given.
pub data Failure : Type 0 where
  overflow : ℕ → ℕ → ℕ → Failure
  closed_by_caller : Failure
  closed_pipe : Failure
  eof : Failure
  terminal : String → Failure

-- `ready` and `reader` say whether the one-place channels hold their value.
pub record Queue : Type 0 where
  pub ready : Bool
  pub limit : ℕ
  pub buf : Bytes
  pub head : ℕ
  pub used : ℕ
  pub finished : Bool
  pub failure : Option Failure
  pub closed : Bool
  pub reader : Bool

unfoldable pub new_queue : ℕ → Queue
new_queue limit = record {
  ready = false;
  limit = limit;
  buf = [];
  head = 0;
  used = 0;
  finished = false;
  failure = none;
  closed = false;
  reader = true;
}

unfoldable pub signal : Queue → Queue
signal q = record q { ready = true }

abbrev pub or_else : Option Failure → Failure → Failure
or_else none e = e
or_else (some f) e = f

unfoldable pub reserve : ℕ → Queue → Queue
reserve stored q =
    if leb (q.used + stored) (length q.buf)
    then q
    else let capacity = min (max (max 64 (2 * length q.buf)) (q.used + stored)) q.limit in
      record q { buf = ring_grow capacity q.buf q.head q.used; head = 0 }

unfoldable pub write : Bytes → Queue → Queue
write bs q = record q { buf = ring_write q.buf q.head q.used bs; used = q.used + length bs }

abbrev pub header : ℕ → Bytes → Bytes
header sequence bs = be_bytes 8 sequence ++ be_bytes 4 (length bs % 2 ^ 32)

unfoldable pub append : ℕ → Bytes → Queue → Option Failure × Queue
append sequence bs q =
    let stored = header_size + length bs in
    if q.closed
    then (some closed_by_caller, q)
    else if q.finished
    then (some (or_else q.failure closed_pipe), q)
    else if ltb (q.limit - q.used) stored
    then (let e = overflow q.limit q.used (length bs) in
        (some e, signal (record q { failure = some e; finished = true })))
    else (none, signal (write bs (write (header sequence bs) (reserve stored q))))

-- The results of `take`: a record, the channel to wait on, or the queue's end.
pub data Taken : Type 0 where
  taken : Bytes → Taken
  wait : Taken
  ended : Failure → Taken

-- The record at the head leaves the ring.
unfoldable pub advance : ℕ → Queue → Queue
advance stored q = record q {
  buf = ring_clear q.buf q.head stored;
  head = if q.used - stored == 0 then 0 else (q.head + stored) % length q.buf;
  used = q.used - stored;
}

unfoldable pub head_sequence : Queue → ℕ
head_sequence q = be_value 0 (take 8 (ring_read q.buf q.head 0 header_size))

unfoldable pub head_length : Queue → ℕ
head_length q = be_value 0 (drop 8 (ring_read q.buf q.head 0 header_size))

unfoldable pub head_record : Queue → Bytes
head_record q = ring_read q.buf q.head header_size (head_length q)

-- The loop of `take`, on fuel.
unfoldable pub take_loop : ℕ → ℕ → Queue → Option (Taken × Queue)
take_loop zero after q = none
take_loop (suc fuel) after q =
    let q' = advance (header_size + head_length q) q in
    let rest = take_loop fuel after q' in
    if q.closed
    then some (ended closed_by_caller, q)
    else if q.used == 0
    then (if not q.finished then some (wait, q) else some (ended (or_else q.failure eof), q))
    else if ltb after (head_sequence q)
    then some (taken (head_record q), q')
    else rest

-- Each round takes at least a header's bytes out of the ring, so `used` rounds are enough.
unfoldable pub take_record : ℕ → Queue → Option (Taken × Queue)
take_record after q = take_loop (q.used + 1) after q

unfoldable pub finish : Option Failure → Queue → Queue
finish e q =
    if not q.closed && not q.finished then signal (record q { finished = true; failure = e }) else q

unfoldable pub close : Queue → Queue
close q = if not q.closed then signal (record q { closed = true; buf = []; used = 0 }) else q
