-- ===== src/Queue/Spec.antt =====
-- What the notification queue promises: a list of numbered records within a byte budget, that ends
-- once and stays ended. Nothing here knows of a ring, a header or a head.
use libtmux_go.Base.{
  ℕ, ◌+◌, Bool, true, false, ◌||◌, Option, none, some, List, [], ◌∷◌, ◌++◌, Bytes, length, ltb, leb,
  if◌then◌else◌,
}
use libtmux_go.Queue.{
  Failure, overflow, closed_by_caller, closed_pipe, eof, or_else, Taken, taken, wait, ended,
  header_size,
}

pub record Backlog : Type 0 where
  pub limit : ℕ
  pub items : List (ℕ × Bytes)
  pub finished : Bool
  pub failure : Option Failure
  pub closed : Bool

-- The bytes that records count for.
abbrev pub size : List (ℕ × Bytes) → ℕ
size [] = 0
size ((n, bs) ∷ items) = header_size + length bs + size items

abbrev pub empty_backlog : ℕ → Backlog
empty_backlog limit = record {
  limit = limit;
  items = [];
  finished = false;
  failure = none;
  closed = false;
}

unfoldable pub append : ℕ → Bytes → Backlog → Option Failure × Backlog
append sequence bs b =
    if b.closed
    then (some closed_by_caller, b)
    else if b.finished
    then (some (or_else b.failure closed_pipe), b)
    else if leb (size b.items + (header_size + length bs)) b.limit
    then (none, record b { items = b.items ++ (sequence, bs) ∷ [] })
    else (let e = overflow b.limit (size b.items) (length bs) in
        (some e, record b { failure = some e; finished = true }))

-- Records up to `after` are dropped, and the first one behind them is returned.
unfoldable pub take_items : ℕ → List (ℕ × Bytes) → Backlog → Taken × Backlog
take_items after [] b =
    (if b.finished then ended (or_else b.failure eof) else wait, record b { items = [] })
take_items after ((n, bs) ∷ items) b =
    let rest = take_items after items b in
    if ltb after n then (taken bs, record b { items = items }) else rest

unfoldable pub take_record : ℕ → Backlog → Taken × Backlog
take_record after b = if b.closed then (ended closed_by_caller, b) else take_items after b.items b

unfoldable pub finish : Option Failure → Backlog → Backlog
finish e b = if b.closed || b.finished then b else record b { finished = true; failure = e }

unfoldable pub close : Backlog → Backlog
close b = if b.closed then b else record b { closed = true; items = [] }
