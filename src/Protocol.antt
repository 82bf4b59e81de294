-- ===== src/Protocol.antt =====
-- tmux/control_protocol.go: the framing of the control-mode stream, line by line. The parser's
-- mutex guards only the capture's pointer; a line is consumed in one step here, and `arm` and
-- `disarm` happen between lines.
pub mod Guards
pub mod Frames
pub mod Captures
pub mod Tests
use mathlib.Core.Bool.{not}
use libtmux_go.Base.{
  ℕ, zero, suc, Bool, true, false, ◌&&◌, ◌||◌, Option, none, some, String, List, [], ◌∷◌, ◌++◌,
  Bytes, codes, length, bytes_eq, ◌==◌, if◌then◌else◌,
}
use libtmux_go.Base.Int.{ℤ, pos, negsuc}
use libtmux_go.Base.Result.{Result, ok, err}
use libtmux_go.Notification.{parse_notification}
use libtmux_go.Text.{has_prefix, split, parse_uint, parse_int}

-- `ControlProtocolError`.
pub record ProtocolError : Type 0 where
  pub state : String
  pub reason : String

pub data GuardKind : Type 0 where
  begin end error : GuardKind

-- `controlGuard`.
pub record Guard : Type 0 where
  pub timestamp : ℕ
  pub number : ℕ
  pub flags : ℕ

-- The results of `parseControlGuard`: no guard, a guard, or an error.
pub data GuardLine : Type 0 where
  no_guard : GuardLine
  guard : GuardKind → Guard → GuardLine
  bad_guard : ProtocolError → GuardLine

abbrev pub guard_error : String → GuardLine
guard_error reason = bad_guard (record { state = "guard"; reason = reason })

-- A line that is the word, or the word and a space and more.
abbrev pub is_word_line : Bytes → Bytes → Bool
is_word_line line word = bytes_eq line word || has_prefix line (word ++ b' ' ∷ [])

unfoldable pub guard_kind : Bytes → Option GuardKind
guard_kind line =
    if is_word_line line (codes "%begin")
    then some begin
    else if is_word_line line (codes "%end")
    then some end
    else if is_word_line line (codes "%error")
    then some error
    else none

-- A parsed signed number that is not below zero.
abbrev pub nonnegative : Option ℤ → Option ℕ
nonnegative none = none
nonnegative (some (pos n)) = some n
nonnegative (some (negsuc n)) = none

unfoldable pub guard_fields : GuardKind → List Bytes → GuardLine
guard_fields kind (word ∷ t ∷ n ∷ f ∷ []) = elim (nonnegative (parse_int 64 t)) [
  | none ↦ guard_error "timestamp is not a nonnegative integer"
  | some timestamp ↦ elim (parse_uint 64 n) [
    | none ↦ guard_error "command number is not a nonnegative integer"
    | some number ↦ elim (nonnegative (parse_int 64 f)) [
      | none ↦ guard_error "flags are not a nonnegative integer"
      | some flags ↦ guard kind (record { timestamp = timestamp; number = number; flags = flags })
    ]
  ]
]
guard_fields kind fields = guard_error "guard must contain three numeric fields"

-- `parseControlGuard`.
unfoldable pub parse_guard : Bytes → GuardLine
parse_guard line = elim (guard_kind line) [
  | none ↦ no_guard
  | some kind ↦ guard_fields kind (split line b' ')
]

-- `controlFrame`, less the wire sequence, which the reader of the stream sets.
pub record Frame : Type 0 where
  pub timestamp : ℕ
  pub number : ℕ
  pub flags : ℕ
  pub raw_stdout : Bytes
  pub failed : Bool
  pub fence : Bool
  pub captured : List Bytes

-- `controlFrame.ownReply`.
abbrev pub own_reply : Frame → Bool
own_reply f = not (f.flags == 0)

-- `controlCapture`.
pub record Capture : Type 0 where
  pub nonce : Bytes
  pub started : Bool
  pub fencing : Bool
  pub lines : List Bytes

-- `controlStreamParser`.
pub record StreamParser : Type 0 where
  pub open_guard : Option Guard
  pub output : Bytes
  pub capture : Option Capture

abbrev pub new_parser : StreamParser
new_parser = record { open_guard = none; output = []; capture = none }

unfoldable pub arm : Bytes → StreamParser → StreamParser
arm nonce p = record p {
  capture = some (record { nonce = nonce; started = false; fencing = false; lines = [] });
}

unfoldable pub disarm : StreamParser → StreamParser
disarm p = record p { capture = none }

-- What a line gives: nothing yet, a frame, a notification's line, or an error.
pub data Consumed : Type 0 where
  nothing : Consumed
  frame : Frame → Consumed
  notification : Bytes → Consumed
  violation : ProtocolError → Consumed

abbrev pub idle_error : String → Consumed
idle_error reason = violation (record { state = "idle"; reason = reason })

abbrev pub same_guard : Guard → Guard → Bool
same_guard g h = g.timestamp == h.timestamp && g.number == h.number && g.flags == h.flags

-- `kind == controlGuardEnd || kind == controlGuardError`.
abbrev pub is_closing : GuardKind → Bool
is_closing begin = false
is_closing end = true
is_closing error = true

abbrev pub is_error : GuardKind → Bool
is_error error = true
is_error _ = false

-- The guard that a line closes.
abbrev pub closes : Guard → GuardLine → Option GuardKind
closes g (guard kind h) = if same_guard h g && is_closing kind then some kind else none
closes g _ = none

abbrev pub closed_frame : Guard → Bytes → GuardKind → Frame
closed_frame g out kind = record {
  timestamp = g.timestamp;
  number = g.number;
  flags = g.flags;
  raw_stdout = out;
  failed = is_error kind;
  fence = false;
  captured = [];
}

-- A line inside a frame.
unfoldable pub consume_open : Guard → StreamParser → Bytes → Consumed × StreamParser
consume_open g p line = elim (closes g (parse_guard line)) [
  | some kind ↦ (frame (closed_frame g p.output kind), record p { open_guard = none; output = [] })
  | none ↦ (nothing, record p { output = p.output ++ (line ++ b'\n' ∷ []) })
]

abbrev pub is_notification_line : Bytes → Bool
is_notification_line [] = false
is_notification_line (c ∷ line) = c == b'%'

-- A line outside every frame.
unfoldable pub consume_idle : GuardLine → StreamParser → Bytes → Consumed × StreamParser
consume_idle (bad_guard e) p line = (violation e, p)
consume_idle (guard begin g) p line = (nothing, record p { open_guard = some g })
consume_idle (guard _ g) p line = (idle_error "closing guard has no active frame", p)
consume_idle no_guard p line =
    if is_notification_line line
    then (notification line, p)
    else (idle_error "record is neither a begin guard nor notification", p)

-- `consumeFramed`.
unfoldable pub consume_framed : StreamParser → Bytes → Consumed × StreamParser
consume_framed p line = elim (p.open_guard) [
  | some g ↦ consume_open g p line
  | none ↦ consume_idle (parse_guard line) p line
]

-- The lines without the last, and the last.
abbrev pub unsnoc : List Bytes → Option (List Bytes × Bytes)
unsnoc [] = none
unsnoc (x ∷ xs) = elim (unsnoc xs) [ none ↦ some ([], x) | some (ys, y) ↦ some (x ∷ ys, y) ]

-- The fence's opening guard as the last captured line.
unfoldable pub fence_guard : List Bytes → Option (List Bytes × Guard)
fence_guard lines = elim (unsnoc lines) [
  | none ↦ none
  | some (before, last) ↦ elim (parse_guard last) [ guard begin g ↦ some (before, g) | _ ↦ none ]
]

-- A captured line that is no fence.
unfoldable pub capture_line : Capture → StreamParser → Bytes → Consumed × StreamParser
capture_line c p line = elim (parse_notification line) [
  | ok _ ↦ (notification line, p)
  | err _ ↦ (nothing, record p { capture = some (record c { lines = c.lines ++ line ∷ [] }) })
]

-- `consumeCaptured`.
unfoldable pub consume_captured : Capture → StreamParser → Bytes → Consumed × StreamParser
consume_captured c p line = elim (if bytes_eq line c.nonce then fence_guard c.lines else none) [
  | some (before, g) ↦ (
    nothing,
    record {
      open_guard = some g;
      output = line ++ b'\n' ∷ [];
      capture = some (record c { lines = before; fencing = true });
    },
  )
  | none ↦ capture_line c p line
]

-- What a frame means to an active capture.
unfoldable pub settle : Capture → Consumed × StreamParser → Consumed × StreamParser
settle c (frame f, p) =
    if c.fencing
    then (frame (record f { fence = true; captured = c.lines }), disarm p)
    else if own_reply f
    then (frame f, record p { capture = some (record c { started = true }) })
    else (frame f, p)
settle c (r, p) = (r, p)

-- `consume`.
unfoldable pub consume : StreamParser → Bytes → Consumed × StreamParser
consume p line = elim (p.capture) [
  | none ↦ consume_framed p line
  | some c ↦
      if c.started && not c.fencing
      then consume_captured c p line
      else settle c (consume_framed p line)
]

-- `finish`.
unfoldable pub finish : StreamParser → Option ProtocolError
finish p = elim (p.open_guard) [
  | some g ↦ some (record { state = "frame"; reason = "stream ended before closing guard" })
  | none ↦ none
]

-- The reader's loop over lines, up to the first error: what it saw, and the parser after it.
unfoldable pub consume_all : StreamParser → List Bytes → List Consumed × StreamParser
consume_all p [] = ([], p)
consume_all p (line ∷ lines) =
    let r = consume p line in
    let rest = consume_all r.1 lines in
    elim (r.0) [
      | violation e ↦ (violation e ∷ [], r.1)
      | nothing ↦ rest
      | frame f ↦ (frame f ∷ rest.0, rest.1)
      | notification n ↦ (notification n ∷ rest.0, rest.1)
    ]
