-- ===== src/Protocol/Frames.antt =====
-- Whole replies and notifications through the parser.

use libtmux_go.Base.{
  ◌≡◌, refl, Bool, true, false, Option, none, some, List, [], ◌∷◌, ◌++◌, Bytes, All, arith,
}
use libtmux_go.Protocol.Guards.{print_guard, IsGuard, parse_guard-print}
use libtmux_go.Protocol.{
  Frame, Guard, GuardKind, begin, end, error, no_guard, parse_guard, closes, closed_frame,
  same_guard, StreamParser, Consumed, nothing, frame, notification, consume_open, consume_idle,
  consume_framed, consume, consume_all, is_notification_line, Capture,
}

-- A line that may stand inside the frame of `g`: anything but a closing guard of that frame.
abbrev pub IsPayload : Guard → Bytes → Type 0
IsPayload g line = closes g (parse_guard line) ≡ none

-- Lines with their line feeds.
abbrev pub text : List Bytes → Bytes
text [] = []
text (line ∷ lines) = line ++ (b'\n' ∷ text lines)

abbrev pub in_frame : Guard → Bytes → Option Capture → StreamParser
in_frame g out c = record { open_guard = some g; output = out; capture = c }

abbrev pub closing_kind : Bool → GuardKind
closing_kind true = error
closing_kind false = end

-- The payload of a frame is kept byte for byte, whatever it looks like.
pub consume_framed-payload :
    (g : Guard) (out line : Bytes) (c : Option Capture)
    → IsPayload g line
    → consume_framed (in_frame g out c) line ≡ (nothing, in_frame g (out ++ (line ++ b'\n' ∷ [])) c)
unfolding consume_framed consume_open
consume_framed-payload g out line c h = rw (h, consume_open) refl

same_guard_refl : (g : Guard) → same_guard g g ≡ true
same_guard_refl g = ground arith

pub consume_framed-close :
    (g : Guard) (out : Bytes) (c : Option Capture) (failed : Bool)
    → IsGuard g
    → consume_framed (in_frame g out c) (print_guard (closing_kind failed) g) ≡ (
      frame (closed_frame g out (closing_kind failed)),
      record { open_guard = none; output = []; capture = c },
    )
unfolding consume_framed consume_open
consume_framed-close g out c true h =
    rw (parse_guard-print error g h, consume_open) (rw (same_guard_refl g) refl)
consume_framed-close g out c false h =
    rw (parse_guard-print end g h, consume_open) (rw (same_guard_refl g) refl)

pub consume_framed-begin :
    (g : Guard) (out : Bytes) (c : Option Capture)
    → IsGuard g
    → consume_framed (record { open_guard = none; output = out; capture = c }) (print_guard begin g)
      ≡ (nothing, in_frame g out c)
unfolding consume_framed consume_idle
consume_framed-begin g out c h = rw (parse_guard-print begin g h) refl

abbrev pub cons_seen : Consumed → List Consumed × StreamParser → List Consumed × StreamParser
cons_seen c r = (c ∷ r.0, r.1)

-- The loop over lines, from what one line gives.
module _ (p : StreamParser) (line : Bytes) (rest : List Bytes) where
  pub consume_all-nothing :
      {q : StreamParser}
      → consume p line ≡ (nothing, q)
      → consume_all p (line ∷ rest) ≡ consume_all q rest
  unfolding consume_all
  consume_all-nothing e = ground arith

  pub consume_all-frame :
      {f : Frame} {q : StreamParser}
      → consume p line ≡ (frame f, q)
      → consume_all p (line ∷ rest) ≡ cons_seen (frame f) (consume_all q rest)
  unfolding consume_all
  consume_all-frame e = ground arith

  pub consume_all-notification :
      {n : Bytes} {q : StreamParser}
      → consume p line ≡ (notification n, q)
      → consume_all p (line ∷ rest) ≡ cons_seen (notification n) (consume_all q rest)
  unfolding consume_all
  consume_all-notification e = ground arith

-- What tmux sends: a reply in its frame, or a notification between frames.
pub data Event : Type 0 where
  reply : Guard → List Bytes → Bool → Event
  note : Bytes → Event

abbrev pub print_event : Event → List Bytes
print_event (reply g payload failed) =
    print_guard begin g ∷ (payload ++ print_guard (closing_kind failed) g ∷ [])
print_event (note line) = line ∷ []

abbrev pub print_events : List Event → List Bytes
print_events [] = []
print_events (e ∷ es) = print_event e ++ print_events es

-- What the reader of the stream is to see of it.
abbrev pub seen : Event → Consumed
seen (reply g payload failed) = frame (closed_frame g (text payload) (closing_kind failed))
seen (note line) = notification line

abbrev pub IsEvent : Event → Type 0
IsEvent (reply g payload failed) = IsGuard g × All (IsPayload g) payload
IsEvent (note line) = (parse_guard line ≡ no_guard) × (is_notification_line line ≡ true)
