-- ===== src/Protocol/Captures.antt =====
-- The capture of a shell command's output between its reply and the fence behind it.
use mathlib.Core.Bool.{not}
use libtmux_go.Base.{
  ◌≡◌, refl, ap, ◌∙◌, Bool, true, false, ◌&&◌, none, some, List, [], ◌∷◌, ◌++◌, Bytes, codes, All,
  All-append, bytes_eq, bytes_eq_refl, ◌==◌, arith, append_assoc, append-nil, inl, inr, ◌⊎◌,
}
use libtmux_go.Base.Result.{Result, ok, err}
use libtmux_go.Notification.RoundTrip.{parse_line, IsLine}
use libtmux_go.Notification.{
  Notification, NotificationError, parse_notification, parse_kind, kind_fault, find_definition,
}
use libtmux_go.Notification.Table.{definitions}
use libtmux_go.Text.Decimal.{decimal, IsDigits, decimal-IsDigits}
use libtmux_go.Protocol.Frames.{
  text, IsPayload, in_frame, closing_kind, cons_seen, consume_framed-begin, consume_framed-close,
  consume_framed-payload, consume_all-nothing, consume_all-frame, consume_all-notification,
}
use libtmux_go.Protocol.Guards.{print_guard, IsGuard, parse_guard-print}
use libtmux_go.Protocol.{
  Frame, Guard, begin, end, closed_frame, Capture, StreamParser, new_parser, arm, Consumed, nothing,
  frame, notification, consume, consume_captured, consume_all, capture_line, fence_guard, settle,
  disarm, unsnoc,
}

-- The lines that are no well-formed notification, and those that are.
abbrev pub outputs : List Bytes → List Bytes
outputs [] = []
outputs (l ∷ lines) = elim (parse_notification l) [
  | ok _ ↦ outputs lines
  | err _ ↦ l ∷ outputs lines
]

abbrev pub notices : List Bytes → List Consumed
notices [] = []
notices (l ∷ lines) = elim (parse_notification l) [
  | ok _ ↦ notification l ∷ notices lines
  | err _ ↦ notices lines
]

-- The parser while it captures: the command's own reply is over.
abbrev capturing : Bytes → List Bytes → StreamParser
capturing nonce lines = record {
  open_guard = none;
  output = [];
  capture = some (record { nonce = nonce; started = true; fencing = false; lines = lines });
}

abbrev append_seen : List Consumed → List Consumed × StreamParser → List Consumed × StreamParser
append_seen cs r = (cs ++ r.0, r.1)

Parsed-cases :
    (r : Result NotificationError Notification)
    → ((n : Notification) × (r ≡ ok n)) ⊎ ((e : NotificationError) × (r ≡ err e))
Parsed-cases (ok n) = inl (n, refl)
Parsed-cases (err e) = inr (e, refl)

module _ (nonce : Bytes) (done : List Bytes) (l : Bytes) (other : bytes_eq l nonce ≡ false) where
  consume_output :
      (e : NotificationError)
      → parse_notification l ≡ err e
      → consume (capturing nonce done) l ≡ (nothing, capturing nonce (done ++ l ∷ []))
  unfolding consume consume_captured capture_line
  consume_output e h = rw (other, consume_captured) (rw (h, capture_line) refl)

  consume_notice :
      (n : Notification)
      → parse_notification l ≡ ok n
      → consume (capturing nonce done) l ≡ (notification l, capturing nonce done)
  unfolding consume consume_captured capture_line
  consume_notice n h = rw (other, consume_captured) (rw (h, capture_line) refl)

consume_all-capturing :
    (nonce : Bytes) (lines done rest : List Bytes)
    → All (λ l. bytes_eq l nonce ≡ false) lines
    → consume_all (capturing nonce done) (lines ++ rest)
      ≡ append_seen (notices lines) (consume_all (capturing nonce (done ++ outputs lines)) rest)
consume_all-capturing nonce [] done rest h = rw append-nil refl
consume_all-capturing nonce (l ∷ lines) done rest (other, more) =
    elim (Parsed-cases (parse_notification l)) [
      | inl (n, e) ↦
          rw (e, outputs, notices)
            (consume_all-notification (capturing nonce done) l (lines ++ rest)
                (consume_notice nonce done l other n e)
              ∙ ap (cons_seen (notification l)) (consume_all-capturing nonce lines done rest more))
      | inr (e, h) ↦
          rw (h, outputs, notices)
            (consume_all-nothing (capturing nonce done) l (lines ++ rest)
                (consume_output nonce done l other e h)
              ∙ consume_all-capturing nonce lines (done ++ l ∷ []) rest more
              ∙ ap (λ ls. append_seen (notices lines) (consume_all (capturing nonce ls) rest))
                  (append_assoc done (l ∷ []) (outputs lines)))
    ]

-- Inside a frame, with a capture.
abbrev framed : Guard → Bytes → Capture → StreamParser
framed g out c = in_frame g out (some c)

abbrev waiting : Bytes → Capture
waiting nonce = record { nonce = nonce; started = false; fencing = false; lines = [] }

abbrev fenced : Bytes → List Bytes → Capture
fenced nonce lines = record { nonce = nonce; started = true; fencing = true; lines = lines }

-- While no capture has started, or its fence is open, a line inside the frame is kept.
consume_inside :
    (g : Guard) (c : Capture) (out l : Bytes)
    → (c.started && not c.fencing) ≡ false
    → IsPayload g l
    → consume (framed g out c) l ≡ (nothing, framed g (out ++ (l ++ b'\n' ∷ [])) c)
unfolding consume
consume_inside g c out l still h =
    rw (still, consume_framed-payload g out l (some c) h) (unfold settle in refl)

consume_all-inside :
    (g : Guard) (c : Capture) (payload : List Bytes) (out : Bytes) (rest : List Bytes)
    → (c.started && not c.fencing) ≡ false
    → All (IsPayload g) payload
    → consume_all (framed g out c) (payload ++ rest)
      ≡ consume_all (framed g (out ++ text payload) c) rest
consume_all-inside g c [] out rest still h = rw append-nil refl
consume_all-inside g c (l ∷ payload) out rest still (h, hs) =
    consume_all-nothing (framed g out c) l (payload ++ rest) (consume_inside g c out l still h)
    ∙ consume_all-inside g c payload (out ++ (l ++ b'\n' ∷ [])) rest still hs
    ∙ ap (λ o. consume_all (framed g o c) rest) (simp append_assoc)

unsnoc-snoc : (xs : List Bytes) (x : Bytes) → unsnoc (xs ++ x ∷ []) ≡ some (xs, x)
unsnoc-snoc [] x = refl
unsnoc-snoc (y ∷ xs) x = rw (unsnoc-snoc xs x) refl

fence_guard-snoc :
    (lines : List Bytes) (h : Guard)
    → IsGuard h
    → fence_guard (lines ++ print_guard begin h ∷ []) ≡ some (lines, h)
unfolding fence_guard
fence_guard-snoc lines h ok_guard =
    rw (unsnoc-snoc lines (print_guard begin h), fence_guard)
      (rw (parse_guard-print begin h ok_guard, fence_guard) refl)

-- The nonce behind a begin guard opens the fence's frame.
consume_nonce :
    (nonce : Bytes) (lines : List Bytes) (h : Guard)
    → IsGuard h
    → consume (capturing nonce (lines ++ print_guard begin h ∷ [])) nonce
      ≡ (nothing, framed h (nonce ++ b'\n' ∷ []) (fenced nonce lines))
unfolding consume consume_captured
consume_nonce nonce lines h ok_guard =
    rw (bytes_eq_refl nonce, consume_captured) (rw (fence_guard-snoc lines h ok_guard) refl)

module _ (nonce : Bytes) (g : Guard) (payload : List Bytes) (failed : Bool) (g_fits : IsGuard g)
    (own : (g.flags == 0) ≡ false) (inside : All (IsPayload g) payload) where
  -- The command's own reply starts the capture.
  consume_all-own_reply :
      (rest : List Bytes)
      → consume_all
          (arm nonce new_parser)
          (print_guard begin g ∷ (payload ++ print_guard (closing_kind failed) g ∷ rest))
        ≡ cons_seen
            (frame (closed_frame g (text payload) (closing_kind failed)))
            (consume_all (capturing nonce []) rest)
  unfolding arm
  consume_all-own_reply rest =
      consume_all-nothing (arm nonce new_parser) (print_guard begin g) _ opened
      ∙ consume_all-inside g (waiting nonce) payload [] _ refl inside
      ∙ consume_all-frame (framed g (text payload) (waiting nonce)) _ rest closed
    where
      opened :
          consume (arm nonce new_parser) (print_guard begin g)
          ≡ (nothing, framed g [] (waiting nonce))
      opened =
          unfold consume settle in rw (consume_framed-begin g [] (some (waiting nonce)) g_fits) refl

      closed :
          consume (framed g (text payload) (waiting nonce)) (print_guard (closing_kind failed) g)
          ≡ (frame (closed_frame g (text payload) (closing_kind failed)), capturing nonce [])
      closed =
          unfold consume settle in
          rw (consume_framed-close g (text payload) (some (waiting nonce)) failed g_fits)
            (rw own refl)

digits-IsLine : (s rest : Bytes) → IsDigits s → IsLine rest → IsLine (s ++ rest)
digits-IsLine [] rest h l = l
digits-IsLine (c ∷ s) rest (h, hs) l = (ground arith, digits-IsLine s rest hs l)

print_guard-IsLine : (h : Guard) → IsLine (print_guard begin h)
print_guard-IsLine h =
    let flags =
      rw append-nil at (digits-IsLine (decimal h.flags) [] (decimal-IsDigits h.flags) tt) in
    let number =
      digits-IsLine (decimal h.number) (b' ' ∷ decimal h.flags) (decimal-IsDigits h.number)
        (omega arith, flags) in
    let timestamp =
      digits-IsLine (decimal h.timestamp) (b' ' ∷ (decimal h.number ++ b' ' ∷ decimal h.flags))
        (decimal-IsDigits h.timestamp) (omega arith, number) in
    All-append _ (codes "%begin ") _ (omega arith) timestamp

-- A begin guard is no notification.
begin-no_notification :
    (h : Guard) → (e : NotificationError) × (parse_notification (print_guard begin h) ≡ err e)
unfolding parse_kind kind_fault find_definition definitions
begin-no_notification h = (_, parse_line (codes "%begin") _ refl refl (print_guard-IsLine h))

consume_all-append_seen :
    (c : Consumed) (cs : List Consumed) (r : List Consumed × StreamParser)
    → append_seen cs (cons_seen c r) ≡ append_seen (cs ++ c ∷ []) r
consume_all-append_seen c [] r = refl
consume_all-append_seen c (x ∷ cs) r = ap (cons_seen x) (consume_all-append_seen c cs r)

-- The frame of the fence, with what was captured.
abbrev pub fence_frame : Guard → Bytes → List Bytes → Frame
fence_frame h nonce lines = record {
  timestamp = h.timestamp;
  number = h.number;
  flags = h.flags;
  raw_stdout = nonce ++ b'\n' ∷ [];
  failed = false;
  fence = true;
  captured = lines;
}

consume_all-fence :
    (nonce : Bytes) (lines rest : List Bytes) (h : Guard)
    → IsGuard h
    → bytes_eq (print_guard begin h) nonce ≡ false
    → consume_all (capturing nonce lines) (print_guard begin h ∷ nonce ∷ print_guard end h ∷ rest)
      ≡ cons_seen (frame (fence_frame h nonce lines)) (consume_all new_parser rest)
consume_all-fence nonce lines rest h fits other =
    let (e, refused) = begin-no_notification h in
    consume_all-nothing (capturing nonce lines) (print_guard begin h) _
      (consume_output nonce lines (print_guard begin h) other e refused)
    ∙ consume_all-nothing (capturing nonce (lines ++ print_guard begin h ∷ [])) nonce _
        (consume_nonce nonce lines h fits)
    ∙ consume_all-frame (framed h (nonce ++ b'\n' ∷ []) (fenced nonce lines)) (print_guard end h)
        rest closed
  where
    closed :
        consume (framed h (nonce ++ b'\n' ∷ []) (fenced nonce lines)) (print_guard end h)
        ≡ (frame (fence_frame h nonce lines), new_parser)
    closed =
        unfold consume settle disarm in
        rw (consume_framed-close h (nonce ++ b'\n' ∷ []) (some (fenced nonce lines)) false fits)
          refl

-- A new parser that is armed with a nonce reads a command's own reply, the lines of its shell
-- command, and the fence's reply with the nonce as its payload. It gives: the command's frame; every
-- well-formed notification among the shell command's lines, in order; and the fence's frame, which
-- holds exactly the other lines, in order. It is a new parser again, with no capture. The guards hold
-- numbers that fit their fields and the command's flags are not 0; a payload line of the reply is no
-- closing guard of it; the shell command's lines may look like guards, but none of them, nor the
-- fence's begin guard, is the nonce.
pub consume_all-capture :
    (nonce : Bytes) (g h : Guard) (payload lines : List Bytes) (failed : Bool)
    → IsGuard g
    → IsGuard h
    → (g.flags == 0) ≡ false
    → All (IsPayload g) payload
    → All (λ l. bytes_eq l nonce ≡ false) lines
    → bytes_eq (print_guard begin h) nonce ≡ false
    → consume_all (arm nonce new_parser) (
        print_guard begin g
        ∷ (payload
            ++ print_guard (closing_kind failed) g
              ∷ (lines ++ print_guard begin h ∷ nonce ∷ print_guard end h ∷ [])))
      ≡ (
        frame (closed_frame g (text payload) (closing_kind failed))
            ∷ (notices lines ++ frame (fence_frame h nonce (outputs lines)) ∷ []),
        new_parser,
      )
consume_all-capture nonce g h payload lines failed g_fits h_fits own inside others other =
    consume_all-own_reply nonce g payload failed g_fits own inside _
    ∙ ap (cons_seen (frame (closed_frame g (text payload) (closing_kind failed)))) (
        consume_all-capturing nonce lines [] _ others
        ∙ ap (append_seen (notices lines))
            (consume_all-fence nonce (outputs lines) [] h h_fits other)
        ∙ (unfold consume_all in refl))
