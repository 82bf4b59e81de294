-- ===== src/Protocol/Tests.antt =====
-- Guards, replies and a capture as the parser reads them.
use libtmux_go.Base.{
  ◌≡◌, refl, true, false, List, [], ◌∷◌, ◌++◌, Bytes, codes, arith, All, bytes_eq,
}
use libtmux_go.Protocol.Captures.{outputs, notices, fence_frame, consume_all-capture}
use libtmux_go.Protocol.Frames.{Event, IsPayload, reply, note}
use libtmux_go.Protocol.Guards.{print_guard, IsGuard, parse_guard-print}
use libtmux_go.Text.Decimal.{decimal}
use libtmux_go.Notification.{
  parse_notification, parse_kind, parse_arguments, kind_fault, find_definition, framing_byte,
  finish_notification,
}
use libtmux_go.Notification.Table.{definitions}
use libtmux_go.Protocol.{
  Guard, begin, end, guard, parse_guard, frame, new_parser, arm, consume_all, closed_frame,
}

abbrev first : Guard
first = record { timestamp = 1363006971; number = 2; flags = 1 }

first-IsGuard : IsGuard first
first-IsGuard = record {
  timestamp_fits = omega arith;
  number_fits = omega arith;
  flags_fits = omega arith;
}

abbrev second : Guard
second = record { timestamp = 1363006971; number = 3; flags = 1 }

second-IsGuard : IsGuard second
second-IsGuard = record {
  timestamp_fits = omega arith;
  number_fits = omega arith;
  flags_fits = omega arith;
}

parse_guard-print_example : parse_guard (codes "%end 1363006971 2 1") ≡ guard end first
unfolding decimal
parse_guard-print_example = parse_guard-print end first first-IsGuard

abbrev events : List Event
events =
    reply first (codes "0: ksh* (1 panes)" ∷ codes "%end 1363006971 3 1" ∷ []) false
    ∷ note (codes "%window-add @1")
    ∷ reply second (codes "no current client" ∷ []) true
    ∷ []

abbrev nonce : Bytes
nonce = codes "libtmux-fence-1"

-- What a shell command writes: text, text that looks like a guard, and a real notification between.
abbrev captured : List Bytes
captured = codes "total 0" ∷ codes "%window-add @9" ∷ codes "%begin 1 2 3" ∷ []

first-IsPayload : All (IsPayload first) []
first-IsPayload = tt

captured-fence : All (λ l. bytes_eq l nonce ≡ false) captured
captured-fence = (refl, (refl, (refl, tt)))

captured_outputs : outputs captured ≡ codes "total 0" ∷ codes "%begin 1 2 3" ∷ []
unfolding parse_notification parse_kind parse_arguments kind_fault find_definition definitions
    framing_byte finish_notification
captured_outputs = refl

consume_all-capture_example :
    consume_all (arm nonce new_parser) (
      print_guard begin first
      ∷ print_guard end first
      ∷ (captured ++ print_guard begin second ∷ nonce ∷ print_guard end second ∷ []))
    ≡ (
      frame (closed_frame first [] end)
          ∷ (notices captured ++ frame (fence_frame second nonce (outputs captured)) ∷ []),
      new_parser,
    )
consume_all-capture_example =
    consume_all-capture nonce first second [] captured false first-IsGuard second-IsGuard refl tt
      captured-fence refl
