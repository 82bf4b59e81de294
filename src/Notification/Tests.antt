-- ===== src/Notification/Tests.antt =====
-- The notification parser's theorems at concrete records.
use libtmux_go.Base.{
  ℕ, ◌+◌, ◌<◌, ◌≤◌, ◌≡◌, refl, Bool, true, false, ◌||◌, none, some, [], ◌∷◌, Bytes, codes, length,
  ltb, ◌==◌, arith,
}
use libtmux_go.Base.Result.{ok, err}
use libtmux_go.Base.{All}
use libtmux_go.Base.Int.{pos}
use libtmux_go.Text.Decimal.{decimal}
use libtmux_go.Notification.Arguments.{IsWord}
use libtmux_go.Notification.RoundTrip.{IsLine}
use libtmux_go.Notification.Subscriptions.{
  subscription, subscription_words, print_subscription, subscription-print,
}
use libtmux_go.Notification.Table.{Definition, required, colon, definitions}
use libtmux_go.Notification.Output.{escape, decode_output-escape, decode_output-offset}
use libtmux_go.Notification.RoundTrip.{parse_notification-print, parse_notification-output}
use libtmux_go.Notification.{
  Notification, NotificationError, malformed, decode_output, find_definition, parse_notification,
}

-- The bytes that tmux hides in pane output: the controls and the backslash.
abbrev hidden : ℕ → Bool
hidden c = ltb c 32 || c == b'\\'

abbrev bytes : Bytes
bytes = 27 ∷ b'[' ∷ b'm' ∷ b'\\' ∷ 255 ∷ []

decode_output-escape_example : decode_output 3 (escape hidden bytes) ≡ ok bytes
decode_output-escape_example = decode_output-escape hidden 3 bytes refl (omega arith)

abbrev incomplete : NotificationError
incomplete = record { offset = 12; reason = "output escape is incomplete"; category = malformed }

decode_incomplete : decode_output 10 (codes "ab\\9") ≡ err incomplete
unfolding decode_output
decode_incomplete = refl

decode_output-offset_example :
    (10 ≤ incomplete.offset) × (incomplete.offset < 10 + length (codes "ab\\9"))
decode_output-offset_example =
    decode_output-offset 10 (codes "ab\\9") {e = incomplete} decode_incomplete

abbrev window_renamed : Definition
window_renamed = record {
  kind = codes "%window-renamed";
  prefix_count = 1;
  tail = required;
  allow_empty_tail = false;
}

find_window_renamed : find_definition (codes "%window-renamed") definitions ≡ some window_renamed
unfolding find_definition definitions
find_window_renamed = refl

parse_notification-print_example :
    parse_notification (codes "%window-renamed @3 my : editor")
    ≡ ok (record {
      kind = codes "%window-renamed";
      arguments = codes "@3" ∷ codes "my : editor" ∷ [];
      output = none;
    })
parse_notification-print_example =
    parse_notification-print window_renamed (codes "%window-renamed") (codes "@3" ∷ []) []
      (some (codes "my : editor")) find_window_renamed refl (grind arith) refl (omega arith) refl

abbrev extended_output : Definition
extended_output = record {
  kind = codes "%extended-output";
  prefix_count = 2;
  tail = colon;
  allow_empty_tail = true;
}

find_extended_output : find_definition (codes "%extended-output") definitions ≡ some extended_output
unfolding find_definition definitions
find_extended_output = refl

parse_notification-output_example :
    parse_notification (codes "%extended-output %7 120 soon : \\033[m\\134é")
    ≡ ok (record {
      kind = codes "%extended-output";
      arguments = codes "%7" ∷ codes "120" ∷ codes "soon" ∷ codes "\\033[m\\134é" ∷ [];
      output = some (codes "%7", 27 ∷ b'[' ∷ b'm' ∷ b'\\' ∷ codes "é");
    })
parse_notification-output_example =
    parse_notification-output extended_output (codes "%extended-output") (codes "%7")
      (codes "120" ∷ []) (codes "soon" ∷ []) hidden (27 ∷ b'[' ∷ b'm' ∷ b'\\' ∷ codes "é")
      find_extended_output refl (grind arith) (grind arith) (omega arith) refl refl (omega arith)

subscription_words-IsWord : All IsWord (
    subscription_words (codes "cpu") (some (codes "$1")) (some (codes "@2")) none 3 [] (codes "9%"))
unfolding decimal
subscription_words-IsWord = grind arith

subscription-IsLine : IsLine (
    print_subscription (codes "cpu") (some (codes "$1")) (some (codes "@2")) none 3 [] (codes "9%"))
unfolding decimal
subscription-IsLine = grind arith

subscription-print_example :
    (r : Notification) × (parse_notification (
        print_subscription
          (codes "cpu")
          (some (codes "$1"))
          (some (codes "@2"))
          none
          3
          []
          (codes "9%"))
      ≡ ok r)
    × (subscription r
        ≡ some (record {
          name = codes "cpu";
          session = codes "$1";
          window = codes "@2";
          window_index = pos 3;
          pane = [];
          value = codes "9%";
        }))
subscription-print_example =
    subscription-print (codes "cpu") (some (codes "$1")) (some (codes "@2")) none 3 [] (codes "9%")
      subscription_words-IsWord tt subscription-IsLine (grind arith) (grind arith) tt (omega arith)
