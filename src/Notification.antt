-- ===== src/Notification.antt =====
-- tmux/control_notification.go: one control-mode notification record, from its line.
pub mod Table
pub mod Output
pub mod Arguments
pub mod ColonTail
pub mod RoundTrip
pub mod Subscriptions
pub mod Tests
use mathlib.Core.Bool.{not}
use libtmux_go.Base.{
  ℕ, zero, suc, ◌+◌, ◌-◌, ◌*◌, ◌<◌, min, Bool, true, false, ◌&&◌, ◌||◌, Option, none, some, String,
  List, [], ◌∷◌, ◌++◌, Bytes, codes, length, drop, bytes_eq, ltb, leb, ◌==◌, if◌then◌else◌,
}
use libtmux_go.Base.Result.{Result, ok, err, ◌>>=◌}
use libtmux_go.Text.{split}
use libtmux_go.Notification.Table.{
  Tail, no_tail, required, optional, colon, Definition, definitions,
}

pub data Category : Type 0 where
  malformed unknown : Category

-- `ControlNotificationError`.
pub record NotificationError : Type 0 where
  pub offset : ℕ
  pub reason : String
  pub category : Category

-- `ControlNotification`; `output` is there for the two kinds that carry pane output, with the pane.
pub record Notification : Type 0 where
  pub kind : Bytes
  pub arguments : List Bytes
  pub output : Option (Bytes × Bytes)

abbrev pub Parsed : Type 0 → Type 0
Parsed A = Result NotificationError A

abbrev pub fail : {A : Type 0} → ℕ → String → Parsed A
fail offset reason = err (record { offset = offset; reason = reason; category = malformed })

abbrev pub is_octal : ℕ → Bool
is_octal c = not (ltb c b'0' || ltb b'7' c)

-- `decodeControlOutput`: from the byte at `offset` of the record on.
unfoldable pub decode_output : ℕ → Bytes → Parsed Bytes
decode_output offset [] = ok []
decode_output offset (c ∷ a ∷ b ∷ d ∷ value) =
    let escaped = (do
      rest ← decode_output (offset + 4) value
      ok (((a - b'0') * 64 + (b - b'0') * 8 + (d - b'0')) ∷ rest)) in
    let plain = (do rest ← decode_output (offset + 1) (a ∷ b ∷ d ∷ value); ok (c ∷ rest)) in
    if not (c == b'\\')
    then plain
    else if not (is_octal a)
    then fail (offset + 1) "output escape is not three-digit octal"
    else if not (is_octal b)
    then fail (offset + 2) "output escape is not three-digit octal"
    else if not (is_octal d)
    then fail (offset + 3) "output escape is not three-digit octal"
    else if ltb 255 ((a - b'0') * 64 + (b - b'0') * 8 + (d - b'0'))
    then fail offset "output escape exceeds one byte"
    else escaped
decode_output offset (c ∷ value) =
    let plain = (do rest ← decode_output (offset + 1) value; ok (c ∷ rest)) in
    if not (c == b'\\') then plain else fail offset "output escape is incomplete"

abbrev pub is_lower : ℕ → Bool
is_lower c = leb b'a' c && leb c b'z'

abbrev pub is_decimal : ℕ → Bool
is_decimal c = leb b'0' c && leb c b'9'

-- The loop of `validControlNotificationKind`; the result is the offset of the fault, if any.
unfoldable pub kind_fault_from : ℕ → Bool → Bytes → Option ℕ
kind_fault_from offset previous_hyphen [] = if previous_hyphen then some (offset - 1) else none
kind_fault_from offset previous_hyphen (c ∷ kind) =
    let word = kind_fault_from (offset + 1) false kind in
    let hyphen = kind_fault_from (offset + 1) true kind in
    if is_lower c || is_decimal c
    then word
    else if not (c == b'-') || previous_hyphen
    then some offset
    else hyphen

unfoldable pub kind_fault : Bytes → Option ℕ
unfolding kind_fault_from
kind_fault (p ∷ c ∷ kind) =
    if not (p == b'%') || not (is_lower c) then some 1 else kind_fault_from 2 false kind
kind_fault kind = some (min 1 (length kind))

-- A byte list up to a byte, and from that byte on.
unfoldable pub span_byte : ℕ → Bytes → Bytes × Bytes
span_byte b [] = ([], [])
span_byte b (c ∷ s) = let r = span_byte b s in if c == b then ([], c ∷ s) else (c ∷ r.0, r.1)

-- `controlNotificationDefinition`.
unfoldable pub find_definition : Bytes → List Definition → Option Definition
find_definition kind [] = none
find_definition kind (d ∷ ds) = if bytes_eq d.kind kind then some d else find_definition kind ds

-- The loop over the prefix arguments: the position, and what stands there. The result holds the
-- arguments, the new position and what stands at that.
unfoldable pub prefix_arguments : ℕ → ℕ → Bytes → Parsed (List Bytes × ℕ × Bytes)
unfolding span_byte
prefix_arguments zero position rest = ok ([], position, rest)
prefix_arguments (suc count) position [] = fail position "required argument is missing"
prefix_arguments (suc count) position (d ∷ rest) =
    let r = span_byte b' ' rest in
    let next = prefix_arguments count (position + 1 + length r.0) r.1 in
    if not (d == b' ')
    then fail position "argument delimiter is missing"
    else if length r.0 == 0
    then fail (position + 1) "required argument is empty"
    else (do more ← next; ok (r.0 ∷ more.0, more.1, more.2))

-- `appendControlNotificationTail`.
unfoldable pub append_tail : ℕ → Bytes → List Bytes → Bool → Bool → Parsed (List Bytes)
append_tail position [] arguments allow_empty optional_tail =
    if optional_tail then ok arguments else fail position "required tail is missing"
append_tail position (d ∷ tail) arguments allow_empty optional_tail =
    if not (d == b' ')
    then fail position "tail delimiter is missing"
    else if length tail == 0 && not allow_empty
    then fail (position + 1) "tail is empty"
    else ok (arguments ++ tail ∷ [])

-- `strings.Index` of " : ", as what stands before it and behind it.
unfoldable pub cut_colon : Bytes → Option (Bytes × Bytes)
cut_colon (x ∷ y ∷ z ∷ s) =
    let rest = cut_colon (y ∷ z ∷ s) in
    if x == b' ' && y == b':' && z == b' '
    then some ([], s)
    else elim rest [ none ↦ none | some (before, after) ↦ some (x ∷ before, after) ]
cut_colon s = none

unfoldable pub future_arguments : ℕ → List Bytes → List Bytes → Parsed (List Bytes)
future_arguments position arguments [] = ok arguments
future_arguments position arguments (a ∷ more) =
    let rest = future_arguments position (arguments ++ a ∷ []) more in
    if length a == 0 then fail position "future argument is empty" else rest

-- The arguments between the prefix and the colon.
unfoldable pub before_colon : ℕ → List Bytes → Bytes → Parsed (List Bytes)
unfolding future_arguments
before_colon position arguments [] = ok arguments
before_colon position arguments (d ∷ before) =
    if not (d == b' ')
    then fail position "argument delimiter is missing"
    else future_arguments position arguments (split before b' ')

-- `appendColonControlNotificationTail`.
unfoldable pub append_colon_tail : ℕ → Bytes → List Bytes → Bool → Parsed (List Bytes)
unfolding before_colon
append_colon_tail position rest arguments allow_empty = elim (cut_colon rest) [
  | none ↦ fail position "colon tail delimiter is missing"
  | some (before, tail) ↦ (do
    all ← before_colon position arguments before
    if length tail == 0 && not allow_empty
        then fail (position + length before + 3) "tail is empty"
        else ok (all ++ tail ∷ []))
]

-- The switch on the definition's tail.
unfoldable pub tail_arguments : Tail → Bool → ℕ → Bytes → List Bytes → Parsed (List Bytes)
unfolding append_tail append_colon_tail
tail_arguments no_tail allow_empty position [] arguments = ok arguments
tail_arguments no_tail allow_empty position (c ∷ rest) arguments =
    fail position "record has unexpected trailing data"
tail_arguments required allow_empty position rest arguments =
    append_tail position rest arguments allow_empty false
tail_arguments optional allow_empty position [] arguments = ok arguments
tail_arguments optional allow_empty position (c ∷ rest) arguments =
    append_tail position (c ∷ rest) arguments allow_empty true
tail_arguments colon allow_empty position rest arguments =
    append_colon_tail position rest arguments allow_empty

-- `parseControlNotificationArguments`.
unfoldable pub parse_arguments : Definition → ℕ → Bytes → Parsed (List Bytes)
unfolding prefix_arguments tail_arguments
parse_arguments d position rest = do
  p ← prefix_arguments d.prefix_count position rest
  tail_arguments d.tail d.allow_empty_tail p.1 p.2 p.0

-- The first framing byte: NUL, carriage return or line feed.
unfoldable pub framing_byte : ℕ → Bytes → Option ℕ
framing_byte offset [] = none
framing_byte offset (c ∷ s) =
    let rest = framing_byte (offset + 1) s in
    if c == 0 || c == b'\r' || c == b'\n' then some offset else rest

abbrev pub last_or : Bytes → List Bytes → Bytes
last_or d [] = d
last_or d (x ∷ xs) = last_or x xs

abbrev pub first_or : Bytes → List Bytes → Bytes
first_or d [] = d
first_or d (x ∷ xs) = x

abbrev pub carries_output : Bytes → Bool
carries_output kind = bytes_eq kind (codes "%output") || bytes_eq kind (codes "%extended-output")

-- From the arguments on: output is decoded for the two kinds that carry it.
unfoldable pub finish_notification : Bytes → Bytes → List Bytes → Parsed Notification
finish_notification line kind arguments =
    if carries_output kind
    then (do
      let tail = last_or [] arguments
      out ← decode_output (length line - length tail) tail
      ok (record {
        kind = kind;
        arguments = arguments;
        output = some (first_or [] arguments, out);
      }))
    else ok (record { kind = kind; arguments = arguments; output = none })

-- From the kind on: the kind and what stands behind it.
unfoldable pub parse_kind : Bytes → Bytes → Bytes → Parsed Notification
parse_kind line kind rest = elim (kind_fault kind) [
  | some offset ↦ fail offset "notification kind is malformed"
  | none ↦ elim (find_definition kind definitions) [
    | none ↦
        err (record {
          offset = 0;
          reason = "notification kind is not recognized";
          category = unknown;
        })
    | some d ↦ (do
      arguments ← parse_arguments d (length kind) rest
      finish_notification line kind arguments)
  ]
]

-- `ParseControlNotification`.
unfoldable pub parse_notification : Bytes → Parsed Notification
parse_notification [] = fail 0 "record is empty"
parse_notification (c ∷ s) = elim (framing_byte 0 (c ∷ s)) [
  | some offset ↦ fail offset "record contains framing byte"
  | none ↦
      (if not (c == b'%')
        then fail 0 "record does not start with a notification kind"
        else (let r = span_byte b' ' (c ∷ s) in parse_kind (c ∷ s) r.0 r.1))
]
