-- ===== src/Encoding/Reader.antt =====
-- An independent reader of the quoting that the encoder writes: words and command separators from a
-- line. An apostrophe quotes up to the next one, double quotes likewise, a backslash takes three
-- octal digits, and outside quotes a space ends a word and a semicolon separates commands.
use libtmux_go.Base.{
  ℕ, ◌+◌, ◌-◌, ◌*◌, Bool, true, false, Option, none, some, List, [], ◌∷◌, ◌++◌, Bytes, ◌==◌,
  if◌then◌else◌,
}

pub data Token : Type 0 where
  word : Bytes → Token
  separator : Token

-- `digits n v` is inside an octal escape with `n` more digits to come behind the value `v`.
pub data Mode : Type 0 where
  bare single double : Mode
  digits : ℕ → ℕ → Mode

-- The word read so far, if one has begun.
abbrev pub flush : Bool → Bytes → List Token → List Token
flush begun cur rest = if begun then word cur ∷ rest else rest

abbrev flushed : Bool → Bytes → Option (List Token) → Option (List Token)
flushed begun cur none = none
flushed begun cur (some rest) = some (flush begun cur rest)

abbrev separated : Option (List Token) → Option (List Token)
separated none = none
separated (some rest) = some (separator ∷ rest)

unfoldable pub read : Mode → Bool → Bytes → Bytes → Option (List Token)
read bare begun cur [] = some (flush begun cur [])
read single begun cur [] = none
read double begun cur [] = none
read (digits n v) begun cur [] = none
read bare begun cur (c ∷ s) =
    let next = read bare false [] s in
    let quote = read single true cur s in
    let quote2 = read double true cur s in
    let escape = read (digits 3 0) true cur s in
    let plain = read bare true (cur ++ c ∷ []) s in
    if c == b' '
    then flushed begun cur next
    else if c == b';'
    then flushed begun cur (separated next)
    else if c == b'\''
    then quote
    else if c == b'"'
    then quote2
    else if c == b'\\'
    then escape
    else plain
read single begun cur (c ∷ s) =
    let close = read bare true cur s in
    let keep = read single true (cur ++ c ∷ []) s in if c == b'\'' then close else keep
read double begun cur (c ∷ s) =
    let close = read bare true cur s in
    let keep = read double true (cur ++ c ∷ []) s in if c == b'"' then close else keep
read (digits n v) begun cur (c ∷ s) =
    let d = v * 8 + (c - b'0') in
    let done = read bare true (cur ++ d ∷ []) s in
    let more = read (digits (n - 1) d) true cur s in if n == 1 then done else more

-- A line of input.
unfoldable pub read_line : Bytes → Option (List Token)
unfolding read
read_line s = read bare false [] s
