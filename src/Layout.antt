-- ===== src/Layout.antt =====
-- tmux/internal/layout/layout.go: the serialized layout grammar. The parser's text and offset are
-- the bytes from the offset on. Nested cells recur on fuel, with a result of its own for its end.
pub mod Fuel
pub mod Tests
use mathlib.Core.Bool.{not}
use libtmux_go.Base.{
  ℕ, zero, suc, ◌+◌, ◌-◌, ◌*◌, ◌/◌, ◌%◌, ◌^◌, Bool, true, false, ◌&&◌, ◌||◌, Option, none, some,
  List, [], ◌∷◌, ◌++◌, Bytes, length, ltb, leb, ◌==◌, if◌then◌else◌,
}
use libtmux_go.Text.{is_digit, parse_uint}

-- `parser.take`: the bytes behind `c`, if it stands there.
unfoldable pub take_byte : ℕ → Bytes → Option Bytes
take_byte c [] = none
take_byte c (x ∷ s) = if x == c then some s else none

unfoldable pub span_digits : Bytes → Bytes × Bytes
span_digits [] = ([], [])
span_digits (c ∷ s) = let r = span_digits s in if is_digit c then (c ∷ r.0, r.1) else ([], c ∷ s)

-- `parser.number`: digits that fit a `uint32`; `parse_uint` refuses an empty run.
unfoldable pub number : Bytes → Option Bytes
number s = let r = span_digits s in elim (parse_uint 32 r.0) [ none ↦ none | some n ↦ some r.1 ]

infixl 5 ◌then_◌
abbrev pub ◌then_◌ : Option Bytes → (Bytes → Option Bytes) → Option Bytes
none then_ f = none
some s then_ f = f s

-- Width, height and the two offsets.
unfoldable pub geometry : Bytes → Option Bytes
geometry s =
    number s
    then_ take_byte b'x'
    then_ number
    then_ take_byte b','
    then_ number
    then_ take_byte b','
    then_ number

abbrev pub starts_x : Bytes → Bool
starts_x [] = false
starts_x (c ∷ s) = c == b'x'

-- The pane ID, if there is one: a number behind a comma that is not the next cell's width.
unfoldable pub pane_id : Bytes → Option Bytes
pane_id s = elim (take_byte b',' s) [
  | none ↦ some s
  | some r ↦ elim (number r) [ none ↦ none | some rest ↦ some (if starts_x rest then s else rest) ]
]

-- The results of `parser.cell`: the leaves and what is left, a refusal, or the end of the fuel.
pub data Outcome : Type 0 where
  cells : ℕ → Bytes → Outcome
  refused : Outcome
  exhausted : Outcome

-- A bracket that opens children, as the one that closes them.
unfoldable pub opening : Bytes → Option (ℕ × Bytes)
opening [] = none
opening (c ∷ s) = if c == b'{' then some (b'}', s) else if c == b'[' then some (b']', s) else none

abbrev pub close_with : ℕ → ℕ → Bytes → Outcome
close_with closing n s = elim (take_byte closing s) [ none ↦ refused | some rest ↦ cells n rest ]

unfoldable mutual
  -- `parser.cell`.
  pub cell : ℕ → ℕ → Bytes → Outcome
  cell zero depth s = exhausted
  cell (suc fuel) depth s = if ltb 256 depth then refused else elim (geometry s) [
    | none ↦ refused
    | some r ↦ elim (pane_id r) [
      | none ↦ refused
      | some rest ↦ elim (opening rest) [
        | none ↦ cells 1 rest
        | some (closing, inner) ↦ children fuel depth closing 0 inner
      ]
    ]
  ]

  -- Its loop over the children; `n` counts the leaves so far.
  pub children : ℕ → ℕ → ℕ → ℕ → Bytes → Outcome
  children zero depth closing n s = exhausted
  children (suc fuel) depth closing n s = elim (cell fuel (depth + 1) s) [
    | exhausted ↦ exhausted
    | refused ↦ refused
    | cells k rest ↦ elim (take_byte b',' rest) [
      | some more ↦ children fuel depth closing (n + k) more
      | none ↦ close_with closing (n + k) rest
    ]
  ]

abbrev pub is_hex : ℕ → Bool
is_hex c = is_digit c || leb b'a' c && leb c b'f' || leb b'A' c && leb c b'F'

abbrev pub hex_value : ℕ → ℕ
hex_value c = if is_digit c then c - b'0' else if leb b'a' c then c - b'a' + 10 else c - b'A' + 10

-- The checksum loop, in `uint16`: rotate right by one, then add.
unfoldable pub checksum : ℕ → Bytes → ℕ
checksum sum [] = sum
checksum sum (c ∷ s) = checksum ((sum / 2 + sum % 2 * 2 ^ 15 + c) % 2 ^ 16) s

-- What is left must be nothing.
abbrev pub whole : Outcome → Option ℕ
whole (cells n []) = some n
whole _ = none

abbrev pub fuel_for : Bytes → ℕ
fuel_for s = 2 * length s + 1

-- `Cells`; the fuel is enough for every text.
unfoldable pub count_cells : Bytes → Option ℕ
count_cells (a ∷ b ∷ c ∷ d ∷ e ∷ s) =
    let want = ((hex_value a * 16 + hex_value b) * 16 + hex_value c) * 16 + hex_value d in
    if length s == 0 || not (e == b',')
    then none
    else if not (is_hex a && is_hex b && is_hex c && is_hex d)
    then none
    else if not (checksum 0 s == want)
    then none
    else whole (cell (fuel_for s) 0 s)
count_cells s = none
