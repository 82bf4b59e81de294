-- ===== src/Encoding.antt =====
-- `encodeControlCommand` of tmux/control_protocol.go: one line of control-mode input from a
-- command's argument vector.
pub mod Reader
pub mod RoundTrip
pub mod Tests
use mathlib.Core.Bool.{not}
use libtmux_go.Base.{
  ℕ, ◌+◌, ◌/◌, ◌%◌, Bool, true, false, ◌&&◌, ◌||◌, Option, none, some, List, [], ◌∷◌, ◌++◌, Bytes,
  codes, bytes_eq, ltb, leb, ◌==◌, if◌then◌else◌,
}
use libtmux_go.Base.Result.{Result, ok, err, ◌>>=◌}

-- The two refusals.
pub data EncodeError : Type 0 where
  empty_command : EncodeError
  nul_argument : EncodeError

-- Printable ASCII other than the apostrophe.
abbrev pub is_quotable : ℕ → Bool
is_quotable c = leb 0x20 c && leb c 0x7e && not (c == b'\'')

-- `\%03o` of a byte.
abbrev pub octal : ℕ → Bytes
octal c = b'\\' ∷ (b'0' + c / 64) ∷ (b'0' + c / 8 % 8) ∷ (b'0' + c % 8) ∷ []

-- A byte that is not quotable.
abbrev pub special : ℕ → Bytes
special c = if c == b'\'' then b'"' ∷ b'\'' ∷ b'"' ∷ [] else octal c

-- The loop over an argument's bytes; the flag is `quoted`.
unfoldable pub quote_bytes : Bool → Bytes → Bytes
quote_bytes quoted [] = if quoted then b'\'' ∷ [] else []
quote_bytes quoted (c ∷ s) =
    let within = quote_bytes true s in
    let outside = quote_bytes false s in
    if is_quotable c
    then (if not quoted then b'\'' ∷ c ∷ within else c ∷ within)
    else (if quoted then b'\'' ∷ [] else []) ++ (special c ++ outside)

unfoldable pub has_nul : Bytes → Bool
has_nul [] = false
has_nul (c ∷ s) = c == 0 || has_nul s

-- One argument; the flag is `commandList`.
unfoldable pub encode_argument : Bool → Bytes → Bytes
encode_argument command_list a =
    if command_list && bytes_eq a (b';' ∷ [])
    then b';' ∷ []
    else if bytes_eq a []
    then b'\'' ∷ b'\'' ∷ []
    else quote_bytes false a

-- The arguments behind the first, each behind a space.
unfoldable pub encode_rest : Bool → List Bytes → Result EncodeError Bytes
encode_rest command_list [] = ok []
encode_rest command_list (a ∷ arguments) =
    let rest = (do
      more ← encode_rest command_list arguments
      ok (b' ' ∷ (encode_argument command_list a ++ more))) in
    if has_nul a then err nul_argument else rest

unfoldable pub encode_command : List Bytes → Bool → Result EncodeError Bytes
encode_command [] command_list = err empty_command
encode_command ([] ∷ arguments) command_list = err empty_command
encode_command ((c ∷ a) ∷ arguments) command_list =
    if has_nul (c ∷ a) then err nul_argument else (do
      more ← encode_rest command_list arguments
      ok (encode_argument command_list (c ∷ a) ++ more))
