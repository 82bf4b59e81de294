-- ===== src/Environment/Tests.antt =====
-- A server that keeps environments as a list, and small environments.
use libtmux_go.Base.{
  ◌≡◌, refl, ◌++◌, true, false, Option, none, some, List, [], ◌∷◌, Bytes, codes, bytes_eq, length,
  ◌+◌, All, if◌then◌else◌,
}
use libtmux_go.Base.Int.{pos}
use libtmux_go.Base.Result.{Result, ok, err}
use libtmux_go.Text.{has_byte, cut}
use libtmux_go.Command.{CommandResult}
use libtmux_go.Environment.{
  EnvironmentValue, EnvironmentError, Malformed, no_entry, decode_error, value_error, valid_name,
  valid_value, env_set, parse_line, parse_lines, set_environment, get_environment, read_entry,
  variable_missing,
}
use libtmux_go.Environment.Lines.{parse_lines-error}
use libtmux_go.Environment.Requests.{Request, read_request, read_words}
use libtmux_go.Environment.Stored.{as_is}

abbrev done : List Bytes → CommandResult
done lines = record {
  command = [];
  stdout = lines;
  raw_stdout = [];
  stderr = [];
  exit_code = pos 0;
}

abbrev show_stored : List (Bytes × Bytes) → Bytes → CommandResult
show_stored [] name = record (done []) {
  stderr = (codes "unknown variable: " ++ name) ∷ [];
  exit_code = pos 1;
}
show_stored ((key, value) ∷ rest) name =
    if bytes_eq key name then done ((key ++ b'=' ∷ value) ∷ []) else show_stored rest name

-- Two operands store a value, one shows it.
abbrev serve : List (Bytes × Bytes) → List Bytes → Result Bytes CommandResult × List (Bytes × Bytes)
serve s (name ∷ value ∷ []) = (ok (done []), (name, value) ∷ s)
serve s (name ∷ []) = (ok (show_stored s name), s)
serve s operands = (err (codes "no such command"), s)

abbrev serve_request :
    List (Bytes × Bytes) → Option Request → Result Bytes CommandResult × List (Bytes × Bytes)
serve_request s none = (err (codes "unknown flag"), s)
serve_request s (some q) = serve s q.operands

abbrev list_exec :
    List (Bytes × Bytes) → List Bytes → Result Bytes CommandResult × List (Bytes × Bytes)
list_exec s arguments = serve_request s (read_request arguments)

abbrev global_words : List Bytes
global_words = codes "-g" ∷ []

abbrev editor : Bytes
editor = codes "EDITOR"

two_lines :
    set_environment list_exec global_words editor (codes "a\nb") as_is [] ≡ (some value_error, [])
unfolding set_environment valid_name valid_value has_byte
two_lines = refl

missing_variable : get_environment list_exec global_words editor [] ≡ (ok none, [])
unfolding get_environment valid_name has_byte read_entry variable_missing read_request read_words
missing_variable = refl

abbrev shown : List (Bytes × EnvironmentValue)
shown =
    (editor, record { value = codes "a=b"; removed = false })
    ∷ (codes "TMUX", record { value = []; removed = true })
    ∷ []

abbrev broken : List Bytes
broken = codes "A=1" ∷ codes "rest of a value" ∷ []

abbrev broken_error : EnvironmentError Bytes
broken_error = decode_error 1 no_entry

broken_line : parse_lines {X = Bytes} 0 [] broken ≡ err broken_error
unfolding parse_lines parse_line env_set valid_name has_byte cut
broken_line = refl

parse_lines-error_example :
    (front : List Bytes) × (line : Bytes) × (rest : List Bytes) × (reason : Malformed) × (broken
      ≡ front ++ line ∷ rest)
    × All (λ l. (entry : Bytes × EnvironmentValue) × (parse_line l ≡ ok entry)) front
    × (parse_line line ≡ err reason)
    × (broken_error ≡ decode_error (0 + length front) reason)
parse_lines-error_example = parse_lines-error 0 [] broken broken_error broken_line
