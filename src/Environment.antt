-- ===== src/Environment.antt =====
-- tmux/environment.go: the environment of a server or a session, written and read back. What the
-- server makes of a command is a parameter.
pub mod Lines
pub mod Requests
pub mod Stored
pub mod Tests
use mathlib.Core.Bool.{not}
use libtmux_go.Base.{
  ℕ, suc, ◌+◌, Bool, true, false, ◌&&◌, ◌||◌, Option, none, some, List, [], ◌∷◌, ◌++◌, Bytes, codes,
  length, bytes_eq, ◌==◌, if◌then◌else◌,
}
use libtmux_go.Base.Result.{Result, ok, err, ◌>>=◌}
use libtmux_go.Text.{has_byte, cut}
use libtmux_go.Command.{CommandResult, CommandError, new_redacted_error}
use libtmux_go.Plan.Results.{is_success}

pub record SetOptions : Type 0 where
  pub expand_format : Bool
  pub hidden : Bool

-- `EnvironmentValue`.
pub record EnvironmentValue : Type 0 where
  pub value : Bytes
  pub removed : Bool

-- The reasons of `EnvironmentDecodeError`, by name.
pub data Malformed : Type 0 where
  invalid_name no_entry other_variable : Malformed

-- The errors of this file, those of a failed command, and a transport's.
pub data EnvironmentError (X : Type 0) : Type 0 where
  name_error : Bytes → EnvironmentError X
  value_error : EnvironmentError X
  decode_error : ℕ → Malformed → EnvironmentError X
  command_error : CommandError → EnvironmentError X
  transport : X → EnvironmentError X

-- `validateEnvironmentName` and `validateEnvironmentValue`.
unfoldable pub valid_name : Bytes → Bool
valid_name name = not (
    length name == 0
    || has_byte b'=' name
    || has_byte b'\r' name
    || has_byte b'\n' name
    || has_byte 0 name)

unfoldable pub valid_value : Bytes → Bool
valid_value value = not (has_byte b'\r' value || has_byte b'\n' value || has_byte 0 value)

-- The map of a shown environment, its keys different.
unfoldable pub env_get : List (Bytes × EnvironmentValue) → Bytes → Option EnvironmentValue
env_get [] name = none
env_get ((key, v) ∷ rest) name = if bytes_eq key name then some v else env_get rest name

unfoldable pub env_set :
    List (Bytes × EnvironmentValue) → Bytes → EnvironmentValue → List (Bytes × EnvironmentValue)
env_set [] name v = (name, v) ∷ []
env_set ((key, u) ∷ rest) name v =
    let more = env_set rest name v in if bytes_eq key name then (key, v) ∷ rest else (key, u) ∷ more

-- One line of `parseEnvironmentLines`: a name and what it holds.
unfoldable pub parse_line : Bytes → Result Malformed (Bytes × EnvironmentValue)
parse_line line = elim (cut line b'=') [
  | some (name, value) ↦
      (if valid_name name
        then ok (name, record { value = value; removed = false })
        else err invalid_name)
  | none ↦ elim line [
    | [] ↦ err no_entry
    | c ∷ name ↦
        (if c == b'-' && valid_name name
          then ok (name, record { value = []; removed = true })
          else err no_entry)
  ]
]

module _ {X : Type 0} where
  -- `parseEnvironmentLines` from the line of a number on.
  unfoldable pub parse_lines :
      ℕ
      → List (Bytes × EnvironmentValue)
      → List Bytes
      → Result (EnvironmentError X) (List (Bytes × EnvironmentValue))
  parse_lines number values [] = ok values
  parse_lines number values (line ∷ lines) = elim (parse_line line) [
    | err m ↦ err (decode_error number m)
    | ok (name, v) ↦ parse_lines (number + 1) (env_set values name v) lines
  ]

-- `environmentVariableMissing`.
unfoldable pub variable_missing : CommandResult → Bytes → Bool
variable_missing result name = length result.stdout == 0 && elim (result.stderr) [
  | [] ↦ false
  | line ∷ more ↦ length more == 0 && bytes_eq line (codes "unknown variable: " ++ name)
]

abbrev pub set_arguments : List Bytes → Bytes → Bytes → SetOptions → List Bytes
set_arguments scope name value options =
    codes "set-environment" ∷ scope
    ++ (if options.expand_format then codes "-F" ∷ [] else [])
    ++ (if options.hidden then codes "-h" ∷ [] else [])
    ++ codes "--" ∷ name ∷ value ∷ []

abbrev pub change_arguments : List Bytes → Bytes → Bytes → List Bytes
change_arguments scope flag name = codes "set-environment" ∷ scope ++ flag ∷ codes "--" ∷ name ∷ []

abbrev pub get_arguments : List Bytes → Bytes → List Bytes
get_arguments scope name = codes "show-environment" ∷ scope ++ codes "--" ∷ name ∷ []

-- What the operations make of what the server answers.
module _ {X : Type 0} where
  abbrev pub judge_mutation : Bytes → Result X CommandResult → Option (EnvironmentError X)
  judge_mutation command (err e) = some (transport e)
  judge_mutation command (ok result) =
      if not (is_success result) || not (length result.stderr == 0)
      then some (command_error (new_redacted_error command result))
      else none

  abbrev pub read_shown :
      Result X CommandResult → Result (EnvironmentError X) (List (Bytes × EnvironmentValue))
  read_shown (err e) = err (transport e)
  read_shown (ok result) =
      if not (is_success result)
      then err (command_error (new_redacted_error (codes "show-environment") result))
      else parse_lines 0 [] result.stdout

  -- What `getEnvironment` makes of the entries that it is shown.
  unfoldable pub only_entry :
      List (Bytes × EnvironmentValue)
      → Bytes
      → Result (EnvironmentError X) (Option EnvironmentValue)
  only_entry [] name = ok none
  only_entry (entry ∷ more) name = elim (env_get (entry ∷ more) name) [
    | none ↦ err (decode_error 0 other_variable)
    | some v ↦ if length more == 0 then ok (some v) else err (decode_error 0 other_variable)
  ]

  unfoldable pub read_entry :
      Bytes → Result X CommandResult → Result (EnvironmentError X) (Option EnvironmentValue)
  read_entry name (err e) = err (transport e)
  read_entry name (ok result) =
      if not (is_success result)
      then (if variable_missing result name
          then ok none
          else err (command_error (new_redacted_error (codes "show-environment") result)))
      else (do values ← parse_lines 0 [] result.stdout; only_entry values name)

-- The operations; `exec` is `literalCmd`, a command's result or a transport's error.
module _ {S X : Type 0} (exec : S → List Bytes → Result X CommandResult × S) where
  -- `runEnvironmentMutation`.
  unfoldable pub run_mutation : List Bytes → S → Option (EnvironmentError X) × S
  run_mutation arguments s =
      let sent = exec s arguments in (judge_mutation (codes "set-environment") (sent.0), sent.1)

  -- `setEnvironment`.
  unfoldable pub set_environment :
      List Bytes → Bytes → Bytes → SetOptions → S → Option (EnvironmentError X) × S
  set_environment scope name value options s =
      if not (valid_name name)
      then (some (name_error name), s)
      else if not (valid_value value)
      then (some value_error, s)
      else run_mutation (set_arguments scope name value options) s

  -- `changeEnvironmentState`.
  unfoldable pub change_state : List Bytes → Bytes → Bytes → S → Option (EnvironmentError X) × S
  change_state scope flag name s =
      if not (valid_name name)
      then (some (name_error name), s)
      else run_mutation (change_arguments scope flag name) s

  -- `showEnvironment`.
  unfoldable pub show_environment :
      List Bytes → S → Result (EnvironmentError X) (List (Bytes × EnvironmentValue)) × S
  show_environment scope s =
      let sent = exec s (codes "show-environment" ∷ scope) in (read_shown (sent.0), sent.1)

  -- `getEnvironment`; no value is `none`.
  unfoldable pub get_environment :
      List Bytes → Bytes → S → Result (EnvironmentError X) (Option EnvironmentValue) × S
  get_environment scope name s =
      if not (valid_name name)
      then (err (name_error name), s)
      else (let sent = exec s (get_arguments scope name) in (read_entry name (sent.0), sent.1))
