-- ===== src/Command.antt =====
-- tmux/command.go: a completed tmux command, what its failure claims, and the checks and escapes of
-- its arguments. validateServerCommandArgument is in tmux/server_exec.go.
pub mod Diagnoses
pub mod Errors
pub mod Separators
pub mod Tests
use mathlib.Core.Bool.{not}
use libtmux_go.Base.{
  ℕ, zero, suc, ◌+◌, Bool, true, false, ◌&&◌, ◌||◌, Option, none, some, String, List, [], ◌∷◌, ◌++◌,
  map, Bytes, codes, length, bytes_eq, ◌==◌, if◌then◌else◌,
}
use libtmux_go.Base.Int.{ℤ, pos}
use libtmux_go.Text.{has_prefix, has_suffix, contains, has_byte}

-- `CommandResult`.
pub record CommandResult : Type 0 where
  pub command : List Bytes
  pub stdout : List Bytes
  pub raw_stdout : Bytes
  pub stderr : List Bytes
  pub exit_code : ℤ

-- A loop over lines that returns true at the first hit.
abbrev pub any_line : (Bytes → Bool) → List Bytes → Bool
any_line test [] = false
any_line test (line ∷ lines) = test line || any_line test lines

-- `commandServerUnreachablePrefixes`.
abbrev pub unreachable_prefixes : List Bytes
unreachable_prefixes =
    codes "no server running on "
    ∷ codes "error connecting to "
    ∷ codes "error creating "
    ∷ codes "couldn't create directory "
    ∷ codes "couldn't read directory "
    ∷ codes "no suitable socket path"
    ∷ []

-- `commandServerUnreachableSuffixes`.
abbrev pub unreachable_suffixes : List Bytes
unreachable_suffixes = codes " is not a directory" ∷ codes " has unsafe permissions" ∷ []

-- `commandServerGoneMessages`.
abbrev pub gone_messages : List Bytes
gone_messages = codes "server exited unexpectedly" ∷ codes "server exited" ∷ []

-- `commandFixedRefusals`.
abbrev pub fixed_refusals : List Bytes
fixed_refusals =
    codes "command too long" ∷ codes "no space for a new pane" ∷ codes "no space for new pane" ∷ []

-- `commandTargetNotFoundObjects`.
abbrev pub target_objects : List Bytes
target_objects = codes "session" ∷ codes "window" ∷ codes "pane" ∷ codes "client" ∷ []

-- `commandFixedRefusal`.
unfoldable pub is_fixed_refusal : List Bytes → Bool
is_fixed_refusal = any_line (λ line. any_line (λ refusal. contains line refusal) fixed_refusals)

-- `commandServerUnreachable`.
unfoldable pub is_unreachable : List Bytes → Bool
is_unreachable = any_line (λ line.
    any_line (λ prefix. has_prefix line prefix) unreachable_prefixes
    || any_line (λ suffix. has_suffix line suffix) unreachable_suffixes
    || any_line (λ message. bytes_eq line message) gone_messages)

-- `commandTargetNotFound`.
unfoldable pub is_target_not_found : List Bytes → Bool
is_target_not_found = any_line (λ line.
    any_line
      (λ object.
        contains line (codes "can't find " ++ (object ++ b':' ∷ []))
        || has_suffix line (codes "can't find " ++ object))
      target_objects)

-- `commandNoCurrentTarget`.
unfoldable pub is_no_current_target : List Bytes → Bool
is_no_current_target = any_line (λ line. contains line (codes "no current target"))

-- `CommandError`.
pub record CommandError : Type 0 where
  pub subcommand : Bytes
  pub result : CommandResult
  pub target_not_found : Bool
  pub no_server : Bool

-- The sentinels that `Is` and `Unwrap` know.
pub data Sentinel : Type 0 where
  err_command err_no_server err_not_found : Sentinel

-- `errors.Is` on a `CommandError`: its `Is`, and then what it unwraps to.
unfoldable pub claims : CommandError → Sentinel → Bool
claims e err_command = true
claims e err_no_server = e.no_server
claims e err_not_found = e.target_not_found

-- `newCommandError`.
unfoldable pub new_error : Bytes → CommandResult → CommandError
new_error subcommand r = record {
  subcommand = subcommand;
  result = r;
  target_not_found = is_target_not_found r.stderr;
  no_server = is_unreachable r.stderr;
}

-- The result that holds nothing but an exit code.
abbrev pub exit_only : ℤ → CommandResult
exit_only n = record { command = []; stdout = []; raw_stdout = []; stderr = []; exit_code = n }

-- `newRedactedCommandError`.
unfoldable pub new_redacted_error : Bytes → CommandResult → CommandError
new_redacted_error subcommand r =
    if is_unreachable r.stderr || is_fixed_refusal r.stderr || is_target_not_found r.stderr
    then new_error subcommand r
    else record {
      subcommand = subcommand;
      result = exit_only r.exit_code;
      target_not_found = is_target_not_found r.stderr;
      no_server = is_unreachable r.stderr;
    }

-- `withoutAbsenceClaim` of an error that is a `CommandError`.
unfoldable pub without_absence : CommandError → CommandError
without_absence e = if not e.target_not_found then e else record e { target_not_found = false }

-- `escapeTrailingTmuxCommandSeparator`.
unfoldable pub escape_separator : Bytes → Bytes
escape_separator [] = []
escape_separator (c ∷ []) = if c == b';' then b'\\' ∷ b';' ∷ [] else c ∷ []
escape_separator (c ∷ x ∷ s) = c ∷ escape_separator (x ∷ s)

-- `escapeCommandListSeparators`.
unfoldable pub escape_separators : List Bytes → List Bytes
escape_separators = map escape_separator

-- `validateServerCommandArgument`: whether the value is refused.
unfoldable pub is_refused : Bytes → Bool
is_refused = has_byte 0

-- `validateLiteralCommandArguments`: the same over a vector.
unfoldable pub are_refused : List Bytes → Bool
are_refused = any_line (has_byte 0)
