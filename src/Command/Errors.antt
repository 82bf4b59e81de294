-- ===== src/Command/Errors.antt =====
-- What a failed command's redacted error claims and keeps, by what the command printed.
use libtmux_go.Base.{◌≡◌, ◌↔◌, ◌⊎◌, true, false, Bytes, List, []}
use libtmux_go.Command.{
  CommandResult, CommandError, err_command, err_no_server, err_not_found, claims,
}
use libtmux_go.Command.Diagnoses.{Some, IsUnreachable, IsFixedRefusal, IsTargetMissing}

-- One of the lines is a diagnosis that the code knows.
abbrev pub IsDiagnosed : List Bytes → Type 0
IsDiagnosed lines =
    Some IsUnreachable lines ⊎ (Some IsFixedRefusal lines ⊎ Some IsTargetMissing lines)

-- The error for a subcommand and a result, by the printed lines. What is hidden is the same whatever the
-- arguments and the output were.
pub record IsRedacted (subcommand : Bytes) (r : CommandResult) (e : CommandError) : Type 0 where
  pub is_command_error : claims e err_command ≡ true
  pub no_server_iff : (claims e err_no_server ≡ true) ↔ Some IsUnreachable r.stderr
  pub not_found_iff : (claims e err_not_found ≡ true) ↔ Some IsTargetMissing r.stderr
  pub kept : IsDiagnosed r.stderr → e.result ≡ r
  pub hidden :
      (IsDiagnosed r.stderr → ⊥)
      → e ≡ record {
        subcommand = subcommand;
        result = record {
          command = [];
          stdout = [];
          raw_stdout = [];
          stderr = [];
          exit_code = r.exit_code;
        };
        target_not_found = false;
        no_server = false;
      }
