-- ===== src/Command/Tests.antt =====
-- Failed commands and escaped values at small inputs.
use libtmux_go.Base.{◌≡◌, refl, true, false, List, [], ◌∷◌, Bytes, codes}
use libtmux_go.Base.Int.{pos}
use libtmux_go.Text.{has_prefix, has_suffix, contains}
use libtmux_go.Command.{
  CommandResult, err_not_found, claims, new_error, new_redacted_error, exit_only, is_unreachable,
  is_fixed_refusal, is_target_not_found, escape_separator, escape_separators,
}
use libtmux_go.Command.Separators.{read_value, read_value-escape_separator}

abbrev failed : List Bytes → CommandResult
failed stderr = record {
  command = codes "set-buffer" ∷ codes "secret" ∷ [];
  stdout = [];
  raw_stdout = [];
  stderr = stderr;
  exit_code = pos 1;
}

missing_pane :
    claims (new_error (codes "kill-pane") (failed (codes "can't find pane: %9" ∷ []))) err_not_found
    ≡ true
unfolding claims new_error is_target_not_found contains has_prefix has_suffix
missing_pane = refl

hidden_value :
    (new_redacted_error (codes "set-buffer") (failed (codes "bad value secret" ∷ []))).result
    ≡ exit_only (pos 1)
unfolding new_redacted_error is_unreachable is_fixed_refusal is_target_not_found contains has_prefix
    has_suffix
hidden_value = refl

escape_last : escape_separators (codes "a;b" ∷ codes "c;" ∷ []) ≡ codes "a;b" ∷ codes "c\\;" ∷ []
unfolding escape_separators escape_separator
escape_last = refl

read_value-escape_separator_example :
    read_value (escape_separator (codes "x\\;")) ≡ (codes "x\\;", false)
read_value-escape_separator_example = read_value-escape_separator (codes "x\\;")
