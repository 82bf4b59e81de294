-- ===== src/ComplexOptions/Tests.antt =====
-- Parsed options at small inputs.
use libtmux_go.Base.{ℕ, ◌≡◌, refl, some, [], ◌∷◌, Bytes, codes}
use mathlib.Core.Option
use libtmux_go.Base.{arith, bytes_eq, if◌then◌else◌}
use libtmux_go.ComplexOptions.Indexed.{IsIndexed, place}
use libtmux_go.ComplexOptions.Overridden.{capabilities_or_new, set_override-lookup}
use libtmux_go.ComplexOptions.{
  new_table, Overrides, flag, integer, text, set_override, set_known, set_at, ensure_terminal,
  capability, decimal_digits, set_capabilities, parse_override, terminal_overrides,
}
use libtmux_go.SparseArray.{SparseEntry, SparseArray}
use libtmux_go.Text.{cut, split}
use libtmux_go.ComplexOptions.Parsed.{
  last_said, errors, command_aliases-lookup, terminal_features-lookup,
}
use libtmux_go.ComplexOptions.{
  lookup, map_get, replace, set, parse_items, command_aliases, terminal_features,
}

abbrev item : ℕ → Bytes → SparseEntry Bytes
item n value = record { index = n; value = value }

abbrev aliases : SparseArray Bytes
aliases = record {
  entries =
      item 0 (codes "split-pane=split-window")
      ∷ item 1 (codes "broken")
      ∷ item 4 (codes "info=show -v")
      ∷ item 7 (codes "split-pane=split-window -h")
      ∷ [];
}

lookup_split_pane :
    lookup (command_aliases aliases).0 (codes "split-pane") ≡ some (codes "split-window -h")
unfolding command_aliases lookup map_get replace set parse_items cut
lookup_split_pane = refl

command_aliases-lookup_example :
    ((name : Bytes)
      → lookup (command_aliases aliases).0 name
        ≡ last_said "command-alias" b'=' "expected alias=command"
            (λ text. text)
            aliases.entries
            name)
    × ((command_aliases aliases).1
        ≡ errors "command-alias" b'=' "expected alias=command"
            (λ (text : Bytes). text)
            aliases.entries)
command_aliases-lookup_example = command_aliases-lookup aliases

abbrev features : SparseArray Bytes
features = record {
  entries = item 0 (codes "xterm*:clipboard:title") ∷ item 1 (codes "screen*:title") ∷ [];
}

terminal_features-lookup_example :
    ((name : Bytes)
      → lookup (terminal_features features).0 name
        ≡ last_said "terminal-features" b':' "expected terminal:features"
            (λ text. split text b':')
            features.entries
            name)
    × ((terminal_features features).1
        ≡ errors "terminal-features" b':' "expected terminal:features"
            (λ text. split text b':')
            features.entries)
terminal_features-lookup_example = terminal_features-lookup features

abbrev overrides : Overrides
overrides = record { entries = (codes "xterm", new_table) ∷ []; by_name = (codes "xterm", 0) ∷ [] }

overrides-IsIndexed : IsIndexed overrides
unfolding map_get place
overrides-IsIndexed name = ground arith

set_override-lookup_example :
    IsIndexed (set_override (codes "xterm") (codes "Tc") flag overrides)
    × ((other : Bytes)
        → lookup (set_override (codes "xterm") (codes "Tc") flag overrides) other ≡ (
            if bytes_eq (codes "xterm") other
            then some
                (set (capabilities_or_new (lookup overrides (codes "xterm"))) (codes "Tc") flag)
            else lookup overrides other))
set_override-lookup_example =
    set_override-lookup (codes "xterm") (codes "Tc") flag overrides overrides-IsIndexed

abbrev raw_overrides : SparseArray Bytes
raw_overrides = record {
  entries = item 0 (codes "xterm*:Tc:U8=0::Ms=x") ∷ item 3 (codes "screen") ∷ [];
}

parse_overrides_run :
    Option.map (λ c. c.entries) (lookup (terminal_overrides raw_overrides) (codes "xterm*"))
    ≡ some (
        (codes "Tc", flag)
        ∷ (codes "U8", integer (codes "0"))
        ∷ (codes "Ms", text (codes "x"))
        ∷ [])
unfolding terminal_overrides parse_override set_capabilities capability set_override set_known
    set_at ensure_terminal decimal_digits lookup map_get replace set cut split
parse_overrides_run = refl
