-- ===== src/Filter/Tests.antt =====
-- Criteria and lookups at small inputs.
use mathlib.Core.Logic.{◌↔◌}
use libtmux_go.Base.{
  ℕ, ◌≡◌, refl, ◌⊎◌, Bool, true, false, Option, none, some, [], ◌∷◌, Bytes, codes, bytes_eq,
  if◌then◌else◌,
}
use libtmux_go.Base.Result.{ok, err}
use libtmux_go.Text.{has_prefix, contains}
use libtmux_go.Filter.{
  any, exact_in_possible, slices_equal, pointers_equal, elements_equal, IntCriteria, set_lower,
  set_upper, range_possible, int_possible, TextCriteria, any_candidate, text_possible, operators,
  split_path, split_lookup, empty_segment, no_field, lookup_bool,
}
use libtmux_go.Filter.Ranges.{IsIntCriteria}
use libtmux_go.Filter.Ints.{are_from_minimum, IsMatch, int_possible_iff}
use libtmux_go.Filter.Texts.{IsTextMatch, text_possible_iff}
use libtmux_go.Filter.Lookups.{join, split_lookup-join}

-- Above 5 and below 7, of the ints from 0 on, which stand 2 ^ 63 above the least.
abbrev six : IntCriteria
six = record {
  exact = none;
  values = none;
  gt = some 9223372036854775813;
  gte = none;
  lt = some 9223372036854775815;
  lte = none;
  minimum = some 9223372036854775808;
}

abbrev nothing_between : IntCriteria
nothing_between = record six { lt = some 9223372036854775814 }

six-IsIntCriteria : IsIntCriteria six
six-IsIntCriteria = record {
  exact_fits = refl;
  values_fit = refl;
  gt_fits = refl;
  gte_fits = refl;
  lt_fits = refl;
  lte_fits = refl;
  minimum_fits = refl;
}

possible_six : int_possible six ≡ true
unfolding int_possible range_possible set_lower set_upper
possible_six = refl

impossible_between : int_possible nothing_between ≡ false
unfolding int_possible range_possible set_lower set_upper
impossible_between = refl

int_possible_iff_example :
    (int_possible six ≡ true) ↔ ((are_from_minimum six ≡ true) × ((v : ℕ) × IsMatch six v))
int_possible_iff_example = int_possible_iff six six-IsIntCriteria

abbrev compile_literal : Bytes → Option (Bytes → Bool)
compile_literal p = if bytes_eq p (codes "(") then none else some (λ t. contains t p)

abbrev shells : TextCriteria
shells = record {
  exact = none;
  values = some (codes "vim" ∷ codes "zsh" ∷ []);
  contained = some (codes "sh");
  pattern = codes "z";
}

possible_shells : text_possible compile_literal shells ≡ true
unfolding text_possible any_candidate exact_in_possible contains has_prefix
possible_shells = refl

malformed_pattern : text_possible compile_literal (record shells { pattern = codes "(" }) ≡ false
unfolding text_possible any_candidate exact_in_possible contains has_prefix
malformed_pattern = refl

text_possible_iff_example : (text_possible compile_literal shells ≡ true) ↔ (
    ((shells.exact ≡ none) × (shells.values ≡ none))
    ⊎ ((t : Bytes) × IsTextMatch compile_literal shells t))
text_possible_iff_example = text_possible_iff compile_literal shells

split_lookup-join_example :
    ((op : Bytes)
      → any (bytes_eq op) operators ≡ true
      → split_lookup (join (codes "pane") (codes "title" ∷ op ∷ []))
        ≡ ok (codes "pane" ∷ codes "title" ∷ [], op))
    × (any (bytes_eq (codes "title")) (codes "eq" ∷ operators) ≡ false
        → split_lookup (codes "pane__title")
          ≡ ok (codes "pane" ∷ codes "title" ∷ [], codes "exact"))
split_lookup-join_example = split_lookup-join (codes "pane") (codes "title" ∷ []) (refl, (refl, tt))

operator_alone : split_lookup (codes "regex") ≡ err no_field
unfolding split_lookup split_path
operator_alone = refl

three_underscores : split_lookup (codes "pane____in") ≡ err empty_segment
unfolding split_lookup split_path
three_underscores = refl

nil_is_not_empty : slices_equal bytes_eq none (some []) ≡ false
unfolding slices_equal pointers_equal elements_equal
nil_is_not_empty = refl

read_false : lookup_bool (codes "false") ≡ ok false
unfolding lookup_bool
read_false = refl
