-- ===== src/Protocol/Guards.antt =====
-- Guard lines as tmux writes them, and what any line that is read as a guard holds.
use libtmux_go.Base.{ℕ, ◌^◌, ◌<◌, ◌≡◌, refl, ap, ◌∙◌, some, [], ◌∷◌, ◌++◌, Bytes, codes, arith}
use libtmux_go.Text.{has_prefix, split}
use libtmux_go.Text.Decimal.{
  decimal, decimal-IsDigits, IsDigits, parse_uint-decimal, parse_int-decimal,
}
use libtmux_go.Text.Splits.{Lacks, split-append, split-Lacks}
use libtmux_go.Protocol.{
  Guard, GuardKind, begin, end, error, guard, guard_kind, guard_fields, parse_guard,
}

abbrev pub kind_word : GuardKind → Bytes
kind_word begin = codes "%begin"
kind_word end = codes "%end"
kind_word error = codes "%error"

-- A guard line: the word and three decimal numbers.
abbrev pub print_guard : GuardKind → Guard → Bytes
print_guard kind g =
    kind_word kind
    ++ b' ' ∷ (decimal g.timestamp ++ b' ' ∷ (decimal g.number ++ b' ' ∷ decimal g.flags))

-- Numbers that fit the fields: two of `int64` and one of `uint64`.
pub record IsGuard (g : Guard) : Type 0 where
  pub timestamp_fits : g.timestamp < 2 ^ 63
  pub number_fits : g.number < 2 ^ 64
  pub flags_fits : g.flags < 2 ^ 63

digits-Lacks : (s : Bytes) → IsDigits s → Lacks b' ' s
digits-Lacks [] h = tt
digits-Lacks (c ∷ s) (h, hs) = (ground arith, digits-Lacks s hs)

decimal-Lacks : (n : ℕ) → Lacks b' ' (decimal n)
decimal-Lacks n = digits-Lacks (decimal n) (decimal-IsDigits n)

guard_kind-word :
    (kind : GuardKind) (rest : Bytes) → guard_kind (kind_word kind ++ b' ' ∷ rest) ≡ some kind
unfolding guard_kind has_prefix
guard_kind-word begin rest = refl
guard_kind-word end rest = refl
guard_kind-word error rest = refl

kind_word-Lacks : (kind : GuardKind) → Lacks b' ' (kind_word kind)
kind_word-Lacks begin = omega arith
kind_word-Lacks end = omega arith
kind_word-Lacks error = omega arith

split-print_guard :
    (kind : GuardKind) (g : Guard)
    → split (print_guard kind g) b' '
      ≡ kind_word kind ∷ decimal g.timestamp ∷ decimal g.number ∷ decimal g.flags ∷ []
split-print_guard kind g =
    split-append (kind_word kind) _ b' ' (kind_word-Lacks kind)
    ∙ ap (◌∷◌ (kind_word kind)) (
        split-append (decimal g.timestamp) _ b' ' (decimal-Lacks g.timestamp)
        ∙ ap (◌∷◌ (decimal g.timestamp)) (
            split-append (decimal g.number) _ b' ' (decimal-Lacks g.number)
            ∙ ap (◌∷◌ (decimal g.number))
                (split-Lacks (decimal g.flags) b' ' (decimal-Lacks g.flags))))

-- A guard line of any of the three kinds is read back to its kind and its three numbers, where the
-- timestamp and the flags are below 2^63 and the command number is below 2^64.
pub parse_guard-print :
    (kind : GuardKind) (g : Guard) → IsGuard g → parse_guard (print_guard kind g) ≡ guard kind g
unfolding parse_guard guard_fields
parse_guard-print kind g h =
    rw (guard_kind-word kind _, parse_guard)
      (rw (split-print_guard kind g) (
        rw (parse_int-decimal 64 g.timestamp h.timestamp_fits (omega arith), guard_fields)
          (rw (parse_uint-decimal 64 g.number h.number_fits, guard_fields)
            (rw (parse_int-decimal 64 g.flags h.flags_fits (omega arith), guard_fields) refl))))
