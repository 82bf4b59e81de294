-- ===== src/Text/Decimal.antt =====
-- Decimal numerals: how a number is written, and that `ParseUint` and `ParseInt` read it back.
use native.Mathlib.Numerals.{add-one}
use libtmux_go.Base.{
  ℕ, zero, suc, ◌+◌, ◌-◌, ◌/◌, ◌%◌, ◌^◌, ◌<◌, ◌≤◌, ◌≡◌, ◌≢◌, refl, ◌∙◌, true, some, [], ◌∷◌, Bytes,
  ◌==◌, if◌then◌else◌, All, arith,
}
use libtmux_go.Base.Int.{pos}
use libtmux_go.Text.{is_digit, scan_uint, parse_uint, parse_int}

-- The digits of a number in front of `out`, on fuel above the number.
digits : ℕ → ℕ → Bytes → Bytes
digits zero n out = out
digits (suc f) n out =
    let rest = digits f (n / 10) ((b'0' + n % 10) ∷ out) in if n == 0 then out else rest

unfoldable pub decimal : ℕ → Bytes
unfolding digits
decimal n = if n == 0 then b'0' ∷ [] else digits (n + 1) n []

scan_uint-digits :
    (top f n : ℕ) (out : Bytes)
    → n < f
    → n ≤ top
    → scan_uint top 0 (digits f n out) ≡ scan_uint top n out
unfolding digits scan_uint
scan_uint-digits top zero n out h le = elim h [ ]
scan_uint-digits top (suc f) n out h le =
    ground (arith, scan_uint-digits top f (n / 10) ((b'0' + n % 10) ∷ out))

-- Every byte of the numeral is a digit, and there is one.
abbrev pub IsDigits : Bytes → Type 0
IsDigits = All (λ c. is_digit c ≡ true)

digits-IsDigits : (f n : ℕ) (out : Bytes) → IsDigits out → IsDigits (digits f n out)
unfolding digits
digits-IsDigits zero n out h = h
digits-IsDigits (suc f) n out h = ground (arith, digits-IsDigits f (n / 10) ((b'0' + n % 10) ∷ out))

pub decimal-IsDigits : (n : ℕ) → IsDigits (decimal n)
unfolding decimal
decimal-IsDigits n = ground (arith, digits-IsDigits (n + 1) n [])

digits-ne-nil : (f n : ℕ) (out : Bytes) → out ≢ [] → digits f n out ≢ []
unfolding digits
digits-ne-nil zero n out h = h
digits-ne-nil (suc f) n out h = ground (arith, digits-ne-nil f (n / 10) ((b'0' + n % 10) ∷ out))

pub decimal-ne-nil : (n : ℕ) → decimal n ≢ []
unfolding decimal digits
decimal-ne-nil n = rw add-one (ground (arith, digits-ne-nil n (n / 10) ((b'0' + n % 10) ∷ [])))

parse_uint-scan : (bits : ℕ) (s : Bytes) → s ≢ [] → parse_uint bits s ≡ scan_uint (2 ^ bits - 1) 0 s
unfolding parse_uint
parse_uint-scan bits [] h = absurd (h refl)
parse_uint-scan bits (c ∷ s) h = refl

pub parse_uint-decimal : (bits n : ℕ) → n < 2 ^ bits → parse_uint bits (decimal n) ≡ some n
parse_uint-decimal bits n h =
    parse_uint-scan bits (decimal n) (decimal-ne-nil n)
    ∙ (unfold decimal scan_uint in ground (arith, scan_uint-digits (2 ^ bits - 1) (n + 1) n []))

-- A numeral has no sign.
parse_int_digits :
    (bits : ℕ) (s : Bytes) {n : ℕ}
    → IsDigits s
    → s ≢ []
    → parse_uint bits s ≡ some n
    → n < 2 ^ (bits - 1)
    → parse_int bits s ≡ some (pos n)
unfolding parse_int
parse_int_digits bits [] d h e lt = absurd (h refl)
parse_int_digits bits (c ∷ s) d h e lt = ground arith

pub parse_int-decimal :
    (bits n : ℕ) → n < 2 ^ (bits - 1) → n < 2 ^ bits → parse_int bits (decimal n) ≡ some (pos n)
parse_int-decimal bits n lt lt' =
    parse_int_digits bits (decimal n) (decimal-IsDigits n) (decimal-ne-nil n)
      (parse_uint-decimal bits n lt') lt
