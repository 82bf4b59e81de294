-- ===== src/Text.antt =====
-- What the program uses of Go's strings, bytes and strconv packages, over byte lists. The program's
-- `int` is 64 bits wide here.
pub mod Decimal
pub mod Splits
use libtmux_go.Base.{
  ℕ, zero, suc, ◌+◌, ◌-◌, ◌*◌, ◌/◌, ◌%◌, ◌^◌, Bool, true, false, ◌&&◌, ◌||◌, Option, none, some,
  ◌>>=◌, List, [], ◌∷◌, Bytes, bytes_eq, ltb, leb, ◌==◌, if◌then◌else◌,
}
use mathlib.Core.List.{reverse}
use libtmux_go.Base.Int.{ℤ, pos, negsuc}

-- `strings.HasPrefix`.
unfoldable pub has_prefix : Bytes → Bytes → Bool
has_prefix s [] = true
has_prefix [] (p ∷ ps) = false
has_prefix (c ∷ s) (p ∷ ps) = c == p && has_prefix s ps

-- `strings.IndexByte`; `none` is -1.
unfoldable pub index_byte : Bytes → ℕ → Option ℕ
index_byte [] b = none
index_byte (c ∷ s) b = if c == b then some 0 else (do i ← index_byte s b; some (suc i))

-- `strings.Cut` at one byte; `none` if the byte is not there.
unfoldable pub cut : Bytes → ℕ → Option (Bytes × Bytes)
cut [] b = none
cut (c ∷ s) b = if c == b then some ([], s) else (do r ← cut s b; some (c ∷ r.0, r.1))

abbrev pub onto_first : ℕ → List Bytes → List Bytes
onto_first c [] = (c ∷ []) ∷ []
onto_first c (p ∷ ps) = (c ∷ p) ∷ ps

-- `strings.Split` at one byte: always at least one part.
unfoldable pub split : Bytes → ℕ → List Bytes
split [] sep = [] ∷ []
split (c ∷ s) sep = if c == sep then [] ∷ split s sep else onto_first c (split s sep)

abbrev pub is_digit : ℕ → Bool
is_digit c = leb b'0' c && leb c b'9'

-- The digits loop of `strconv.ParseUint`, base 10, with the largest value that fits.
unfoldable pub scan_uint : ℕ → ℕ → Bytes → Option ℕ
scan_uint top n [] = some n
scan_uint top n (c ∷ s) =
    let m = n * 10 + (c - b'0') in
    if is_digit c then (if ltb top m then none else scan_uint top m s) else none

unfoldable pub parse_uint : ℕ → Bytes → Option ℕ
unfolding scan_uint
parse_uint bits [] = none
parse_uint bits (c ∷ s) = scan_uint (2 ^ bits - 1) 0 (c ∷ s)

abbrev pub negate : ℕ → ℤ
negate zero = pos zero
negate (suc n) = negsuc n

-- `strconv.ParseInt`, base 10: a sign, and a magnitude below 2^(bits - 1), or equal to it behind `-`.
unfoldable pub parse_int : ℕ → Bytes → Option ℤ
unfolding parse_uint
parse_int bits [] = none
parse_int bits (c ∷ s) =
    if c == b'-'
    then (do n ← parse_uint bits s; if ltb (2 ^ (bits - 1)) n then none else some (negate n))
    else (do
      n ← parse_uint bits (if c == b'+' then s else c ∷ s)
      if leb (2 ^ (bits - 1)) n then none else some (pos n))

-- `strings.HasSuffix`.
unfoldable pub has_suffix : Bytes → Bytes → Bool
has_suffix [] suffix = bytes_eq [] suffix
has_suffix (c ∷ s) suffix = bytes_eq (c ∷ s) suffix || has_suffix s suffix

-- `strings.Contains`.
unfoldable pub contains : Bytes → Bytes → Bool
contains [] part = bytes_eq [] part
contains (c ∷ s) part = has_prefix (c ∷ s) part || contains s part

-- `strings.ContainsRune` at one byte.
unfoldable pub has_byte : ℕ → Bytes → Bool
has_byte b [] = false
has_byte b (c ∷ s) = c == b || has_byte b s

-- The space characters of ASCII.
abbrev pub is_ascii_space : ℕ → Bool
is_ascii_space c = c == 32 || leb 9 c && leb c 13

-- The second bytes of U+0085 and U+00A0, and the last two bytes of the space characters of three.
abbrev is_latin_space : ℕ → Bool
is_latin_space c = c == 0x85 || c == 0xA0

abbrev is_wide_space : ℕ → ℕ → ℕ → Bool
is_wide_space a b c =
    a == 0xE1 && b == 0x9A && c == 0x80
    || a == 0xE2 && b == 0x80 && (leb 0x80 c && leb c 0x8A || c == 0xA8 || c == 0xA9 || c == 0xAF)
    || a == 0xE2 && b == 0x81 && c == 0x9F
    || a == 0xE3 && b == 0x80 && c == 0x80

-- `strings.TrimLeft` of white space.
unfoldable pub trim_left : Bytes → Bytes
trim_left [] = []
trim_left (a ∷ b ∷ c ∷ s) =
    let one = trim_left (b ∷ c ∷ s) in
    let two = trim_left (c ∷ s) in
    let three = trim_left s in
    if is_ascii_space a
    then one
    else if a == 0xC2 && is_latin_space b
    then two
    else if is_wide_space a b c
    then three
    else a ∷ b ∷ c ∷ s
trim_left (a ∷ b ∷ []) =
    let one = trim_left (b ∷ []) in
    if is_ascii_space a then one else if a == 0xC2 && is_latin_space b then [] else a ∷ b ∷ []
trim_left (a ∷ []) = if is_ascii_space a then [] else a ∷ []

-- The same over reversed text: `strings.TrimRight`.
unfoldable pub trim_back : Bytes → Bytes
trim_back [] = []
trim_back (c ∷ b ∷ a ∷ s) =
    let one = trim_back (b ∷ a ∷ s) in
    let two = trim_back (a ∷ s) in
    let three = trim_back s in
    if is_ascii_space c
    then one
    else if b == 0xC2 && is_latin_space c
    then two
    else if is_wide_space a b c
    then three
    else c ∷ b ∷ a ∷ s
trim_back (c ∷ b ∷ []) =
    let one = trim_back (b ∷ []) in
    if is_ascii_space c then one else if b == 0xC2 && is_latin_space c then [] else c ∷ b ∷ []
trim_back (c ∷ []) = if is_ascii_space c then [] else c ∷ []

-- `strings.TrimSpace`.
unfoldable pub trim_space : Bytes → Bytes
trim_space s = reverse (trim_back (reverse (trim_left s)))
