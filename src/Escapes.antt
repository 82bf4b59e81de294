-- ===== src/Escapes.antt =====
-- tmux/option_decode.go: `decodeArgsEscapedBytes`, a value as tmux quotes and escapes it, and
-- `parseDecodedOptionKey`.
pub mod RoundTrip
pub mod Tests
use mathlib.Core.Bool.{not}
use libtmux_go.Base.{
  ℕ, zero, suc, ◌+◌, ◌-◌, ◌*◌, Bool, true, false, ◌&&◌, ◌||◌, Option, none, some, String, List, [],
  ◌∷◌, ◌++◌, Bytes, bytes_eq, ltb, leb, ◌==◌, if◌then◌else◌,
}
use libtmux_go.Base.Int.{pos, negsuc}
use libtmux_go.Base.Result.{Result, ok, err}
use libtmux_go.Text.{parse_int}

-- `optionValueDecodeError`, less its kind, which is the same for all.
pub record ValueError : Type 0 where
  pub offset : ℕ
  pub reason : String

abbrev pub refuse : {A : Type 0} → ℕ → String → Result ValueError A
refuse offset reason = err (record { offset = offset; reason = reason })

-- `isOctalDigit`.
abbrev pub is_octal_digit : ℕ → Bool
is_octal_digit c = leb b'0' c && leb c b'7'

-- `decodeArgsCStyleEscape`.
unfoldable pub c_style : ℕ → ℕ
c_style c =
    if c == b'a'
    then 7
    else if c == b'b'
    then 8
    else if c == b'f'
    then 12
    else if c == b'n'
    then 10
    else if c == b'r'
    then 13
    else if c == b's'
    then 32
    else if c == b't'
    then 9
    else if c == b'v'
    then 11
    else if c == b'E'
    then 27
    else c

-- An unescaped quote: either where there is no outer quote, and the outer one where there is.
abbrev pub is_stray : Option ℕ → ℕ → Bool
is_stray none c = c == b'\'' || c == b'"'
is_stray (some quote) c = (c == b'\'' || c == b'"') && c == quote

abbrev pub onto : ℕ → Result ValueError Bytes → Result ValueError Bytes
onto c (ok s) = ok (c ∷ s)
onto c (err e) = err e

-- The octal escape that begins at `offset`, from its first digit on; the argument is what the rest
-- behind it decodes to.
unfoldable pub octal_value : ℕ → ℕ → ℕ → ℕ → Result ValueError Bytes → Result ValueError Bytes
octal_value offset a b d rest =
    let value = (a - b'0') * 64 + (b - b'0') * 8 + (d - b'0') in
    if not (is_octal_digit b) || not (is_octal_digit d)
    then refuse offset "octal escape must contain exactly three digits"
    else if ltb 255 value
    then refuse offset "octal escape exceeds one byte"
    else onto value rest

-- The loop over the body; `offset` is the place in the serialized value.
unfoldable pub decode_body : Option ℕ → ℕ → Bytes → Result ValueError Bytes
decode_body quote offset [] = ok []
decode_body quote offset (c ∷ a ∷ b ∷ d ∷ s) =
    let plain = decode_body quote (offset + 1) (a ∷ b ∷ d ∷ s) in
    let styled = decode_body quote (offset + 2) (b ∷ d ∷ s) in
    let octal = decode_body quote (offset + 4) s in
    if is_stray quote c
    then refuse offset "unexpected unescaped quote"
    else if not (c == b'\\')
    then onto c plain
    else if is_octal_digit a
    then octal_value offset a b d octal
    else onto (c_style a) styled
decode_body quote offset (c ∷ a ∷ s) =
    let plain = decode_body quote (offset + 1) (a ∷ s) in
    let styled = decode_body quote (offset + 2) s in
    if is_stray quote c
    then refuse offset "unexpected unescaped quote"
    else if not (c == b'\\')
    then onto c plain
    else if is_octal_digit a
    then refuse offset "octal escape must contain exactly three digits"
    else onto (c_style a) styled
decode_body quote offset (c ∷ []) =
    if is_stray quote c
    then refuse offset "unexpected unescaped quote"
    else if not (c == b'\\')
    then ok (c ∷ [])
    else refuse offset "dangling escape"

-- The bytes without the last, and whether that is the closing quote.
unfoldable pub without_quote : ℕ → Bytes → Option Bytes
without_quote quote [] = none
without_quote quote (c ∷ []) = if c == quote then some [] else none
without_quote quote (c ∷ x ∷ s) = elim (without_quote quote (x ∷ s)) [
  | none ↦ none
  | some body ↦ some (c ∷ body)
]

-- `decodeArgsEscapedBytes`.
unfoldable pub decode_escaped : Bytes → Result ValueError Bytes
decode_escaped [] = refuse 0 "missing serialized value"
decode_escaped (c ∷ s) =
    if c == b'\'' || c == b'"'
    then elim (without_quote c s) [
      | none ↦ refuse 0 "unmatched outer quote"
      | some body ↦ decode_body (some c) 1 body
    ]
    else decode_body none 0 (c ∷ s)

-- `decodedOptionKey`.
pub record DecodedKey : Type 0 where
  pub base : Bytes
  pub index : ℕ
  pub indexed : Bool
  pub inherited : Bool
  pub valid : Bool

-- `strings.LastIndexByte`, as what stands before it and behind it.
unfoldable pub cut_last : ℕ → Bytes → Option (Bytes × Bytes)
cut_last b [] = none
cut_last b (c ∷ s) = elim (cut_last b s) [
  | some (before, after) ↦ some (c ∷ before, after)
  | none ↦ if c == b then some ([], s) else none
]

abbrev contains_any : (ℕ → Bool) → Bytes → Bool
contains_any test [] = false
contains_any test (c ∷ s) = test c || contains_any test s

-- `strconv.Atoi` of an index that is not below zero.
abbrev pub index_of : Bytes → Option ℕ
index_of s = elim (parse_int 64 s) [ none ↦ none | some (pos n) ↦ some n | some (negsuc n) ↦ none ]

abbrev pub plain_key : Bool → Bytes → Bool → DecodedKey
plain_key inherited base valid = record {
  base = base;
  index = 0;
  indexed = false;
  inherited = inherited;
  valid = valid;
}

-- The key, less a final asterisk.
unfoldable pub key_of : Bool → Bytes → DecodedKey
key_of inherited raw = elim (cut_last b'[' raw) [
  | none ↦
      plain_key inherited raw
        (not (bytes_eq raw [] || contains_any (λ c. c == b']' || c == b'*') raw))
  | some (base, after) ↦
      (if bytes_eq base [] || contains_any (λ c. c == b'[' || c == b']' || c == b'*') base
        then plain_key inherited base false
        else elim (without_quote b']' after) [
          | none ↦ plain_key inherited base false
          | some text ↦ elim (index_of text) [
            | none ↦ plain_key inherited base false
            | some n ↦ record {
              base = base;
              index = n;
              indexed = true;
              inherited = inherited;
              valid = true;
            }
          ]
        ])
]

-- `parseDecodedOptionKey`.
unfoldable pub parse_key : Bytes → DecodedKey
parse_key raw = elim (without_quote b'*' raw) [
  | none ↦ key_of false raw
  | some rest ↦ key_of true rest
]
