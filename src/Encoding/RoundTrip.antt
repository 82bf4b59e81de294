-- ===== src/Encoding/RoundTrip.antt =====
-- What the encoder writes is read back as the same arguments.

use mathlib.Core.List.{cons-ne-nil}
use libtmux_go.Base.{
  ℕ, ◌<◌, ◌≡◌, ◌≢◌, refl, ap, ◌∙◌, sym, Bool, true, false, ◌&&◌, ◌||◌, some, inl, inr, List, [],
  ◌∷◌, ◌++◌, map, Bytes, All, bytes_eq, ==_iff, ◌==◌, if◌then◌else◌, Bool-cases, arith,
  append_assoc, append-nil,
}
use libtmux_go.Base.Result.{ok, >>=-ok}
use libtmux_go.Encoding.Reader.{Token, word, separator, bare, single, flush, read, read_line}
use libtmux_go.Encoding.{
  is_quotable, octal, special, quote_bytes, has_nul, encode_argument, encode_rest, encode_command,
}

abbrev pub IsByte : ℕ → Type 0
IsByte c = c < 256

read-octal :
    (begun : Bool) (cur : Bytes) (c : ℕ) (rest : Bytes)
    → IsByte c
    → read bare begun cur (octal c ++ rest) ≡ read bare true (cur ++ c ∷ []) rest
unfolding read
read-octal begun cur c rest h = ap (λ v. read bare true (cur ++ v ∷ []) rest) (omega arith)

read-special :
    (begun : Bool) (cur : Bytes) (c : ℕ) (rest : Bytes)
    → IsByte c
    → read bare begun cur (special c ++ rest) ≡ read bare true (cur ++ c ∷ []) rest
read-special begun cur c rest h = elim (Bool-cases (c == b'\'')) [
  | inl apostrophe ↦
      let e : c ≡ b'\'' = (==_iff c b'\'').0 apostrophe in
      rw apostrophe (unfold read in ap (λ v. read bare true (cur ++ v ∷ []) rest) (sym e))
  | inr other ↦ rw other (read-octal begun cur c rest h)
]

abbrev nonempty : Bytes → Bool
nonempty [] = false
nonempty (c ∷ s) = true

-- A quotable byte is kept inside quotes.
read_single_byte :
    (cur : Bytes) (c : ℕ) (rest : Bytes)
    → is_quotable c ≡ true
    → read single true cur (c ∷ rest) ≡ read single true (cur ++ c ∷ []) rest
unfolding read
read_single_byte cur c rest h = ground arith

read_open :
    (begun : Bool) (cur rest : Bytes)
    → read bare begun cur (b'\'' ∷ rest) ≡ read single true cur rest
unfolding read
read_open begun cur rest = refl

read_close : (cur rest : Bytes) → read single true cur (b'\'' ∷ rest) ≡ read bare true cur rest
unfolding read
read_close cur rest = refl

-- What is left of an argument's quoting reads as what is left of the argument, outside quotes
-- and inside.
abbrev Outside : Bytes → Type 0
Outside s =
    (begun : Bool) (cur rest : Bytes)
    → read bare begun cur (quote_bytes false s ++ rest)
      ≡ read bare (begun || nonempty s) (cur ++ s) rest

abbrev Inside : Bytes → Type 0
Inside s =
    (cur rest : Bytes)
    → read single true cur (quote_bytes true s ++ rest) ≡ read bare true (cur ++ s) rest

or_false : (begun : Bool) → (begun || false) ≡ begun
or_false true = refl
or_false false = refl

begun_or : (begun : Bool) → (begun || true) ≡ true
begun_or true = refl
begun_or false = refl

module _ (c : ℕ) (s : Bytes) (small : IsByte c) (out : Outside s) (ins : Inside s) where
  Outside-cons : Outside (c ∷ s)
  unfolding quote_bytes
  Outside-cons begun cur rest = elim (Bool-cases (is_quotable c)) [
    | inl plain ↦ rw plain (
        read_open begun cur _
        ∙ read_single_byte cur c (quote_bytes true s ++ rest) plain
        ∙ ins (cur ++ c ∷ []) rest
        ∙ rw (begun_or begun, append_assoc cur (c ∷ []) s) refl)
    | inr special_byte ↦ rw special_byte (
        ap (read bare begun cur) (append_assoc (special c) (quote_bytes false s) rest)
        ∙ read-special begun cur c (quote_bytes false s ++ rest) small
        ∙ out true (cur ++ c ∷ []) rest
        ∙ rw (begun_or begun, append_assoc cur (c ∷ []) s) refl)
  ]

  Inside-cons : Inside (c ∷ s)
  unfolding quote_bytes
  Inside-cons cur rest = elim (Bool-cases (is_quotable c)) [
    | inl plain ↦ rw plain (
        read_single_byte cur c (quote_bytes true s ++ rest) plain
        ∙ ins (cur ++ c ∷ []) rest
        ∙ rw (append_assoc cur (c ∷ []) s) refl)
    | inr special_byte ↦ rw special_byte (
        read_close cur _
        ∙ ap (read bare true cur) (append_assoc (special c) (quote_bytes false s) rest)
        ∙ read-special true cur c (quote_bytes false s ++ rest) small
        ∙ out true (cur ++ c ∷ []) rest
        ∙ rw (append_assoc cur (c ∷ []) s) refl)
  ]

read-quote_bytes : (s : Bytes) → All IsByte s → Outside s × Inside s
read-quote_bytes [] h = (
  (λ begun cur rest. unfold quote_bytes in rw (append-nil, or_false begun) refl),
  (λ cur rest. unfold quote_bytes in rw append-nil (read_close cur rest)),
)
read-quote_bytes (c ∷ s) (small, more) =
    let (out, ins) = read-quote_bytes s more in
    (Outside-cons c s small out ins, Inside-cons c s small out ins)

-- What an argument is to the reader: itself, or a separator if it is a bare semicolon of a list.
abbrev pub token : Bool → Bytes → Token
token command_list a = if command_list && bytes_eq a (b';' ∷ []) then separator else word a

-- Whatever word is open when `s` begins ends there, and `ts` follow.
abbrev Ends : Bytes → List Token → Type 0
Ends s ts = (begun : Bool) (cur : Bytes) → read bare begun cur s ≡ some (flush begun cur ts)

Ends-nil : Ends [] []
unfolding read
Ends-nil begun cur = refl

Ends-space :
    (s : Bytes) {t : Token} {ts : List Token}
    → read bare false [] s ≡ some (t ∷ ts)
    → Ends (b' ' ∷ s) (t ∷ ts)
unfolding read
Ends-space s e begun cur = rw e refl

read-separator :
    (rest : Bytes) {ts : List Token}
    → Ends rest ts
    → read bare false [] (b';' ∷ rest) ≡ some (separator ∷ ts)
unfolding read
read-separator rest h = rw (h false []) refl

read-empty : (rest : Bytes) → read bare false [] (b'\'' ∷ b'\'' ∷ rest) ≡ read bare true [] rest
unfolding read
read-empty rest = refl

read-encode_argument :
    (command_list : Bool) (a rest : Bytes) {ts : List Token}
    → All IsByte a
    → Ends rest ts
    → read bare false [] (encode_argument command_list a ++ rest) ≡ some (token command_list a ∷ ts)
unfolding encode_argument
read-encode_argument command_list a rest {ts} small h =
    elim (Bool-cases (command_list && bytes_eq a (b';' ∷ []))) [
      | inl separates ↦ rw separates (read-separator rest h)
      | inr plain ↦ rw plain (read_word a small)
    ]
  where
    read_word :
        (a : Bytes)
        → All IsByte a
        → read bare false []
            ((if bytes_eq a [] then b'\'' ∷ b'\'' ∷ [] else quote_bytes false a) ++ rest)
          ≡ some (word a ∷ ts)
    read_word [] small = read-empty rest ∙ h true []
    read_word (c ∷ a) small = (read-quote_bytes (c ∷ a) small).0 false [] rest ∙ h true (c ∷ a)

encode_rest_cons :
    (command_list : Bool) (a : Bytes) (arguments : List Bytes) (s : Bytes)
    → has_nul a ≡ false
    → encode_rest command_list arguments ≡ ok s
    → encode_rest command_list (a ∷ arguments) ≡ ok (b' ' ∷ (encode_argument command_list a ++ s))
unfolding encode_rest
encode_rest_cons command_list a arguments s clean e = rw (clean, e) refl

encode_command_cons :
    (command_list : Bool) (c : ℕ) (a : Bytes) (arguments : List Bytes) (s : Bytes)
    → has_nul (c ∷ a) ≡ false
    → encode_rest command_list arguments ≡ ok s
    → encode_command ((c ∷ a) ∷ arguments) command_list
      ≡ ok (encode_argument command_list (c ∷ a) ++ s)
unfolding encode_command
encode_command_cons command_list c a arguments s clean e = rw (clean, e) refl

-- The arguments behind the first.
encode_rest-Ends :
    (command_list : Bool) (arguments : List Bytes)
    → All (All IsByte) arguments
    → All (λ a. has_nul a ≡ false) arguments
    → (s : Bytes) × (encode_rest command_list arguments ≡ ok s)
      × Ends s (map (token command_list) arguments)
encode_rest-Ends command_list [] small clean = ([], (unfold encode_rest in refl), Ends-nil)
encode_rest-Ends command_list (a ∷ arguments) (small, smalls) (clean, cleans) =
    let (s, e, h) = encode_rest-Ends command_list arguments smalls cleans in
    (
      b' ' ∷ (encode_argument command_list a ++ s),
      encode_rest_cons command_list a arguments s clean e,
      Ends-space (encode_argument command_list a ++ s)
          (read-encode_argument command_list a s small h),
    )

-- A command whose name is not empty and whose arguments are bytes without NUL is encoded, and an
-- independent reader of the quoting takes the line apart into the same arguments, one token for
-- each: the separator for a bare semicolon of a command list, and a word of exactly the argument's
-- bytes for every other.
pub encode_command-read :
    (command_list : Bool) (a : Bytes) (arguments : List Bytes)
    → a ≢ []
    → All (All IsByte) (a ∷ arguments)
    → All (λ x. has_nul x ≡ false) (a ∷ arguments)
    → (s : Bytes) × (encode_command (a ∷ arguments) command_list ≡ ok s)
      × (read_line s ≡ some (map (token command_list) (a ∷ arguments)))
encode_command-read command_list [] arguments ne small clean = absurd (ne refl)
encode_command-read command_list (c ∷ a) arguments ne (small, smalls) (clean, cleans) =
    let (s, e, h) = encode_rest-Ends command_list arguments smalls cleans in
    (
      encode_argument command_list (c ∷ a) ++ s,
      encode_command_cons command_list c a arguments s clean e,
      (unfold read_line in read-encode_argument command_list (c ∷ a) s small h),
    )

encode_rest-clean :
    (command_list : Bool) (arguments : List Bytes) {s : Bytes}
    → encode_rest command_list arguments ≡ ok s
    → All (λ x. has_nul x ≡ false) arguments
unfolding encode_rest
encode_rest-clean command_list [] h = tt
encode_rest-clean command_list (a ∷ arguments) {s} h = elim (Bool-cases (has_nul a)) [
  | inl nul ↦ absurd (let clash : ⊥ = ground (arith, h) in clash)
  | inr clean ↦
      let (more, e, _) =
        >>=-ok (λ m. ok (b' ' ∷ (encode_argument command_list a ++ m)))
          (encode_rest command_list arguments) (rw clean at h) in
      (clean, encode_rest-clean command_list arguments e)
]

-- A vector of a name and arguments that is encoded has a name that is not empty, and no NUL in any
-- of them.
pub encode_command-clean :
    (command_list : Bool) (a : Bytes) (arguments : List Bytes) {s : Bytes}
    → encode_command (a ∷ arguments) command_list ≡ ok s
    → (a ≢ []) × All (λ x. has_nul x ≡ false) (a ∷ arguments)
unfolding encode_command
encode_command-clean command_list [] arguments h = cc
encode_command-clean command_list (c ∷ a) arguments {s} h = elim (Bool-cases (has_nul (c ∷ a))) [
  | inl nul ↦ absurd (let clash : ⊥ = ground (arith, h) in clash)
  | inr clean ↦
      let (more, e, _) =
        >>=-ok (λ m. ok (encode_argument command_list (c ∷ a) ++ m))
          (encode_rest command_list arguments) (rw clean at h) in
      (cons-ne-nil c a, (clean, encode_rest-clean command_list arguments e))
]
