-- ===== src/Notification/RoundTrip.antt =====
-- A notification that is written by the grammar of its kind is parsed to what was written.
use libtmux_go.Base.{
  ℕ, suc, ◌+◌, ◌≡◌, ◌≢◌, refl, subst, ◌∙◌, Bool, true, false, Option, none, some, List, [], ◌∷◌,
  ◌++◌, Bytes, length, All, bytes_eq, bytes_eq_iff, ◌==◌, ◌&&◌, not, arith, append-nil, Bool-cases,
  inl, inr,
}
use libtmux_go.Base.Result.{ok}
use libtmux_go.Text.Splits.{Lacks}
use libtmux_go.Notification.Table.{
  Tail, no_tail, required, optional, colon, Definition, definitions,
}
use libtmux_go.Notification.Arguments.{
  spaced, IsWord, IsBoundary, span_byte-word, spaced-IsBoundary, prefix_arguments-spaced,
}
use libtmux_go.Notification.ColonTail.{IsExtra, colon_tail, append_colon_tail-spaced}
use libtmux_go.Notification.Output.{escape, IsByte, decode_output-escape}
use libtmux_go.Notification.{
  tail_arguments, append_tail, parse_arguments, kind_fault, kind_fault_from, find_definition,
  framing_byte, finish_notification, parse_kind, parse_notification, carries_output, last_or,
}

-- What is written behind the prefix arguments.
abbrev pub print_tail : Tail → List Bytes → Option Bytes → Bytes
print_tail colon extra (some t) = spaced extra ++ colon_tail t
print_tail colon extra none = spaced extra
print_tail _ extra none = []
print_tail _ extra (some t) = b' ' ∷ t

abbrev pub tail_list : Option Bytes → List Bytes
tail_list none = []
tail_list (some t) = t ∷ []

-- A tail that may stand there: empty only where the kind allows it.
abbrev pub IsTail : Bool → Bytes → Type 0
IsTail allow t = (length t == 0 && not allow) ≡ false

-- The extra arguments and the tail that a form of tail admits.
abbrev pub IsShaped : Tail → Bool → List Bytes → Option Bytes → Type 0
IsShaped no_tail allow [] none = Unit
IsShaped required allow [] (some t) = IsTail allow t
IsShaped optional allow [] none = Unit
IsShaped optional allow [] (some t) = IsTail allow t
IsShaped colon allow extra (some t) = All IsExtra extra × IsTail allow t
IsShaped _ _ _ _ = ⊥

tail_arguments-print :
    (form : Tail) (allow : Bool) (position : ℕ) (args extra : List Bytes) (t : Option Bytes)
    → IsShaped form allow extra t
    → tail_arguments form allow position (print_tail form extra t) args
      ≡ ok ((args ++ extra) ++ tail_list t)
unfolding tail_arguments append_tail
tail_arguments-print no_tail allow position args [] none h = simp append-nil
tail_arguments-print no_tail allow position args [] (some t) h = absurd h
tail_arguments-print no_tail allow position args (x ∷ extra) t h = absurd h
tail_arguments-print required allow position args [] (some t) h = simp append-nil (rw h refl)
tail_arguments-print required allow position args [] none h = absurd h
tail_arguments-print required allow position args (x ∷ extra) t h = absurd h
tail_arguments-print optional allow position args [] none h = simp append-nil
tail_arguments-print optional allow position args [] (some t) h = simp append-nil (rw h refl)
tail_arguments-print optional allow position args (x ∷ extra) t h = absurd h
tail_arguments-print colon allow position args extra (some t) h =
    append_colon_tail-spaced position args extra t allow h.0 h.1
tail_arguments-print colon allow position args extra none h = absurd h

print_tail-IsBoundary :
    (form : Tail) (allow : Bool) (extra : List Bytes) (t : Option Bytes)
    → IsShaped form allow extra t
    → IsBoundary (print_tail form extra t)
print_tail-IsBoundary no_tail allow extra none h = tt
print_tail-IsBoundary no_tail allow extra (some t) h = refl
print_tail-IsBoundary required allow extra none h = tt
print_tail-IsBoundary required allow extra (some t) h = refl
print_tail-IsBoundary optional allow extra none h = tt
print_tail-IsBoundary optional allow extra (some t) h = refl
print_tail-IsBoundary colon allow [] none h = tt
print_tail-IsBoundary colon allow [] (some t) h = refl
print_tail-IsBoundary colon allow (x ∷ extra) none h = refl
print_tail-IsBoundary colon allow (x ∷ extra) (some t) h = refl

-- A valid kind is `%`, and bytes that are no spaces.
kind_fault_from-Lacks :
    (offset : ℕ) (hyphen : Bool) (s : Bytes) → kind_fault_from offset hyphen s ≡ none → Lacks b' ' s
unfolding kind_fault_from
kind_fault_from-Lacks offset hyphen [] h = tt
kind_fault_from-Lacks offset hyphen (c ∷ s) h =
    ground
      (arith, kind_fault_from-Lacks (offset + 1) true s, kind_fault_from-Lacks (offset + 1) false s)

pub kind_fault-Lacks : (kind : Bytes) → kind_fault kind ≡ none → Lacks b' ' kind
unfolding kind_fault
kind_fault-Lacks [] h = tt
kind_fault-Lacks (p ∷ []) h = cc
kind_fault-Lacks (p ∷ c ∷ kind) h = ground (arith, kind_fault_from-Lacks 2 false kind)

-- Every kind of the table is well formed.
definitions-valid : All (λ d. kind_fault d.kind ≡ none) definitions
unfolding definitions kind_fault
definitions-valid = ground arith

find_definition-valid :
    (kind : Bytes) (ds : List Definition) {d : Definition}
    → All (λ d. kind_fault d.kind ≡ none) ds
    → find_definition kind ds ≡ some d
    → kind_fault kind ≡ none
unfolding find_definition
find_definition-valid kind [] h e = cc
find_definition-valid kind (x ∷ ds) {d} (v, h) e = elim (Bool-cases (bytes_eq x.kind kind)) [
  | inl same ↦ subst (λ k. kind_fault k ≡ none) ((bytes_eq_iff x.kind kind).0 same) v
  | inr other ↦ find_definition-valid kind ds {d = d} h (rw other at e)
]

parse_arguments-print :
    (d : Definition) (position : ℕ) (args extra : List Bytes) (t : Option Bytes)
    → length args ≡ d.prefix_count
    → All IsWord args
    → IsShaped d.tail d.allow_empty_tail extra t
    → parse_arguments d position (spaced args ++ print_tail d.tail extra t)
      ≡ ok ((args ++ extra) ++ tail_list t)
unfolding parse_arguments
parse_arguments-print d position args extra t count words shape =
    let boundary = print_tail-IsBoundary d.tail d.allow_empty_tail extra t shape in
    rw (← count) (
      rw (prefix_arguments-spaced args position (print_tail d.tail extra t) words boundary) (
        tail_arguments-print d.tail d.allow_empty_tail (position + length (spaced args)) args extra
          t shape))

-- No byte of a line is a NUL, a carriage return or a line feed.
abbrev pub IsLine : Bytes → Type 0
IsLine = All (λ c. (c ≢ 0) × (c ≢ b'\r') × (c ≢ b'\n'))

framing_byte-IsLine : (offset : ℕ) (s : Bytes) → IsLine s → framing_byte offset s ≡ none
unfolding framing_byte
framing_byte-IsLine offset [] h = refl
framing_byte-IsLine offset (c ∷ s) h = ground (arith, framing_byte-IsLine (offset + 1) s)

-- A notification as its grammar writes it.
abbrev pub print_notification : Definition → Bytes → List Bytes → List Bytes → Option Bytes → Bytes
print_notification d kind args extra t = kind ++ (spaced args ++ print_tail d.tail extra t)

pub parse_line :
    (kind rest : Bytes)
    → kind_fault kind ≡ none
    → IsBoundary rest
    → IsLine (kind ++ rest)
    → parse_notification (kind ++ rest) ≡ parse_kind (kind ++ rest) kind rest
unfolding parse_notification
parse_line [] rest v b l = absurd (let clash : ⊥ = (unfold kind_fault in cc) in clash)
parse_line (p ∷ []) rest v b l = absurd (let clash : ⊥ = (unfold kind_fault in cc) in clash)
parse_line (p ∷ c ∷ kind) rest v b l =
    let percent : (p == b'%') ≡ true = (unfold kind_fault in ground arith) in
    rw (framing_byte-IsLine 0 (p ∷ c ∷ kind ++ rest) l, parse_notification)
      (rw (percent, span_byte-word (p ∷ c ∷ kind) rest (kind_fault-Lacks (p ∷ c ∷ kind) v) b) refl)

parse_kind-known :
    (line kind rest : Bytes) (d : Definition) {arguments : List Bytes}
    → kind_fault kind ≡ none
    → find_definition kind definitions ≡ some d
    → parse_arguments d (length kind) rest ≡ ok arguments
    → parse_kind line kind rest ≡ finish_notification line kind arguments
unfolding parse_kind
parse_kind-known line kind rest d v known e =
    rw (v, parse_kind) (rw (known, parse_kind) (rw e refl))

-- A line in the grammar of its kind: the definition, and what is written by it.
module _ (d : Definition) (kind : Bytes) (args extra : List Bytes) (t : Option Bytes)
    (known : find_definition kind definitions ≡ some d) (count : length args ≡ d.prefix_count)
    (words : All IsWord args) (shape : IsShaped d.tail d.allow_empty_tail extra t)
    (line : IsLine (print_notification d kind args extra t)) where
  parse_print :
      parse_notification (print_notification d kind args extra t)
      ≡ finish_notification
          (print_notification d kind args extra t)
          kind
          ((args ++ extra) ++ tail_list t)
  parse_print =
      let rest = spaced args ++ print_tail d.tail extra t in
      let valid = find_definition-valid kind definitions {d = d} definitions-valid known in
      let boundary =
        spaced-IsBoundary args (print_tail d.tail extra t)
          (print_tail-IsBoundary d.tail d.allow_empty_tail extra t shape) in
      parse_line kind rest valid boundary line
      ∙ parse_kind-known (kind ++ rest) kind rest d valid known
          (parse_arguments-print d (length kind) args extra t count words shape)

  -- A line without NUL, CR or LF that is written by the grammar of a known kind other than
  -- %output and %extended-output (the words of the prefix, as many as the kind's definition says,
  -- and what its form of tail admits: nothing, a tail, or further words and a tail behind " : ")
  -- is parsed to that kind, to exactly the written arguments in order, and to no output.
  pub parse_notification-print :
      carries_output kind ≡ false
      → parse_notification (print_notification d kind args extra t)
        ≡ ok (record { kind = kind; arguments = (args ++ extra) ++ tail_list t; output = none })
  parse_notification-print plain = parse_print ∙ (unfold finish_notification in rw plain refl)

pub last_or-snoc : (d : Bytes) (xs : List Bytes) (x : Bytes) → last_or d (xs ++ x ∷ []) ≡ x
last_or-snoc d [] x = refl
last_or-snoc d (y ∷ xs) x = last_or-snoc y xs x

-- A line without NUL, CR or LF that is written by the grammar of a known kind that carries output,
-- with a pane first among its prefix words, and with a tail that escapes any set of bytes that
-- holds the backslash, is parsed to that kind, to the written arguments with the tail as it stands,
-- and to output that has the pane and the bytes before escaping.
pub parse_notification-output :
    (d : Definition) (kind pane : Bytes) (args extra : List Bytes) (hide : ℕ → Bool) (bs : Bytes)
    → find_definition kind definitions ≡ some d
    → suc (length args) ≡ d.prefix_count
    → All IsWord (pane ∷ args)
    → IsShaped d.tail d.allow_empty_tail extra (some (escape hide bs))
    → IsLine (print_notification d kind (pane ∷ args) extra (some (escape hide bs)))
    → carries_output kind ≡ true
    → hide b'\\' ≡ true
    → All IsByte bs
    → parse_notification (print_notification d kind (pane ∷ args) extra (some (escape hide bs)))
      ≡ ok (record {
        kind = kind;
        arguments = ((pane ∷ args) ++ extra) ++ escape hide bs ∷ [];
        output = some (pane, bs);
      })
parse_notification-output d kind pane args extra hide bs known count words shape line carries h
      small =
    parse_print d kind (pane ∷ args) extra (some (escape hide bs)) known count words shape line
    ∙ (unfold finish_notification in
        rw (carries, last_or-snoc pane (args ++ extra) (escape hide bs))
          (rw (decode_output-escape hide _ bs h small) refl))
