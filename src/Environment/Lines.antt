-- ===== src/Environment/Lines.antt =====
-- A printed environment is read back, and a malformed line is named by its number.
use mathlib.Core.Bool.{not}
use libtmux_go.Base.{
  ℕ, ◌+◌, ◌≡◌, refl, ap, sym, ◌∙◌, inl, inr, Bool, true, false, ◌||◌, Option, none, some, List, [],
  ◌∷◌, ◌++◌, Bytes, length, bytes_eq, if◌then◌else◌, arith, All,
}
use libtmux_go.Base.Result.{ok, err, Result-cases}
use libtmux_go.Text.{has_byte}
use libtmux_go.Text.Splits.{Lacks, cut-append, cut-Lacks}
use libtmux_go.Environment.{
  EnvironmentValue, EnvironmentError, Malformed, decode_error, valid_name, env_set, parse_line,
  parse_lines,
}

-- An entry as tmux shows it: `NAME=value`, or `-NAME` for a variable that is to be removed.
abbrev pub print_entry : Bytes × EnvironmentValue → Bytes
print_entry (name, v) = if v.removed then b'-' ∷ name else name ++ b'=' ∷ v.value

-- An entry that can be shown: a valid name, and no value where the variable is to be removed.
abbrev pub IsEntry : Bytes × EnvironmentValue → Type 0
IsEntry (name, v) = (valid_name name ≡ true) × (v.removed ≡ true → v.value ≡ [])

-- What the last entry of a name holds.
unfoldable pub last_entry : List (Bytes × EnvironmentValue) → Bytes → Option EnvironmentValue
last_entry [] name = none
last_entry ((key, v) ∷ rest) name = elim (last_entry rest name) [
  | some u ↦ some u
  | none ↦ if bytes_eq key name then some v else none
]

has_byte-Lacks : (b : ℕ) (s : Bytes) → has_byte b s ≡ false → Lacks b s
unfolding has_byte
has_byte-Lacks b [] h = tt
has_byte-Lacks b (c ∷ s) h = (ground (arith, h), has_byte-Lacks b s (ground (arith, h)))

no_second : (a b c d e : Bool) → not (a || b || c || d || e) ≡ true → (a ≡ false) × (b ≡ false)
no_second true b c d e h = cc
no_second false true c d e h = cc
no_second false false c d e h = (refl, refl)

valid_name-Lacks : (name : Bytes) → valid_name name ≡ true → Lacks b'=' name
unfolding valid_name
valid_name-Lacks name valid = has_byte-Lacks b'=' name ((no_second _ _ _ _ _ valid).1)

entry_line :
    (name value : Bytes) (removed : Bool)
    → IsEntry (name, record { value = value; removed = removed })
    → parse_line (print_entry (name, record { value = value; removed = removed }))
      ≡ ok (name, record { value = value; removed = removed })
unfolding parse_line
entry_line name value true (valid, plain) =
    rw (cut-Lacks (b'-' ∷ name) b'=' (omega arith, valid_name-Lacks name valid), valid, parse_line)
      (ap (λ u. ok (name, record { value = u; removed = true })) (sym (plain refl)))
entry_line name value false (valid, plain) =
    rw (cut-append name value b'=' (valid_name-Lacks name valid), valid, parse_line) refl

pub parse_line-print :
    (name : Bytes) (v : EnvironmentValue)
    → IsEntry (name, v)
    → parse_line (print_entry (name, v)) ≡ ok (name, v)
parse_line-print name v h = entry_line name v.value v.removed h

-- From a map on: what the last entries hold, or else what the map held.
abbrev holds_or : Option EnvironmentValue → Option EnvironmentValue → Option EnvironmentValue
holds_or (some v) old = some v
holds_or none old = old

module _ {X : Type 0} where
  -- An environment that is refused has a first malformed line, and the error is that line's, with its
  -- number.
  pub parse_lines-error :
      (number : ℕ) (m : List (Bytes × EnvironmentValue)) (lines : List Bytes)
      (e : EnvironmentError X)
      → parse_lines number m lines ≡ err e
      → (front : List Bytes) × (line : Bytes) × (rest : List Bytes) × (reason : Malformed) × (lines
          ≡ front ++ line ∷ rest)
        × All (λ l. (entry : Bytes × EnvironmentValue) × (parse_line l ≡ ok entry)) front
        × (parse_line line ≡ err reason)
        × (e ≡ decode_error (number + length front) reason)
  unfolding parse_lines
  parse_lines-error number m [] e h = cc
  parse_lines-error number m (l ∷ lines) e h = elim (Result-cases (parse_line l)) [
    | inr (reason, malformed) ↦
        (let same = rw (malformed, parse_lines) at h in
          let here : e ≡ decode_error number reason = cc in
          (
            [],
            l,
            lines,
            reason,
            refl,
            tt,
            malformed,
            here ∙ ap (λ n. decode_error n reason) (omega arith),
          ))
    | inl ((name, v), read) ↦
        (let (front, line, rest, reason, split, good, malformed, named) =
            parse_lines-error (number + 1) (env_set m name v) lines e
              (rw (read, parse_lines) at h) in
          (
            l ∷ front,
            line,
            rest,
            reason,
            ap (◌∷◌ l) split,
            (((name, v), read), good),
            malformed,
            named ∙ ap (λ n. decode_error n reason) (omega arith),
          ))
  ]
