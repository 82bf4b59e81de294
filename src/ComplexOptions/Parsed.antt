-- ===== src/ComplexOptions/Parsed.antt =====
-- What the parsed options hold, from the raw items alone.
use libtmux_go.Base.{
  ℕ, ◌≡◌, refl, ap, sym, ◌∙◌, Bool, true, false, Option, none, some, String, List, [], ◌∷◌, Bytes,
  bytes_eq, if◌then◌else◌, Option-cases, inl, inr,
}
use libtmux_go.SparseArray.{SparseEntry, SparseArray}
use libtmux_go.Text.{cut, split}
use libtmux_go.ComplexOptions.Indexed.{IsIndexed, set-IsIndexed, lookup-set, new_table-IsIndexed}
use libtmux_go.ComplexOptions.{
  Table, DecodeError, parse_items, lookup, set, new_table, map_get, command_aliases,
  terminal_features,
}

abbrev or_else : {A : Type 0} → Option A → Option A → Option A
or_else (some a) o = some a
or_else none o = o

module _ {V : Type 0} (option : String) (separator : ℕ) (reason : String) (decode : Bytes → V) where
  -- What an item says of a name.
  abbrev pub said : Option (Bytes × Bytes) → Bytes → Option V
  said none name = none
  said (some (key, text)) name = if bytes_eq key name then some (decode text) else none

  -- What the last item says that says anything of a name.
  abbrev pub last_said : List (SparseEntry Bytes) → Bytes → Option V
  last_said [] name = none
  last_said (item ∷ items) name =
      or_else (last_said items name) (said (cut item.value separator) name)

  -- The errors of the items that have no separator.
  abbrev pub errors : List (SparseEntry Bytes) → List DecodeError
  errors [] = []
  errors (item ∷ items) = elim (cut item.value separator) [
    | none ↦ record { option = option; index = item.index; reason = reason } ∷ errors items
    | some p ↦ errors items
  ]

  abbrev parse : List (SparseEntry Bytes) → Table V → Table V × List DecodeError
  parse = parse_items option separator reason decode

  module _ (item : SparseEntry Bytes) (items : List (SparseEntry Bytes)) (t : Table V) where
    parse_items-malformed :
        cut item.value separator ≡ none
        → parse (item ∷ items) t ≡ (
          (parse items t).0,
          record { option = option; index = item.index; reason = reason } ∷ (parse items t).1,
        )
    unfolding parse_items
    parse_items-malformed e = rw (e, parse_items) refl

    parse_items-said :
        {p : Bytes × Bytes}
        → cut item.value separator ≡ some p
        → parse (item ∷ items) t ≡ parse items (set t p.0 (decode p.1))
    unfolding parse_items
    parse_items-said e = rw (e, parse_items) refl

  parse_items-errors :
      (items : List (SparseEntry Bytes)) (t : Table V) → (parse items t).1 ≡ errors items
  parse_items-errors [] t = unfold parse_items in refl
  parse_items-errors (item ∷ items) t = elim (Option-cases (cut item.value separator)) [
    | inl e ↦
        ap (λ r. r.1) (parse_items-malformed item items t e)
        ∙ ap (◌∷◌ (record { option = option; index = item.index; reason = reason }))
            (parse_items-errors items t)
        ∙ rw (e, errors) refl
    | inr (p, e) ↦
        ap (λ r. r.1) (parse_items-said item items t e)
        ∙ parse_items-errors items (set t p.0 (decode p.1))
        ∙ rw (e, errors) refl
  ]

  or_else-none : (a : Option V) → or_else a none ≡ a
  or_else-none none = refl
  or_else-none (some v) = refl

  or_else-said :
      (a o : Option V) (b : Bool) (v : V)
      → or_else a (if b then some v else o) ≡ or_else (or_else a (if b then some v else none)) o
  or_else-said (some w) o b v = refl
  or_else-said none o true v = refl
  or_else-said none o false v = refl

  parse_items-lookup :
      (items : List (SparseEntry Bytes)) (t : Table V) (name : Bytes)
      → IsIndexed t
      → lookup (parse items t).0 name ≡ or_else (last_said items name) (lookup t name)
  parse_items-lookup [] t name h = unfold parse_items in refl
  parse_items-lookup (item ∷ items) t name h = elim (Option-cases (cut item.value separator)) [
    | inl e ↦
        ap (λ r. lookup (r.0) name) (parse_items-malformed item items t e)
        ∙ parse_items-lookup items t name h
        ∙ rw e (ap (λ o. or_else o (lookup t name)) (sym (or_else-none (last_said items name))))
    | inr (p, e) ↦
        ap (λ r. lookup (r.0) name) (parse_items-said item items t e)
        ∙ parse_items-lookup items (set t p.0 (decode p.1)) name
            (set-IsIndexed t p.0 (decode p.1) h)
        ∙ ap (or_else (last_said items name)) (lookup-set t p.0 (decode p.1) name h)
        ∙ rw e
            (or_else-said (last_said items name) (lookup t name) (bytes_eq p.0 name) (decode p.1))
  ]

  pub parsed :
      (items : List (SparseEntry Bytes))
      → ((name : Bytes) → lookup (parse items new_table).0 name ≡ last_said items name)
        × ((parse items new_table).1 ≡ errors items)
  parsed items = (
    (λ name.
        parse_items-lookup items new_table name (new_table-IsIndexed V)
        ∙ (unfold lookup map_get in or_else-none (last_said items name))),
    parse_items-errors items new_table,
  )

-- What parsed aliases give for a name is the command of the last item whose text up to its first
-- equals sign is that name, or nothing; and the errors are those of the items without an equals
-- sign, with their indices, in order.
pub command_aliases-lookup :
    (raw : SparseArray Bytes)
    → ((name : Bytes)
        → lookup (command_aliases raw).0 name
          ≡ last_said "command-alias" b'=' "expected alias=command" (λ text. text) raw.entries name)
      × ((command_aliases raw).1
          ≡ errors "command-alias" b'=' "expected alias=command"
              (λ (text : Bytes). text)
              raw.entries)
unfolding command_aliases
command_aliases-lookup raw =
    parsed "command-alias" b'=' "expected alias=command" (λ text. text) raw.entries

-- What parsed terminal features give for a terminal is the colon-separated list behind the first
-- colon of the last item whose text up to that colon is the terminal, or nothing; and the errors are
-- those of the items without a colon, with their indices, in order.
pub terminal_features-lookup :
    (raw : SparseArray Bytes)
    → ((name : Bytes)
        → lookup (terminal_features raw).0 name
          ≡ last_said "terminal-features" b':' "expected terminal:features"
              (λ text. split text b':')
              raw.entries
              name)
      × ((terminal_features raw).1
          ≡ errors "terminal-features" b':' "expected terminal:features"
              (λ text. split text b':')
              raw.entries)
unfolding terminal_features
terminal_features-lookup raw =
    parsed "terminal-features" b':' "expected terminal:features" (λ text. split text b':')
      raw.entries
