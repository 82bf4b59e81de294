-- ===== src/ComplexOptions.antt =====
-- tmux/complex_options.go: options whose entries are parsed into tables. CommandAliases,
-- TerminalFeatures, TerminalOverride and TerminalOverrides have one shape: entries in the order of
-- their first definition, and a map from a name to its place in them.
pub mod Indexed
pub mod Parsed
pub mod Overridden
pub mod Tests
use mathlib.Core.Bool.{not}
use libtmux_go.Base.{
  ℕ, zero, suc, ◌&&◌, ◌+◌, Bool, true, false, Option, none, some, String, List, [], ◌∷◌, ◌++◌,
  Bytes, length, get_elem?, bytes_eq, ◌==◌, if◌then◌else◌,
}
use libtmux_go.SparseArray.{SparseEntry, SparseArray}
use libtmux_go.Text.{cut, split, is_digit}

-- A map from names to places, as an association list; the newest pair stands first.
unfoldable pub map_get : List (Bytes × ℕ) → Bytes → Option ℕ
map_get [] name = none
map_get ((key, i) ∷ pairs) name = if bytes_eq key name then some i else map_get pairs name

pub record Table {ℓ} (V : Type ℓ) : Type ℓ where
  pub entries : List (Bytes × V)
  pub by_name : List (Bytes × ℕ)

module _ {ℓ} {V : Type ℓ} where
  abbrev pub new_table : Table V
  new_table = record { entries = []; by_name = [] }

  -- `Lookup`. A place out of range panics in the source: `Indexed` shows that there is none.
  unfoldable pub lookup : Table V → Bytes → Option V
  lookup t name = elim (map_get t.by_name name) [
    | none ↦ none
    | some i ↦ elim (get_elem? t.entries i) [ none ↦ none | some e ↦ some e.1 ]
  ]

  -- A value replaced in place.
  unfoldable pub replace : List (Bytes × V) → ℕ → V → List (Bytes × V)
  replace [] i value = []
  replace ((name, old) ∷ es) zero value = (name, value) ∷ es
  replace (e ∷ es) (suc i) value = e ∷ replace es i value

  -- `set`.
  unfoldable pub set : Table V → Bytes → V → Table V
  set t name value = elim (map_get t.by_name name) [
    | some i ↦ record t { entries = replace t.entries i value }
    | none ↦ record {
      entries = t.entries ++ (name, value) ∷ [];
      by_name = (name, length t.entries) ∷ t.by_name;
    }
  ]

-- `ComplexOptionDecodeError`.
pub record DecodeError : Type 0 where
  pub option : String
  pub index : ℕ
  pub reason : String

-- The loop over an option's raw items, which `CommandAliases` and `ParsedTerminalFeatures` share: an
-- item is a name and a text on the two sides of the first separator, and one without is an error.
module _ {ℓ} {V : Type ℓ} (option : String) (separator : ℕ) (reason : String)
    (decode : Bytes → V) where
  unfoldable pub parse_items : List (SparseEntry Bytes) → Table V → Table V × List DecodeError
  parse_items [] t = (t, [])
  parse_items (item ∷ items) t = elim (cut item.value separator) [
    | none ↦
        (let r = parse_items items t in
          (r.0, record { option = option; index = item.index; reason = reason } ∷ r.1))
    | some (name, text) ↦ parse_items items (set t name (decode text))
  ]

-- `CommandAliases`.
unfoldable pub command_aliases : SparseArray Bytes → Table Bytes × List DecodeError
command_aliases raw =
    parse_items "command-alias" b'=' "expected alias=command" (λ text. text) raw.entries new_table

-- `ParsedTerminalFeatures`.
unfoldable pub terminal_features : SparseArray Bytes → Table (List Bytes) × List DecodeError
terminal_features raw =
    parse_items "terminal-features" b':' "expected terminal:features" (λ text. split text b':')
      raw.entries new_table

-- `TerminalOverrideValue`.
pub data OverrideValue : Type 0 where
  flag : OverrideValue
  integer text : Bytes → OverrideValue

abbrev pub all_digits : Bytes → Bool
all_digits [] = true
all_digits (c ∷ s) = is_digit c && all_digits s

-- `decimalDigits`.
unfoldable pub decimal_digits : Bytes → Bool
decimal_digits [] = false
decimal_digits (c ∷ s) = all_digits (c ∷ s)

abbrev pub Overrides : Type 0
Overrides = Table (Table OverrideValue)

-- `ensureTerminal`; the place it returns is looked up where it is used.
unfoldable pub ensure_terminal : Bytes → Overrides → Overrides
ensure_terminal terminal t = elim (map_get t.by_name terminal) [
  | some i ↦ t
  | none ↦ record {
    entries = t.entries ++ (terminal, new_table) ∷ [];
    by_name = (terminal, length t.entries) ∷ t.by_name;
  }
]

-- A capability set in the entry at a place.
unfoldable pub set_at :
    List (Bytes × Table OverrideValue)
    → ℕ
    → Bytes
    → OverrideValue
    → List (Bytes × Table OverrideValue)
set_at [] i name value = []
set_at ((terminal, c) ∷ es) zero name value = (terminal, set c name value) ∷ es
set_at (e ∷ es) (suc i) name value = e ∷ set_at es i name value

-- A capability set in the entry of a terminal that is there.
unfoldable pub set_known : Bytes → Bytes → OverrideValue → Overrides → Overrides
set_known terminal name value t = elim (map_get t.by_name terminal) [
  | none ↦ t
  | some i ↦ record t { entries = set_at t.entries i name value }
]

-- `TerminalOverrides.set`.
unfoldable pub set_override : Bytes → Bytes → OverrideValue → Overrides → Overrides
set_override terminal name value t = set_known terminal name value (ensure_terminal terminal t)

-- The value of a capability, and its name.
unfoldable pub capability : Bytes → Bytes × OverrideValue
capability s = elim (cut s b'=') [
  | none ↦ (s, flag)
  | some (name, assigned) ↦
      (name, (if decimal_digits assigned then integer assigned else text assigned))
]

-- The loop over an item's capabilities; an empty one is passed over.
unfoldable pub set_capabilities : Bytes → List Bytes → Overrides → Overrides
set_capabilities terminal [] t = t
set_capabilities terminal (s ∷ more) t =
    let c = capability s in
    let skipped = set_capabilities terminal more t in
    let stored = set_capabilities terminal more (set_override terminal c.0 c.1 t) in
    if bytes_eq s [] then skipped else stored

unfoldable pub parse_override : Bytes → Overrides → Overrides
parse_override item t = elim (split item b':') [
  | [] ↦ t
  | terminal ∷ capabilities ↦ ensure_terminal terminal (set_capabilities terminal capabilities t)
]

-- `ParsedTerminalOverrides`.
unfoldable pub terminal_overrides : SparseArray Bytes → Overrides
terminal_overrides raw = parse_overrides raw.entries new_table
  where
    parse_overrides : List (SparseEntry Bytes) → Overrides → Overrides
    parse_overrides [] t = t
    parse_overrides (item ∷ items) t = parse_overrides items (parse_override item.value t)
