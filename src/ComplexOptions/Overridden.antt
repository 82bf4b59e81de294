-- ===== src/ComplexOptions/Overridden.antt =====
-- The nested tables of terminal-overrides: a capability set in a terminal's entry.
use libtmux_go.Base.{
  ℕ, zero, suc, ◌≡◌, refl, ap, sym, ◌∙◌, Option, none, some, List, [], ◌∷◌, ◌++◌, Bytes, length,
  get_elem?, bytes_eq, bytes_eq_refl, if◌then◌else◌, subst, Option-cases, inl, inr,
}
use libtmux_go.ComplexOptions.Indexed.{IsIndexed, set-known, set-fresh, set-IsIndexed, lookup-set}
use libtmux_go.ComplexOptions.{
  Table, OverrideValue, Overrides, map_get, lookup, replace, set, new_table, ensure_terminal,
  set_at, set_known, set_override,
}

-- The capabilities of a terminal: none where it has no entry.
abbrev pub capabilities_or_new : Option (Table OverrideValue) → Table OverrideValue
capabilities_or_new none = new_table
capabilities_or_new (some c) = c

abbrev value_of : Option (Bytes × Table OverrideValue) → Option (Table OverrideValue)
value_of none = none
value_of (some e) = some e.1

set_at-replace :
    (es : List (Bytes × Table OverrideValue)) (i : ℕ) (name : Bytes) (value : OverrideValue)
    → set_at es i name value
      ≡ replace es i (set (capabilities_or_new (value_of (get_elem? es i))) name value)
unfolding set_at replace
set_at-replace [] i name value = refl
set_at-replace (e ∷ es) zero name value = refl
set_at-replace (e ∷ es) (suc i) name value = ap (◌∷◌ e) (set_at-replace es i name value)

set_at-last :
    (es : List (Bytes × Table OverrideValue)) (terminal name : Bytes) (value : OverrideValue)
    → set_at (es ++ (terminal, new_table) ∷ []) (length es) name value
      ≡ es ++ (terminal, set new_table name value) ∷ []
unfolding set_at
set_at-last [] terminal name value = refl
set_at-last (e ∷ es) terminal name value = ap (◌∷◌ e) (set_at-last es terminal name value)

module _ (terminal name : Bytes) (value : OverrideValue) (t : Overrides) where
  set_known-at :
      {i : ℕ}
      → map_get t.by_name terminal ≡ some i
      → set_known terminal name value t ≡ record t { entries = set_at t.entries i name value }
  unfolding set_known
  set_known-at e = rw (e, set_known) refl

  ensure_terminal-known :
      {i : ℕ} → map_get t.by_name terminal ≡ some i → ensure_terminal terminal t ≡ t
  unfolding ensure_terminal
  ensure_terminal-known e = rw (e, ensure_terminal) refl

  ensure_terminal-fresh :
      map_get t.by_name terminal ≡ none
      → ensure_terminal terminal t ≡ record {
        entries = t.entries ++ (terminal, new_table) ∷ [];
        by_name = (terminal, length t.entries) ∷ t.by_name;
      }
  unfolding ensure_terminal
  ensure_terminal-fresh e = rw (e, ensure_terminal) refl

  lookup-known :
      {i : ℕ}
      → map_get t.by_name terminal ≡ some i
      → lookup t terminal ≡ value_of (get_elem? t.entries i)
  unfolding lookup
  lookup-known {i} e = rw (e, lookup) (from_elim (get_elem? t.entries i))
    where
      from_elim :
          (o : Option (Bytes × Table OverrideValue))
          → elim o [ none ↦ none | some p ↦ some p.1 ] ≡ value_of o
      from_elim none = refl
      from_elim (some p) = refl

  lookup-fresh : map_get t.by_name terminal ≡ none → lookup t terminal ≡ none
  unfolding lookup
  lookup-fresh e = rw (e, lookup) refl

-- The table with an entry for a new terminal.
abbrev added : Bytes → Overrides → Overrides
added terminal t = record {
  entries = t.entries ++ (terminal, new_table) ∷ [];
  by_name = (terminal, length t.entries) ∷ t.by_name;
}

map_get-added :
    (terminal : Bytes) (t : Overrides)
    → map_get (added terminal t).by_name terminal ≡ some (length t.entries)
unfolding map_get
map_get-added terminal t = rw (bytes_eq_refl terminal) refl

-- A capability set in a terminal's entry is the terminal's capabilities, set anew with it.
set_override-set :
    (terminal name : Bytes) (value : OverrideValue) (t : Overrides)
    → set_override terminal name value t
      ≡ set t terminal (set (capabilities_or_new (lookup t terminal)) name value)
unfolding set_override
set_override-set terminal name value t = elim (Option-cases (map_get t.by_name terminal)) [
  | inl e ↦
      ap (set_known terminal name value) (ensure_terminal-fresh terminal name value t e)
      ∙ set_known-at terminal name value (added terminal t) (map_get-added terminal t)
      ∙ ap (λ es. record (added terminal t) { entries = es })
          (set_at-last t.entries terminal name value)
      ∙ sym (
          ap (λ o. set t terminal (set (capabilities_or_new o) name value))
            (lookup-fresh terminal name value t e)
          ∙ set-fresh t terminal _ e)
  | inr (i, e) ↦
      ap (set_known terminal name value) (ensure_terminal-known terminal name value t e)
      ∙ set_known-at terminal name value t e
      ∙ ap (λ es. record t { entries = es }) (set_at-replace t.entries i name value)
      ∙ sym (
          ap (λ o. set t terminal (set (capabilities_or_new o) name value))
            (lookup-known terminal name value t e)
          ∙ set-known t terminal _ e)
]

-- Where the map points at the entries, it still does after a capability is set; the terminal's
-- capabilities are then those before, or none, with this one set, and every other terminal has what
-- it had.
pub set_override-lookup :
    (terminal name : Bytes) (value : OverrideValue) (t : Overrides)
    → IsIndexed t
    → IsIndexed (set_override terminal name value t)
      × ((other : Bytes)
          → lookup (set_override terminal name value t) other ≡ (
              if bytes_eq terminal other
              then some (set (capabilities_or_new (lookup t terminal)) name value)
              else lookup t other))
set_override-lookup terminal name value t h =
    let c = set (capabilities_or_new (lookup t terminal)) name value in
    let e = set_override-set terminal name value t in
    (
      subst IsIndexed (sym e) (set-IsIndexed t terminal c h),
      λ other. ap (λ u. lookup u other) e ∙ lookup-set t terminal c other h,
    )
