-- ===== src/Command/Separators.antt =====
-- tmux's reading of a value at the end of an argument vector, and the escape of its separator.
use libtmux_go.Base.{
  ℕ, ◌≡◌, refl, Bool, true, false, ◌&&◌, [], ◌∷◌, Bytes, ◌==◌, if◌then◌else◌, arith,
}
use libtmux_go.Command.{escape_separator}

abbrev is_semicolon : Bytes → Bool
is_semicolon (x ∷ []) = x == b';'
is_semicolon _ = false

-- How tmux reads one value of a vector: a final `\;` is a semicolon, and a final `;` ends the command.
-- The result is the value, and whether the command ends behind it.
unfoldable pub read_value : Bytes → Bytes × Bool
read_value [] = ([], false)
read_value (c ∷ []) = if c == b';' then ([], true) else (c ∷ [], false)
read_value (c ∷ x ∷ s) =
    let rest = read_value (x ∷ s) in
    if c == b'\\' && is_semicolon (x ∷ s) then (b';' ∷ [], false) else (c ∷ rest.0, rest.1)

escaped-is_semicolon : (x y : ℕ) (s : Bytes) → is_semicolon (x ∷ escape_separator (y ∷ s)) ≡ false
unfolding escape_separator
escaped-is_semicolon x y [] = ground arith
escaped-is_semicolon x y (z ∷ s) = refl

-- tmux reads an escaped value as the value, and does not end the command behind it.
pub read_value-escape_separator : (s : Bytes) → read_value (escape_separator s) ≡ (s, false)
unfolding read_value escape_separator
read_value-escape_separator [] = refl
read_value-escape_separator (c ∷ []) = ground arith
read_value-escape_separator (c ∷ x ∷ []) = ground arith
read_value-escape_separator (c ∷ x ∷ y ∷ s) =
    ground (arith, escaped-is_semicolon x y s, read_value-escape_separator (x ∷ y ∷ s))
