-- ===== src/Terminal/Runes.antt =====
-- What the program uses of Go's unicode/utf8: whether bytes begin with a full rune, and that rune.
use mathlib.Core.Bool.{not}
use libtmux_go.Base.{
  ℕ, ◌+◌, ◌*◌, ◌%◌, ◌≤◌, ◌≡◌, refl, Bool, true, false, ◌&&◌, ◌||◌, [], ◌∷◌, ◌++◌, Bytes, length,
  leb, ltb, ◌==◌, if◌then◌else◌, arith,
}

-- How many bytes a rune has by its first; 1 for a byte that begins none.
unfoldable pub need : ℕ → ℕ
need c =
    if ltb c 0xc2
    then 1
    else if ltb c 0xe0
    then 2
    else if ltb c 0xf0
    then 3
    else if ltb c 0xf5
    then 4
    else 1

-- The bytes that may stand behind the first one, and those behind the second.
unfoldable pub is_second : ℕ → ℕ → Bool
is_second c x =
    leb (if c == 0xe0 then 0xa0 else if c == 0xf0 then 0x90 else 0x80) x
    && leb x (if c == 0xed then 0x9f else if c == 0xf4 then 0x8f else 0xbf)

unfoldable pub is_later : ℕ → Bool
is_later x = leb 0x80 x && leb x 0xbf

-- `utf8.FullRune`.
unfoldable pub is_full : Bytes → Bool
is_full [] = false
is_full (c ∷ []) = leb (need c) 1
is_full (c ∷ x ∷ []) = leb (need c) 2 || not (is_second c x)
is_full (c ∷ x ∷ y ∷ []) = leb (need c) 3 || not (is_second c x) || not (is_later y)
is_full (c ∷ x ∷ y ∷ z ∷ s) = true

-- A decoded rune, and the bytes it takes.
pub record Rune : Type 0 where
  pub value : ℕ
  pub size : ℕ

abbrev pub rune_error : ℕ
rune_error = 0xfffd

abbrev pub invalid : Rune
invalid = record { value = rune_error; size = 1 }

unfoldable pub decode_fourth : ℕ → ℕ → ℕ → Bytes → Rune
decode_fourth c x y [] = invalid
decode_fourth c x y (z ∷ s) =
    if is_later z
    then record {
      value = c % 0x08 * 0x40000 + x % 0x40 * 0x1000 + y % 0x40 * 0x40 + z % 0x40;
      size = 4;
    }
    else invalid

unfoldable pub decode_third : ℕ → ℕ → Bytes → Rune
decode_third c x [] = invalid
decode_third c x (y ∷ s) =
    if not (is_later y)
    then invalid
    else if leb (need c) 3
    then record { value = c % 0x10 * 0x1000 + x % 0x40 * 0x40 + y % 0x40; size = 3 }
    else decode_fourth c x y s

unfoldable pub decode_second : ℕ → Bytes → Rune
decode_second c [] = invalid
decode_second c (x ∷ s) =
    if not (is_second c x)
    then invalid
    else if leb (need c) 2
    then record { value = c % 0x20 * 0x40 + x % 0x40; size = 2 }
    else decode_third c x s

-- `utf8.DecodeRune`.
unfoldable pub decode : Bytes → Rune
decode [] = record { value = rune_error; size = 0 }
decode (c ∷ s) =
    if ltb c 0x80
    then record { value = c; size = 1 }
    else if leb (need c) 1
    then invalid
    else decode_second c s

-- Full runes stay full, and the same, when bytes follow.
pub is_full-append : (p q : Bytes) → is_full p ≡ true → is_full (p ++ q) ≡ true
unfolding is_full
is_full-append [] q h = cc
is_full-append (c ∷ []) [] h = h
is_full-append (c ∷ []) (x ∷ []) h = ground (arith, h)
is_full-append (c ∷ []) (x ∷ y ∷ []) h = ground (arith, h)
is_full-append (c ∷ []) (x ∷ y ∷ z ∷ q) h = refl
is_full-append (c ∷ x ∷ []) [] h = h
is_full-append (c ∷ x ∷ []) (y ∷ []) h = ground (arith, h)
is_full-append (c ∷ x ∷ []) (y ∷ z ∷ q) h = refl
is_full-append (c ∷ x ∷ y ∷ []) [] h = h
is_full-append (c ∷ x ∷ y ∷ []) (z ∷ q) h = refl
is_full-append (c ∷ x ∷ y ∷ z ∷ s) q h = refl

pub decode-append : (p q : Bytes) → is_full p ≡ true → decode (p ++ q) ≡ decode p
unfolding is_full decode decode_second decode_third decode_fourth
decode-append [] q h = cc
decode-append (c ∷ []) q h = ground (arith, h)
decode-append (c ∷ x ∷ []) q h = ground (arith, h)
decode-append (c ∷ x ∷ y ∷ []) q h = ground (arith, h)
decode-append (c ∷ x ∷ y ∷ z ∷ s) q h = refl

pub decode-size :
    (p : Bytes) → is_full p ≡ true → (1 ≤ (decode p).size) × ((decode p).size ≤ length p)
unfolding is_full decode decode_second decode_third decode_fourth
decode-size [] h = cc
decode-size (c ∷ []) h = (ground (arith, h), ground (arith, h))
decode-size (c ∷ x ∷ []) h = (ground (arith, h), ground (arith, h))
decode-size (c ∷ x ∷ y ∷ []) h = (ground (arith, h), ground (arith, h))
decode-size (c ∷ x ∷ y ∷ z ∷ s) h = (ground (arith, h), ground (arith, h))

pub partial-length : (p : Bytes) → is_full p ≡ false → length p ≤ 3
unfolding is_full
partial-length [] h = omega arith
partial-length (c ∷ []) h = omega arith
partial-length (c ∷ x ∷ []) h = omega arith
partial-length (c ∷ x ∷ y ∷ []) h = omega arith
partial-length (c ∷ x ∷ y ∷ z ∷ s) h = cc

-- A byte below 0x80 is a rune of its own.
ascii_alone : (c : ℕ) → ltb c 0x80 ≡ true → is_full (c ∷ []) ≡ true
unfolding is_full need
ascii_alone c h = ground (arith, h)

pub ascii-is_full : (c : ℕ) (s : Bytes) → ltb c 0x80 ≡ true → is_full (c ∷ s) ≡ true
ascii-is_full c s h = is_full-append (c ∷ []) s (ascii_alone c h)

pub ascii-decode :
    (c : ℕ) (s : Bytes) → ltb c 0x80 ≡ true → decode (c ∷ s) ≡ record { value = c; size = 1 }
unfolding decode
ascii-decode c s h = rw h refl

-- Above that, one byte is taken only for an error.
pub one_byte-error :
    (c : ℕ) (s : Bytes)
    → ltb c 0x80 ≡ false
    → ((decode (c ∷ s)).value == rune_error && (decode (c ∷ s)).size == 1)
      ≡ ((decode (c ∷ s)).size == 1)
unfolding decode decode_second decode_third decode_fourth
one_byte-error c [] h = ground (arith, h)
one_byte-error c (x ∷ []) h = ground (arith, h)
one_byte-error c (x ∷ y ∷ []) h = ground (arith, h)
one_byte-error c (x ∷ y ∷ z ∷ s) h = ground (arith, h)
