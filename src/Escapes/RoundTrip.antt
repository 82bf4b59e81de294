-- ===== src/Escapes/RoundTrip.antt =====
-- A value that is quoted and escaped is decoded to itself.
use libtmux_go.Base.{
  ℕ, ◌+◌, ◌-◌, ◌*◌, ◌/◌, ◌%◌, ◌<◌, ◌≡◌, refl, ap, ◌∙◌, Bool, true, false, Option, none, some, [],
  ◌∷◌, ◌++◌, Bytes, All, ltb, ◌==◌, le→ltb, Bool-cases, inl, inr, arith,
}
use libtmux_go.Base.Result.{ok}
use libtmux_go.Notification.Output.{escape, IsByte}
use libtmux_go.Escapes.{
  is_stray, is_octal_digit, octal_value, onto, decode_body, without_quote, decode_escaped,
}

body_plain :
    (quote : Option ℕ) (offset c : ℕ) (s : Bytes)
    → is_stray quote c ≡ false
    → (c == b'\\') ≡ false
    → decode_body quote offset (c ∷ s) ≡ onto c (decode_body quote (offset + 1) s)
unfolding decode_body
body_plain quote offset c [] h g = rw (h, g) refl
body_plain quote offset c (a ∷ []) h g = rw (h, g) refl
body_plain quote offset c (a ∷ b ∷ []) h g = rw (h, g) refl
body_plain quote offset c (a ∷ b ∷ d ∷ s) h g = rw (h, g) refl

octal_digit : (d : ℕ) → d < 8 → is_octal_digit (b'0' + d) ≡ true
octal_digit d h = ground arith

body_octal :
    (quote : Option ℕ) (offset a b d : ℕ) (s : Bytes)
    → is_stray quote b'\\' ≡ false
    → is_octal_digit a ≡ true
    → is_octal_digit b ≡ true
    → is_octal_digit d ≡ true
    → ltb 255 ((a - b'0') * 64 + (b - b'0') * 8 + (d - b'0')) ≡ false
    → decode_body quote offset (b'\\' ∷ a ∷ b ∷ d ∷ s)
      ≡ onto ((a - b'0') * 64 + (b - b'0') * 8 + (d - b'0')) (decode_body quote (offset + 4) s)
unfolding decode_body octal_value
body_octal quote offset a b d s h ha hb hd fits = rw h (rw (ha, hb, hd, fits) refl)

backslash-no_stray : (quote : Option ℕ) → is_stray quote b'\\' ≡ false
backslash-no_stray none = refl
backslash-no_stray (some q) = refl

body_hidden :
    (quote : Option ℕ) (offset c : ℕ) (s : Bytes)
    → IsByte c
    → decode_body quote offset (b'\\' ∷ (b'0' + c / 64) ∷ (b'0' + c / 8 % 8) ∷ (b'0' + c % 8) ∷ s)
      ≡ onto c (decode_body quote (offset + 4) s)
body_hidden quote offset c s lt =
    body_octal quote offset (b'0' + c / 64) (b'0' + c / 8 % 8) (b'0' + c % 8) s
      (backslash-no_stray quote) (octal_digit (c / 64) (omega arith))
      (octal_digit (c / 8 % 8) (omega arith)) (octal_digit (c % 8) (omega arith))
      (le→ltb 255 _ (omega arith))
    ∙ ap (λ v. onto v (decode_body quote (offset + 4) s)) (omega arith)

no_stray :
    (quote : Option ℕ) (c : ℕ)
    → (c == b'\'') ≡ false
    → (c == b'"') ≡ false
    → is_stray quote c ≡ false
no_stray none c h g = rw (h, g) refl
no_stray (some q) c h g = rw (h, g) refl

module _ (hide : ℕ → Bool) (backslash : hide b'\\' ≡ true) (single : hide b'\'' ≡ true)
    (double : hide b'"' ≡ true) where
  hidden : (c d : ℕ) → hide d ≡ true → hide c ≡ false → (c == d) ≡ false
  hidden c d h g = ground (arith, h, g)

  decode_body-escape :
      (quote : Option ℕ) (offset : ℕ) (bs : Bytes)
      → All IsByte bs
      → decode_body quote offset (escape hide bs) ≡ ok bs
  decode_body-escape quote offset [] _ = unfold decode_body in refl
  decode_body-escape quote offset (c ∷ bs) (lt, small) = elim (Bool-cases (hide c)) [
    | inl shown ↦ rw shown (
        body_hidden quote offset c (escape hide bs) lt
        ∙ rw (decode_body-escape quote (offset + 4) bs small) refl)
    | inr plain ↦ rw plain (
        body_plain quote offset c (escape hide bs)
          (no_stray quote c (hidden c b'\'' single plain) (hidden c b'"' double plain))
          (hidden c b'\\' backslash plain)
        ∙ rw (decode_body-escape quote (offset + 1) bs small) refl)
  ]

  without_quote-snoc : (q : ℕ) (s : Bytes) → without_quote q (s ++ q ∷ []) ≡ some s
  unfolding without_quote
  without_quote-snoc q [] = ground arith
  without_quote-snoc q (c ∷ []) = ground arith
  without_quote-snoc q (c ∷ x ∷ s) = rw (without_quote-snoc q (x ∷ s)) refl

  -- A value of bytes below 256 between two apostrophes, or between two double quotes, with any set of
  -- bytes that holds the backslash and both quotes written as octal escapes, is decoded to itself.
  pub decode_escaped-escape :
      (bs : Bytes)
      → All IsByte bs
      → (decode_escaped (b'\'' ∷ (escape hide bs ++ b'\'' ∷ [])) ≡ ok bs)
        × (decode_escaped (b'"' ∷ (escape hide bs ++ b'"' ∷ [])) ≡ ok bs)
  unfolding decode_escaped
  decode_escaped-escape bs small = (
    rw (without_quote-snoc b'\'' (escape hide bs), decode_escaped)
        (decode_body-escape (some b'\'') 1 bs small),
    rw (without_quote-snoc b'"' (escape hide bs), decode_escaped)
        (decode_body-escape (some b'"') 1 bs small),
  )
