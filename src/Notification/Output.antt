-- ===== src/Notification/Output.antt =====
-- Pane output on the wire: a byte is itself or a backslash and three octal digits.
use libtmux_go.Base.{
  ℕ, ◌+◌, ◌-◌, ◌*◌, ◌/◌, ◌%◌, ◌<◌, ◌≤◌, ◌≡◌, refl, ap, ◌∙◌, Bool, true, false, [], ◌∷◌, Bytes,
  length, All, ltb, ◌==◌, if◌then◌else◌, le→ltb, Bool-cases, inl, inr, arith,
}
use libtmux_go.Base.Result.{ok, err, ◌>>=◌}
use libtmux_go.Notification.{NotificationError, decode_output, is_octal}

-- How output is written, where `hide` picks the bytes to escape.
module _ (hide : ℕ → Bool) where
  abbrev pub escape : Bytes → Bytes
  escape [] = []
  escape (c ∷ bs) =
      if hide c
      then b'\\' ∷ (b'0' + c / 64) ∷ (b'0' + c / 8 % 8) ∷ (b'0' + c % 8) ∷ escape bs
      else c ∷ escape bs

abbrev pub IsByte : ℕ → Type 0
IsByte c = c < 256

-- A byte that is no backslash stands for itself.
decode_plain :
    (offset c : ℕ) (s : Bytes)
    → (c == b'\\') ≡ false
    → decode_output offset (c ∷ s) ≡ (decode_output (offset + 1) s >>= λ rest. ok (c ∷ rest))
unfolding decode_output
decode_plain offset c [] h = ground arith
decode_plain offset c (x ∷ []) h = ground arith
decode_plain offset c (x ∷ y ∷ []) h = ground arith
decode_plain offset c (x ∷ y ∷ z ∷ s) h = ground arith

decode_digits :
    (offset a b d : ℕ) (s : Bytes)
    → is_octal a ≡ true
    → is_octal b ≡ true
    → is_octal d ≡ true
    → ltb 255 ((a - b'0') * 64 + (b - b'0') * 8 + (d - b'0')) ≡ false
    → decode_output offset (b'\\' ∷ a ∷ b ∷ d ∷ s) ≡ (
        decode_output (offset + 4) s >>= λ rest.
        ok (((a - b'0') * 64 + (b - b'0') * 8 + (d - b'0')) ∷ rest))
unfolding decode_output
decode_digits offset a b d s ha hb hd fits = rw (ha, hb, hd, fits) refl

octal_digit : (d : ℕ) → d < 8 → is_octal (b'0' + d) ≡ true
octal_digit d h = ground arith

decode_escaped :
    (offset c : ℕ) (s : Bytes)
    → IsByte c
    → decode_output offset (b'\\' ∷ (b'0' + c / 64) ∷ (b'0' + c / 8 % 8) ∷ (b'0' + c % 8) ∷ s)
      ≡ (decode_output (offset + 4) s >>= λ rest. ok (c ∷ rest))
decode_escaped offset c s h =
    decode_digits offset (b'0' + c / 64) (b'0' + c / 8 % 8) (b'0' + c % 8) s
      (octal_digit (c / 64) (omega arith)) (octal_digit (c / 8 % 8) (omega arith))
      (octal_digit (c % 8) (omega arith)) (le→ltb 255 _ (omega arith))
    ∙ ap (λ v. decode_output (offset + 4) s >>= λ rest. ok (v ∷ rest)) (omega arith)

-- Decoding undoes the octal escaping of bytes below 256, whichever bytes are hidden as long as the
-- backslash is, wherever the output stands in its record.
pub decode_output-escape :
    (hide : ℕ → Bool) (offset : ℕ) (bs : Bytes)
    → hide b'\\' ≡ true
    → All IsByte bs
    → decode_output offset (escape hide bs) ≡ ok bs
decode_output-escape hide offset [] h _ = unfold decode_output in refl
decode_output-escape hide offset (c ∷ bs) h (lt, small) = elim (Bool-cases (hide c)) [
  | inl hidden ↦ rw hidden (
      decode_escaped offset c (escape hide bs) lt
      ∙ rw (decode_output-escape hide (offset + 4) bs h small) refl)
  | inr plain ↦ rw plain (
      decode_plain offset c (escape hide bs) (not_backslash c plain)
      ∙ rw (decode_output-escape hide (offset + 1) bs h small) refl)
]
  where
    not_backslash : (c : ℕ) → hide c ≡ false → (c == b'\\') ≡ false
    not_backslash c plain = ground (arith, h, plain)

-- A refused output is refused at one of its own bytes: the error's offset is at or behind the start
-- of the output and before its end.
pub decode_output-offset :
    (offset : ℕ) (s : Bytes) {e : NotificationError}
    → decode_output offset s ≡ err e
    → (offset ≤ e.offset) × (e.offset < offset + length s)
unfolding decode_output
decode_output-offset offset [] h = cc
decode_output-offset offset (c ∷ []) h = ground arith
decode_output-offset offset (c ∷ x ∷ []) {e} h =
    ground (arith, decode_output-offset (offset + 1) (x ∷ []) {e = e})
decode_output-offset offset (c ∷ x ∷ y ∷ []) {e} h =
    ground (arith, decode_output-offset (offset + 1) (x ∷ y ∷ []) {e = e})
decode_output-offset offset (c ∷ x ∷ y ∷ z ∷ s) {e} h = ground (
  arith,
  decode_output-offset (offset + 1) (x ∷ y ∷ z ∷ s) {e = e},
  decode_output-offset (offset + 4) s {e = e},
)
