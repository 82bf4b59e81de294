-- ===== src/Terminal/Tests.antt =====
-- Terminal output at small inputs, every rune printable.
use libtmux_go.Base.{ℕ, ◌≡◌, refl, Bool, true, [], ◌∷◌, ◌++◌, Bytes, codes}
use libtmux_go.Terminal.{
  new_normalizer, after_byte, after_c1, ground_byte, append_byte, append_rune, fill, chunk_loop,
  pending_loop, append_chunk,
}
use libtmux_go.Terminal.Runes.{
  need, is_second, is_later, is_full, decode, decode_second, decode_third, decode_fourth,
}
use libtmux_go.Terminal.Chunks.{append_chunk-append}
use libtmux_go.Terminal.Plain.{is_plain, append_chunk-is_plain}

abbrev printable : ℕ → Bool
printable rune = true

-- An escape sequence, and a character of two bytes.
abbrev colored : Bytes
colored = 0x1b ∷ b'[' ∷ b'3' ∷ b'm' ∷ b'o' ∷ b'k' ∷ 0xc3 ∷ 0xa9 ∷ b'\r' ∷ b'\n' ∷ []

colored_text :
    (append_chunk printable new_normalizer [] colored).1 ≡ b'o' ∷ b'k' ∷ 0xc3 ∷ 0xa9 ∷ b'\n' ∷ []
unfolding append_chunk pending_loop chunk_loop fill append_rune append_byte ground_byte after_byte
    after_c1 is_full need is_second is_later decode decode_second decode_third decode_fourth
colored_text = refl

-- Cut within the character.
append_chunk-append_example :
    append_chunk printable
      ((append_chunk printable new_normalizer [] (codes "ok" ++ 0xc3 ∷ [])).0)
      ((append_chunk printable new_normalizer [] (codes "ok" ++ 0xc3 ∷ [])).1)
      (0xa9 ∷ [])
    ≡ append_chunk printable new_normalizer [] (codes "ok" ++ 0xc3 ∷ 0xa9 ∷ [])
append_chunk-append_example =
    append_chunk-append printable new_normalizer [] (codes "ok" ++ 0xc3 ∷ []) (0xa9 ∷ [])

append_chunk-is_plain_example : is_plain (append_chunk printable new_normalizer [] colored).1 ≡ true
append_chunk-is_plain_example = append_chunk-is_plain printable new_normalizer [] colored refl
