-- ===== src/Terminal/Plain.antt =====
-- The text has no control characters but newlines and tabs.

use libtmux_go.Base.{
  ℕ, zero, suc, ◌≤◌, ◌≡◌, refl, ap, ◌∙◌, inl, inr, Bool, true, false, ◌&&◌, ◌||◌, [], ◌∷◌, ◌++◌,
  take, drop, Bytes, length, leb, ltb, ◌==◌, arith, Bool-cases,
}
use libtmux_go.Terminal.{
  Machine, Normalizer, append_byte, ground_byte, append_rune, append_pending, append_chunk,
}
use libtmux_go.Terminal.Chunks.{run, run_full, run_partial, append_chunk-run, smaller}
use libtmux_go.Terminal.Runes.{
  is_full, decode, decode_second, decode_third, decode_fourth, need, is_second, is_later,
}

abbrev pub is_text : ℕ → Bool
is_text c = c == b'\n' || c == b'\t' || (leb 0x20 c && ltb c 0x7f) || leb 0x80 c

abbrev pub is_plain : Bytes → Bool
is_plain [] = true
is_plain (c ∷ s) = is_text c && is_plain s

is_plain-append : (s t : Bytes) → is_plain s ≡ true → is_plain t ≡ true → is_plain (s ++ t) ≡ true
is_plain-append [] t h k = k
is_plain-append (c ∷ s) t h k = ground (arith, h, is_plain-append s t)

ground_byte-is_plain :
    (m : Machine) (dst : Bytes) (value : ℕ)
    → is_plain dst ≡ true
    → is_plain (ground_byte m dst value).1 ≡ true
unfolding ground_byte
ground_byte-is_plain m dst value h =
    let newline = is_plain-append dst (b'\n' ∷ []) h refl in
    let itself : is_text value ≡ true → is_plain (dst ++ value ∷ []) ≡ true =
      λ e. is_plain-append dst (value ∷ []) h (rw e refl) in
    ground (arith, h, newline, itself)

append_byte-is_plain :
    (m : Machine) (dst : Bytes) (value : ℕ)
    → is_plain dst ≡ true
    → is_plain (append_byte m dst value).1 ≡ true
unfolding append_byte
append_byte-is_plain m dst value h = ground (arith, h, ground_byte-is_plain m dst value h)

encoded_plain :
    (p : Bytes)
    → is_full p ≡ true
    → ((decode p).size == 1) ≡ false
    → is_plain (take (decode p).size p) ≡ true
unfolding is_full decode decode_second decode_third decode_fourth need is_second is_later
encoded_plain [] full h = cc
encoded_plain (c ∷ []) full h = ground (arith, full, h)
encoded_plain (c ∷ x ∷ []) full h = ground (arith, full, h)
encoded_plain (c ∷ x ∷ y ∷ []) full h = ground (arith, full, h)
encoded_plain (c ∷ x ∷ y ∷ z ∷ s) full h = ground (arith, full, h)

module _ (is_print : ℕ → Bool) where
  append_pending-is_plain :
      (m : Machine) (dst p : Bytes)
      → is_full p ≡ true
      → is_plain dst ≡ true
      → is_plain (append_pending is_print m dst p).1 ≡ true
  unfolding append_rune is_full
  append_pending-is_plain m dst [] full h = cc
  append_pending-is_plain m dst (c ∷ p) full h = elim (Bool-cases ((decode (c ∷ p)).size == 1)) [
    | inl one ↦ rw one (append_byte-is_plain m dst c h)
    | inr more ↦
        (let encoded =
            is_plain-append dst (take (decode (c ∷ p)).size (c ∷ p)) h
              (encoded_plain (c ∷ p) full more) in
          rw more (ground (arith, h, encoded)))
  ]

  run-is_plain :
      (n : ℕ) (m : Machine) (dst p : Bytes)
      → length p ≤ n
      → is_plain dst ≡ true
      → is_plain (run is_print m dst p).1 ≡ true
  unfolding run
  run-is_plain zero m dst [] small h = h
  run-is_plain zero m dst (c ∷ p) small h = absurd (let no : ⊥ = omega (arith, small) in no)
  run-is_plain (suc n) m dst p small h = elim (Bool-cases (is_full p)) [
    | inl full ↦
        (let next = append_pending is_print m dst p in
          ap (λ d. is_plain (d.1)) (run_full is_print m dst p full)
          ∙ run-is_plain n (next.0) (next.1) (drop (decode p).size p)
              (smaller is_print p n full small) (append_pending-is_plain m dst p full h))
    | inr partial ↦ ap (λ d. is_plain (d.1)) (run_partial is_print m dst p partial) ∙ h
  ]

  -- Whatever a terminal wrote, and whichever runes are printable, the text that a chunk adds to plain text
  -- is plain: it has no control character of ASCII but newlines and tabs, and no DEL.
  pub append_chunk-is_plain :
      (n : Normalizer) (dst chunk : Bytes)
      → is_plain dst ≡ true
      → is_plain (append_chunk is_print n dst chunk).1 ≡ true
  append_chunk-is_plain n dst chunk h =
      ap (λ d. is_plain (d.1)) (append_chunk-run is_print n dst chunk)
      ∙ run-is_plain (length (n.pending ++ chunk)) n.machine dst (n.pending ++ chunk) (omega arith)
          h
