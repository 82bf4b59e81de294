-- ===== src/Notification/Arguments.antt =====
-- The arguments of a notification, read back from the line that they are written on.
use libtmux_go.Base.{
  ℕ, ◌+◌, ◌≡◌, ◌≢◌, refl, ap, false, List, [], ◌∷◌, ◌++◌, Bytes, length, length-append, All, ◌==◌,
  arith, append_assoc,
}
use libtmux_go.Base.Result.{ok}
use libtmux_go.Text.Splits.{Lacks}
use libtmux_go.Notification.{span_byte, prefix_arguments}

-- Arguments on the wire: each behind a space.
abbrev pub spaced : List Bytes → Bytes
spaced [] = []
spaced (a ∷ as_) = b' ' ∷ (a ++ spaced as_)

-- A word: at least one byte, and no space.
abbrev pub IsWord : Bytes → Type 0
IsWord a = (a ≢ []) × Lacks b' ' a

-- What stands behind words is the line's end or a space.
abbrev pub IsBoundary : Bytes → Type 0
IsBoundary [] = Unit
IsBoundary (c ∷ s) = c ≡ b' '

pub span_byte-word :
    (a rest : Bytes) → Lacks b' ' a → IsBoundary rest → span_byte b' ' (a ++ rest) ≡ (a, rest)
unfolding span_byte
span_byte-word [] [] h k = refl
span_byte-word [] (c ∷ rest) h k = ground arith
span_byte-word (c ∷ a) rest h k = ground (arith, span_byte-word a rest)

pub spaced-IsBoundary :
    (args : List Bytes) (rest : Bytes) → IsBoundary rest → IsBoundary (spaced args ++ rest)
spaced-IsBoundary [] rest k = k
spaced-IsBoundary (a ∷ args) rest k = refl

pub length-word : (a : Bytes) → a ≢ [] → (length a == 0) ≡ false
length-word [] h = absurd (h refl)
length-word (c ∷ a) h = ground arith

-- As many words as the definition's prefix wants are read, up to what stands behind them.
pub prefix_arguments-spaced :
    (args : List Bytes) (position : ℕ) (rest : Bytes)
    → All IsWord args
    → IsBoundary rest
    → prefix_arguments (length args) position (spaced args ++ rest)
      ≡ ok (args, position + length (spaced args), rest)
unfolding prefix_arguments
prefix_arguments-spaced [] position rest h k = ap (λ p. ok ([], p, rest)) (omega arith)
prefix_arguments-spaced (a ∷ args) position rest ((ne, lacks), more) k =
    let span = span_byte-word a (spaced args ++ rest) lacks (spaced-IsBoundary args rest k) in
    let some_bytes : (length a == 0) ≡ false = length-word a ne in
    rw (append_assoc a (spaced args) rest, span, some_bytes)
      (rw (prefix_arguments-spaced args (position + 1 + length a) rest more k)
        (ap (λ p. ok (a ∷ args, p, rest)) (omega (arith, length-append a (spaced args)))))
