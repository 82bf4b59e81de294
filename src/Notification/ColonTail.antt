-- ===== src/Notification/ColonTail.antt =====
-- The tail behind " : ", and the arguments between the prefix and it.
use libtmux_go.Base.{
  ℕ, ◌≡◌, ◌≢◌, refl, ap, ◌∙◌, sym, Bool, false, some, List, [], ◌∷◌, ◌++◌, Bytes, length, All, ◌==◌,
  ◌&&◌, not, arith, append_assoc, append-nil,
}
use libtmux_go.Base.Result.{ok}
use libtmux_go.Text.Splits.{Lacks, split-Lacks, split-append}
use libtmux_go.Text.{split}
use libtmux_go.Notification.Arguments.{spaced, IsWord, length-word}
use libtmux_go.Notification.{cut_colon, future_arguments, before_colon, append_colon_tail}

-- A word that is not the colon itself.
abbrev pub IsExtra : Bytes → Type 0
IsExtra a = IsWord a × (a ≢ b':' ∷ [])

-- The separator is not found inside a word.
cut_colon-word :
    (a : Bytes) (y z : ℕ) (s before after : Bytes)
    → Lacks b' ' a
    → cut_colon (b' ' ∷ y ∷ z ∷ s) ≡ some (before, after)
    → cut_colon (a ++ b' ' ∷ y ∷ z ∷ s) ≡ some (a ++ before, after)
unfolding cut_colon
cut_colon-word [] y z s before after h e = e
cut_colon-word (c ∷ []) y z s before after h e = ground arith
cut_colon-word (c ∷ d ∷ []) y z s before after h e =
    ground (arith, cut_colon-word (d ∷ []) y z s before after)
cut_colon-word (c ∷ d ∷ x ∷ a) y z s before after h e =
    ground (arith, cut_colon-word (d ∷ x ∷ a) y z s before after)

-- Nor at the space in front of a word that is not the colon.
cut_colon-extra :
    (a : Bytes) (y z : ℕ) (s before after : Bytes)
    → IsExtra a
    → cut_colon (b' ' ∷ y ∷ z ∷ s) ≡ some (before, after)
    → cut_colon (b' ' ∷ (a ++ b' ' ∷ y ∷ z ∷ s)) ≡ some (b' ' ∷ (a ++ before), after)
unfolding cut_colon
cut_colon-extra [] y z s before after ((ne, _), _) e = absurd (ne refl)
cut_colon-extra (c ∷ []) y z s before after ((ne, h), nc) e =
    let no_colon : c ≢ b':' = (λ p. nc (ap (λ x. x ∷ []) p)) in ground (arith, no_colon, h.0)
cut_colon-extra (c ∷ d ∷ a) y z s before after ((ne, h), nc) e =
    ground (arith, cut_colon-word (c ∷ d ∷ a) y z s before after h e)

abbrev pub colon_tail : Bytes → Bytes
colon_tail tail = b' ' ∷ b':' ∷ b' ' ∷ tail

-- Words in front of the separator begin with a space and two more bytes.
spaced-three :
    (args : List Bytes) (tail : Bytes)
    → All IsExtra args
    → (y : ℕ) × (z : ℕ) × (s : Bytes) × (spaced args ++ colon_tail tail ≡ b' ' ∷ y ∷ z ∷ s)
spaced-three [] tail h = (b':', b' ', tail, refl)
spaced-three ([] ∷ args) tail (((ne, _), _), _) = absurd (ne refl)
spaced-three ((c ∷ []) ∷ args) tail (_, more) =
    let (y, z, s, e) = spaced-three args tail more in (c, b' ', y ∷ z ∷ s, rw e refl)
spaced-three ((c ∷ d ∷ a) ∷ args) tail h = (c, d, (a ++ spaced args) ++ colon_tail tail, refl)

pub cut_colon-spaced :
    (args : List Bytes) (tail : Bytes)
    → All IsExtra args
    → cut_colon (spaced args ++ colon_tail tail) ≡ some (spaced args, tail)
cut_colon-spaced [] tail h = unfold cut_colon in refl
cut_colon-spaced (a ∷ args) tail (x, more) =
    let (y, z, s, e) = spaced-three args tail more in
    ap (λ r. cut_colon (b' ' ∷ r))
      (append_assoc a (spaced args) (colon_tail tail) ∙ ap (λ r. a ++ r) e)
    ∙ cut_colon-extra a y z s (spaced args) tail x
        (ap cut_colon (sym e) ∙ cut_colon-spaced args tail more)

split-spaced :
    (a : Bytes) (args : List Bytes)
    → Lacks b' ' a
    → All IsExtra args
    → split (a ++ spaced args) b' ' ≡ a ∷ args
split-spaced a [] h _ = rw append-nil (split-Lacks a b' ' h)
split-spaced a (b ∷ args) h (((_, k), _), more) =
    split-append a (b ++ spaced args) b' ' h ∙ ap (◌∷◌ a) (split-spaced b args k more)

future_arguments-words :
    (position : ℕ) (done args : List Bytes)
    → All IsExtra args
    → future_arguments position done args ≡ ok (done ++ args)
unfolding future_arguments
future_arguments-words position done [] h = rw append-nil refl
future_arguments-words position done (a ∷ args) (((ne, _), _), more) = rw (length-word a ne) (
    future_arguments-words position (done ++ a ∷ []) args more
    ∙ ap ok (append_assoc done (a ∷ []) args))

before_colon-spaced :
    (position : ℕ) (done args : List Bytes)
    → All IsExtra args
    → before_colon position done (spaced args) ≡ ok (done ++ args)
unfolding before_colon
before_colon-spaced position done [] h = rw append-nil refl
before_colon-spaced position done (a ∷ args) ((w, nc), more) =
    ap (future_arguments position done) (split-spaced a args w.1 more)
    ∙ future_arguments-words position done (a ∷ args) ((w, nc), more)

-- The arguments in front of the separator and the tail behind it are read back.
pub append_colon_tail-spaced :
    (position : ℕ) (done args : List Bytes) (tail : Bytes) (allow_empty : Bool)
    → All IsExtra args
    → (length tail == 0 && not allow_empty) ≡ false
    → append_colon_tail position (spaced args ++ colon_tail tail) done allow_empty
      ≡ ok ((done ++ args) ++ tail ∷ [])
unfolding append_colon_tail
append_colon_tail-spaced position done args tail allow_empty h k =
    rw (cut_colon-spaced args tail h, append_colon_tail)
      (rw (before_colon-spaced position done args h, k) refl)
