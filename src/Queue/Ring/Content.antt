-- ===== src/Queue/Ring/Content.antt =====
-- What the ring operations do to the bytes in use, read off from the head.
use native.Mathlib.Nat.{mod-lt, mod-add-mod, suc-add}
use libtmux_go.Base.{
  ℕ, zero, suc, ◌+◌, ◌-◌, ◌%◌, ◌≤◌, ◌<◌, min, ◌≡◌, refl, sym, ap, ap₂, ◌∙◌, [], ◌∷◌, ◌++◌, Bytes,
  length, take, drop, length-append, length-take, length-drop, arith, ltb, if◌then◌else◌, lt→ltb,
  le→ltb,
}
use libtmux_go.Queue.Ring.{ring_write, ring_read, ring_clear, ring_grow}
use libtmux_go.Queue.Ring.Slots.{
  at, slot, window, content, window_ext, mod_wrap, slot-ring_write, slot-ring_clear, slot-ring_grow,
  length-ring_clear, at-drop, at-take,
}

pub window-append :
    (f : ℕ → ℕ) (n m s : ℕ) → window f s (n + m) ≡ window f s n ++ window f (s + n) m
unfolding window
window-append f zero m s =
    ap (λ k. window f s k) (omega arith) ∙ ap (λ k. window f k m) (omega arith)
window-append f (suc n) m s =
    ap (λ k. window f s k) (suc-add n m)
    ∙ ap (◌∷◌ (f s))
        (window-append f n m (suc s) ∙ ap (λ k. window f (suc s) n ++ window f k m) (omega arith))

pub window-at : (bs : Bytes) → window (at bs) 0 (length bs) ≡ bs
unfolding window
window-at [] = refl
window-at (x ∷ bs) =
    let rest = window_ext (at (x ∷ bs)) (at bs) (length bs) 1 0 (λ i lt.
      ap (at (x ∷ bs)) (let e : 1 + i ≡ suc i = omega arith in e) ∙ ap (at bs) (omega arith)) in
    ap (◌∷◌ x) (rest ∙ window-at bs)

pub at-append :
    (xs ys : Bytes) (i : ℕ)
    → at (xs ++ ys) i ≡ (if ltb i (length xs) then at xs i else at ys (i - length xs))
at-append [] ys i = rw (le→ltb i 0 (omega arith)) (ap (at ys) (omega arith))
at-append (x ∷ xs) ys zero = ground arith
at-append (x ∷ xs) ys (suc i) = ground (arith, at-append xs ys i)

-- A list is known by its length and its bytes.
pub eq-window :
    (bs : Bytes) (f : ℕ → ℕ) (s n : ℕ)
    → length bs ≡ n
    → ((i : ℕ) → i < n → at bs i ≡ f (s + i))
    → bs ≡ window f s n
eq-window bs f s n len h =
    sym (window-at bs)
    ∙ ap (window (at bs) 0) len
    ∙ window_ext (at bs) f n 0 s (λ i lt. ap (at bs) (omega arith) ∙ h i lt)

-- A run of positions that spells `xs ++ ys` spells `xs` and then `ys`.
pub window-split :
    (f : ℕ → ℕ) (xs ys : Bytes) (s : ℕ)
    → window f s (length (xs ++ ys)) ≡ xs ++ ys
    → (window f s (length xs) ≡ xs) × (window f (s + length xs) (length ys) ≡ ys)
unfolding window
window-split f [] ys s h = (refl, ap (λ k. window f k (length ys)) (omega arith) ∙ h)
window-split f (x ∷ xs) ys s h =
    let tails : window f (suc s) (length (xs ++ ys)) ≡ xs ++ ys = cc in
    let heads : f s ≡ x = cc in
    let (front, back) = window-split f xs ys (suc s) tails in
    (cc, ap (λ k. window f k (length ys)) (omega arith) ∙ back)

-- `writeLocked` appends.
pub content-ring_write :
    (buf : Bytes) (head used : ℕ) (bs : Bytes)
    → head < length buf
    → used + length bs ≤ length buf
    → content (ring_write buf head used bs) head (used + length bs) ≡ content buf head used ++ bs
unfolding content
content-ring_write buf head used bs hh fits =
    window-append (slot (ring_write buf head used bs) head) used (length bs) 0
    ∙ ap₂ ◌++◌
        (window_ext _ _ used 0 0 (λ i lt.
          slot-ring_write buf head used bs (0 + i) hh fits (omega arith)
          ∙ rw (lt→ltb (0 + i) used (omega arith))))
        (sym (
          eq-window bs _ (0 + used) (length bs) refl (λ i lt. sym (
            slot-ring_write buf head used bs (0 + used + i) hh fits (omega arith)
            ∙ rw (le→ltb (0 + used + i) used (omega arith)) (ap (at bs) (omega arith))))))

-- `reserveLocked` keeps the bytes in use.
pub content-ring_grow :
    (capacity : ℕ) (buf : Bytes) (head used : ℕ)
    → head ≤ length buf
    → used ≤ length buf
    → used ≤ capacity
    → content (ring_grow capacity buf head used) 0 used ≡ content buf head used
unfolding content
content-ring_grow capacity buf head used hh fits le =
    window_ext _ _ used 0 0
      (λ i lt. slot-ring_grow capacity buf head used (0 + i) hh fits le (omega arith))

read_slot :
    (buf : Bytes) (head offset n i : ℕ)
    → head < length buf
    → offset + n ≤ length buf
    → i < n
    → at (ring_read buf head offset n) i ≡ slot buf head (offset + i)
unfolding ring_read slot
read_slot buf head offset n i hh fits lt =
    let start = (head + offset) % length buf in
    let first = min n (length buf - start) in
    let front = take n (drop start buf) in
    ground (
      arith,
      at-append front (take (n - first) buf) i,
      length-take n (drop start buf),
      length-drop start buf,
      at-take n (drop start buf) i,
      at-drop buf start i,
      at-take (n - first) buf (i - length front),
      mod_wrap (head + offset) (length buf),
      mod_wrap (head + (offset + i)) (length buf),
    )

-- `readLocked` returns the bytes at an offset.
pub ring_read-window :
    (buf : Bytes) (head offset n : ℕ)
    → head < length buf
    → offset + n ≤ length buf
    → ring_read buf head offset n ≡ window (slot buf head) offset n
unfolding ring_read
ring_read-window buf head offset n hh fits =
    let start = (head + offset) % length buf in
    let first = min n (length buf - start) in
    let front = take n (drop start buf) in
    let back = take (n - first) buf in
    let start_lt : start < length buf = mod-lt (head + offset) (omega arith) in
    eq-window (front ++ back) (slot buf head) offset n
      (omega (
        arith,
        length-append front back,
        length-take n (drop start buf),
        length-drop start buf,
        length-take (n - first) buf,
      ))
      (λ i lt. read_slot buf head offset n i hh fits lt)

slot_advance :
    (buf : Bytes) (head n i c : ℕ)
    → length buf ≡ c
    → slot buf ((head + n) % c) (0 + i) ≡ slot buf head (n + i)
unfolding slot
slot_advance buf head n i c e =
    rw e (ap (at buf) (mod-add-mod (head + n) c (0 + i) ∙ ap (λ (x : ℕ). x % c) (omega arith)))

-- `clearLocked` and the advance of the head drop the first `n` bytes.
pub content-ring_clear :
    (buf : Bytes) (head n m : ℕ)
    → head < length buf
    → n + m ≤ length buf
    → content (ring_clear buf head n) ((head + n) % length buf) m ≡ window (slot buf head) n m
unfolding content
content-ring_clear buf head n m hh fits = window_ext _ _ m 0 n (λ i lt. advanced i (omega arith))
  where
    advanced :
        (i : ℕ)
        → n + i < length buf
        → slot (ring_clear buf head n) ((head + n) % length buf) (0 + i) ≡ slot buf head (n + i)
    advanced i lt =
        slot_advance (ring_clear buf head n) head n i (length buf) (length-ring_clear buf head n)
        ∙ slot-ring_clear buf head n (n + i) hh (omega arith) (omega arith) lt
