-- ===== src/Queue/Ring/Slots.antt =====
-- The bytes of a ring, position by position from its head.
use native.Mathlib.Nat.{mod-eq_of_lt, mod-eq-sub-mod, suc-add}
use libtmux_go.Base.{
  ℕ, zero, suc, ◌+◌, ◌-◌, ◌%◌, ◌≤◌, ◌<◌, min, ◌≡◌, refl, ap, ◌∙◌, ◌&&◌, [], ◌∷◌, Bytes, length,
  get_or, take, drop, replicate, length-replicate, length-take, length-drop, arith, ltb, Bool-cases,
  inl, inr, ltb→lt, ltb→le, leb, if◌then◌else◌,
}
use libtmux_go.Queue.Ring.{overwrite, ring_write, ring_clear, ring_grow}

abbrev pub at : Bytes → ℕ → ℕ
at bs i = get_or bs i 0

-- The byte `k` positions behind the head.
unfoldable pub slot : Bytes → ℕ → ℕ → ℕ
slot buf head k = at buf ((head + k) % length buf)

-- The values of `f` at `n` positions from `s`.
unfoldable pub window : (ℕ → ℕ) → ℕ → ℕ → Bytes
window f s zero = []
window f s (suc n) = f s ∷ window f (suc s) n

-- The first `used` bytes behind the head.
unfoldable pub content : Bytes → ℕ → ℕ → Bytes
content buf head used = window (slot buf head) 0 used

pub length-overwrite :
    (dst : Bytes) (i : ℕ) (src : Bytes) → length (overwrite dst i src) ≡ length dst
unfolding overwrite
length-overwrite [] i src = refl
length-overwrite (x ∷ dst) zero [] = refl
length-overwrite (x ∷ dst) zero (s ∷ src) = ap suc (length-overwrite dst zero src)
length-overwrite (x ∷ dst) (suc i) src = ap suc (length-overwrite dst i src)

pub at-overwrite :
    (dst : Bytes) (i : ℕ) (src : Bytes) (j : ℕ)
    → j < length dst
    → at (overwrite dst i src) j
      ≡ (if leb i j && ltb j (i + length src) then at src (j - i) else at dst j)
unfolding overwrite
at-overwrite [] i src j h = elim h [ ]
at-overwrite (x ∷ dst) zero [] j h = ground arith
at-overwrite (x ∷ dst) zero (s ∷ src) zero h = ground arith
at-overwrite (x ∷ dst) zero (s ∷ src) (suc j) h = ground (arith, at-overwrite dst zero src j)
at-overwrite (x ∷ dst) (suc i) src zero h = ground arith
at-overwrite (x ∷ dst) (suc i) src (suc j) h = ground (arith, at-overwrite dst i src j)

pub at-drop : (bs : Bytes) (n i : ℕ) → at (drop n bs) i ≡ at bs (n + i)
at-drop bs zero i = ap (at bs) (omega arith)
at-drop [] (suc n) i = refl
at-drop (x ∷ bs) (suc n) i = rw suc-add (at-drop bs n i)

pub at-replicate : (n i : ℕ) → at (replicate n 0) i ≡ 0
at-replicate zero i = refl
at-replicate (suc n) zero = refl
at-replicate (suc n) (suc i) = at-replicate n i

pub window_ext :
    (f g : ℕ → ℕ) (n s t : ℕ)
    → ((i : ℕ) → i < n → f (s + i) ≡ g (t + i))
    → window f s n ≡ window g t n
unfolding window
window_ext f g zero s t h = refl
window_ext f g (suc n) s t h =
    let first : f s ≡ g t = ap f (omega arith) ∙ h 0 (omega arith) ∙ ap g (omega arith) in
    let rest =
      window_ext f g n (suc s) (suc t)
        (λ i lt. ap f (omega arith) ∙ h (suc i) (omega arith) ∙ ap g (omega arith)) in
    rw (first, rest)

pub length-window : (f : ℕ → ℕ) (n s : ℕ) → length (window f s n) ≡ n
unfolding window
length-window f zero s = refl
length-window f (suc n) s = ap suc (length-window f n (suc s))

-- A mod by the capacity, below twice the capacity.
pub mod_wrap : (x c : ℕ) → x < c + c → x % c ≡ (if ltb x c then x else x - c)
mod_wrap x c h = elim (Bool-cases (ltb x c)) [
  | inl low ↦ rw low (mod-eq_of_lt (ltb→lt x c low))
  | inr high ↦
      let le : c ≤ x = ltb→le x c high in rw high (mod-eq-sub-mod le ∙ mod-eq_of_lt (omega arith))
]

-- Writing leaves the bytes in use, and puts the new ones behind them.
pub slot-ring_write :
    (buf : Bytes) (head used : ℕ) (bs : Bytes) (k : ℕ)
    → head < length buf
    → used + length bs ≤ length buf
    → k < used + length bs
    → slot (ring_write buf head used bs) head k
      ≡ (if ltb k used then slot buf head k else at bs (k - used))
unfolding slot ring_write
slot-ring_write buf head used bs k hh fits hk =
    let tail = (head + used) % length buf in
    let first = min (length buf - tail) (length bs) in
    let j = (head + k) % length buf in
    let once = overwrite buf tail bs in
    rw (length-overwrite once 0 (drop first bs), length-overwrite buf tail bs)
      (ground (
        arith,
        at-overwrite once 0 (drop first bs) j,
        at-overwrite buf tail bs j,
        length-overwrite buf tail bs,
        mod_wrap (head + used) (length buf),
        mod_wrap (head + k) (length buf),
        at-drop bs first j,
        length-drop first bs,
      ))

-- The bytes behind the first `n` keep their place while those become zero.
pub slot-ring_clear :
    (buf : Bytes) (head n k : ℕ)
    → head < length buf
    → n ≤ length buf
    → n ≤ k
    → k < length buf
    → slot (ring_clear buf head n) head k ≡ slot buf head k
unfolding slot ring_clear
slot-ring_clear buf head n k hh fits le hk =
    let first = min n (length buf - head) in
    let j = (head + k) % length buf in
    let once = overwrite buf head (replicate first 0) in
    rw
      (
        length-overwrite once 0 (replicate (n - first) 0),
        length-overwrite buf head (replicate first 0),
      )
      (ground (
        arith,
        at-overwrite once 0 (replicate (n - first) 0) j,
        at-overwrite buf head (replicate first 0) j,
        length-overwrite buf head (replicate first 0),
        mod_wrap (head + k) (length buf),
        length-replicate {A = ℕ} first 0,
        length-replicate {A = ℕ} (n - first) 0,
      ))

pub at-take : (n : ℕ) (bs : Bytes) (i : ℕ) → i < n → at (take n bs) i ≡ at bs i
at-take zero bs i h = elim h [ ]
at-take (suc n) [] i h = refl
at-take (suc n) (x ∷ bs) zero h = refl
at-take (suc n) (x ∷ bs) (suc i) h = at-take n bs i (omega arith)

-- A larger slice holds the bytes in use from its start.
pub slot-ring_grow :
    (capacity : ℕ) (buf : Bytes) (head used k : ℕ)
    → head ≤ length buf
    → used ≤ length buf
    → used ≤ capacity
    → k < used
    → slot (ring_grow capacity buf head used) 0 k ≡ slot buf head k
unfolding slot ring_grow
slot-ring_grow capacity buf head used k hh fits le hk =
    let first = min used (length buf - head) in
    let zeros = replicate capacity 0 in
    let once = overwrite zeros 0 (take first (drop head buf)) in
    rw
      (
        length-overwrite once first (take (used - first) buf),
        length-overwrite zeros 0 (take first (drop head buf)),
        length-replicate {A = ℕ} capacity 0,
      )
      (ground (
        arith,
        at-overwrite once first (take (used - first) buf) k,
        at-overwrite zeros 0 (take first (drop head buf)) k,
        length-overwrite zeros 0 (take first (drop head buf)),
        length-replicate {A = ℕ} capacity 0,
        mod_wrap (head + k) (length buf),
        mod_wrap (0 + k) capacity,
        length-take first (drop head buf),
        length-drop head buf,
        length-take (used - first) buf,
        at-take (used - first) buf (k - first),
        at-take first (drop head buf) k,
        at-drop buf head k,
      ))

pub length-ring_grow :
    (capacity : ℕ) (buf : Bytes) (head used : ℕ)
    → length (ring_grow capacity buf head used) ≡ capacity
unfolding ring_grow
length-ring_grow capacity buf head used = simp (length-overwrite, length-replicate)

pub length-ring_write :
    (buf : Bytes) (head used : ℕ) (bs : Bytes) → length (ring_write buf head used bs) ≡ length buf
unfolding ring_write
length-ring_write buf head used bs = simp length-overwrite

pub length-ring_clear : (buf : Bytes) (head n : ℕ) → length (ring_clear buf head n) ≡ length buf
unfolding ring_clear
length-ring_clear buf head n = simp length-overwrite
