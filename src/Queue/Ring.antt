-- ===== src/Queue/Ring.antt =====
-- The byte ring of tmux/control_notification_queue.go: `copy` into a slice, and the slice
-- arithmetic of `reserveLocked`, `writeLocked`, `readLocked` and `clearLocked`.
pub mod Slots
pub mod Content
use libtmux_go.Base.{
  ℕ, zero, suc, ◌+◌, ◌-◌, ◌%◌, min, List, [], ◌∷◌, ◌++◌, Bytes, length, take, drop, replicate,
}

-- `copy(dst[i:], src)`: what does not fit is dropped.
unfoldable pub overwrite : Bytes → ℕ → Bytes → Bytes
overwrite [] i src = []
overwrite (x ∷ dst) zero [] = x ∷ dst
overwrite (x ∷ dst) zero (s ∷ src) = s ∷ overwrite dst zero src
overwrite (x ∷ dst) (suc i) src = x ∷ overwrite dst i src

-- `writeLocked`, on the slice, its head and the bytes in use.
unfoldable pub ring_write : Bytes → ℕ → ℕ → Bytes → Bytes
ring_write buf head used bs =
    let tail = (head + used) % length buf in
    let first = min (length buf - tail) (length bs) in
    overwrite (overwrite buf tail bs) 0 (drop first bs)

-- `readLocked` into a slice of `n` bytes.
unfoldable pub ring_read : Bytes → ℕ → ℕ → ℕ → Bytes
ring_read buf head offset n =
    let start = (head + offset) % length buf in
    let first = min n (length buf - start) in take n (drop start buf) ++ take (n - first) buf

-- `clearLocked`: the first `n` bytes from the head become zero.
unfoldable pub ring_clear : Bytes → ℕ → ℕ → Bytes
ring_clear buf head n =
    let first = min n (length buf - head) in
    overwrite (overwrite buf head (replicate first 0)) 0 (replicate (n - first) 0)

-- The new slice of `reserveLocked`: the bytes in use move to its front.
unfoldable pub ring_grow : ℕ → Bytes → ℕ → ℕ → Bytes
ring_grow capacity buf head used =
    let first = min used (length buf - head) in
    overwrite (overwrite (replicate capacity 0) 0 (take first (drop head buf))) first
      (take (used - first) buf)
