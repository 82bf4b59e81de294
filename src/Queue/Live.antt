-- ===== src/Queue/Live.antt =====
-- What ties the ring to the records in it, and that `reserveLocked`, `writeLocked` and the removal
-- of a record keep the tie.

use libtmux_go.Base.{
  ℕ, ◌+◌, ◌*◌, ◌%◌, ◌^◌, ◌<◌, ◌≤◌, min, max, ◌≡◌, refl, ◌∙◌, ◌⊎◌, inl, inr, List, [], ◌∷◌, ◌++◌,
  Bytes, length, All, leb, Bool-cases, leb→le, arith, length-append, append_assoc, append-nil,
}
use libtmux_go.Queue.Header.{be_bytes, length-be_bytes}
use libtmux_go.Queue.Ring.{ring_write}
use libtmux_go.Queue.Ring.Slots.{content, length-ring_grow, length-ring_write}
use libtmux_go.Queue.Ring.Content.{content-ring_write, content-ring_grow}
use libtmux_go.Queue.Spec.{size}
use libtmux_go.Queue.{Queue, header, header_size, reserve}

-- A record whose number and length fit their header fields.
abbrev pub Fits : ℕ × Bytes → Type 0
Fits (n, bs) = (n < 2 ^ 64) × (length bs < 2 ^ 32)

-- The bytes of records, each behind its header.
abbrev pub encode : List (ℕ × Bytes) → Bytes
encode [] = []
encode ((n, bs) ∷ items) = header n bs ++ (bs ++ encode items)

pub record Live (q : Queue) (items : List (ℕ × Bytes)) : Type 0 where
  pub used_eq : q.used ≡ size items
  pub fits : q.used ≤ length q.buf
  pub within : length q.buf ≤ q.limit
  pub head_in : (q.head < length q.buf) ⊎ (q.head ≡ 0)
  pub spelled : content q.buf q.head q.used ≡ encode items
  pub sized : All Fits items

pub length-header : (n : ℕ) (bs : Bytes) → length (header n bs) ≡ header_size
length-header n bs = omega (
  arith,
  length-append (be_bytes 8 n) (be_bytes 4 (length bs % 2 ^ 32)),
  length-be_bytes 8 n,
  length-be_bytes 4 (length bs % 2 ^ 32),
)

pub length-encode : (items : List (ℕ × Bytes)) → length (encode items) ≡ size items
length-encode [] = refl
length-encode ((n, bs) ∷ items) = omega (
  arith,
  length-append (header n bs) (bs ++ encode items),
  length-append bs (encode items),
  length-header n bs,
  length-encode items,
)

-- After `reserveLocked` there is room, and the bytes in use are the same.
pub record Reserved (q q' : Queue) (stored : ℕ) : Type 0 where
  pub room : q'.used + stored ≤ length q'.buf
  pub within : length q'.buf ≤ q'.limit
  pub head_lt : q'.head < length q'.buf
  pub used_eq : q'.used ≡ q.used
  pub limit_eq : q'.limit ≡ q.limit
  pub same : content q'.buf q'.head q'.used ≡ content q.buf q.head q.used

pub reserve-Reserved :
    (stored : ℕ) (q : Queue) {items : List (ℕ × Bytes)}
    → Live q items
    → 0 < stored
    → q.used + stored ≤ q.limit
    → Reserved q (reserve stored q) stored
unfolding reserve
reserve-Reserved stored q l pos fits = elim (Bool-cases (leb (q.used + stored) (length q.buf))) [
  | inl room ↦ rw room (record {
    room = leb→le _ _ room;
    within = l.within;
    head_lt = ground (arith, l.head_in);
    used_eq = refl;
    limit_eq = refl;
    same = refl;
  })
  | inr full ↦
      let capacity = min (max (max 64 (2 * length q.buf)) (q.used + stored)) q.limit in
      let len = length-ring_grow capacity q.buf q.head q.used in
      rw full (record {
        room = rw len (omega arith);
        within = rw len (omega arith);
        head_lt = rw len (omega arith);
        used_eq = refl;
        limit_eq = refl;
        same = content-ring_grow capacity q.buf q.head q.used (omega arith) l.fits (omega arith);
      })
]

-- The two writes of `append` put one record behind the others.
pub content-write_record :
    (buf : Bytes) (head used n : ℕ) (bs : Bytes)
    → head < length buf
    → used + (header_size + length bs) ≤ length buf
    → content
        (ring_write (ring_write buf head used (header n bs)) head (used + length (header n bs)) bs)
        head
        (used + length (header n bs) + length bs)
      ≡ content buf head used ++ (header n bs ++ bs)
content-write_record buf head used n bs hh fits =
    let once = ring_write buf head used (header n bs) in
    let len = length-ring_write buf head used (header n bs) in
    let h = length-header n bs in
    content-ring_write once head (used + length (header n bs)) bs (omega arith) (omega arith)
    ∙ rw (content-ring_write buf head used (header n bs) hh (omega arith))
        (append_assoc (content buf head used) (header n bs) bs)

pub encode-append :
    (items : List (ℕ × Bytes)) (n : ℕ) (bs : Bytes)
    → encode (items ++ (n, bs) ∷ []) ≡ encode items ++ (header n bs ++ bs)
encode-append [] n bs = simp append-nil
encode-append ((m, cs) ∷ items) n bs = simp (encode-append items n bs, append_assoc)

pub size-append :
    (items : List (ℕ × Bytes)) (n : ℕ) (bs : Bytes)
    → size (items ++ (n, bs) ∷ []) ≡ size items + (header_size + length bs)
size-append [] n bs = omega arith
size-append ((m, cs) ∷ items) n bs = omega (arith, size-append items n bs)
