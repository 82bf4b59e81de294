-- ===== src/Queue/Steps.antt =====
-- `append` and one round of `take` on a live ring: the ring stays tied to its records.
use native.Mathlib.Nat.{mod-eq_of_lt, mod-lt}
use libtmux_go.Base.{
  ℕ, ◌+◌, ◌-◌, ◌%◌, ◌^◌, ◌<◌, ◌≤◌, ◌≡◌, refl, sym, ap, ◌∙◌, inl, inr, true, false, List, [], ◌∷◌,
  ◌++◌, Bytes, length, take, drop, All-append, take-append, drop-append, ==_iff, ◌==◌, Bool-cases,
  arith,
}
use libtmux_go.Queue.Header.{be_bytes, be_value, length-be_bytes, be_value-be_bytes}
use libtmux_go.Queue.Ring.{ring_write, ring_read, ring_clear}
use libtmux_go.Queue.Ring.Slots.{slot, window, content, length-ring_write, length-ring_clear}
use libtmux_go.Queue.Ring.Content.{content-ring_clear, ring_read-window, window-split}
use libtmux_go.Queue.Spec.{size}
use libtmux_go.Queue.Live.{
  Fits, encode, Live, reserve-Reserved, content-write_record, encode-append, size-append,
  length-header, length-encode,
}
use libtmux_go.Queue.{
  Queue, header, header_size, reserve, write, advance, head_sequence, head_length, head_record,
}

pub write_record-Live :
    (n : ℕ) (bs : Bytes) (q : Queue) {items : List (ℕ × Bytes)}
    → Live q items
    → Fits (n, bs)
    → q.used + (header_size + length bs) ≤ q.limit
    → Live
        (write bs (write (header n bs) (reserve (header_size + length bs) q)))
        (items ++ (n, bs) ∷ [])
unfolding write
write_record-Live n bs q {items} l f fits =
    let stored = header_size + length bs in
    let q' = reserve stored q in
    let r = reserve-Reserved stored q l (omega arith) fits in
    let once = ring_write q'.buf q'.head q'.used (header n bs) in
    let len₁ = length-ring_write q'.buf q'.head q'.used (header n bs) in
    let len₂ = length-ring_write once q'.head (q'.used + length (header n bs)) bs in
    record {
      used_eq = omega (arith, r.used_eq, l.used_eq, length-header n bs, size-append items n bs);
      fits = rw (len₂, len₁) (omega (arith, r.room, length-header n bs));
      within = rw (len₂, len₁) (r.within);
      head_in = inl (rw (len₂, len₁) r.head_lt);
      spelled =
          content-write_record q'.buf q'.head q'.used n bs r.head_lt r.room
          ∙ ap (λ xs. xs ++ (header n bs ++ bs)) (r.same ∙ l.spelled)
          ∙ sym (encode-append items n bs);
      sized = All-append Fits items ((n, bs) ∷ []) l.sized (f, tt);
    }

-- The header that a window of the ring spells is read back.
take_be : (n : ℕ) (bs : Bytes) → take 8 (header n bs) ≡ be_bytes 8 n
take_be n bs =
    let hi = be_bytes 8 n in
    let lo = be_bytes 4 (length bs % 2 ^ 32) in
    ap (λ k. take k (hi ++ lo)) (sym (length-be_bytes 8 n)) ∙ take-append hi lo

drop_be : (n : ℕ) (bs : Bytes) → drop 8 (header n bs) ≡ be_bytes 4 (length bs % 2 ^ 32)
drop_be n bs =
    let hi = be_bytes 8 n in
    let lo = be_bytes 4 (length bs % 2 ^ 32) in
    ap (λ k. drop k (hi ++ lo)) (sym (length-be_bytes 8 n)) ∙ drop-append hi lo

-- No bytes in use: no records.
encode-zero : (items : List (ℕ × Bytes)) → size items ≡ 0 → [] ≡ encode items
encode-zero [] h = refl
encode-zero ((n, bs) ∷ items) h = absurd (omega arith)

module _ (q : Queue) (n : ℕ) (bs : Bytes) (items : List (ℕ × Bytes))
    (l : Live q ((n, bs) ∷ items)) where
  head_lt : q.head < length q.buf
  head_lt = ground (arith, l.head_in, l.used_eq, l.fits)

  spelled_at :
      window (slot q.buf q.head) 0 (length (encode ((n, bs) ∷ items))) ≡ encode ((n, bs) ∷ items)
  unfolding content
  spelled_at =
      ap (window (slot q.buf q.head) 0) (length-encode ((n, bs) ∷ items) ∙ sym l.used_eq)
      ∙ l.spelled

  header_read : ring_read q.buf q.head 0 header_size ≡ header n bs
  header_read =
      ring_read-window q.buf q.head 0 header_size head_lt (omega (arith, l.used_eq, l.fits))
      ∙ ap (window (slot q.buf q.head) 0) (sym (length-header n bs))
      ∙ (window-split (slot q.buf q.head) (header n bs) (bs ++ encode items) 0 spelled_at).0

  pub head_sequence-Live : head_sequence q ≡ n
  unfolding head_sequence
  head_sequence-Live =
      ap (λ h. be_value 0 (take 8 h)) header_read
      ∙ ap (be_value 0) (take_be n bs)
      ∙ be_value-be_bytes 8 n l.sized.0.0

  pub head_length-Live : head_length q ≡ length bs
  unfolding head_length
  head_length-Live =
      ap (λ h. be_value 0 (drop 8 h)) header_read
      ∙ ap (be_value 0) (drop_be n bs)
      ∙ be_value-be_bytes 4 _ (mod-lt _ (omega arith))
      ∙ mod-eq_of_lt l.sized.0.1

  behind_header :
      window (slot q.buf q.head) (0 + length (header n bs)) (length (bs ++ encode items))
      ≡ bs ++ encode items
  behind_header =
      (window-split (slot q.buf q.head) (header n bs) (bs ++ encode items) 0 spelled_at).1

  behind_record :
      window (slot q.buf q.head) (0 + length (header n bs) + length bs) (length (encode items))
      ≡ encode items
  behind_record =
      (window-split (slot q.buf q.head) bs (encode items) (0 + length (header n bs))
        behind_header).1

  pub head_record-Live : head_record q ≡ bs
  unfolding head_record
  head_record-Live =
      ap (ring_read q.buf q.head header_size) head_length-Live
      ∙ ring_read-window q.buf q.head header_size (length bs) head_lt
          (omega (arith, l.used_eq, l.fits))
      ∙ ap (λ k. window (slot q.buf q.head) k (length bs)) (omega (arith, length-header n bs))
      ∙ (window-split (slot q.buf q.head) bs (encode items) (0 + length (header n bs))
          behind_header).0

  clear_content :
      content
        (ring_clear q.buf q.head (header_size + length bs))
        ((q.head + (header_size + length bs)) % length q.buf)
        (size items)
      ≡ encode items
  clear_content =
      content-ring_clear q.buf q.head (header_size + length bs) (size items) head_lt
        (omega (arith, l.used_eq, l.fits))
      ∙ window_at_eq (omega (arith, length-header n bs)) (sym (length-encode items))
      ∙ behind_record
    where
      window_at_eq :
          {a b c d : ℕ}
          → a ≡ b
          → c ≡ d
          → window (slot q.buf q.head) a c ≡ window (slot q.buf q.head) b d
      window_at_eq e e' = rw (e, e')

  left_eq : q.used - (header_size + length bs) ≡ size items
  left_eq = omega (arith, l.used_eq)

  advance_on :
      (q.used - (header_size + length bs) == 0) ≡ false
      → Live (advance (header_size + length bs) q) items
  unfolding advance
  advance_on more =
      let len = length-ring_clear q.buf q.head (header_size + length bs) in
      rw more (record {
        used_eq = left_eq;
        fits = rw len (omega (arith, l.fits));
        within = rw len l.within;
        head_in = inl (rw len (mod-lt _ (omega (arith, head_lt))));
        spelled = rw left_eq clear_content;
        sized = l.sized.1;
      })

  advance_to_start :
      (q.used - (header_size + length bs) == 0) ≡ true
      → Live (advance (header_size + length bs) q) items
  unfolding advance content window
  advance_to_start done =
      let len = length-ring_clear q.buf q.head (header_size + length bs) in
      let nothing : q.used - (header_size + length bs) ≡ 0 = (==_iff _ 0).0 done in
      rw done (record {
        used_eq = left_eq;
        fits = rw len (omega (arith, l.fits));
        within = rw len l.within;
        head_in = inr refl;
        spelled = rw nothing (encode-zero items (omega (arith, left_eq)));
        sized = l.sized.1;
      })

  pub advance-Live : Live (advance (header_size + head_length q) q) items
  advance-Live = rw head_length-Live (elim (Bool-cases (q.used - (header_size + length bs) == 0)) [
    | inl none_left ↦ advance_to_start none_left
    | inr more ↦ advance_on more
  ])
