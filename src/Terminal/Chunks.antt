-- ===== src/Terminal/Chunks.antt =====
-- The text does not depend on how the bytes are cut into chunks.

use libtmux_go.Base.{
  ℕ, zero, suc, ◌+◌, ◌≤◌, ◌≡◌, refl, ap, sym, ◌∙◌, inl, inr, Bool, true, false, [], ◌∷◌, ◌++◌,
  append_assoc, append-nil, take, drop, Bytes, length, length-append, length-drop, ltb,
  if◌then◌else◌, arith, Bool-cases,
}
use libtmux_go.Terminal.{
  Machine, Normalizer, fill, append_pending, append_front, chunk_loop, pending_loop, append_chunk,
}
use libtmux_go.Terminal.Runes.{
  is_full, decode, is_full-append, decode-append, decode-size, partial-length, ascii-is_full,
  ascii-decode, one_byte-error,
}

take-front : (n : ℕ) (p q : Bytes) → n ≤ length p → take n (p ++ q) ≡ take n p
take-front zero p q h = refl
take-front (suc n) [] q h = absurd (let no : ⊥ = omega (arith, h) in no)
take-front (suc n) (c ∷ p) q h = ap (◌∷◌ c) (take-front n p q (omega (arith, h)))

drop-front : (n : ℕ) (p q : Bytes) → n ≤ length p → drop n (p ++ q) ≡ drop n p ++ q
drop-front zero p q h = refl
drop-front (suc n) [] q h = absurd (let no : ⊥ = omega (arith, h) in no)
drop-front (suc n) (c ∷ p) q h = drop-front n p q (omega (arith, h))

take_all : (n : ℕ) (p : Bytes) → length p ≤ n → take n p ≡ p
take_all zero [] h = refl
take_all zero (c ∷ p) h = absurd (let no : ⊥ = omega (arith, h) in no)
take_all (suc n) [] h = refl
take_all (suc n) (c ∷ p) h = ap (◌∷◌ c) (take_all n p (omega (arith, h)))

module _ (is_print : ℕ → Bool) where
  -- All the bytes together, rune by rune, until those that are left begin no full rune.
  unfoldable drain : ℕ → Machine → Bytes → Bytes → Normalizer × Bytes
  drain zero m dst p = (record { machine = m; pending = p }, dst)
  drain (suc fuel) m dst p =
      let next = append_pending is_print m dst p in
      let rest = drain fuel (next.0) (next.1) (drop (decode p).size p) in
      if is_full p then rest else (record { machine = m; pending = p }, dst)

  pub smaller :
      (p : Bytes) (n : ℕ)
      → is_full p ≡ true
      → length p ≤ suc n
      → length (drop (decode p).size p) ≤ n
  smaller p n full h =
      let (some_byte, inside) = decode-size p full in
      omega (arith, length-drop (decode p).size p, some_byte, inside, h)

  drain_fuel :
      (f g : ℕ) (m : Machine) (dst p : Bytes)
      → length p ≤ f
      → length p ≤ g
      → drain f m dst p ≡ drain g m dst p
  unfolding drain is_full
  drain_fuel zero zero m dst p hf hg = refl
  drain_fuel zero (suc g) m dst [] hf hg = refl
  drain_fuel zero (suc g) m dst (c ∷ p) hf hg = absurd (let no : ⊥ = omega (arith, hf) in no)
  drain_fuel (suc f) zero m dst [] hf hg = refl
  drain_fuel (suc f) zero m dst (c ∷ p) hf hg = absurd (let no : ⊥ = omega (arith, hg) in no)
  drain_fuel (suc f) (suc g) m dst p hf hg = elim (Bool-cases (is_full p)) [
    | inl full ↦
        rw full
          (drain_fuel f g _ _ (drop (decode p).size p) (smaller p f full hf) (smaller p g full hg))
    | inr partial ↦ rw partial refl
  ]

  -- The same with fuel for all of it.
  unfoldable pub run : Machine → Bytes → Bytes → Normalizer × Bytes
  unfolding drain
  run m dst p = drain (length p) m dst p

  pub run_full :
      (m : Machine) (dst p : Bytes)
      → is_full p ≡ true
      → run m dst p
        ≡ run
            ((append_pending is_print m dst p).0)
            ((append_pending is_print m dst p).1)
            (drop (decode p).size p)
  unfolding run drain is_full
  run_full m dst [] full = cc
  run_full m dst (c ∷ p) full =
      rw (full, drain)
        (drain_fuel (length p) _ _ _ (drop (decode (c ∷ p)).size (c ∷ p))
          (smaller (c ∷ p) (length p) full (omega arith)) (omega arith))

  pub run_partial :
      (m : Machine) (dst p : Bytes)
      → is_full p ≡ false
      → run m dst p ≡ (record { machine = m; pending = p }, dst)
  unfolding run drain
  run_partial m dst [] partial = refl
  run_partial m dst (c ∷ p) partial = rw (partial, drain) refl

  -- A rune in front is not changed by the bytes behind it.
  append_pending-append :
      (m : Machine) (dst p q : Bytes)
      → is_full p ≡ true
      → append_pending is_print m dst (p ++ q) ≡ append_pending is_print m dst p
  unfolding is_full
  append_pending-append m dst [] q full = cc
  append_pending-append m dst (c ∷ p) q full =
      let (some_byte, inside) = decode-size (c ∷ p) full in
      rw (decode-append (c ∷ p) q full, take-front (decode (c ∷ p)).size (c ∷ p) q inside) refl

  run_full-append :
      (m : Machine) (dst a b : Bytes)
      → is_full a ≡ true
      → run m dst (a ++ b)
        ≡ run
            ((append_pending is_print m dst a).0)
            ((append_pending is_print m dst a).1)
            (drop (decode a).size a ++ b)
  run_full-append m dst a b full =
      let next = append_pending is_print m dst a in
      let (some_byte, inside) = decode-size a full in
      run_full m dst (a ++ b) (is_full-append a b full)
      ∙ ap (λ d. run (d.0) (d.1) (drop (decode (a ++ b)).size (a ++ b)))
          (append_pending-append m dst a b full)
      ∙ ap (run (next.0) (next.1)) (
          ap (λ r. drop r.size (a ++ b)) (decode-append a b full)
          ∙ drop-front (decode a).size a b inside)

  -- The whole is what the front gives, and then the rest behind what the front leaves.
  run-append :
      (n : ℕ) (m : Machine) (dst a b : Bytes)
      → length a ≤ n
      → run m dst (a ++ b)
        ≡ run ((run m dst a).0).machine ((run m dst a).1) (((run m dst a).0).pending ++ b)
  unfolding run drain
  run-append zero m dst [] b h = refl
  run-append zero m dst (c ∷ a) b h = absurd (let no : ⊥ = omega (arith, h) in no)
  run-append (suc n) m dst a b h = elim (Bool-cases (is_full a)) [
    | inr partial ↦
        ap (λ d. run ((d.0).machine) (d.1) ((d.0).pending ++ b)) (sym (run_partial m dst a partial))
    | inl full ↦
        (run_full-append m dst a b full
          ∙ run-append n _ _ (drop (decode a).size a) b (smaller a n full h)
          ∙ ap (λ d. run ((d.0).machine) (d.1) ((d.0).pending ++ b)) (sym (run_full m dst a full)))
  ]

  fill-append :
      (pending chunk : Bytes) → (fill pending chunk).0 ++ (fill pending chunk).1 ≡ pending ++ chunk
  unfolding fill
  fill-append pending [] = append-nil pending ∙ sym (append-nil pending)
  fill-append pending (c ∷ chunk) = elim (Bool-cases (is_full pending)) [
    | inl full ↦ rw full refl
    | inr partial ↦
        rw partial (fill-append (pending ++ c ∷ []) chunk ∙ append_assoc pending (c ∷ []) chunk)
  ]

  fill_partial :
      (pending chunk : Bytes) → is_full (fill pending chunk).0 ≡ false → (fill pending chunk).1 ≡ []
  unfolding fill
  fill_partial pending [] h = refl
  fill_partial pending (c ∷ chunk) h = elim (Bool-cases (is_full pending)) [
    | inl full ↦ absurd (let no : ⊥ = (let bad = rw (full, fill) at h in cc) in no)
    | inr partial ↦ rw partial (fill_partial (pending ++ c ∷ []) chunk (rw (partial, fill) at h))
  ]

  append_front-pending :
      (m : Machine) (dst : Bytes) (c : ℕ) (s : Bytes)
      → ltb c 0x80 ≡ false
      → append_front is_print m dst (c ∷ s) ≡ append_pending is_print m dst (c ∷ s)
  append_front-pending m dst c s h = rw (one_byte-error c s h) refl

  chunk_loop-run :
      (fuel : ℕ) (m : Machine) (dst p : Bytes)
      → length p ≤ fuel
      → chunk_loop is_print fuel m dst p ≡ run m dst p
  unfolding chunk_loop is_full
  chunk_loop-run fuel m dst [] h = sym (run_partial m dst [] refl)
  chunk_loop-run zero m dst (c ∷ p) h = absurd (let no : ⊥ = omega (arith, h) in no)
  chunk_loop-run (suc fuel) m dst (c ∷ p) h = elim (Bool-cases (ltb c 0x80)) [
    | inl ascii ↦ rw ascii (
        chunk_loop-run fuel _ _ p (omega (arith, h))
        ∙ sym (run_full m dst (c ∷ p) (ascii-is_full c p ascii) ∙ rw (ascii-decode c p ascii) refl))
    | inr long ↦ elim (Bool-cases (is_full (c ∷ p))) [
      | inl full ↦
          rw (long, full)
            (chunk_loop-run fuel _ _ (drop (decode (c ∷ p)).size (c ∷ p))
                (smaller (c ∷ p) fuel full h)
              ∙ ap (λ d. run (d.0) (d.1) (drop (decode (c ∷ p)).size (c ∷ p)))
                  (append_front-pending m dst c p long)
              ∙ sym (run_full m dst (c ∷ p) full))
      | inr partial ↦
          rw (long, partial)
            (ap (λ u. (record { machine = m; pending = u }, dst))
                (take_all 4 (c ∷ p) (omega (arith, partial-length (c ∷ p) partial)))
              ∙ sym (run_partial m dst (c ∷ p) partial))
    ]
  ]

  pending_loop-run :
      (fuel : ℕ) (m : Machine) (dst pending chunk : Bytes)
      → length pending + length chunk ≤ fuel
      → pending_loop is_print fuel m dst pending chunk ≡ run m dst (pending ++ chunk)
  unfolding pending_loop
  pending_loop-run fuel m dst [] chunk h = chunk_loop-run (length chunk) m dst chunk (omega arith)
  pending_loop-run zero m dst (p ∷ pending) chunk h = absurd (let no : ⊥ = omega (arith, h) in no)
  pending_loop-run (suc fuel) m dst (p ∷ pending) chunk h =
      let front = (fill (p ∷ pending) chunk).0 in
      let back = (fill (p ∷ pending) chunk).1 in
      let same = fill-append (p ∷ pending) chunk in
      elim (Bool-cases (is_full front)) [
        | inr partial ↦ rw partial (
            sym (run_partial m dst front partial)
            ∙ ap (run m dst) (
                sym (append-nil front)
                ∙ ap (◌++◌ front) (sym (fill_partial (p ∷ pending) chunk partial))
                ∙ same))
        | inl full ↦
            (let total : length front + length back ≡ suc (length pending) + length chunk =
                sym (length-append front back)
                ∙ ap length same
                ∙ length-append (p ∷ pending) chunk in
              let (some_byte, inside) = decode-size front full in
              let left = length-drop (decode front).size front in
              rw full (
                pending_loop-run fuel _ _ (drop (decode front).size front) back
                  (omega (arith, total, some_byte, inside, left, h))
                ∙ sym (run_full-append m dst front back full)
                ∙ ap (run m dst) same))
      ]

  pub append_chunk-run :
      (n : Normalizer) (dst chunk : Bytes)
      → append_chunk is_print n dst chunk ≡ run n.machine dst (n.pending ++ chunk)
  unfolding append_chunk
  append_chunk-run n dst chunk =
      pending_loop-run (length n.pending + length chunk) n.machine dst n.pending chunk (omega arith)

  -- A chunk that is given in two parts, one after the other, gives the same text as the chunk in one, and
  -- leaves the same normalizer, wherever it is cut: within an escape sequence, or within a character.
  pub append_chunk-append :
      (n : Normalizer) (dst a b : Bytes)
      → append_chunk is_print
          ((append_chunk is_print n dst a).0)
          ((append_chunk is_print n dst a).1)
          b
        ≡ append_chunk is_print n dst (a ++ b)
  append_chunk-append n dst a b =
      ap (λ d. append_chunk is_print (d.0) (d.1) b) (append_chunk-run n dst a)
      ∙ append_chunk-run _ _ b
      ∙ sym (run-append (length (n.pending ++ a)) n.machine dst (n.pending ++ a) b (omega arith))
      ∙ ap (run n.machine dst) (append_assoc n.pending a b)
      ∙ sym (append_chunk-run n dst (a ++ b))
