-- ===== src/Queue/Header.antt =====
-- The header of a queued record: `binary.BigEndian`'s 64-bit sequence and 32-bit length.
use native.Mathlib.Nat.{pow-suc}
use libtmux_go.Base.{
  ℕ, zero, suc, ◌+◌, ◌*◌, ◌/◌, ◌%◌, ◌^◌, ◌<◌, ◌≡◌, refl, ap, ◌∙◌, [], ◌∷◌, ◌++◌, Bytes, length,
  length-append, arith,
}

-- The `n` low bytes of a number, the highest first: `PutUint64` at 8 and `PutUint32` at 4.
unfoldable pub be_bytes : ℕ → ℕ → Bytes
be_bytes zero v = []
be_bytes (suc n) v = be_bytes n (v / 256) ++ v % 256 ∷ []

-- `Uint64` and `Uint32`: the number that bytes spell behind `acc`.
unfoldable pub be_value : ℕ → Bytes → ℕ
be_value acc [] = acc
be_value acc (b ∷ bs) = be_value (acc * 256 + b) bs

pub length-be_bytes : (n v : ℕ) → length (be_bytes n v) ≡ n
unfolding be_bytes
length-be_bytes zero v = refl
length-be_bytes (suc n) v =
    omega (arith, length-append (be_bytes n (v / 256)) (v % 256 ∷ []), length-be_bytes n (v / 256))

be_value-append :
    (acc : ℕ) (xs : Bytes) (b : ℕ) → be_value acc (xs ++ b ∷ []) ≡ be_value acc xs * 256 + b
unfolding be_value
be_value-append acc [] b = refl
be_value-append acc (x ∷ xs) b = be_value-append (acc * 256 + x) xs b

-- What `PutUint` wrote is read back, if it fits.
pub be_value-be_bytes : (n v : ℕ) → v < 256 ^ n → be_value 0 (be_bytes n v) ≡ v
unfolding be_bytes be_value
be_value-be_bytes zero v h = omega arith
be_value-be_bytes (suc n) v h =
    be_value-append 0 (be_bytes n (v / 256)) (v % 256)
    ∙ ap (λ (x : ℕ). x * 256 + v % 256)
        (be_value-be_bytes n (v / 256) (omega (arith, pow-suc 256 n)))
    ∙ omega arith
