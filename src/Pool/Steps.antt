-- ===== src/Pool/Steps.antt =====
-- The pool among its callers as a step relation, and lemmas on what its lists hold.
use libtmux_go.Base.{
  ℕ, suc, ◌+◌, ◌≤◌, ◌≡◌, ◌≢◌, refl, ap, ◌⊎◌, inl, inr, Bool, Option, none, some, List, [], ◌∷◌,
  ◌++◌, length, ◌==◌, if◌then◌else◌, arith, Bool-cases,
}
use libtmux_go.Pool.{
  LanePool, Failure, Closing, remove, remove_closing, closes_last, new_pool, take, settle, release,
  finish_release, stop, adopt, retire,
}

-- How often a client stands in a list.
unfoldable pub count : ℕ → List ℕ → ℕ
count c [] = 0
count c (x ∷ xs) = (if x == c then 1 else 0) + count c xs

-- How often a client is being closed, and how many of those calls are to close `drained`.
unfoldable pub count_closing : ℕ → List Closing → ℕ
count_closing c [] = 0
count_closing c (e ∷ es) = (if e.client == c then 1 else 0) + count_closing c es

unfoldable pub count_last : List Closing → ℕ
count_last [] = 0
count_last (e ∷ es) = (if e.is_last then 1 else 0) + count_last es

-- A step of some caller, or of the goroutine that brings a lane back. A call of `acquire` takes a lane and
-- settles it later, and whether its context is done by then is open; what it asked before it took the lane
-- was about an earlier state. A call of `release` ends later for a client that it closes.
pub data Step {X : Type 0} : LanePool X → LanePool X → Type 0 where
  takes : (p q : LanePool X) (c : ℕ) → take p ≡ some (c, q) → Step p q
  settles :
      (p : LanePool X) (done : Bool) (c : ℕ) → 1 ≤ count c p.taken → Step p (settle done c p).1
  releases :
      (p : LanePool X) (c : ℕ) (outcome : Option (Failure X))
      → 1 ≤ count c p.held
      → Step p (release c outcome p)
  finishes : (p : LanePool X) (c : ℕ) → 1 ≤ count_closing c p.closings → Step p (finish_release c p)
  stops : (p : LanePool X) → Step p (stop p)
  adopts : (p : LanePool X) (c : ℕ) → Step p (adopt c p).1
  retires : (p : LanePool X) (c : ℕ) → Step p (retire c p)

-- The states that a pool with these clients comes to.
pub data Reach {X : Type 0} (clients : List ℕ) : LanePool X → Type 0 where
  start : Reach clients (new_pool clients)
  next : {p q : LanePool X} → Reach clients p → Step p q → Reach clients q

-- That no lane is lost or handed out twice: those that are free, taken or held are the live ones, and with those
-- that are being closed none is there more often than among the clients. While one is live, the pool is not
-- drained and no call is to drain it; when none is, either the pool is drained or exactly one call is to,
-- and there is a failure to report.
pub record IsSound {X : Type 0} (p : LanePool X) (clients : List ℕ) : Type 0 where
  pub counted : length p.free + length p.taken + length p.held ≡ p.live
  pub bounded : p.live + length p.closings ≤ length clients
  pub single :
      (c : ℕ)
      → count c p.free + count c p.taken + count c p.held + count_closing c p.closings
        ≤ count c clients
  pub drains :
      count_last p.closings + (if p.is_drained then 1 else 0) ≡ (if p.live == 0 then 1 else 0)
  pub reports : p.live ≡ 0 → p.failure ≢ none

pub count-append : (c : ℕ) (xs ys : List ℕ) → count c (xs ++ ys) ≡ count c xs + count c ys
unfolding count
count-append c [] ys = omega arith
count-append c (x ∷ xs) ys = ground (arith, count-append c xs ys)

pub count-remove :
    (c d : ℕ) (xs : List ℕ)
    → 1 ≤ count c xs
    → count d xs ≡ count d (remove c xs) + (if c == d then 1 else 0)
unfolding count remove
count-remove c d [] h = absurd (let no : ⊥ = omega (arith, h) in no)
count-remove c d (x ∷ xs) h = elim (Bool-cases (x == c)) [
  | inl here ↦ ground (arith, here)
  | inr behind ↦ ground (arith, behind, count-remove c d xs (ground (arith, h, behind)))
]

pub length-remove : (c : ℕ) (xs : List ℕ) → 1 ≤ count c xs → length xs ≡ suc (length (remove c xs))
unfolding count remove
length-remove c [] h = absurd (let no : ⊥ = omega (arith, h) in no)
length-remove c (x ∷ xs) h = elim (Bool-cases (x == c)) [
  | inl here ↦ rw here refl
  | inr behind ↦ rw behind (ap suc (length-remove c xs (ground (arith, h, behind))))
]

-- A call that ends takes its own entry out, and what it is to do with it.
pub count_closing-remove :
    (c d : ℕ) (es : List Closing) → count_closing d (remove_closing c es) ≤ count_closing d es
unfolding count_closing remove_closing
count_closing-remove c d [] = omega arith
count_closing-remove c d (e ∷ es) = ground (arith, count_closing-remove c d es)

pub length-remove_closing : (c : ℕ) (es : List Closing) → length (remove_closing c es) ≤ length es
unfolding remove_closing
length-remove_closing c [] = omega arith
length-remove_closing c (e ∷ es) = ground (arith, length-remove_closing c es)

pub count_last-remove :
    (c : ℕ) (es : List Closing)
    → count_last es ≡ (if closes_last c es then 1 else 0) + count_last (remove_closing c es)
unfolding count_last remove_closing closes_last
count_last-remove c [] = omega arith
count_last-remove c (e ∷ es) = ground (arith, count_last-remove c es)

pub List-cases : (xs : List ℕ) → (xs ≡ []) ⊎ ((x : ℕ) × (rest : List ℕ) × (xs ≡ x ∷ rest))
List-cases [] = inl refl
List-cases (x ∷ rest) = inr (x, rest, refl)
