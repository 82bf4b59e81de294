-- ===== src/Version/Levels.antt =====
-- What Compare and AtLeast say, against an order that is written out part by part.
use libtmux_go.Base.{
  ◌<◌, ◌≡◌, ◌≢◌, ◌↔◌, refl, ap, sym, ◌∙◌, true, false, List, [], ◌∷◌, if◌then◌else◌, arith, inl,
  inr, ◌⊎◌,
}
use libtmux_go.Base.Int.{ℤ, pos, negsuc}
use libtmux_go.Version.{
  Version, less, same, greater, is_less, is_zero, compare_ranks, rank, compare, at_least,
}
use libtmux_go.Version.Order.{
  IsSameCore, flipped, compare_ranks-flipped, compare_ranks-cons, compare-stage,
}

-- The order of the integers.
abbrev pub IsBelow : ℤ → ℤ → Type 0
IsBelow (pos m) (pos n) = m < n
IsBelow (pos m) (negsuc n) = ⊥
IsBelow (negsuc m) (pos n) = Unit
IsBelow (negsuc m) (negsuc n) = n < m

-- A candidate comes before the release, whose number is 0, and before a candidate of a higher number.
abbrev pub IsEarlierCandidate : ℤ → ℤ → Type 0
IsEarlierCandidate c d = (c ≢ pos 0) × ((d ≡ pos 0) ⊎ ((d ≢ pos 0) × IsBelow c d))

-- Versions by the first of their five parts that differ, without a rank.
pub data IsBefore (v w : Version) : Type 0 where
  by_major : IsBelow v.major w.major → IsBefore v w
  by_minor : v.major ≡ w.major → IsBelow v.minor w.minor → IsBefore v w
  by_patch : v.major ≡ w.major → v.minor ≡ w.minor → IsBelow v.patch w.patch → IsBefore v w
  by_development : IsSameCore v w → IsBelow v.development w.development → IsBefore v w
  by_candidate :
      IsSameCore v w
      → v.development ≡ w.development
      → IsEarlierCandidate v.candidate w.candidate
      → IsBefore v w

abbrev pub IsSameLevel : Version → Version → Type 0
IsSameLevel v w = IsSameCore v w × (v.development ≡ w.development) × (v.candidate ≡ w.candidate)

IsBelow-cases : (x y : ℤ) → IsBelow x y ⊎ ((x ≡ y) ⊎ IsBelow y x)
IsBelow-cases (pos m) (pos n) = ground arith
IsBelow-cases (pos m) (negsuc n) = inr (inr tt)
IsBelow-cases (negsuc m) (pos n) = inl tt
IsBelow-cases (negsuc m) (negsuc n) = ground arith

is_less-IsBelow : (x y : ℤ) → IsBelow x y → is_less x y ≡ true
is_less-IsBelow (pos m) (pos n) h = ground arith
is_less-IsBelow (pos m) (negsuc n) h = absurd h
is_less-IsBelow (negsuc m) (pos n) h = refl
is_less-IsBelow (negsuc m) (negsuc n) h = ground arith

compare_ranks-first :
    (x y : ℤ) (xs ys : List ℤ) → IsBelow x y → compare_ranks (x ∷ xs) (y ∷ ys) ≡ less
unfolding compare_ranks
compare_ranks-first x y xs ys h = rw (is_less-IsBelow x y h) refl

is_zero-cases : (c : ℤ) → ((c ≡ pos 0) × (is_zero c ≡ true)) ⊎ ((c ≢ pos 0) × (is_zero c ≡ false))
is_zero-cases (pos n) = ground arith
is_zero-cases (negsuc n) = inr ((λ e. (let no : ⊥ = cc in no)), refl)

-- What is left of a rank behind the development.
abbrev ending : ℤ → List ℤ
ending c = (if is_zero c then pos 1 else pos 0) ∷ c ∷ []

compare_ranks-candidate :
    (c d : ℤ) → IsEarlierCandidate c d → compare_ranks (ending c) (ending d) ≡ less
unfolding compare_ranks
compare_ranks-candidate c d (unreleased, later) = elim (is_zero-cases c) [
  | inl (e, zero_there) ↦ absurd (unreleased e)
  | inr (ne, nonzero) ↦ elim later [
    | inl release ↦ rw (nonzero, release) refl
    | inr (other, below) ↦ elim (is_zero-cases d) [
      | inl (e, zero_there) ↦ absurd (other e)
      | inr (ne2, nonzero2) ↦ rw (nonzero, nonzero2) (compare_ranks-first c d [] [] below)
    ]
  ]
]

candidate-cases : (c d : ℤ) → IsEarlierCandidate c d ⊎ ((c ≡ d) ⊎ IsEarlierCandidate d c)
candidate-cases c d = elim (is_zero-cases c) [
  | inl (e, there) ↦ elim (is_zero-cases d) [
    | inl (e2, there2) ↦ inr (inl (e ∙ sym e2))
    | inr (ne2, there2) ↦ inr (inr (ne2, inl e))
  ]
  | inr (ne, there) ↦ elim (is_zero-cases d) [
    | inl (e2, there2) ↦ inl (ne, inl e2)
    | inr (ne2, there2) ↦ elim (IsBelow-cases c d) [
      | inl below ↦ inl (ne, inr (ne2, below))
      | inr (inl e) ↦ inr (inl e)
      | inr (inr above) ↦ inr (inr (ne2, inr (ne, above)))
    ]
  ]
]

compare-IsBefore : (v w : Version) → IsBefore v w → compare v w ≡ less
unfolding compare rank
compare-IsBefore v w (by_major h) = compare_ranks-first v.major w.major _ _ h
compare-IsBefore v w (by_minor a h) =
    compare_ranks-cons v.major w.major _ _ a ∙ compare_ranks-first v.minor w.minor _ _ h
compare-IsBefore v w (by_patch a b h) =
    compare_ranks-cons v.major w.major _ _ a
    ∙ compare_ranks-cons v.minor w.minor _ _ b
    ∙ compare_ranks-first v.patch w.patch _ _ h
compare-IsBefore v w (by_development core h) =
    compare-stage v w core ∙ compare_ranks-first v.development w.development _ _ h
compare-IsBefore v w (by_candidate core d h) =
    compare-stage v w core
    ∙ compare_ranks-cons v.development w.development _ _ d
    ∙ compare_ranks-candidate v.candidate w.candidate h

compare-IsAfter : (v w : Version) → IsBefore w v → compare v w ≡ greater
unfolding compare
compare-IsAfter v w h =
    compare_ranks-flipped (rank w) (rank v) ∙ ap flipped (compare-IsBefore w v h)

compare-IsSameLevel : (v w : Version) → IsSameLevel v w → compare v w ≡ same
unfolding compare_ranks
compare-IsSameLevel v w (core, d, c) =
    compare-stage v w core
    ∙ compare_ranks-cons v.development w.development (ending v.candidate) (ending w.candidate) d
    ∙ compare_ranks-cons _ _ (v.candidate ∷ []) (w.candidate ∷ [])
        (ap (λ n. if is_zero n then pos 1 else pos 0) c)
    ∙ compare_ranks-cons v.candidate w.candidate [] [] c

IsBefore-cases : (v w : Version) → IsBefore v w ⊎ (IsSameLevel v w ⊎ IsBefore w v)
IsBefore-cases v w = elim (IsBelow-cases v.major w.major) [
  | inl h ↦ inl (by_major h)
  | inr (inr h) ↦ inr (inr (by_major h))
  | inr (inl a) ↦ elim (IsBelow-cases v.minor w.minor) [
    | inl h ↦ inl (by_minor a h)
    | inr (inr h) ↦ inr (inr (by_minor (sym a) h))
    | inr (inl b) ↦ elim (IsBelow-cases v.patch w.patch) [
      | inl h ↦ inl (by_patch a b h)
      | inr (inr h) ↦ inr (inr (by_patch (sym a) (sym b) h))
      | inr (inl c) ↦ elim (IsBelow-cases v.development w.development) [
        | inl h ↦ inl (by_development (a, b, c) h)
        | inr (inr h) ↦ inr (inr (by_development (sym a, sym b, sym c) h))
        | inr (inl d) ↦ elim (candidate-cases v.candidate w.candidate) [
          | inl h ↦ inl (by_candidate (a, b, c) d h)
          | inr (inl e) ↦ inr (inl ((a, b, c), d, e))
          | inr (inr h) ↦ inr (inr (by_candidate (sym a, sym b, sym c) (sym d) h))
        ]
      ]
    ]
  ]
]

-- The results of a comparison, one for each of the ways in which two versions can stand.
pub record IsCompared (v w : Version) : Type 0 where
  pub less_iff : (compare v w ≡ less) ↔ IsBefore v w
  pub same_iff : (compare v w ≡ same) ↔ IsSameLevel v w
  pub greater_iff : (compare v w ≡ greater) ↔ IsBefore w v
  pub at_least_iff : (at_least v w ≡ true) ↔ (IsBefore v w → ⊥)

-- Compare says less exactly where the first version comes before the other by the first of the major,
-- minor, patch and development numbers and the candidate that differ, a candidate coming before a
-- candidate of a higher number and before the release; greater exactly where the other comes before it;
-- and same exactly where all five agree. AtLeast holds exactly where the first does not come before.
pub compare-IsCompared : (v w : Version) → IsCompared v w
unfolding at_least
compare-IsCompared v w = elim (IsBefore-cases v w) [
  | inl before ↦
      (let e = compare-IsBefore v w before in
        record {
          less_iff = (λ h. before, λ h. e);
          same_iff = (λ h. absurd (let no : ⊥ = cc in no), compare-IsSameLevel v w);
          greater_iff = (λ h. absurd (let no : ⊥ = cc in no), compare-IsAfter v w);
          at_least_iff = (
            λ h. absurd (let no : ⊥ = (let bad = rw e at h in cc) in no),
            λ h. absurd (h before),
          );
        })
  | inr (inl level) ↦
      (let e = compare-IsSameLevel v w level in
        record {
          less_iff = (λ h. absurd (let no : ⊥ = cc in no), compare-IsBefore v w);
          same_iff = (λ h. level, λ h. e);
          greater_iff = (λ h. absurd (let no : ⊥ = cc in no), compare-IsAfter v w);
          at_least_iff =
              (λ h b. (let f = compare-IsBefore v w b in let no : ⊥ = cc in no), λ h. rw e refl);
        })
  | inr (inr after) ↦
      (let e = compare-IsAfter v w after in
        record {
          less_iff = (λ h. absurd (let no : ⊥ = cc in no), compare-IsBefore v w);
          same_iff = (λ h. absurd (let no : ⊥ = cc in no), compare-IsSameLevel v w);
          greater_iff = (λ h. after, λ h. e);
          at_least_iff =
              (λ h b. (let f = compare-IsBefore v w b in let no : ⊥ = cc in no), λ h. rw e refl);
        })
]
