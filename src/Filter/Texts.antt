-- ===== src/Filter/Texts.antt =====
-- Text criteria are found possible exactly where a text meets them, or where no text is given.

use libtmux_go.Base.{
  ◌≡◌, ◌↔◌, refl, ap, ap₂, sym, ◌∙◌, ◌⊎◌, inl, inr, Bool, true, false, ◌&&◌, ◌||◌, Option, none,
  some, List, [], ◌∷◌, Bytes, length, bytes_eq, bytes_eq_iff, bytes_eq_refl, ◌==◌, ==_iff,
  Bool-cases, Option-cases,
}
use libtmux_go.Text.{contains}
use libtmux_go.Filter.{
  any, holds, exact_in_possible, TextCriteria, is_candidate, any_candidate, text_possible,
}
use libtmux_go.Filter.Ranges.{both}
use libtmux_go.Filter.Ints.{Within, holds-Within}

any_iff :
    (f : Bytes → Bool) (ts : List Bytes)
    → (any f ts ≡ true) ↔ ((t : Bytes) × (any (bytes_eq t) ts ≡ true) × (f t ≡ true))
any_iff f ts = (found ts, λ (t, there, met). member t ts there met)
  where
    found :
        (ts : List Bytes)
        → any f ts ≡ true
        → (t : Bytes) × (any (bytes_eq t) ts ≡ true) × (f t ≡ true)
    found [] h = cc
    found (x ∷ xs) h = elim (Bool-cases (f x)) [
      | inl here ↦ (x, rw (bytes_eq_refl x) refl, here)
      | inr behind ↦
          (let (t, there, met) = found xs (rw behind at h) in
            (
              t,
              elim (bytes_eq t x) as (λ b. (b || any (bytes_eq t) xs) ≡ true) [
                | true ↦ refl
                | false ↦ there
              ],
              met,
            ))
    ]

    member :
        (t : Bytes) (ts : List Bytes) → any (bytes_eq t) ts ≡ true → f t ≡ true → any f ts ≡ true
    member t [] there met = cc
    member t (x ∷ xs) there met = elim (Bool-cases (bytes_eq t x)) [
      | inl here ↦ rw (ap f (sym ((bytes_eq_iff t x).0 here)) ∙ met) refl
      | inr behind ↦
          (let rest = member t xs (rw behind at there) met in
            elim (f x) as (λ b. (b || any f xs) ≡ true) [ true ↦ refl | false ↦ rest ])
    ]

only : (t e : Bytes) → any (bytes_eq t) (e ∷ []) ≡ true → t ≡ e
only t e h = elim (Bool-cases (bytes_eq t e)) [
  | inl same ↦ (bytes_eq_iff t e).0 same
  | inr differs ↦ absurd (let no : ⊥ = (let bad = rw differs at h in cc) in no)
]

one : (t e : Bytes) → t ≡ e → any (bytes_eq t) (e ∷ []) ≡ true
one t e h = rw ((bytes_eq_iff t e).1 h) refl

module _ (compile : Bytes → Option (Bytes → Bool)) where
  -- A text that meets every criterion: an empty pattern is none, and one that does not compile is met
  -- by no text.
  pub record IsTextMatch (c : TextCriteria) (t : Bytes) : Type 0 where
    is_exact : Within c.exact (λ x. t ≡ x)
    is_value : Within c.values (λ xs. any (bytes_eq t) xs ≡ true)
    holds_contained : Within c.contained (λ x. contains t x ≡ true)
    meets_pattern :
        (length c.pattern ≡ 0) ⊎ ((f : Bytes → Bool) × (compile c.pattern ≡ some f) × (f t ≡ true))

  abbrev Meets : TextCriteria → Bytes → Type 0
  Meets c t =
      Within c.contained (λ x. contains t x ≡ true)
      × ((length c.pattern ≡ 0)
          ⊎ ((f : Bytes → Bool) × (compile c.pattern ≡ some f) × (f t ≡ true)))

  any_candidate_iff :
      (c : TextCriteria) (ts : List Bytes)
      → (any_candidate compile c ts ≡ true)
        ↔ ((t : Bytes) × (any (bytes_eq t) ts ≡ true) × Meets c t)
  unfolding any_candidate
  any_candidate_iff c ts = (found, λ (t, there, meets_all). passes t there meets_all)
    where
      contained :
          (t : Bytes)
          → (holds (contains t) c.contained ≡ true) ↔ Within c.contained (λ x. contains t x ≡ true)
      contained t =
          holds-Within (contains t) (λ x. contains t x ≡ true) c.contained (λ x. (λ h. h, λ h. h))

      found :
          any_candidate compile c ts ≡ true → (t : Bytes) × (any (bytes_eq t) ts ≡ true) × Meets c t
      found h = elim (Bool-cases (length c.pattern == 0)) [
        | inl is_empty ↦
            (let (t, there, met) =
                (any_iff (is_candidate compile c none) ts).0 (rw (is_empty, any_candidate) at h) in
              (
                t,
                there,
                (
                  (contained t).0 ((both _ _ met).0),
                  inl ((==_iff (length c.pattern) 0).0 is_empty),
                ),
              ))
        | inr not_empty ↦ elim (Option-cases (compile c.pattern)) [
          | inl malformed ↦
              absurd
                (let no : ⊥ = (let bad = rw (not_empty, malformed, any_candidate) at h in cc) in no)
          | inr (f, compiled) ↦
              (let (t, there, met) =
                  (any_iff (is_candidate compile c (some f)) ts).0
                    (rw (not_empty, compiled, any_candidate) at h) in
                let (has, passed) = both _ _ met in
                (t, there, ((contained t).0 has, inr (f, compiled, passed))))
        ]
      ]

      passes :
          (t : Bytes) → any (bytes_eq t) ts ≡ true → Meets c t → any_candidate compile c ts ≡ true
      passes t there (has, (inl is_empty)) =
          let candidate =
            (any_iff (is_candidate compile c none) ts).1
              (t, there, ap₂ ◌&&◌ ((contained t).1 has) refl) in
          rw (is_empty, any_candidate) candidate
      passes t there (has, (inr (f, compiled, met))) =
          let plain =
            (any_iff (is_candidate compile c none) ts).1
              (t, there, ap₂ ◌&&◌ ((contained t).1 has) refl) in
          let candidate =
            (any_iff (is_candidate compile c (some f)) ts).1
              (t, there, ap₂ ◌&&◌ ((contained t).1 has) met) in
          elim (Bool-cases (length c.pattern == 0)) [
            | inl is_empty ↦ rw (is_empty, any_candidate) plain
            | inr not_empty ↦ rw (not_empty, compiled, any_candidate) candidate
          ]

  abbrev with_lists : Option Bytes → Option (List Bytes) → TextCriteria → TextCriteria
  with_lists e vs c = record c { exact = e; values = vs }

  possible-match :
      (e : Option Bytes) (vs : Option (List Bytes)) (c : TextCriteria)
      → text_possible compile (with_lists e vs c) ≡ true
      → ((e ≡ none) × (vs ≡ none)) ⊎ ((t : Bytes) × IsTextMatch (with_lists e vs c) t)
  unfolding text_possible exact_in_possible
  possible-match none none c h = inl (refl, refl)
  possible-match none (some vs) c h =
      let (t, there, (has, matched)) = (any_candidate_iff (with_lists none (some vs) c) vs).0 h in
      inr (
        t,
        record { is_exact = tt; is_value = there; holds_contained = has; meets_pattern = matched },
      )
  possible-match (some e) none c h =
      let (t, there, (has, matched)) =
        (any_candidate_iff (with_lists (some e) none c) (e ∷ [])).0 h in
      inr (
        t,
        record {
          is_exact = only t e there;
          is_value = tt;
          holds_contained = has;
          meets_pattern = matched;
        },
      )
  possible-match (some e) (some vs) c h = elim (Bool-cases (any (bytes_eq e) vs)) [
    | inr absent ↦ absurd (let no : ⊥ = (let bad = rw absent at h in cc) in no)
    | inl listed ↦
        (let (t, there, (has, matched)) =
            (any_candidate_iff (with_lists (some e) (some vs) c) (e ∷ [])).0 (rw listed at h) in
          let same = only t e there in
          inr (
            t,
            record {
              is_exact = same;
              is_value = ap (λ u. any (bytes_eq u) vs) same ∙ listed;
              holds_contained = has;
              meets_pattern = matched;
            },
          ))
  ]

  match-possible :
      (e : Option Bytes) (vs : Option (List Bytes)) (c : TextCriteria) (t : Bytes)
      → IsTextMatch (with_lists e vs c) t
      → text_possible compile (with_lists e vs c) ≡ true
  unfolding text_possible exact_in_possible
  match-possible none none c t m = refl
  match-possible none (some vs) c t m =
      (any_candidate_iff (with_lists none (some vs) c) vs).1
        (t, m.is_value, (m.holds_contained, m.meets_pattern))
  match-possible (some e) none c t m =
      (any_candidate_iff (with_lists (some e) none c) (e ∷ [])).1
        (t, one t e m.is_exact, (m.holds_contained, m.meets_pattern))
  match-possible (some e) (some vs) c t m =
      rw (ap (λ u. any (bytes_eq u) vs) (sym m.is_exact) ∙ m.is_value) (
        (any_candidate_iff (with_lists (some e) (some vs) c) (e ∷ [])).1
          (t, one t e m.is_exact, (m.holds_contained, m.meets_pattern)))

  -- Text criteria are found possible exactly where neither an exact text nor a list of texts is given,
  -- or some text meets them all: it is the exact one and a listed one, where these are given, holds the
  -- text that it is to contain, and matches the pattern.
  pub text_possible_iff :
      (c : TextCriteria)
      → (text_possible compile c ≡ true)
        ↔ (((c.exact ≡ none) × (c.values ≡ none)) ⊎ ((t : Bytes) × IsTextMatch c t))
  unfolding text_possible exact_in_possible
  text_possible_iff c = (
    possible-match c.exact c.values c,
    λ h. elim h [
      | inl (no_exact, no_values) ↦ rw (no_exact, no_values) refl
      | inr (t, m) ↦ match-possible c.exact c.values c t m
    ],
  )
