-- ===== src/Command/Diagnoses.antt =====
-- The words that the code looks for in what a command prints, as parts of a line.
use libtmux_go.Base.{
  ℕ, ◌≡◌, ◌↔◌, ◌⊎◌, inl, inr, refl, ap, sym, ◌∙◌, Bool, true, false, ◌||◌, List, [], ◌∷◌, ◌++◌,
  Bytes, codes, bytes_eq, bytes_eq_iff, ap₂, append-nil, arith,
}
use libtmux_go.Text.{has_prefix, has_suffix, contains}
use libtmux_go.Command.{
  any_line, unreachable_prefixes, unreachable_suffixes, gone_messages, fixed_refusals,
  target_objects, is_unreachable, is_fixed_refusal, is_target_not_found,
}

-- A line as the words and what stands around them.
abbrev pub StartsWith : Bytes → Bytes → Type 0
StartsWith line words = (back : Bytes) × (line ≡ words ++ back)

abbrev pub EndsWith : Bytes → Bytes → Type 0
EndsWith line words = (front : Bytes) × (line ≡ front ++ words)

abbrev pub Holds : Bytes → Bytes → Type 0
Holds line words = (front : Bytes) × (back : Bytes) × (line ≡ front ++ words ++ back)

abbrev pub Some : {A : Type 0} → (A → Type 0) → List A → Type 0
Some P [] = ⊥
Some P (x ∷ xs) = P x ⊎ Some P xs

-- What the client prints where it comes to no server, or the server has gone.
abbrev pub IsUnreachable : Bytes → Type 0
IsUnreachable line =
    (Some (StartsWith line) unreachable_prefixes ⊎ Some (EndsWith line) unreachable_suffixes)
    ⊎ Some (λ words. line ≡ words) gone_messages

abbrev pub IsFixedRefusal : Bytes → Type 0
IsFixedRefusal line = Some (Holds line) fixed_refusals

abbrev pub IsTargetMissing : Bytes → Type 0
IsTargetMissing line =
    Some
      (λ object.
        Holds line (codes "can't find " ++ (object ++ b':' ∷ []))
        ⊎ EndsWith line (codes "can't find " ++ object))
      target_objects

List-cases : (xs : Bytes) → (xs ≡ []) ⊎ ((x : ℕ) × (rest : Bytes) × (xs ≡ x ∷ rest))
List-cases [] = inl refl
List-cases (x ∷ rest) = inr (x, rest, refl)

or_iff :
    (b c : Bool) {P Q : Type 0} → ((b ≡ true) ↔ P) → ((c ≡ true) ↔ Q) → ((b || c) ≡ true) ↔ (P ⊎ Q)
or_iff true c f g = (λ h. inl (f.0 refl), λ h. refl)
or_iff false c f g = (
  λ h. inr (g.0 h),
  λ h. elim h [ inl p ↦ absurd (let no : ⊥ = (let bad = f.1 p in cc) in no) | inr q ↦ g.1 q ],
)

any_line_iff :
    (test : Bytes → Bool) (P : Bytes → Type 0) (lines : List Bytes)
    → ((line : Bytes) → (test line ≡ true) ↔ P line)
    → (any_line test lines ≡ true) ↔ Some P lines
any_line_iff test P [] h = (λ e. (let no : ⊥ = cc in no), λ bad. absurd bad)
any_line_iff test P (line ∷ lines) h =
    or_iff (test line) (any_line test lines) (h line) (any_line_iff test P lines h)

pub has_prefix_iff : (s p : Bytes) → (has_prefix s p ≡ true) ↔ StartsWith s p
unfolding has_prefix
has_prefix_iff s [] = (λ h. (s, refl), λ h. refl)
has_prefix_iff [] (c ∷ p) = (λ h. absurd (let no : ⊥ = cc in no), λ (back, e). cc)
has_prefix_iff (d ∷ s) (c ∷ p) = (
  λ h.
      (let (back, e) = (has_prefix_iff s p).0 (ground (arith, h)) in
        let same : d ≡ c = ground (arith, h) in (back, ap₂ (λ a b. a ∷ b) same e)),
  λ (back, e).
      (let same : d ≡ c = cc in
        let behind : s ≡ p ++ back = cc in
        ground (arith, same, (has_prefix_iff s p).1 (back, behind))),
)

has_suffix_iff : (s p : Bytes) → (has_suffix s p ≡ true) ↔ EndsWith s p
unfolding has_suffix
has_suffix_iff [] p = (
  λ h. ([], (bytes_eq_iff [] p).0 h),
  λ (front, e). elim (List-cases front) [
    | inl nothing ↦ (bytes_eq_iff [] p).1 (e ∙ ap (λ f. f ++ p) nothing)
    | inr (x, rest, first) ↦
        absurd (let no : ⊥ = (let bad = e ∙ ap (λ f. f ++ p) first in cc) in no)
  ],
)
has_suffix_iff (c ∷ s) p = (
  λ h.
      elim ((or_iff (bytes_eq (c ∷ s) p) (has_suffix s p) (bytes_eq_iff (c ∷ s) p)
          (has_suffix_iff s p)).0
        h) [ inl whole ↦ ([], whole) | inr (front, e) ↦ (c ∷ front, ap (λ u. c ∷ u) e) ],
  λ (front, e).
      (or_iff (bytes_eq (c ∷ s) p) (has_suffix s p) (bytes_eq_iff (c ∷ s) p) (has_suffix_iff s p)).1
        (elim (List-cases front) [
          | inl nothing ↦ inl (e ∙ ap (λ f. f ++ p) nothing)
          | inr (x, rest, first) ↦
              (let whole = e ∙ ap (λ f. f ++ p) first in
                let behind : s ≡ rest ++ p = cc in inr (rest, behind))
        ]),
)

contains_iff : (s p : Bytes) → (contains s p ≡ true) ↔ Holds s p
unfolding contains
contains_iff [] p = (
  λ h. ([], [], (bytes_eq_iff [] p).0 h ∙ sym (append-nil p)),
  λ (front, back, e). elim (List-cases front) [
    | inr (x, rest, first) ↦
        absurd (let no : ⊥ = (let bad = e ∙ ap (λ f. f ++ p ++ back) first in cc) in no)
    | inl nothing ↦ elim (List-cases p) [
      | inl no_words ↦ (bytes_eq_iff [] p).1 (sym no_words)
      | inr (x, rest, first) ↦
          absurd
            (let no : ⊥ = (let bad = e ∙ ap₂ (λ f q. f ++ q ++ back) nothing first in cc) in no)
    ]
  ],
)
contains_iff (c ∷ s) p = (
  λ h.
      elim ((or_iff (has_prefix (c ∷ s) p) (contains s p) (has_prefix_iff (c ∷ s) p)
          (contains_iff s p)).0
        h) [
          | inl (back, e) ↦ ([], back, e)
          | inr (front, back, e) ↦ (c ∷ front, back, ap (λ u. c ∷ u) e)
        ],
  λ (front, back, e).
      (or_iff (has_prefix (c ∷ s) p) (contains s p) (has_prefix_iff (c ∷ s) p) (contains_iff s p)).1
        (elim (List-cases front) [
          | inl nothing ↦ inl (back, e ∙ ap (λ f. f ++ p ++ back) nothing)
          | inr (x, rest, first) ↦
              (let whole = e ∙ ap (λ f. f ++ p ++ back) first in
                let behind : s ≡ rest ++ p ++ back = cc in inr (rest, back, behind))
        ]),
)

pub is_unreachable_iff :
    (lines : List Bytes) → (is_unreachable lines ≡ true) ↔ Some IsUnreachable lines
unfolding is_unreachable
is_unreachable_iff lines = any_line_iff _ IsUnreachable lines (λ line.
    or_iff _ _
      (or_iff _ _
        (any_line_iff (has_prefix line) (StartsWith line) unreachable_prefixes
          (has_prefix_iff line))
        (any_line_iff (has_suffix line) (EndsWith line) unreachable_suffixes (has_suffix_iff line)))
      (any_line_iff (bytes_eq line) (λ w. line ≡ w) gone_messages (bytes_eq_iff line)))

pub is_fixed_refusal_iff :
    (lines : List Bytes) → (is_fixed_refusal lines ≡ true) ↔ Some IsFixedRefusal lines
unfolding is_fixed_refusal
is_fixed_refusal_iff lines =
    any_line_iff _ IsFixedRefusal lines
      (λ line. any_line_iff (contains line) (Holds line) fixed_refusals (contains_iff line))

pub is_target_not_found_iff :
    (lines : List Bytes) → (is_target_not_found lines ≡ true) ↔ Some IsTargetMissing lines
unfolding is_target_not_found
is_target_not_found_iff lines = any_line_iff _ IsTargetMissing lines (λ line.
    any_line_iff _ _ target_objects (λ object.
      or_iff _ _ (contains_iff line (codes "can't find " ++ (object ++ b':' ∷ [])))
        (has_suffix_iff line (codes "can't find " ++ object))))
