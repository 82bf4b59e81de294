-- ===== src/Filter.antt =====
-- tmux/filter.go: the lookups and criteria that the generated filters share. A value of type int is
-- written as its distance from the least int, so that the greatest is 2 ^ 64 - 1.
pub mod Ints
pub mod Ranges
pub mod Texts
pub mod Lookups
pub mod Tests
use mathlib.Core.Bool.{not}
use libtmux_go.Base.{
  ℕ, suc, ◌+◌, ◌-◌, ◌^◌, Bool, true, false, ◌&&◌, ◌||◌, Option, none, some, List, [], ◌∷◌, Bytes,
  codes, length, bytes_eq, ltb, leb, ◌==◌, if◌then◌else◌,
}
use libtmux_go.Base.Int.{ℤ}
use libtmux_go.Base.Result.{Result, ok, err, ◌>>=◌}
use libtmux_go.Text.{contains, onto_first, parse_int}

-- A test of a list's elements, `slices.ContainsFunc`, and one of all of them.
abbrev pub any {ℓ} : {A : Type ℓ} → (A → Bool) → List A → Bool
any f [] = false
any f (x ∷ xs) = f x || any f xs

abbrev pub all {ℓ} : {A : Type ℓ} → (A → Bool) → List A → Bool
all f [] = true
all f (x ∷ xs) = f x && all f xs

-- A criterion that is not set holds.
abbrev pub holds {ℓ} : {A : Type ℓ} → (A → Bool) → Option A → Bool
holds test none = true
holds test (some a) = test a

-- `filterExactInPossible`; a nil list is `none`.
unfoldable pub exact_in_possible {ℓ} :
    {A : Type ℓ} → (A → A → Bool) → Option A → Option (List A) → Bool
exact_in_possible eq none values = true
exact_in_possible eq (some a) none = true
exact_in_possible eq (some a) (some vs) = any (eq a) vs

-- `filterPointersEqual` and `filterSlicesEqual`.
unfoldable pub pointers_equal {ℓ} : {A : Type ℓ} → (A → A → Bool) → Option A → Option A → Bool
pointers_equal eq none none = true
pointers_equal eq none (some b) = false
pointers_equal eq (some a) none = false
pointers_equal eq (some a) (some b) = eq a b

unfoldable pub elements_equal {ℓ} : {A : Type ℓ} → (A → A → Bool) → List A → List A → Bool
elements_equal eq [] [] = true
elements_equal eq [] (y ∷ ys) = false
elements_equal eq (x ∷ xs) [] = false
elements_equal eq (x ∷ xs) (y ∷ ys) = eq x y && elements_equal eq xs ys

unfoldable pub slices_equal {ℓ} :
    {A : Type ℓ} → (A → A → Bool) → Option (List A) → Option (List A) → Bool
slices_equal eq left right = pointers_equal (elements_equal eq) left right

-- The parameters of `filterIntCriteriaPossible`.
pub record IntCriteria : Type 0 where
  pub exact : Option ℕ
  pub values : Option (List ℕ)
  pub gt : Option ℕ
  pub gte : Option ℕ
  pub lt : Option ℕ
  pub lte : Option ℕ
  pub minimum : Option ℕ

abbrev pub int_max : ℕ
int_max = 2 ^ 64 - 1

-- The closure `allowed`.
unfoldable pub allowed : IntCriteria → ℕ → Bool
allowed c v =
    holds (λ x. leb x v) c.minimum
    && holds (λ x. ltb x v) c.gt
    && holds (λ x. leb x v) c.gte
    && holds (λ x. ltb v x) c.lt
    && holds (λ x. leb v x) c.lte

-- The variables `lower`, `lowerSet` and `lowerStrict`, or those of `upper`.
pub record Bound : Type 0 where
  pub value : ℕ
  pub is_set : Bool
  pub is_strict : Bool

-- No bound yet; the value 0 of an int.
abbrev pub unbounded : Bound
unbounded = record { value = 2 ^ 63; is_set = false; is_strict = false }

-- `setLower` and `setUpper`, for a criterion that may not be set.
unfoldable pub set_lower : Bool → Option ℕ → Bound → Bound
set_lower strict none b = b
set_lower strict (some v) b =
    if not b.is_set || ltb b.value v || (v == b.value && strict && not b.is_strict)
    then record { value = v; is_set = true; is_strict = strict }
    else b

unfoldable pub set_upper : Bool → Option ℕ → Bound → Bound
set_upper strict none b = b
set_upper strict (some v) b =
    if not b.is_set || ltb v b.value || (v == b.value && strict && not b.is_strict)
    then record { value = v; is_set = true; is_strict = strict }
    else b

abbrev pub lower_bound : IntCriteria → Bound
lower_bound c = set_lower false c.gte (set_lower true c.gt (set_lower false c.minimum unbounded))

abbrev pub upper_bound : IntCriteria → Bound
upper_bound c = set_upper false c.lte (set_upper true c.lt unbounded)

-- Whether an int stands between the bounds.
unfoldable pub range_possible : Bound → Bound → Bool
range_possible l u =
    if (l.is_set && l.is_strict && l.value == int_max) || (u.is_set && u.is_strict && u.value == 0)
    then false
    else if not l.is_set || not u.is_set
    then true
    else if ltb u.value l.value
    then false
    else if l.value == u.value
    then not l.is_strict && not u.is_strict
    else not l.is_strict || not u.is_strict || not (l.value + 1 == u.value)

-- `filterIntCriteriaPossible`.
unfoldable pub int_possible : IntCriteria → Bool
int_possible c =
    if elim (c.exact) [
      | none ↦ false
      | some e ↦ not (exact_in_possible ◌==◌ (some e) c.values) || not (allowed c e)
    ]
    then false
    else if not (holds (all (λ v. holds (λ m. leb m v) c.minimum)) c.values)
    then false
    else elim (c.exact) [
      | some e ↦ true
      | none ↦ elim (c.values) [
        | some vs ↦ any (allowed c) vs
        | none ↦ range_possible (lower_bound c) (upper_bound c)
      ]
    ]

-- The parameters of `filterTextCriteriaPossible` with the compiled pattern; an empty pattern compiles to
-- nothing, one that is none is `none`.
pub record TextCriteria : Type 0 where
  pub exact : Option Bytes
  pub values : Option (List Bytes)
  pub contained : Option Bytes
  pub pattern : Bytes

-- What `filterTextCriteriaPossible` tests of a candidate. `regexp.Compile` and `MatchString` are a
-- parameter.
module _ (compile : Bytes → Option (Bytes → Bool)) where
  abbrev pub is_candidate : TextCriteria → Option (Bytes → Bool) → Bytes → Bool
  is_candidate c expression text =
      holds (contains text) c.contained && holds (λ f. f text) expression

  -- The loop over the candidates, behind the compilation.
  unfoldable pub any_candidate : TextCriteria → List Bytes → Bool
  any_candidate c candidates =
      if length c.pattern == 0
      then any (is_candidate c none) candidates
      else elim (compile c.pattern) [
        | none ↦ false
        | some f ↦ any (is_candidate c (some f)) candidates
      ]

  -- `filterTextCriteriaPossible`.
  unfoldable pub text_possible : TextCriteria → Bool
  text_possible c =
      if not (exact_in_possible bytes_eq c.exact c.values) then false else elim (c.exact) [
        | some e ↦ any_candidate c (e ∷ [])
        | none ↦ elim (c.values) [ some vs ↦ any_candidate c vs | none ↦ true ]
      ]

-- The errors of a lookup, by the condition that they report.
pub data LookupError : Type 0 where
  empty_path empty_segment no_field one_value some_value not_integer not_boolean : LookupError

-- `strings.Split` at two underscores.
unfoldable pub split_path : Bytes → List Bytes
split_path [] = [] ∷ []
split_path (c ∷ []) = (c ∷ []) ∷ []
split_path (c ∷ x ∷ s) = elim (c == b'_' && x == b'_') [
  | true ↦ [] ∷ split_path s
  | false ↦ onto_first c (split_path (x ∷ s))
]

-- The operators that a lookup names, less `eq`.
abbrev pub operators : List Bytes
operators =
    codes "exact"
    ∷ codes "iexact"
    ∷ codes "contains"
    ∷ codes "icontains"
    ∷ codes "startswith"
    ∷ codes "istartswith"
    ∷ codes "endswith"
    ∷ codes "iendswith"
    ∷ codes "in"
    ∷ codes "nin"
    ∷ codes "regex"
    ∷ codes "iregex"
    ∷ []

-- The path without its last segment, and that one.
abbrev pub unsnoc : Bytes → List Bytes → List Bytes × Bytes
unsnoc first [] = ([], first)
unsnoc first (x ∷ xs) = let rest = unsnoc x xs in (first ∷ rest.0, rest.1)

abbrev pub split_operator : List Bytes → List Bytes × Bytes
split_operator [] = ([], codes "exact")
split_operator (x ∷ xs) =
    let last = unsnoc x xs in
    if bytes_eq (last.1) (codes "eq")
    then (last.0, codes "exact")
    else if any (bytes_eq (last.1)) operators
    then (last.0, last.1)
    else (x ∷ xs, codes "exact")

-- `splitFilterLookup`.
unfoldable pub split_lookup : Bytes → Result LookupError (List Bytes × Bytes)
split_lookup lookup =
    if length lookup == 0
    then err empty_path
    else if any (bytes_eq []) (split_path lookup)
    then err empty_segment
    else (let split = split_operator (split_path lookup) in
        if length (split.0) == 0 then err no_field else ok split)

-- `filterLookupOne`, `filterLookupMany`, `filterLookupInt` and `filterLookupBool`.
unfoldable pub lookup_one : List Bytes → Result LookupError Bytes
lookup_one (value ∷ []) = ok value
lookup_one _ = err one_value

unfoldable pub lookup_many : List Bytes → Result LookupError (List Bytes)
lookup_many [] = err some_value
lookup_many (v ∷ vs) = ok (v ∷ vs)

unfoldable pub lookup_int : Bytes → Result LookupError ℤ
lookup_int value = elim (parse_int 64 value) [ none ↦ err not_integer | some n ↦ ok n ]

unfoldable pub lookup_bool : Bytes → Result LookupError Bool
lookup_bool value =
    if bytes_eq value (codes "true")
    then ok true
    else if bytes_eq value (codes "false")
    then ok false
    else err not_boolean
