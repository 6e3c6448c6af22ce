-- ===== src/JsonCompare/Tests.antt =====
-- A small object with several dynamic keys.
use Prim.Native.String.{String}
use text.Mathlib.Text.{◌==◌ as str_eq}
use scalpel_cli.Common.{
  ℕ, zero, suc, ◌+◌, ◌≡◌, ◌≢◌, refl, ap, true, false, List, [], ◌∷◌, none, some, length, arith, ltb,
  ◌==◌, if◌then◌else◌,
}
use scalpel_cli.Common.Dict.{lookup, insert}
use scalpel_cli.Common.Text.{codes}
use scalpel_cli.JsonCompare.{
  null, array, object, no_items, number, string_value, Members, no_members, member, Library,
  Options, candidate, is_key_dynamic, free_from, free_key, new_key, normalize_members,
}
use scalpel_cli.JsonCompare.Keys.{
  free_key_lem, Storable, size_of, has_key, length-normalize_members,
}
use scalpel_cli.JsonCompare.Compare.{
  Comparing, is_empty, type_name, equate_empty, generic_slice_less, same_bytes,
  compare_with_options,
}

-- Numbered keys in unary.
unfoldable strokes : ℕ → String
strokes zero = ""
strokes (suc n) = String.◌∷◌ "I" (strokes n)

length-strokes : (n : ℕ) → length (codes (strokes n)) ≡ n
unfolding strokes
length-strokes zero = refl
length-strokes (suc n) = omega (arith, length-strokes n)

abbrev unary_library : Library
unary_library = record {
  is_uuid = λ s. false;
  parses_as = λ f s. false;
  has_high_entropy = λ s. false;
  is_plausible_timestamp = λ s. false;
  show = λ j. "";
  numbered_key = λ n. String.◌∷◌ "#" (strokes n);
}

-- Two keys are dynamic.
abbrev some_options : Options
some_options = record {
  key_patterns = (λ k. str_eq k "session_1") ∷ (λ k. str_eq k "session_2") ∷ [];
  check_uuid = true;
  check_timestamp = true;
  timestamp_formats = [];
  check_high_entropy = true;
  specific_values = [];
  normalize_all = false;
}

abbrev first_of : List ℕ → ℕ
first_of [] = 0
first_of (c ∷ cs) = c

-- A placeholder begins with an underscore, and a numbered one with a number sign.
candidate-distinct : (i j : ℕ) → candidate unary_library i ≡ candidate unary_library j → i ≡ j
unfolding candidate
candidate-distinct zero zero h = refl
candidate-distinct zero (suc j) h =
    absurd (let e = ap (λ s. first_of (codes s)) h in omega (arith, e))
candidate-distinct (suc i) zero h =
    absurd (let e = ap (λ s. first_of (codes s)) h in omega (arith, e))
candidate-distinct (suc i) (suc j) h =
    let e = ap (λ s. length (codes s)) h in
    omega (arith, e, length-strokes (suc i), length-strokes (suc j))

candidate-ne-name : (i : ℕ) → candidate unary_library i ≢ "name"
unfolding candidate
candidate-ne-name zero h = let e = ap (λ s. first_of (codes s)) h in omega (arith, e)
candidate-ne-name (suc i) h = let e = ap (λ s. first_of (codes s)) h in omega (arith, e)

abbrev two_sessions : Members
two_sessions =
    member "session_1" (number "1")
      (member "name" (string_value "x") (member "session_2" (number "2") no_members))

two_sessions-Storable : Storable unary_library some_options [] two_sessions
unfolding has_key candidate is_key_dynamic lookup
two_sessions-Storable = (
  λ h. absurd (ground arith),
  refl,
  (λ h. (refl, candidate-ne-name), refl, (λ h. absurd (ground arith), refl, tt)),
)

length-normalize_members_example :
    length (normalize_members unary_library some_options two_sessions []) ≡ 0 + size_of two_sessions
length-normalize_members_example =
    length-normalize_members unary_library some_options candidate-distinct two_sessions []
      two_sessions-Storable

free_key_lem_example :
    lookup
      (free_key unary_library (("__DYNAMIC_KEY__", number "1") ∷ []))
      (("__DYNAMIC_KEY__", number "1") ∷ [])
    ≡ none
free_key_lem_example =
    free_key_lem unary_library some_options candidate-distinct
      (("__DYNAMIC_KEY__", number "1") ∷ [])

-- A key that is stored as it is, and looks like a numbered placeholder, overwrites a member where it
-- comes after it, and does not where it comes before.
abbrev colliding_last : Members
colliding_last =
    member "session_1" (number "1")
      (member "session_2" (number "2") (member "#I" (string_value "x") no_members))

abbrev colliding_first : Members
colliding_first =
    member "#I" (string_value "x")
      (member "session_1" (number "1") (member "session_2" (number "2") no_members))

overwritten : length (normalize_members unary_library some_options colliding_last []) ≡ 2
unfolding normalize_members new_key free_key free_from candidate is_key_dynamic lookup insert
    strokes
overwritten = refl

not_overwritten : length (normalize_members unary_library some_options colliding_first []) ≡ 3
unfolding normalize_members new_key free_key free_from candidate is_key_dynamic lookup insert
    strokes
not_overwritten = refl

-- Numbers whose float is 1, and bodies of which the first byte is the value.
abbrev comparing : Comparing ℕ
comparing = record {
  decode = λ body. some (if first_of body == 49 then number "1" else null);
  is_valid = λ body. true;
  float_of = λ s. if str_eq s "2" then some 2 else some 1;
  float_less = λ f g. ltb f g;
  diff = λ equates less x y. "";
}

one_before_two : generic_slice_less ℕ comparing unary_library (number "1.0") (number "2") ≡ true
unfolding generic_slice_less type_name
one_before_two = refl

-- Two numbers that are written differently and have one float are not ordered.
one_and_one_point_zero :
    generic_slice_less ℕ comparing unary_library (number "1") (number "1.0") ≡ false
unfolding generic_slice_less type_name
one_and_one_point_zero = refl

one_point_zero_and_one :
    generic_slice_less ℕ comparing unary_library (number "1.0") (number "1") ≡ false
unfolding generic_slice_less type_name
one_point_zero_and_one = refl

-- What follows the first value of a body is not looked at.
trailing_bytes :
    (compare_with_options ℕ comparing unary_library some_options true true
      (49 ∷ 120 ∷ [])
      (49 ∷ 121 ∷ [])).are_equivalent
    ≡ true
unfolding compare_with_options same_bytes
trailing_bytes = refl

null_and_empty : equate_empty null (array no_items) ≡ some true
unfolding equate_empty is_empty
null_and_empty = refl

empty_kinds : equate_empty (object no_members) (array no_items) ≡ some false
unfolding equate_empty is_empty type_name
empty_kinds = refl
