-- ===== src/JsonCompare/Compare.antt =====
-- CompareWithOptions of internal/jsoncompare/service.go, and the options that it gives to go-cmp.
pub mod Less
use Prim.Native.String.{String}
use text.Mathlib.Text.{◌==◌ as str_eq}
use scalpel_cli.Common.{
  ℕ, Bool, true, false, not, ◌&&◌, ◌||◌, List, [], ◌∷◌, Option, none, some, ltb, ◌==◌,
  if◌then◌else◌, length,
}
use scalpel_cli.Common.TextOrder.{text_lt}
use scalpel_cli.JsonCompare.{
  Json, null, boolean, number, string_value, array, object, Items, no_items, item, Members,
  no_members, member, Library, Options, normalize,
}

-- What the comparison asks of other code: the first value of a body by encoding/json, whether all of it
-- is one, the float of a number, and `cmp.Diff` with the two options, which is empty for equal values.
pub record Comparing (F : Type 0) : Type 0 where
  pub decode : List ℕ → Option Json
  pub is_valid : List ℕ → Bool
  pub float_of : String → Option F
  pub float_less : F → F → Bool
  pub diff : Option (Json → Json → Option Bool) → Option (Json → Json → Bool) → Json → Json → String

unfoldable pub is_empty : Json → Bool
is_empty null = true
is_empty (array no_items) = true
is_empty (object no_members) = true
is_empty _ = false

abbrev pub is_null : Json → Bool
is_null null = true
is_null _ = false

-- `reflect.Type.String`; the untyped nil has no type.
unfoldable pub type_name : Json → String
type_name null = ""
type_name (boolean b) = "bool"
type_name (number s) = "json.Number"
type_name (string_value s) = "string"
type_name (array xs) = "[]interface {}"
type_name (object ms) = "map[string]interface {}"

-- The comparer of `equateEmptyOption`, for values that its filter takes.
unfoldable pub equate_empty : Json → Json → Option Bool
equate_empty x y =
    if is_empty x && is_empty y
    then some (if is_null x || is_null y then true else str_eq (type_name x) (type_name y))
    else none

abbrev pub truth : Json → Bool
truth (boolean b) = b
truth _ = false

-- The text that two values of one type are ordered by.
abbrev pub sort_text : Library → Json → String
sort_text lib (string_value s) = s
sort_text lib (number s) = s
sort_text lib j = lib.show j

module _ (F : Type 0) (cmp : Comparing F) (lib : Library) where
  abbrev pub number_less : Option F → Option F → String → String → Bool
  number_less (some f) (some g) s t = cmp.float_less f g
  number_less _ _ s t = text_lt s t

  -- Two values of one type: false is before true, and any others go by a text.
  abbrev pub same_type_less : Json → Json → Bool
  same_type_less x y =
      if str_eq (type_name x) "bool"
      then not (truth x) && truth y
      else text_lt (sort_text lib x) (sort_text lib y)

  -- `genericSliceLess`
  unfoldable pub generic_slice_less : Json → Json → Bool
  generic_slice_less x y =
      if str_eq (type_name x) "json.Number" && str_eq (type_name y) "json.Number"
      then number_less (cmp.float_of (sort_text lib x)) (cmp.float_of (sort_text lib y))
          (sort_text lib x) (sort_text lib y)
      else if is_null x
      then not (is_null y)
      else if is_null y
      then false
      else if str_eq (type_name x) (type_name y)
      then same_type_less x y
      else text_lt (type_name x) (type_name y)

  -- `ComparisonResult`; the difference of bodies that are not both JSON says so, and the lengths.
  pub data Difference : Type 0 where
    no_difference : Difference
    mixed : (length_a length_b : ℕ) (is_json_a is_json_b : Bool) → Difference
    differs : String → Difference

  pub record Result : Type 0 where
    pub are_equivalent : Bool
    pub is_json : Bool
    pub difference : Difference

  unfoldable pub same_bytes : List ℕ → List ℕ → Bool
  same_bytes [] [] = true
  same_bytes (x ∷ xs) (y ∷ ys) = x == y && same_bytes xs ys
  same_bytes _ _ = false

  abbrev decoded : Option Json → Bool
  decoded none = false
  decoded (some j) = true

  unfoldable pub handle_non_json : List ℕ → List ℕ → Option Json → Option Json → Result
  handle_non_json a b x y = record {
    are_equivalent = false;
    is_json = decoded x || decoded y;
    difference = mixed (length a) (length b) (decoded x) (decoded y);
  }

  -- `buildCmpOptions` is the two arguments of `cmp.diff`.
  abbrev of_diff : String → Result
  of_diff d = record {
    are_equivalent = str_eq d "";
    is_json = true;
    difference = if str_eq d "" then no_difference else differs d;
  }

  abbrev when_set {ℓ} : {A : Type ℓ} → Bool → A → Option A
  when_set true a = some a
  when_set false a = none

  abbrev compare_values :
      Options
      → (equates_empty ignores_order : Bool) → List ℕ
      → List ℕ
      → Option Json
      → Option Json
      → Result
  compare_values o equates_empty ignores_order a b (some x) (some y) = of_diff (
      cmp.diff (when_set equates_empty equate_empty) (when_set ignores_order generic_slice_less)
        (normalize lib o x) (normalize lib o y))
  compare_values o equates_empty ignores_order a b x y = handle_non_json a b x y

  unfoldable pub compare_with_options :
      Options → (equates_empty ignores_order : Bool) → List ℕ → List ℕ → Result
  compare_with_options o equates_empty ignores_order a b =
      if same_bytes a b
      then record {
        are_equivalent = true;
        is_json = cmp.is_valid a && ltb 0 (length a);
        difference = no_difference;
      }
      else compare_values o equates_empty ignores_order a b (cmp.decode a) (cmp.decode b)
