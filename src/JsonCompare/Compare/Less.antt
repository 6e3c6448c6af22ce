-- ===== src/JsonCompare/Compare/Less.antt =====
-- The order that arrays are sorted by before they are compared.
use Prim.Native.String.{String}
use text.Mathlib.Text.{◌==◌ as str_eq}
use text.Mathlib.TextEquality.{eq_iff}
use scalpel_cli.Common.{◌≡◌, inl, inr, true, false, ◌&&◌, Option, none, some, arith, Bool-cases}
use scalpel_cli.Common.TextOrder.{text_lt_asym}
use scalpel_cli.JsonCompare.{Json, Library}
use scalpel_cli.JsonCompare.Compare.{
  Comparing, type_name, sort_text, number_less, same_type_less, generic_slice_less,
}

module _ (F : Type 0) (cmp : Comparing F) (lib : Library)
    (float_asym : (f g : F) → cmp.float_less f g ≡ true → cmp.float_less g f ≡ false) where
  number_less_asym :
      (o p : Option F) (s t : String)
      → number_less F cmp lib o p s t ≡ true
      → number_less F cmp lib p o t s ≡ false
  number_less_asym (some f) (some g) s t h = float_asym f g h
  number_less_asym (some f) none s t h = text_lt_asym s t h
  number_less_asym none (some g) s t h = text_lt_asym s t h
  number_less_asym none none s t h = text_lt_asym s t h

  same_type_less_asym :
      (x y : Json)
      → type_name x ≡ type_name y
      → same_type_less F cmp lib x y ≡ true
      → same_type_less F cmp lib y x ≡ false
  same_type_less_asym x y e h = ground (
    arith,
    e,
    h,
    text_lt_asym (sort_text lib x) (sort_text lib y),
    eq_iff (type_name x) "bool",
    eq_iff (type_name y) "bool",
  )

  -- Where the order of floats is strict, `genericSliceLess` is strict too: of two values of any types,
  -- at most one is before the other.
  pub generic_slice_less_asym :
      (x y : Json)
      → generic_slice_less F cmp lib x y ≡ true
      → generic_slice_less F cmp lib y x ≡ false
  unfolding generic_slice_less
  generic_slice_less_asym x y h =
      let s = sort_text lib x in
      let t = sort_text lib y in
      elim (Bool-cases (str_eq (type_name x) "json.Number" && str_eq (type_name y) "json.Number")) [
        | inl e ↦ ground (arith, e, h, number_less_asym (cmp.float_of s) (cmp.float_of t) s t)
        | inr e ↦ ground (
          arith,
          e,
          h,
          eq_iff (type_name x) (type_name y),
          eq_iff (type_name y) (type_name x),
          same_type_less_asym x y,
          text_lt_asym (type_name x) (type_name y),
        )
      ]
