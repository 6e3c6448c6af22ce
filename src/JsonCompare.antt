-- ===== src/JsonCompare.antt =====
-- internal/jsoncompare/service.go: the normalisation of JSON before two bodies are compared. Its input
-- is what json.Decoder with UseNumber returns.
pub mod Keys
pub mod Compare
mod Tests
use Prim.Native.String.{String}
use text.Mathlib.Text.{◌==◌ as str_eq}
use scalpel_cli.Common.{
  ℕ, zero, suc, ◌+◌, Bool, true, false, not, ◌||◌, ◌&&◌, List, [], ◌∷◌, Option, none, some, ltb,
  if◌then◌else◌, length,
}
use scalpel_cli.Common.Text.{codes}
use scalpel_cli.Common.Dict.{Dict, lookup, insert}

mutual
  pub data Json : Type 0 where
    null : Json
    boolean : Bool → Json
    number : String → Json
    string_value : String → Json
    array : Items → Json
    object : Members → Json

  pub data Items : Type 0 where
    no_items : Items
    item : Json → Items → Items

  pub data Members : Type 0 where
    no_members : Members
    member : String → Json → Members → Members

-- What the heuristics ask of other code: uuid.Parse, time.Parse by a format, the entropy threshold, the
-- range test on a number that is a float, `fmt.Sprintf("%v")`, and `fmt.Sprintf` of the numbered keys.
pub record Library : Type 0 where
  pub is_uuid : String → Bool
  pub parses_as : (format : String) → String → Bool
  pub has_high_entropy : String → Bool
  pub is_plausible_timestamp : String → Bool
  pub show : Json → String
  pub numbered_key : ℕ → String

-- `Options` and `HeuristicRules`, as far as the normalisation reads them.
pub record Options : Type 0 where
  pub key_patterns : List (String → Bool)
  pub check_uuid : Bool
  pub check_timestamp : Bool
  pub timestamp_formats : List String
  pub check_high_entropy : Bool
  pub specific_values : List String
  pub normalize_all : Bool

abbrev pub dynamic_key : String
dynamic_key = "__DYNAMIC_KEY__"

abbrev pub dynamic_value : Json
dynamic_value = string_value "__DYNAMIC_VALUE__"

unfoldable pub is_key_dynamic : String → List (String → Bool) → Bool
is_key_dynamic key [] = false
is_key_dynamic key (p ∷ ps) = if p key then true else is_key_dynamic key ps

-- The bytes of a text in UTF-8.
unfoldable pub bytes_of : List ℕ → ℕ
bytes_of [] = 0
bytes_of (c ∷ cs) =
    let rest = bytes_of cs in
    (if ltb c 128 then 1 else if ltb c 2048 then 2 else if ltb c 65536 then 3 else 4) + rest

unfoldable pub any_format : (String → Bool) → List String → Bool
any_format p [] = false
any_format p (f ∷ fs) = if p f then true else any_format p fs

unfoldable pub is_member : String → List String → Bool
is_member s [] = false
is_member s (t ∷ ts) = if str_eq t s then true else is_member s ts

-- The search for a key that is free, from the plain placeholder on, `n` candidates long.
unfoldable pub free_from : (candidate : ℕ → String) → (n i : ℕ) → Dict Json → String
free_from candidate zero i d = candidate i
free_from candidate (suc n) i d =
    let later = free_from candidate n (suc i) d in
    elim (lookup (candidate i) d) [ none ↦ candidate i | some _ ↦ later ]

unfoldable pub members_of : Dict Json → Members
members_of [] = no_members
members_of ((k, v) ∷ d) = member k v (members_of d)

module _ (lib : Library) where
  unfoldable pub candidate : ℕ → String
  candidate zero = dynamic_key
  candidate (suc i) = lib.numbered_key (suc i)

  -- At most one candidate more than there are keys is taken.
  unfoldable pub free_key : Dict Json → String
  free_key d = free_from candidate (length d) 0 d

  module _ (o : Options) where
    unfoldable pub is_string_dynamic : String → Bool
    is_string_dynamic s =
        not (ltb (bytes_of (codes s)) 8)
        && ((o.check_uuid && lib.is_uuid s)
            || ((o.check_timestamp && any_format (λ f. lib.parses_as f s) o.timestamp_formats)
                || (o.check_high_entropy
                    && (not (ltb (bytes_of (codes s)) 12) && lib.has_high_entropy s))))

    abbrev pub is_primitive : Json → Bool
    is_primitive (array _) = false
    is_primitive (object _) = false
    is_primitive _ = true

    -- The heuristics by the type of the value.
    abbrev pub looks_dynamic : Json → Bool
    looks_dynamic (string_value s) = is_string_dynamic s
    looks_dynamic (number s) =
        is_string_dynamic s || (o.check_timestamp && lib.is_plausible_timestamp s)
    looks_dynamic _ = false

    unfoldable pub is_value_dynamic : Json → Bool
    is_value_dynamic j =
        if o.normalize_all
        then is_primitive j
        else if is_member (lib.show j) o.specific_values
        then true
        else looks_dynamic j

    -- The key under which a member is stored, given what is stored already.
    unfoldable pub new_key : String → Dict Json → String
    new_key key d =
        if is_key_dynamic key o.key_patterns || str_eq key dynamic_key then free_key d else key

    -- `normalizeRecursive`, `normalizeSlice`, and the loop of `normalizeMap` over its result so far.
    unfoldable mutual
      pub normalize : Json → Json
      normalize null = if is_value_dynamic null then dynamic_value else null
      normalize (boolean b) = if is_value_dynamic (boolean b) then dynamic_value else boolean b
      normalize (number s) = if is_value_dynamic (number s) then dynamic_value else number s
      normalize (string_value s) =
          if is_value_dynamic (string_value s) then dynamic_value else string_value s
      normalize (array xs) =
          let ys = normalize_items xs in
          if is_value_dynamic (array xs) then dynamic_value else array ys
      normalize (object ms) =
          let d = normalize_members ms [] in
          if is_value_dynamic (object ms) then dynamic_value else object (members_of d)

      pub normalize_items : Items → Items
      normalize_items no_items = no_items
      normalize_items (item j js) = item (normalize j) (normalize_items js)

      pub normalize_members : Members → Dict Json → Dict Json
      normalize_members no_members d = d
      normalize_members (member key j ms) d =
          let inner = normalize j in
          let value = if is_key_dynamic key o.key_patterns then dynamic_value else inner in
          normalize_members ms (insert (new_key key d) value d)
