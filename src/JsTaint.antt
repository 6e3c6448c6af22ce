-- ===== src/JsTaint.antt =====
-- internal/analysis/static/javascript/state.go: the taint of values and objects of a script.
pub mod Joins
mod Tests
use Prim.Native.String.{String, ◌++◌ as str_append}
use text.Mathlib.Text.{◌==◌ as str_eq}
use scalpel_cli.Common.{
  ℕ, Bool, true, false, not, ◌&&◌, ◌||◌, List, [], ◌∷◌, ◌++◌, Option, none, some, ◌==◌, ltb,
  if◌then◌else◌,
}
use scalpel_cli.Common.TextOrder.{text_lt}

-- `TaintState`: SimpleTaint with its set of sources and its line, and ObjectTaint with its map of
-- properties and StructureTainted.
mutual
  pub data TaintState : Type 0 where
    simple : (sources : List String) (line : ℕ) → TaintState
    object : (properties : Properties) (structure_tainted : Bool) → TaintState

  pub data Properties : Type 0 where
    no_properties : Properties
    property : String → TaintState → Properties → Properties

unfoldable pub has_source : String → List String → Bool
has_source s [] = false
has_source s (t ∷ ts) = if str_eq t s then true else has_source s ts

-- `sources[s] = true`
abbrev pub add_source : String → List String → List String
add_source s ss = if has_source s ss then ss else s ∷ ss

unfoldable pub add_sources : List String → List String → List String
add_sources [] ss = ss
add_sources (o ∷ os) ss = add_sources os (add_source o ss)

-- `NewSimpleTaint`
unfoldable pub new_simple_taint : String → ℕ → TaintState
new_simple_taint source line = if str_eq source "" then simple [] 0 else simple (source ∷ []) line

abbrev pub is_nonempty : List String → Bool
is_nonempty [] = false
is_nonempty (s ∷ ss) = true

-- `IsTainted`, of both kinds.
unfoldable mutual
  pub is_tainted : TaintState → Bool
  is_tainted (simple ss line) = is_nonempty ss
  is_tainted (object ps b) = let rest = any_tainted ps in if b then true else rest

  pub any_tainted : Properties → Bool
  any_tainted no_properties = false
  any_tainted (property k t ps) = is_tainted t || any_tainted ps

-- `GetSources`, of both kinds: an object has those of its tainted properties.
unfoldable mutual
  pub get_sources : TaintState → List String
  get_sources (simple ss line) = ss
  get_sources (object ps b) = property_sources ps (if b then "unknown_source" ∷ [] else [])

  pub property_sources : Properties → List String → List String
  property_sources no_properties ss = ss
  property_sources (property k t ps) ss =
      let own = get_sources t in
      property_sources ps (if is_tainted t then add_sources own ss else ss)

unfoldable pub insert_text : String → List String → List String
insert_text s [] = s ∷ []
insert_text s (t ∷ ts) = let rest = insert_text s ts in if text_lt t s then t ∷ rest else s ∷ t ∷ ts

unfoldable pub sort_texts : List String → List String
sort_texts [] = []
sort_texts (s ∷ ss) = insert_text s (sort_texts ss)

unfoldable pub join_bars : List String → String
join_bars [] = ""
join_bars (s ∷ []) = s
join_bars (s ∷ t ∷ ts) = str_append s (str_append "|" (join_bars (t ∷ ts)))

-- `GetSource`, of both kinds.
unfoldable pub get_source : TaintState → String
get_source (simple [] line) = ""
get_source (simple (s ∷ []) line) = s
get_source (simple (s ∷ t ∷ ts) line) = join_bars (sort_texts (s ∷ t ∷ ts))
get_source (object ps b) = if is_tainted (object ps b) then "unknown_source" else ""

abbrev pub line_of : TaintState → ℕ
line_of (simple ss line) = line
line_of (object ps b) = 0

-- Whether the other line is known and earlier.
abbrev pub is_earlier : (other own : ℕ) → Bool
is_earlier other own = if other == 0 then false else own == 0 || ltb other own

unfoldable pub adds_source : List String → List String → Bool
adds_source [] ss = false
adds_source (o ∷ os) ss = if has_source o ss then adds_source os ss else true

-- `mergeSources`
unfoldable pub merge_sources : List String → ℕ → List String → ℕ → TaintState
merge_sources ss line os other =
    simple (add_sources os ss) (if is_earlier other line then other else line)

-- `Merge` of SimpleTaint.
unfoldable pub merge_simple : List String → ℕ → TaintState → TaintState
merge_simple ss line other =
    if not (is_tainted other)
    then simple ss line
    else if not (is_nonempty ss)
    then other
    else if is_earlier (line_of other) line || adds_source (get_sources other) ss
    then merge_sources ss line (get_sources other) (line_of other)
    else simple ss line

unfoldable pub lookup_property : String → Properties → Option TaintState
lookup_property k no_properties = none
lookup_property k (property j t ps) = if str_eq j k then some t else lookup_property k ps

unfoldable pub set_property : String → TaintState → Properties → Properties
set_property k t no_properties = property k t no_properties
set_property k t (property j u ps) =
    if str_eq j k then property k t ps else property j u (set_property k t ps)

-- `Merge`, of both kinds: two objects have the properties of both.
unfoldable mutual
  pub merge : TaintState → TaintState → TaintState
  merge (simple ss line) other = merge_simple ss line other
  merge (object ps b) (simple os line) =
      if is_nonempty os then merge_simple os line (object ps b) else object ps b
  merge (object ps b) (object qs c) =
      let both = merge_properties ps qs in
      if is_tainted (object qs c) then object both (b || c) else object ps b

  pub merge_properties : Properties → Properties → Properties
  merge_properties ps no_properties = ps
  merge_properties ps (property k v qs) =
      merge_properties
        (set_property k (elim (lookup_property k ps) [ none ↦ v | some t ↦ merge t v ]) ps) qs

-- `Merge` with a state that may be nil.
abbrev pub merge_with : TaintState → Option TaintState → TaintState
merge_with t none = t
merge_with t (some other) = merge t other

unfoldable pub delete_property : String → Properties → Properties
delete_property k no_properties = no_properties
delete_property k (property j t ps) =
    let rest = delete_property k ps in if str_eq j k then rest else property j t rest

-- `SetPropertyTaint`, with the structure of the object.
unfoldable pub set_property_taint : String → Option TaintState → Properties → Properties
set_property_taint k none ps = delete_property k ps
set_property_taint k (some t) ps =
    if is_tainted t then set_property k t ps else delete_property k ps

abbrev or_structure : Bool → Option TaintState
or_structure true = some (new_simple_taint "unknown_source" 0)
or_structure false = none

abbrev if_tainted : Option TaintState → Option TaintState → Option TaintState
if_tainted none o = o
if_tainted (some t) o = if is_tainted t then some t else o

-- `GetPropertyTaint`
unfoldable pub get_property_taint :
    String → Properties → (structure_tainted : Bool) → Option TaintState
get_property_taint k ps b = if_tainted (lookup_property k ps) (or_structure b)
