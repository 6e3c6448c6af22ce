-- ===== src/Results/Providers.antt =====
-- The store of internal/results/providers/providers.go.
pub mod Refinement
pub mod Listing
use Prim.Native.String.{String}
use text.Mathlib.Text.{◌==◌ as str_eq}
use scalpel_cli.Common.{
  Bool, true, false, ◌||◌, ◌⊎◌, inl, inr, List, [], ◌∷◌, Option, none, some, if◌then◌else◌,
}
use scalpel_cli.Common.Dict.{Dict, lookup, insert}
use scalpel_cli.Common.TextOrder.{text_lt}

pub record Provider : Type 0 where
  pub id : String
  pub name : String
  pub kind : String

pub data StoreError : Type 0 where
  not_found already_exists invalid_input : StoreError

abbrev pub Store : Type 0
Store = Dict Provider

-- A store with the error of the operation, if it has one.
abbrev pub Changed : Type 0
Changed = Store × Option StoreError

abbrev pub is_invalid : Provider → Bool
is_invalid p = str_eq p.id "" || (str_eq p.name "" || str_eq p.kind "")

unfoldable pub add : Provider → Store → Changed
add p s =
    if is_invalid p
    then (s, some invalid_input)
    else elim (lookup p.id s) [ some q ↦ (s, some already_exists) | none ↦ (insert p.id p s, none) ]

unfoldable pub get : String → Store → StoreError ⊎ Provider
get id s = elim (lookup id s) [ none ↦ inl not_found | some p ↦ inr p ]

unfoldable pub insert_provider : Provider → List Provider → List Provider
insert_provider p [] = p ∷ []
insert_provider p (q ∷ qs) =
    let rest = insert_provider p qs in if text_lt q.id p.id then q ∷ rest else p ∷ q ∷ qs

-- `List`, sorted by the identifiers.
unfoldable pub list_providers : Store → List Provider
list_providers [] = []
list_providers ((k, p) ∷ s) = insert_provider p (list_providers s)

unfoldable pub update : Provider → Store → Changed
update p s =
    if is_invalid p
    then (s, some invalid_input)
    else elim (lookup p.id s) [ none ↦ (s, some not_found) | some q ↦ (insert p.id p s, none) ]

-- `delete` of a map.
unfoldable pub remove_key : String → Store → Store
remove_key k [] = []
remove_key k ((j, p) ∷ s) = let rest = remove_key k s in if str_eq j k then rest else (j, p) ∷ rest

unfoldable pub delete_provider : String → Store → Changed
delete_provider id s = elim (lookup id s) [
  | none ↦ (s, some not_found)
  | some q ↦ (remove_key id s, none)
]
