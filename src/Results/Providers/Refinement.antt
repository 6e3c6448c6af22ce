-- ===== src/Results/Providers/Refinement.antt =====
-- The store as a partial function from identifiers to providers.
use Prim.Native.String.{String}
use text.Mathlib.Text.{◌==◌ as str_eq}
use text.Mathlib.TextEquality.{eq_iff}
use scalpel_cli.Common.{
  ◌≡◌, refl, inl, inr, Bool, true, false, [], ◌∷◌, Option, none, some, arith, Bool-cases,
  Option-cases, if◌then◌else◌,
}
use scalpel_cli.Common.Dict.{lookup, lookup-insert}
use scalpel_cli.Results.Providers.{
  Provider, StoreError, not_found, already_exists, invalid_input, Store, Changed, is_invalid, add,
  update, remove_key, delete_provider,
}

abbrev pub View : Type 0
View = String → Option Provider

abbrev pub view : Store → View
view s id = lookup id s

-- The three operations that change the store.
pub data Operation : Type 0 where
  adds updates : Provider → Operation
  deletes : String → Operation

abbrev pub run : Operation → Store → Changed
run (adds p) s = add p s
run (updates p) s = update p s
run (deletes id) s = delete_provider id s

-- A partial function that differs at one identifier.
abbrev pub assign : String → Option Provider → View → View
assign k o f id = if str_eq k id then o else f id

abbrev is_some : Option Provider → Bool
is_some none = false
is_some (some p) = true

-- What an operation promises of the error.
abbrev pub error_of : Operation → View → Option StoreError
error_of (adds p) f =
    if is_invalid p
    then some invalid_input
    else if is_some (f p.id)
    then some already_exists
    else none
error_of (updates p) f =
    if is_invalid p then some invalid_input else if is_some (f p.id) then none else some not_found
error_of (deletes id) f = if is_some (f id) then none else some not_found

-- What it changes if there is no error.
abbrev pub change_of : Operation → View → View
change_of (adds p) f = assign p.id (some p) f
change_of (updates p) f = assign p.id (some p) f
change_of (deletes id) f = assign id none f

abbrev pub unless : Option StoreError → View → View → View
unless none f g = f
unless (some e) f g = g

pub lookup-remove_key :
    (k j : String) (s : Store)
    → lookup j (remove_key k s) ≡ (if str_eq k j then none else lookup j s)
unfolding lookup remove_key
lookup-remove_key k j [] = ground (arith, eq_iff k j)
lookup-remove_key k j ((i, p) ∷ s) =
    ground (arith, eq_iff k j, eq_iff i k, eq_iff i j, lookup-remove_key k j s)

-- Add, Update and Delete do to the store, seen as a partial function, what they promise: they return the
-- error that the function calls for, change it at one identifier if there is none, and else not at all.
pub run_refines :
    (o : Operation) (s : Store) (id : String)
    → ((run o s).1 ≡ error_of o (view s))
      × (view (run o s).0 id ≡ unless (error_of o (view s)) (change_of o (view s)) (view s) id)
unfolding add update delete_provider
run_refines (adds p) s id = elim (Bool-cases (is_invalid p)) [
  | inl e ↦ rw e (refl, refl)
  | inr e ↦ elim (Option-cases (lookup p.id s)) [
    | inl f ↦ rw (e, f) (refl, lookup-insert p.id id p s)
    | inr (q, f) ↦ rw (e, f) (refl, refl)
  ]
]
run_refines (updates p) s id = elim (Bool-cases (is_invalid p)) [
  | inl e ↦ rw e (refl, refl)
  | inr e ↦ elim (Option-cases (lookup p.id s)) [
    | inl f ↦ rw (e, f) (refl, refl)
    | inr (q, f) ↦ rw (e, f) (refl, lookup-insert p.id id p s)
  ]
]
run_refines (deletes k) s id = elim (Option-cases (lookup k s)) [
  | inl f ↦ rw (f, delete_provider) (refl, refl)
  | inr (q, f) ↦ rw (f, delete_provider) (refl, lookup-remove_key k id s)
]
