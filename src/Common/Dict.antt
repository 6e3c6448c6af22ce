-- ===== src/Common/Dict.antt =====
-- A Go map with string keys, as an association list with one entry for each key.
use Prim.Native.String.{String}
use text.Mathlib.Text.{◌==◌}
use text.Mathlib.TextEquality.{eq_iff}
use scalpel_cli.Common.{
  ◌≡◌, refl, subst, inl, inr, List, [], ◌∷◌, Option, none, some, arith, Bool-cases, if◌then◌else◌,
}

abbrev pub Dict {ℓ} : Type ℓ → Type ℓ
Dict V = List (String × V)

module _ {ℓ} {V : Type ℓ} where
  unfoldable pub lookup : String → Dict V → Option V
  lookup k [] = none
  lookup k ((j, v) ∷ d) = if j == k then some v else lookup k d

  -- `d[k] = v`
  unfoldable pub insert : String → V → Dict V → Dict V
  insert k v [] = (k, v) ∷ []
  insert k v ((j, w) ∷ d) = if j == k then (k, v) ∷ d else (j, w) ∷ insert k v d

  pub lookup-insert :
      (k j : String) (v : V) (d : Dict V)
      → lookup j (insert k v d) ≡ (if k == j then some v else lookup j d)
  unfolding lookup insert
  lookup-insert k j v [] = refl
  lookup-insert k j v ((i, w) ∷ d) =
      ground (arith, eq_iff k j, eq_iff i k, eq_iff i j, lookup-insert k j v d)

-- A map without a key twice.
abbrev pub Distinct {ℓ} : {V : Type ℓ} → Dict V → Type ℓ
Distinct [] = Unit
Distinct ((k, v) ∷ d) = (lookup k d ≡ none) × Distinct d

module _ {ℓ} {V : Type ℓ} where
  pub insert-Distinct : (k : String) (v : V) (d : Dict V) → Distinct d → Distinct (insert k v d)
  unfolding lookup insert
  insert-Distinct k v [] h = (refl, tt)
  insert-Distinct k v ((j, w) ∷ d) h = elim (Bool-cases (j == k)) [
    | inl e ↦ rw (e) (subst (λ x. lookup x d ≡ none) ((eq_iff j k).0 e) h.0, h.1)
    | inr e ↦ rw (e) (
      rw (lookup-insert k j v d) (ground (arith, e, eq_iff j k, eq_iff k j, h.0)),
      insert-Distinct k v d h.1,
    )
  ]
