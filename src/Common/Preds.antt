-- ===== src/Common/Preds.antt =====
-- Predicates over lists by recursion, which compute to tuples.

use mathlib.Core.List.{List, [], ◌∷◌, ◌++◌, map}

abbrev pub All {ℓ κ} : {A : Type ℓ} → (A → Type κ) → List A → Type κ
All P [] = Unit
All P (x ∷ xs) = P x × All P xs

module _ {ℓ κ} {A : Type ℓ} (P : A → Type κ) where
  pub All-append : (xs ys : List A) → All P xs → All P ys → All P (xs ++ ys)
  All-append [] ys h k = k
  All-append (x ∷ xs) ys h k = (h.0, All-append xs ys h.1 k)

  pub All-map :
      (f : A → A) → ((x : A) → P x → P (f x)) → (xs : List A) → All P xs → All P (map f xs)
  All-map f k [] h = tt
  All-map f k (x ∷ xs) h = (k x h.0, All-map f k xs h.1)

module _ {ℓ κ λ'} {A : Type ℓ} (P : A → Type κ) (Q : A → Type λ') where
  -- A pass over the list that establishes a new predicate.
  pub All-map_to :
      (f : A → A) → ((x : A) → P x → Q (f x)) → (xs : List A) → All P xs → All Q (map f xs)
  All-map_to f k [] h = tt
  All-map_to f k (x ∷ xs) h = (k x h.0, All-map_to f k xs h.1)
