-- ===== src/Taint/Pans/Luhn.antt =====
-- What the checksum of internal/analysis/active/taint/scanner.go finds.
use scalpel_cli.Common.{
  ℕ, ◌+◌, ◌%◌, ◌≤◌, ◌≡◌, ◌≢◌, refl, sym, ap, ◌∙◌, inl, inr, Bool, true, false, not, List, [], ◌∷◌,
  ◌++◌, Option, none, some, arith, ◌==◌, Option-cases,
}
use scalpel_cli.Taint.Pans.{digit_of, weight, add_digit, is_sum_of_tens, luhn_from, luhn_check}

weight_le : (alt : Bool) (d : ℕ) → d ≤ 9 → weight alt d ≤ 9
unfolding weight
weight_le true d h = ground arith
weight_le false d h = h

weight_inj : (alt : Bool) (d k : ℕ) → d ≤ 9 → k ≤ 9 → weight alt d ≡ weight alt k → d ≡ k
unfolding weight
weight_inj true d k h i e = ground arith
weight_inj false d k h i e = e

digit_le : (b d : ℕ) → digit_of b ≡ some d → d ≤ 9
digit_le b d e = ground arith

digit_inj : (b c d : ℕ) → digit_of b ≡ some d → digit_of c ≡ some d → b ≡ c
digit_inj b c d e f = ground arith

-- What a pass over a text is after one more byte on its left.
add_digit_cases :
    (o : Option (ℕ × Bool)) (x : Option ℕ) (t : ℕ) (a : Bool)
    → add_digit o x ≡ some (t, a)
    → (s d : ℕ) × (alt : Bool) × (o ≡ some (s, alt))
      × (x ≡ some d)
      × (t ≡ s + weight alt d)
      × (a ≡ not alt)
add_digit_cases none none t a e = absurd (ground (arith, e))
add_digit_cases none (some d) t a e = absurd (ground (arith, e))
add_digit_cases (some p) none t a e = absurd (ground (arith, e))
add_digit_cases (some (s, alt)) (some d) t a e =
    (s, d, alt, refl, refl, ground (arith, e), ground (arith, e))

module _ (b c d k : ℕ) (e : digit_of b ≡ some d) (f : digit_of c ≡ some k) where
  -- A text with another digit in one place has another sum, by the weights of the two.
  change_digit :
      (xs ys : List ℕ) (t : ℕ) (a : Bool)
      → luhn_from (xs ++ b ∷ ys) ≡ some (t, a)
      → (u : ℕ) × (alt : Bool) × (luhn_from (xs ++ c ∷ ys) ≡ some (u, a))
        × (t + weight alt k ≡ u + weight alt d)
  unfolding luhn_from
  change_digit [] ys t a h =
      let (s, j, alt, p, q, r, w) = add_digit_cases (luhn_from ys) (digit_of b) t a h in
      (s + weight alt k, alt, rw (p, f, w), ground (arith, e, q, r))
  change_digit (x ∷ xs) ys t a h =
      let (s, j, alt, p, q, v, z) = add_digit_cases (luhn_from (xs ++ b ∷ ys)) (digit_of x) t a h in
      let (u, at, r, w) = change_digit xs ys s alt p in
      (u + weight alt j, at, rw (r, q, z), omega (arith, v, w))

add_no_digit : (o : Option (ℕ × Bool)) → add_digit o none ≡ none
add_no_digit none = refl
add_no_digit (some p) = refl

no_digit : (c : ℕ) → digit_of c ≡ none → (xs ys : List ℕ) → luhn_from (xs ++ c ∷ ys) ≡ none
unfolding luhn_from
no_digit c f [] ys = rw (f) (add_no_digit (luhn_from ys))
no_digit c f (x ∷ xs) ys = rw (no_digit c f xs ys)

tens_cases :
    (o : Option (ℕ × Bool))
    → is_sum_of_tens o ≡ true
    → (t : ℕ) × (a : Bool) × (o ≡ some (t, a)) × (t % 10 ≡ 0)
tens_cases none e = absurd (ground (arith, e))
tens_cases (some (t, a)) e = (t, a, refl, ground (arith, e))

weights_differ :
    (t u w v : ℕ) → w ≤ 9 → v ≤ 9 → w ≢ v → t + v ≡ u + w → t % 10 ≡ 0 → (u % 10 == 0) ≡ false
weights_differ t u w v h i n e z = ground (arith, n)

passes_sum : (bs : List ℕ) → luhn_check bs ≡ true → is_sum_of_tens (luhn_from bs) ≡ true
unfolding luhn_check
passes_sum bs h = ground (arith, h)

fails_sum : (bs : List ℕ) → is_sum_of_tens (luhn_from bs) ≡ false → luhn_check bs ≡ false
unfolding luhn_check
fails_sum bs h = ground (arith, h)

digits_differ :
    (xs ys : List ℕ) (b c d k : ℕ)
    → b ≢ c
    → digit_of b ≡ some d
    → digit_of c ≡ some k
    → is_sum_of_tens (luhn_from (xs ++ b ∷ ys)) ≡ true
    → is_sum_of_tens (luhn_from (xs ++ c ∷ ys)) ≡ false
digits_differ xs ys b c d k n e f h =
    let (t, a, p, z) = tens_cases (luhn_from (xs ++ b ∷ ys)) h in
    let (u, alt, q, w) = change_digit b c d k e f xs ys t a p in
    rw (q) (
      weights_differ t u (weight alt d) (weight alt k) (weight_le alt d (digit_le b d e))
        (weight_le alt k (digit_le c k f))
        (λ same. n (
          digit_inj b c d e
            (f ∙ ap some (sym (weight_inj alt d k (digit_le b d e) (digit_le c k f) same)))))
        w z)

-- A card number that passes the checksum fails it with any one byte replaced by another.
pub luhn_detects :
    (xs ys : List ℕ) (b c : ℕ)
    → b ≢ c
    → luhn_check (xs ++ b ∷ ys) ≡ true
    → luhn_check (xs ++ c ∷ ys) ≡ false
luhn_detects xs ys b c n h = fails_sum (xs ++ c ∷ ys) (elim (Option-cases (digit_of c)) [
  | inl f ↦ ap is_sum_of_tens (no_digit c f xs ys)
  | inr (k, f) ↦ elim (Option-cases (digit_of b)) [
    | inl e ↦ absurd (ground (arith, no_digit b e xs ys, passes_sum (xs ++ b ∷ ys) h))
    | inr (d, e) ↦ digits_differ xs ys b c d k n e f (passes_sum (xs ++ b ∷ ys) h)
  ]
])
