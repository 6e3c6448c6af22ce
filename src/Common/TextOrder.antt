-- ===== src/Common/TextOrder.antt =====
-- The order of text, as `<` on strings.
use Prim.Native.Nat.{Ordering, compare as compare_ℕ}
use Prim.Native.Char.{code}
use Prim.Native.String.{String, [], ◌∷◌, then, compare}
use Prim.Native.String.compare
use text.Mathlib.Text.{is_lt}
use scalpel_cli.Common.{ℕ, ◌≡◌, ◌∙◌, refl, sym, ap, Bool, true, false, arith}

abbrev pub text_lt : String → String → Bool
text_lt s t = is_lt (compare s t)

flip : Ordering → Ordering
flip Ordering.lt = Ordering.gt
flip Ordering.eq = Ordering.eq
flip Ordering.gt = Ordering.lt

flip-then : (o r : Ordering) → flip (then o r) ≡ then (flip o) (flip r)
unfolding flip
flip-then Ordering.lt r = refl
flip-then Ordering.eq r = refl
flip-then Ordering.gt r = refl

compare_ℕ-flip : (m n : ℕ) → compare_ℕ n m ≡ flip (compare_ℕ m n)
unfolding flip
compare_ℕ-flip m n = ground arith

compare-flip : (s t : String) → compare t s ≡ flip (compare s t)
unfolding flip
compare-flip [] [] = refl
compare-flip [] (d ∷ t) = compare.cons-nil d t ∙ sym (ap flip (compare.nil-cons d t))
compare-flip (c ∷ s) [] = compare.nil-cons c s ∙ sym (ap flip (compare.cons-nil c s))
compare-flip (c ∷ s) (d ∷ t) =
    compare.cons-cons d c t s
    ∙ rw (compare_ℕ-flip (code c) (code d), compare-flip s t)
        (sym (
          ap flip (compare.cons-cons c d s t)
          ∙ flip-then (compare_ℕ (code c) (code d)) (compare s t)))

flip-lt : (o : Ordering) → is_lt o ≡ true → is_lt (flip o) ≡ false
unfolding flip
flip-lt Ordering.lt h = refl
flip-lt Ordering.eq h = refl
flip-lt Ordering.gt h = absurd (ground (arith, h))

pub text_lt_asym : (s t : String) → text_lt s t ≡ true → text_lt t s ≡ false
text_lt_asym s t h = ap is_lt (compare-flip s t) ∙ flip-lt (compare s t) h
