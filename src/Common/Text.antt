-- ===== src/Common/Text.antt =====
-- Text as code points, and `strconv.Atoi` over them.
use Prim.Native.Char.{code}
use Prim.Native.String.{String, len, slice}
use text.Mathlib.Text.{◌==◌ as str_eq}
use scalpel_cli.Common.{
  ℕ, ◌+◌, ◌-◌, ◌*◌, ◌≡◌, refl, Bool, false, ◌&&◌, List, [], ◌∷◌, Option, none, some, ltb, leb, ◌==◌,
  if◌then◌else◌,
}
use scalpel_cli.Common.Int.{ℤ, pos, negsuc}

abbrev pub codes : String → List ℕ
codes String.[] = []
codes (String.◌∷◌ c s) = code c ∷ codes s

-- `strings.HasSuffix`
unfoldable pub ends_with : String → String → Bool
ends_with s t = if ltb (len s) (len t) then false else str_eq (slice s (len s - len t) (len s)) t

is_digit : ℕ → Bool
is_digit c = leb b'0' c && leb c b'9'

-- The value of a run of digits; any other character is a syntax error.
read_digits : ℕ → List ℕ → Option ℕ
unfolding is_digit
read_digits acc [] = some acc
read_digits acc (c ∷ cs) = if is_digit c then read_digits (acc * 10 + (c - b'0')) cs else none

-- At least one digit is wanted.
read_number : List ℕ → Option ℕ
unfolding read_digits
read_number [] = none
read_number (c ∷ cs) = read_digits 0 (c ∷ cs)

-- The range of a 64-bit int.
signed_positive : ℕ → Option ℤ
signed_positive n = if leb n 9223372036854775807 then some (pos n) else none

signed_negative : ℕ → Option ℤ
signed_negative n =
    if n == 0
    then some (pos 0)
    else if leb n 9223372036854775808
    then some (negsuc (n - 1))
    else none

then_in_range : Option ℕ → (ℕ → Option ℤ) → Option ℤ
then_in_range none f = none
then_in_range (some n) f = f n

atoi_codes : List ℕ → Option ℤ
unfolding read_number then_in_range signed_positive signed_negative
atoi_codes [] = none
atoi_codes (c ∷ cs) =
    if c == b'-'
    then then_in_range (read_number cs) signed_negative
    else if c == b'+'
    then then_in_range (read_number cs) signed_positive
    else then_in_range (read_number (c ∷ cs)) signed_positive

unfoldable pub atoi : String → Option ℤ
unfolding atoi_codes
atoi s = atoi_codes (codes s)

atoi_status : atoi "204" ≡ some (pos 204)
unfolding atoi
atoi_status = refl

atoi_negative : atoi "-7" ≡ some (negsuc 6)
unfolding atoi
atoi_negative = refl

atoi_bad : atoi "2x" ≡ none
unfolding atoi
atoi_bad = refl
