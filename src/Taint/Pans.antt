-- ===== src/Taint/Pans.antt =====
-- internal/analysis/active/taint/scanner.go: card numbers and their checksum.
pub mod Luhn
use Prim.Native.Char.{code}
use Prim.Native.String.{String}
use scalpel_cli.Common.{
  ℕ, ◌+◌, ◌-◌, ◌*◌, ◌/◌, ◌%◌, Bool, true, false, not, ◌&&◌, ◌||◌, List, [], ◌∷◌, ◌++◌, Option, none,
  some, ◌==◌, ltb, leb, length, if◌then◌else◌,
}
use scalpel_cli.Common.Text.{codes}
use scalpel_cli.Taint.Types.{Texts}

-- A code point as its bytes of UTF-8, by which Go measures and indexes a string.
abbrev bytes_of_code : ℕ → List ℕ
bytes_of_code c =
    if ltb c 128
    then c ∷ []
    else if ltb c 2048
    then (192 + c / 64) ∷ (128 + c % 64) ∷ []
    else if ltb c 65536
    then (224 + c / 4096) ∷ (128 + c / 64 % 64) ∷ (128 + c % 64) ∷ []
    else (240 + c / 262144) ∷ (128 + c / 4096 % 64) ∷ (128 + c / 64 % 64) ∷ (128 + c % 64) ∷ []

unfoldable pub utf8 : List ℕ → List ℕ
utf8 [] = []
utf8 (c ∷ cs) = bytes_of_code c ++ utf8 cs

-- `stripSeparators`, on code points.
unfoldable pub strip_separators : (is_digit : ℕ → Bool) → List ℕ → List ℕ
strip_separators is_digit [] = []
strip_separators is_digit (c ∷ cs) =
    let rest = strip_separators is_digit cs in if is_digit c then c ∷ rest else rest

-- `strconv.Atoi` of one byte.
abbrev pub digit_of : ℕ → Option ℕ
digit_of b = if leb b'0' b && leb b b'9' then some (b - b'0') else none

-- What one digit adds: every second one from the right is doubled.
unfoldable pub weight : (is_alt : Bool) → ℕ → ℕ
weight false d = d
weight true d = if ltb 9 (d * 2) then d * 2 - 9 else d * 2

abbrev pub add_digit : Option (ℕ × Bool) → Option ℕ → Option (ℕ × Bool)
add_digit (some (sum, alt)) (some d) = some (sum + weight alt d, not alt)
add_digit _ _ = none

-- The loop, from the last byte to the first; none where a byte is no digit.
unfoldable pub luhn_from : List ℕ → Option (ℕ × Bool)
luhn_from [] = some (0, false)
luhn_from (b ∷ bs) = add_digit (luhn_from bs) (digit_of b)

abbrev pub is_sum_of_tens : Option (ℕ × Bool) → Bool
is_sum_of_tens none = false
is_sum_of_tens (some (sum, alt)) = sum % 10 == 0

-- `luhnCheck`, on the bytes.
unfoldable pub luhn_check : List ℕ → Bool
luhn_check bs =
    if ltb (length bs) 13 || ltb 19 (length bs) then false else is_sum_of_tens (luhn_from bs)

unfoldable pub any_valid : (is_digit : ℕ → Bool) → List String → Bool
any_valid is_digit [] = false
any_valid is_digit (m ∷ ms) =
    if luhn_check (utf8 (strip_separators is_digit (codes m))) then true else any_valid is_digit ms

-- `HasValidPAN`
abbrev pub has_valid_pan : Texts → String → Bool
has_valid_pan tx value = any_valid tx.is_digit (tx.find_pans value)
