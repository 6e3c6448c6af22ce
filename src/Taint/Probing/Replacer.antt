-- ===== src/Taint/Probing/Replacer.antt =====
-- strings.Replacer, as preparePayload of internal/analysis/active/taint/taint_analyzer.go uses it.
use Prim.Native.String.{String, count, ◌++◌ as str_append}
use text.Mathlib.Text.{starts_with}
use scalpel_cli.Common.{
  ℕ, zero, suc, ◌-◌, List, [], ◌∷◌, Option, none, some, ◌≡◌, refl, if◌then◌else◌,
}

unfoldable pub first_match : List (String × String) → String → Option (ℕ × String)
first_match [] s = none
first_match ((old, new) ∷ ps) s =
    if starts_with s old then some (count old, new) else first_match ps s

-- `skip` characters of a text that was replaced are left. No old text is empty.
unfoldable pub replace_from : (pairs : List (String × String)) → (skip : ℕ) → String → String
replace_from ps skip String.[] = ""
replace_from ps (suc skip) (String.◌∷◌ c s) = replace_from ps skip s
replace_from ps zero (String.◌∷◌ c s) = elim (first_match ps (String.◌∷◌ c s)) [
  | none ↦ String.◌∷◌ c (replace_from ps 0 s)
  | some (n, new) ↦ str_append new (replace_from ps (n - 1) s)
]

abbrev pub replace_all : List (String × String) → String → String
replace_all ps s = replace_from ps 0 s

replaced : replace_all (("{a}", "1") ∷ ("{b}", "2") ∷ []) "x{b}{a}y" ≡ "x21y"
unfolding replace_from first_match
replaced = refl
