-- ===== src/TimeSlip/Oracle.antt =====
-- SuccessOracle of internal/analysis/active/timeslip/oracle.go.
use Prim.Native.String.{String, ◌++◌ as str_append}
use scalpel_cli.Common.{
  ℕ, Bool, true, false, ◌&&◌, List, [], ◌∷◌, Option, none, some, ltb, leb, ◌==◌, if◌then◌else◌,
}
use scalpel_cli.Common.Dict.{Dict}
use scalpel_cli.TimeSlip.Types.{Config, ParsedResponse, RaceResponse}

-- `SuccessOracle`: the compiled expressions are functions, and `is_graphql_success` is what
-- `isGraphQLSpecSuccess` finds with encoding/json.
pub record SuccessOracle : Type 0 where
  pub config : Option Config
  pub body_matches : Option (List ℕ → Bool)
  pub header_matches : Option (String → Bool)
  pub is_graphql : Bool
  pub is_graphql_success : List ℕ → Bool

unfoldable pub is_listed_code : ℕ → List ℕ → Bool
is_listed_code s [] = false
is_listed_code s (c ∷ cs) = if s == c then true else is_listed_code s cs

abbrev is_default_success : ℕ → Bool
is_default_success s = leb 200 s && ltb s 400

abbrev check_configured : ℕ → List ℕ → Bool
check_configured s [] = is_default_success s
check_configured s (c ∷ cs) = is_listed_code s (c ∷ cs)

unfoldable pub check_status_code : Option Config → ℕ → Bool
check_status_code none s = is_default_success s
check_status_code (some cfg) s = check_configured s cfg.status_codes

unfoldable pub any_value : (String → Bool) → String → List String → Bool
any_value rx key [] = false
any_value rx key (v ∷ vs) =
    if rx (str_append key (str_append ": " v)) then true else any_value rx key vs

-- `checkHeaderRegex`: one line of the headers is enough.
unfoldable pub check_header_regex : (String → Bool) → Dict (List String) → Bool
check_header_regex rx [] = false
check_header_regex rx ((key, vs) ∷ h) =
    if any_value rx key vs then true else check_header_regex rx h

abbrev pub passes {ℓ} : {A : Type ℓ} → Option (A → Bool) → A → Bool
passes none a = true
passes (some f) a = f a

abbrev header_passes : Option (String → Bool) → Dict (List String) → Bool
header_passes none h = true
header_passes (some rx) h = check_header_regex rx h

abbrev is_parsed_success : SuccessOracle → List ℕ → ParsedResponse → Bool
is_parsed_success o body p =
    check_status_code o.config p.status_code
    && (passes o.body_matches body
        && (header_passes o.header_matches p.headers
            && (if o.is_graphql then o.is_graphql_success body else true)))

-- `IsSuccess`
unfoldable pub is_success_of : SuccessOracle → RaceResponse → Bool
is_success_of o r =
    if r.has_error
    then false
    else elim r.parsed [ none ↦ false | some p ↦ is_parsed_success o r.specific_body p ]
