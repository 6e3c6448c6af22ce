-- ===== src/Results.antt =====
-- internal/results: enrich.go and pipeline.go, with the providers of internal/results/providers.
pub mod Order
pub mod Providers
mod Tests
use Prim.Native.String.{String, ◌++◌ as str_append, len}
use text.Mathlib.Text.{◌==◌ as str_eq}
use scalpel_cli.Common.{
  ℕ, suc, ◌≡◌, Bool, true, false, not, ◌&&◌, ◌||◌, List, [], ◌∷◌, Option, none, some, ltb, ◌==◌,
  if◌then◌else◌, length,
}
use scalpel_cli.Common.Dict.{Dict, lookup, insert}
use scalpel_cli.Common.TextOrder.{text_lt}

-- The fields of `schemas.Finding` that the pipeline uses; `id` stands for the others, which stay.
pub record Finding : Type 0 where
  pub id : String
  pub vulnerability_name : String
  pub severity : String
  pub description : String
  pub cwe : List String

pub record CweEntry : Type 0 where
  pub id : String
  pub name : String
  pub description : String

-- `GetCWE` of the provider in memory: an entry that is not there is made up.
unfoldable pub get_cwe : Dict CweEntry → String → CweEntry
get_cwe entries id = elim (lookup id entries) [
  | some e ↦ e
  | none ↦ record {
    id = id;
    name = str_append id " (Details Not Found)";
    description = "Details for this CWE ID are not available in the local database.";
  }
]

unfoldable pub is_generic : String → Bool
is_generic name = str_eq name "" || str_eq name "Unclassified Vulnerability"

-- The name and the description, by what the provider has.
unfoldable pub improve : CweEntry → Finding → Finding
improve e f = record f {
  vulnerability_name =
      if is_generic f.vulnerability_name && not (str_eq e.name "")
      then e.name
      else f.vulnerability_name;
  description =
      if ltb (len f.description) 20 && not (str_eq e.description "")
      then e.description
      else f.description;
}

abbrev enrich_by : Dict CweEntry → Finding → List String → Finding
enrich_by entries f [] = f
enrich_by entries f (c ∷ cs) = improve (get_cwe entries c) f

-- `EnrichFinding`, which is `enrichCWE`.
unfoldable pub enrich_finding : Dict CweEntry → Finding → Finding
enrich_finding entries f = enrich_by entries f f.cwe

unfoldable pub enrich_all : Dict CweEntry → List Finding → List Finding
enrich_all entries [] = []
enrich_all entries (f ∷ fs) = enrich_finding entries f ∷ enrich_all entries fs

-- `severityOrder`, with 99 for any other text.
unfoldable pub severity_rank : String → ℕ
severity_rank s =
    if str_eq s "critical"
    then 1
    else if str_eq s "high"
    then 2
    else if str_eq s "medium"
    then 3
    else if str_eq s "low"
    then 4
    else if str_eq s "info"
    then 5
    else 99

-- The test that `sort.Slice` is given.
unfoldable pub comes_before : Finding → Finding → Bool
comes_before f g =
    let i = severity_rank f.severity in
    let j = severity_rank g.severity in
    if i == j then text_lt f.vulnerability_name g.vulnerability_name else ltb i j

unfoldable pub insert_finding : Finding → List Finding → List Finding
insert_finding f [] = f ∷ []
insert_finding f (g ∷ gs) =
    let rest = insert_finding f gs in if comes_before g f then g ∷ rest else f ∷ g ∷ gs

-- `sort.Slice`, of which the order of equal findings is one that it can give.
unfoldable pub prioritize : List Finding → List Finding
prioritize [] = []
prioritize (f ∷ fs) = insert_finding f (prioritize fs)

abbrev pub or_zero : Option ℕ → ℕ
or_zero none = 0
or_zero (some n) = n

unfoldable pub count_severities : List Finding → Dict ℕ → Dict ℕ
count_severities [] d = d
count_severities (f ∷ fs) d =
    count_severities fs (insert f.severity (suc (or_zero (lookup f.severity d))) d)

unfoldable pub generate_summary : List Finding → Dict ℕ
generate_summary fs = count_severities fs (insert "total" (length fs) [])

pub record Report : Type 0 where
  pub scan_id : String
  pub findings : List Finding
  pub summary : Dict ℕ

-- `ProcessScanResults`; the findings of the store are an argument, none for an error.
unfoldable pub process_scan_results : Dict CweEntry → String → Option (List Finding) → Option Report
process_scan_results entries scan_id none = none
process_scan_results entries scan_id (some fs) =
    let sorted = prioritize (enrich_all entries fs) in
    some (record { scan_id = scan_id; findings = sorted; summary = generate_summary sorted })

abbrev is_one_of : String → List String → Bool
is_one_of s [] = false
is_one_of s (t ∷ ts) = str_eq s t || is_one_of s ts

-- `normalizeSeverity`; `canonical` is `strings.ToUpper` of `strings.TrimSpace`.
unfoldable pub normalize_severity : (canonical : String → String) → String → String
normalize_severity canonical raw =
    let s = canonical raw in
    if is_one_of s ("CRITICAL" ∷ "FATAL" ∷ [])
    then "CRITICAL"
    else if is_one_of s ("HIGH" ∷ "IMPORTANT" ∷ "ERROR" ∷ [])
    then "HIGH"
    else if is_one_of s ("MEDIUM" ∷ "MODERATE" ∷ "WARN" ∷ "WARNING" ∷ [])
    then "MEDIUM"
    else if str_eq s "LOW"
    then "LOW"
    else if is_one_of s ("INFO" ∷ "INFORMATIONAL" ∷ "NEGLIGIBLE" ∷ [])
    then "INFO"
    else "UNKNOWN"

-- `Normalize`: the finding with its canonical severity.
unfoldable pub normalize : (canonical : String → String) → Finding → Finding × String
normalize canonical f = (f, normalize_severity canonical f.severity)
