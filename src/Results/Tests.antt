-- ===== src/Results/Tests.antt =====
-- A small report and a small store.
use mathlib.Core.List.{Permᴰ}
use Prim.Native.String.{String}
use scalpel_cli.Common.{◌+◌, ◌≡◌, ◌≢◌, refl, List, [], ◌∷◌, some, length, inr, All}
use scalpel_cli.Common.Dict.{Dict, lookup}
use scalpel_cli.Results.{
  Finding, CweEntry, get_cwe, is_generic, improve, enrich_finding, enrich_all, severity_rank,
  comes_before, insert_finding, prioritize, Report, process_scan_results,
}
use scalpel_cli.Results.Order.{Ordered, count_of, with_severity, report_exact}
use scalpel_cli.Results.Providers.{
  Provider, Store, already_exists, add, get, list_providers, insert_provider,
}
use scalpel_cli.Results.Providers.Refinement.{Operation, adds, deletes}
use scalpel_cli.Results.Providers.Listing.{run_all, Ascending, Found, count_id, one_if, list_exact}

abbrev finding : String → String → String → Finding
finding id name severity = record {
  id = id;
  vulnerability_name = name;
  severity = severity;
  description = "";
  cwe = "CWE-79" ∷ [];
}

abbrev entries : Dict CweEntry
entries = ("CWE-79", record { id = "CWE-79"; name = "Scripting"; description = "" }) ∷ []

abbrev raw : List Finding
raw = finding "1" "" "low" ∷ finding "2" "Leak" "critical" ∷ finding "3" "Guess" "low" ∷ []

abbrev names : List Finding → List String
names [] = []
names (f ∷ fs) = f.vulnerability_name ∷ names fs

worst_first : names (prioritize (enrich_all entries raw)) ≡ "Leak" ∷ "Guess" ∷ "Scripting" ∷ []
unfolding enrich_all enrich_finding improve get_cwe is_generic prioritize insert_finding
    comes_before severity_rank lookup
worst_first = refl

report_exact_example :
    (r : Report) × (process_scan_results entries "s" (some raw) ≡ some r)
    × Permᴰ (enrich_all entries raw) r.findings
    × Ordered r.findings
    × ((s : String) → s ≢ "total" → count_of s r.summary ≡ with_severity s r.findings)
    × (count_of "total" r.summary ≡ length r.findings + with_severity "total" r.findings)
report_exact_example = report_exact entries "s" raw

abbrev provider : String → Provider
provider id = record { id = id; name = "n"; kind = "k" }

abbrev two : Store
two = ("b", provider "b") ∷ ("a", provider "a") ∷ []

added_again : (add (provider "a") two).1 ≡ some already_exists
unfolding add lookup
added_again = refl

got : get "b" two ≡ inr (provider "b")
unfolding get lookup
got = refl

listed : list_providers two ≡ provider "a" ∷ provider "b" ∷ []
unfolding list_providers insert_provider
listed = refl

-- The second provider has no name, and the last operation deletes what is not there.
abbrev changes : List Operation
changes =
    adds (provider "b")
    ∷ adds (record (provider "c") { name = "" })
    ∷ adds (provider "a")
    ∷ deletes "d"
    ∷ []

list_exact_example :
    Ascending (list_providers (run_all changes []))
    × All (Found (run_all changes [])) (list_providers (run_all changes []))
    × ((id : String)
        → count_id id (list_providers (run_all changes []))
          ≡ one_if (lookup id (run_all changes [])))
list_exact_example = list_exact changes
