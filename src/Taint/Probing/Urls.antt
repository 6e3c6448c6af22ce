-- ===== src/Taint/Probing/Urls.antt =====
-- probeURLSources and probeSpecificURLParams of internal/analysis/active/taint/taint_analyzer.go, with
-- the parameters that generateAndExecuteSmartProbes takes from the static findings.
use Prim.Native.String.{String, len, slice}
use text.Mathlib.Text.{◌==◌ as str_eq, starts_with}
use scalpel_cli.Common.{
  ℕ, zero, suc, Bool, true, false, not, ◌&&◌, List, [], ◌∷◌, ◌++◌, Option, none, some,
  if◌then◌else◌,
}
use scalpel_cli.Common.Dict.{Dict, lookup, insert}
use scalpel_cli.Taint.Types.{ProbeDefinition, StaticFinding}
use scalpel_cli.Taint.Static.{is_one_of_texts, split_bars}
use scalpel_cli.Taint.Probing.{Web, Naming, Probing, Ended, ok, inject, visit, and_then, ◌++ₛ◌}

abbrev test_name : Web → ℕ → String
test_name w i = "sc_test_" ++ₛ w.decimal i

-- `probesInjected++`, where there is a payload.
abbrev pub plus_one : Option String → ℕ → ℕ
plus_one none k = k
plus_one (some payload) k = suc k

-- `Set` of url.Values, where there is a payload.
abbrev pub set_value : String → Option String → Dict (List String) → Dict (List String)
set_value name none q = q
set_value name (some payload) q = insert name (payload ∷ []) q

-- The loop over the probes, from the i-th, with `probesInjected`.
unfoldable pub query_probes :
    Web
    → Naming
    → ℕ
    → List ProbeDefinition
    → ℕ
    → Dict (List String)
    → Probing
    → ℕ × Dict (List String) × Probing
query_probes w n i [] k q p = (k, q, p)
query_probes w n i (d ∷ ds) k q p =
    let (payload, p₂) = inject w n "Q" "URL_PARAM" (test_name w i) d p in
    query_probes w n (suc i) ds (plus_one payload k) (set_value (test_name w i) payload q) p₂

abbrev add_fragment : Web → String → Option String → List String → List String
add_fragment w name none fs = fs
add_fragment w name (some payload) fs = fs ++ (name ++ₛ "=" ++ₛ w.query_escape payload) ∷ []

unfoldable pub hash_probes :
    Web → Naming → ℕ → List ProbeDefinition → ℕ → List String → Probing → ℕ × List String × Probing
hash_probes w n i [] k fs p = (k, fs, p)
hash_probes w n i (d ∷ ds) k fs p =
    let (payload, p₂) = inject w n "H" "HASH_FRAGMENT" (test_name w i) d p in
    hash_probes w n (suc i) ds (plus_one payload k) (add_fragment w (test_name w i) payload fs) p₂

-- `strings.Join(hashFragments, "&")`
unfoldable pub join_and : List String → String
join_and [] = ""
join_and (f ∷ []) = f
join_and (f ∷ g ∷ fs) = f ++ₛ "&" ++ₛ join_and (g ∷ fs)

abbrev visit_if : ℕ → String → Probing → Ended
visit_if zero url p = ok p
visit_if (suc k) url p = visit url p

unfoldable pub probe_query : Web → Naming → List ProbeDefinition → Probing → Ended
probe_query w n ds p =
    let (k, q, p₂) = query_probes w n 0 ds 0 w.query p in visit_if k (w.with_query (w.encode q)) p₂

unfoldable pub probe_hash : Web → Naming → List ProbeDefinition → Probing → Ended
probe_hash w n ds p =
    let (k, fs, p₂) = hash_probes w n 0 ds 0 [] p in visit_if k (w.with_fragment (join_and fs)) p₂

-- `probeURLSources`
unfoldable pub probe_url_sources : Web → Naming → List ProbeDefinition → Probing → Ended
probe_url_sources w n ds p =
    if w.is_parsed then and_then (probe_query w n ds p) (probe_hash w n ds) else (true, p)

-- `Add` of url.Values, where there is a payload.
abbrev pub values_of : Option (List String) → List String
values_of none = []
values_of (some vs) = vs

abbrev pub add_value : String → Option String → Dict (List String) → Dict (List String)
add_value name none q = q
add_value name (some payload) q = insert name (values_of (lookup name q) ++ payload ∷ []) q

-- A probe of prototype pollution is not for parameters, but for those that are merged.
abbrev is_irrelevant : ProbeDefinition → Bool
is_irrelevant d = str_eq d.type "PROTOTYPE_POLLUTION" && not (str_eq d.context "QS_PARSE_MERGE")

unfoldable pub specific_probes :
    Web
    → Naming
    → (prefix source name : String) → List ProbeDefinition
    → ℕ
    → Dict (List String)
    → Probing
    → ℕ × Dict (List String) × Probing
specific_probes w n prefix source name [] k q p = (k, q, p)
specific_probes w n prefix source name (d ∷ ds) k q p = elim (is_irrelevant d) [
  | true ↦ specific_probes w n prefix source name ds k q p
  | false ↦
      let (payload, p₂) = inject w n prefix source name d p in
      specific_probes w n prefix source name ds (plus_one payload k) (add_value name payload q) p₂
]

-- The two places that smart probes go to.
abbrev smart_prefix : Bool → String
smart_prefix use_hash = if use_hash then "SMART_H" else "SMART_Q"

abbrev smart_source : Bool → String
smart_source use_hash = if use_hash then "HASH_FRAGMENT" else "URL_PARAM"

abbrev smart_values : Web → Bool → Dict (List String)
smart_values w use_hash = if use_hash then w.fragment_query else w.query

abbrev smart_url : Web → Bool → Dict (List String) → String
smart_url w use_hash q =
    if use_hash then w.with_fragment (w.encode q) else w.with_query (w.encode q)

unfoldable pub probe_param : Web → Naming → Bool → List ProbeDefinition → String → Probing → Ended
probe_param w n use_hash ds name p =
    let (k, q, p₂) =
      specific_probes w n (smart_prefix use_hash) (smart_source use_hash) name ds 0
        (smart_values w use_hash) p in
    visit_if k (smart_url w use_hash q) p₂

-- One parameter after the other, up to the first error.
unfoldable pub probe_params :
    Web → Naming → Bool → List ProbeDefinition → List String → Probing → Ended
probe_params w n use_hash ds [] p = ok p
probe_params w n use_hash ds (name ∷ names) p =
    and_then (probe_param w n use_hash ds name p) (probe_params w n use_hash ds names)

-- `probeSpecificURLParams`
unfoldable pub probe_specific :
    Web → Naming → Bool → List ProbeDefinition → List String → Probing → Ended
probe_specific w n use_hash ds names p =
    if w.is_parsed then probe_params w n use_hash ds names p else (true, p)

-- What follows a prefix that the text has.
abbrev without_prefix : String → String → String
without_prefix s t = slice s (len t) (len s)

abbrev add_name : String → List String → List String
add_name name names =
    if str_eq name "" then names else if is_one_of_texts name names then names else name ∷ names

unfoldable pub names_from : (prefix : String) → List String → List String → List String
names_from prefix [] names = names
names_from prefix (s ∷ ss) names =
    names_from prefix ss
      (if starts_with s prefix then add_name (without_prefix s prefix) names else names)

-- The parameters that the sources of the findings name.
unfoldable pub target_params : (prefix : String) → List StaticFinding → List String → List String
target_params prefix [] names = names
target_params prefix (f ∷ fs) names =
    target_params prefix fs (names_from prefix (split_bars f.source) names)
