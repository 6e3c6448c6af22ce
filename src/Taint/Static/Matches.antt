-- ===== src/Taint/Static/Matches.antt =====
-- What correlateWithStaticFindings of internal/analysis/active/taint/taint_analyzer.go finds.
use Prim.Native.String.{String}
use text.Mathlib.Text.{starts_with}
use text.Mathlib.TextEquality.{eq_iff}
use scalpel_cli.Common.{
  ℕ, ◌+◌, ◌≡◌, ◌≤◌, ◌↔◌, refl, sym, subst, true, false, List, [], ◌∷◌, ◌++◌, Option, none, some,
  ◌⊎◌, inl, inr, All, Bool-cases, arith,
}
use scalpel_cli.Common.Dict.{Dict}
use scalpel_cli.Taint.Types.{StaticFinding, CorrelatedFinding, Texts}
use scalpel_cli.Taint.Static.{
  is_match_of, is_sink_match, is_location_match, is_execution, get_sink_type, is_one_of_texts,
  is_source, any_source, split_bars, verified, correlate_from, correlate, candidates, line_of,
}

-- A sink that runs code.
abbrev pub RunsCode : String → Type 0
RunsCode s =
    (s ≡ "EVAL") ⊎ ((s ≡ "FUNCTION_CONSTRUCTOR") ⊎ ((s ≡ "SCRIPT_SRC") ⊎ (s ≡ "EXECUTION_PROOF")))

-- The sink is the same, or code ran and the static finding is on a sink that runs code.
abbrev pub SameSink : StaticFinding → CorrelatedFinding → Type 0
SameSink sf f =
    (sf.canonical_type ≡ f.sink) ⊎ ((f.sink ≡ "EXECUTION_PROOF") × RunsCode sf.canonical_type)

-- The name that the static analysis gives a place of the page where a probe was put.
abbrev pub SameSource : (dynamic static : String) → Type 0
SameSource d s =
    ((d ≡ "URL_PARAM")
      × ((s ≡ "location.search") ⊎ ((s ≡ "location.href") ⊎ (starts_with s "param:query:" ≡ true))))
    ⊎ (((d ≡ "HASH_FRAGMENT") × ((s ≡ "location.hash") ⊎ (starts_with s "param:hash:" ≡ true)))
        ⊎ (((d ≡ "LOCAL_STORAGE")
              × ((s ≡ "localStorage.getItem") ⊎ (starts_with s "param:storage:" ≡ true)))
            ⊎ (((d ≡ "SESSION_STORAGE")
                  × ((s ≡ "sessionStorage.getItem") ⊎ (starts_with s "param:storage:" ≡ true)))
                ⊎ ((d ≡ "COOKIE") × (s ≡ "document.cookie")))))

abbrev pub OneSource : (dynamic : String) → List String → Type 0
OneSource d [] = ⊥
OneSource d (s ∷ ss) = SameSource d s ⊎ OneSource d ss

-- At most three lines apart, where the line is known.
abbrev pub NearLine : StaticFinding → Option ℕ → Type 0
NearLine sf none = Unit
NearLine sf (some line) = (sf.line ≤ line + 3) × (line ≤ sf.line + 3)

-- A static finding of the same sink, one of whose sources is that of the probe, near the line.
abbrev pub Matches : Option ℕ → CorrelatedFinding → StaticFinding → Type 0
Matches line f sf =
    SameSink sf f × OneSource f.probe.source (split_bars sf.source) × NearLine sf line

abbrev code_sinks : List String
code_sinks = "EVAL" ∷ "FUNCTION_CONSTRUCTOR" ∷ "SCRIPT_SRC" ∷ "EXECUTION_PROOF" ∷ []

listed : (s : String) → (is_one_of_texts s code_sinks ≡ true) ↔ RunsCode s
unfolding is_one_of_texts
listed s =
    let e1 = eq_iff s "EVAL" in
    let e2 = eq_iff s "FUNCTION_CONSTRUCTOR" in
    let e3 = eq_iff s "SCRIPT_SRC" in
    let e4 = eq_iff s "EXECUTION_PROOF" in
    (λ h. ground (arith, h, e1, e2, e3, e4), λ h. ground (arith, h, e1, e2, e3, e4))

execution_listed : (s : String) → is_execution (get_sink_type s) ≡ is_one_of_texts s code_sinks
unfolding get_sink_type
execution_listed s = elim (Bool-cases (is_one_of_texts s code_sinks)) [
  | inl e ↦ rw e refl
  | inr e ↦ rw e (ground arith)
]

runs_code : (s : String) → (is_execution (get_sink_type s) ≡ true) ↔ RunsCode s
runs_code s = rw (execution_listed s) (listed s)

sink-SameSink :
    (sf : StaticFinding) (f : CorrelatedFinding) → (is_sink_match sf f ≡ true) ↔ SameSink sf f
sink-SameSink sf f =
    let e1 = eq_iff sf.canonical_type f.sink in
    let e2 = eq_iff f.sink "EXECUTION_PROOF" in
    let r = runs_code sf.canonical_type in
    (λ h. ground (arith, h, e1, e2, r), λ h. ground (arith, h, e1, e2, r))

is_source-SameSource : (d s : String) → is_source d s ≡ true → SameSource d s
unfolding is_source
is_source-SameSource d s h = ground (
  arith,
  h,
  eq_iff d "URL_PARAM",
  eq_iff d "HASH_FRAGMENT",
  eq_iff d "LOCAL_STORAGE",
  eq_iff d "SESSION_STORAGE",
  eq_iff d "COOKIE",
  eq_iff s "location.search",
  eq_iff s "location.href",
  eq_iff s "location.hash",
  eq_iff s "localStorage.getItem",
  eq_iff s "sessionStorage.getItem",
  eq_iff s "document.cookie",
)

SameSource-is_source : (d s : String) → SameSource d s → is_source d s ≡ true
unfolding is_source
SameSource-is_source d s (inl (e, x)) =
    subst (λ k. is_source k s ≡ true) (sym e)
      (ground (arith, x, eq_iff s "location.search", eq_iff s "location.href"))
SameSource-is_source d s (inr (inl (e, x))) =
    subst (λ k. is_source k s ≡ true) (sym e) (ground (arith, x, eq_iff s "location.hash"))
SameSource-is_source d s (inr (inr (inl (e, x)))) =
    subst (λ k. is_source k s ≡ true) (sym e) (ground (arith, x, eq_iff s "localStorage.getItem"))
SameSource-is_source d s (inr (inr (inr (inl (e, x))))) =
    subst (λ k. is_source k s ≡ true) (sym e) (ground (arith, x, eq_iff s "sessionStorage.getItem"))
SameSource-is_source d s (inr (inr (inr (inr (e, x))))) =
    subst (λ k. is_source k s ≡ true) (sym e) (ground (arith, x, eq_iff s "document.cookie"))

source-SameSource : (d s : String) → (is_source d s ≡ true) ↔ SameSource d s
source-SameSource d s = (is_source-SameSource d s, SameSource-is_source d s)

sources-OneSource : (d : String) (ss : List String) → (any_source d ss ≡ true) ↔ OneSource d ss
unfolding any_source
sources-OneSource d [] = (λ h. ground (arith, h), λ h. absurd h)
sources-OneSource d (s ∷ ss) =
    let e = source-SameSource d s in
    let r = sources-OneSource d ss in (λ h. ground (arith, h, e, r), λ h. ground (arith, h, e, r))

line-NearLine :
    (sf : StaticFinding) (line : Option ℕ) → (is_location_match sf line ≡ true) ↔ NearLine sf line
line-NearLine sf none = (λ h. tt, λ h. refl)
line-NearLine sf (some n) = (λ h. ground (arith, h), λ h. ground (arith, h))

pub match-Matches :
    (line : Option ℕ) (f : CorrelatedFinding) (sf : StaticFinding)
    → (is_match_of line f sf ≡ true) ↔ Matches line f sf
unfolding is_match_of
match-Matches line f sf =
    let a = sink-SameSink sf f in
    let b = sources-OneSource f.probe.source (split_bars sf.source) in
    let c = line-NearLine sf line in
    (λ h. ground (arith, h, a, b, c), λ h. ground (arith, h, a, b, c))

-- It stands in the list.
abbrev pub IsAmong : StaticFinding → List StaticFinding → Type 0
IsAmong sf sfs =
    (before : List StaticFinding) × (after : List StaticFinding) × (sfs ≡ before ++ sf ∷ after)

module _ (line : Option ℕ) (f : CorrelatedFinding) where
  abbrev pub Misses : List StaticFinding → Type 0
  Misses sfs = All (λ sf. ¬ (Matches line f sf)) sfs

  -- The first match, with those before it that do not match.
  abbrev pub FirstMatch : List StaticFinding → StaticFinding → Type 0
  FirstMatch sfs sf =
      (before after : List StaticFinding) × (sfs ≡ before ++ sf ∷ after)
      × Misses before
      × Matches line f sf

  abbrev pub Correlated : List StaticFinding → CorrelatedFinding → Type 0
  Correlated sfs g =
      (Misses sfs × (g ≡ f)) ⊎ ((sf : StaticFinding) × FirstMatch sfs sf × (g ≡ verified f sf))

  misses : (sf : StaticFinding) → is_match_of line f sf ≡ false → ¬ (Matches line f sf)
  misses sf m h = let e = (match-Matches line f sf).1 h in ground (arith, m, e)

  correlate_from-Correlated :
      (sfs : List StaticFinding) → Correlated sfs (correlate_from line f sfs)
  unfolding correlate_from
  correlate_from-Correlated [] = inl (tt, refl)
  correlate_from-Correlated (sf ∷ sfs) = elim (Bool-cases (is_match_of line f sf)) [
    | inl m ↦ inr (sf, ([], sfs, refl, tt, (match-Matches line f sf).0 m), rw (m))
    | inr m ↦ elim (correlate_from-Correlated sfs) [
      | inl (miss, same) ↦ inl ((misses sf m, miss), rw (m) same)
      | inr (g, (before, after, split, miss, match), same) ↦
          inr (g, (sf ∷ before, after, rw (split), (misses sf m, miss), match), rw (m) same)
    ]
  ]

-- CorrelateWithStaticFindings leaves a finding as it is where no static finding of its script
-- matches, and else confirms it by the first one that does; one matches if its sink is the same, or
-- runs code where the finding is a proof of execution, one of its sources is what the static
-- analysis calls the place of the probe, and it is at most three lines away where the line is known.
pub correlate-Correlated :
    (tx : Texts) (known : Dict (List StaticFinding)) (f : CorrelatedFinding)
    → Correlated (line_of tx f) f (candidates tx known f) (correlate tx known f)
unfolding correlate
correlate-Correlated tx known f = correlate_from-Correlated (line_of tx f) f (candidates tx known f)
