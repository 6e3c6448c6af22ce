-- ===== src/Taint/Correlation/Reports.antt =====
-- What processSinkEvent of internal/analysis/active/taint/taint_analyzer.go reports.
use Prim.Native.String.{String}
use text.Mathlib.Text.{◌==◌ as str_eq}
use text.Mathlib.TextEquality.{eq_iff}
use text.Mathlib.TextPositions.{eq_refl}
use scalpel_cli.Common.{
  ℕ, suc, ◌+◌, ◌&&◌, ◌≡◌, refl, sym, ap, ◌∙◌, subst, Bool, true, false, not, List, [], ◌∷◌, Option,
  none, some, ◌⊎◌, inl, inr, All, arith, Bool-cases, if◌then◌else◌,
}
use scalpel_cli.Common.Dict.{Dict, lookup, insert, lookup-insert, Distinct, insert-Distinct}
use scalpel_cli.Taint.Types.{
  StaticFinding, ActiveProbe, SinkEvent, CorrelatedFinding, Analyzer, Texts,
}
use scalpel_cli.Taint.Rules.{is_context_valid, is_error_page_context}
use scalpel_cli.Taint.Static.{is_one_of_texts, correlate, candidates, line_of}
use scalpel_cli.Taint.Static.Matches.{IsAmong, Matches, correlate-Correlated}
use scalpel_cli.Taint.Correlation.{
  with_match, matched_probes, is_reportable, report_matched, sink_finding, process_sink,
}

-- How many of the findings are about a canary.
abbrev pub count_canary : String → List CorrelatedFinding → ℕ
count_canary k [] = 0
count_canary k (f ∷ fs) = if str_eq f.canary k then suc (count_canary k fs) else count_canary k fs

-- What a canary calls for: a finding if it is in the value and the probe is known and passes the tests.
abbrev pub reports_due : Texts → Analyzer → SinkEvent → Bool → Option ActiveProbe → ℕ
reports_due tx a e false p = 0
reports_due tx a e true none = 0
reports_due tx a e true (some p) =
    if is_context_valid tx a e p && not (is_error_page_context tx e.page_url e.page_title)
    then 1
    else 0

abbrev or_else : Option ActiveProbe → Option ActiveProbe → Option ActiveProbe
or_else none o = o
or_else (some p) o = some p

lookup-with_match :
    (o : Option ActiveProbe) (c k : String) (acc : Dict ActiveProbe)
    → lookup k (with_match o c acc)
      ≡ (if str_eq c k then or_else o (lookup k acc) else lookup k acc)
lookup-with_match none c k acc = ground arith
lookup-with_match (some p) c k acc = lookup-insert c k p acc

or_else_idem :
    (o r : Option ActiveProbe) (b : Bool)
    → (if b then or_else o (or_else o r) else or_else o r) ≡ or_else o r
or_else_idem none r b = ground arith
or_else_idem (some p) r b = ground arith

pub lookup-matched_probes :
    (active : Dict ActiveProbe) (found : List String) (acc : Dict ActiveProbe) (k : String)
    → lookup k (matched_probes active found acc)
      ≡ (if is_one_of_texts k found then or_else (lookup k active) (lookup k acc) else lookup k acc)
unfolding matched_probes is_one_of_texts
lookup-matched_probes active [] acc k = refl
lookup-matched_probes active (c ∷ found) acc k =
    lookup-matched_probes active found (with_match (lookup c active) c acc) k
    ∙ rw (lookup-with_match (lookup c active) c k acc) (elim (Bool-cases (str_eq c k)) [
      | inl e ↦
          rw ((eq_iff c k).0 e, eq_refl k)
            (or_else_idem (lookup k active) (lookup k acc) (is_one_of_texts k found))
      | inr e ↦ ground (arith, e, eq_iff c k, eq_iff k c)
    ])

with_match-Distinct :
    (o : Option ActiveProbe) (c : String) (acc : Dict ActiveProbe)
    → Distinct acc
    → Distinct (with_match o c acc)
with_match-Distinct none c acc h = h
with_match-Distinct (some p) c acc h = insert-Distinct c p acc h

matched_probes-Distinct :
    (active : Dict ActiveProbe) (found : List String) (acc : Dict ActiveProbe)
    → Distinct acc
    → Distinct (matched_probes active found acc)
unfolding matched_probes
matched_probes-Distinct active [] acc h = h
matched_probes-Distinct active (c ∷ found) acc h =
    matched_probes-Distinct active found (with_match (lookup c active) c acc)
      (with_match-Distinct (lookup c active) c acc h)

pub canary_kept :
    (tx : Texts) (known : Dict (List StaticFinding)) (f : CorrelatedFinding)
    → (correlate tx known f).canary ≡ f.canary
canary_kept tx known f = elim (correlate-Correlated tx known f) [
  | inl (miss, same) ↦ ap (λ g. g.canary) same
  | inr (sf, first, same) ↦ ap (λ g. g.canary) same
]

sink_finding_canary :
    (tx : Texts) (a : Analyzer) (e : SinkEvent) (c : String) (p : ActiveProbe)
    → (sink_finding tx a e c p).canary ≡ c
sink_finding_canary tx a e c p = canary_kept tx a.static_findings _

count_first :
    (k : String) (f : CorrelatedFinding) (fs : List CorrelatedFinding) (r b : Bool)
    → str_eq f.canary k ≡ b
    → count_canary k (if r then f ∷ fs else fs) ≡ (if r && b then 1 else 0) + count_canary k fs
count_first k f fs r b h = ground (arith, h)

count-report_matched :
    (tx : Texts) (a : Analyzer) (e : SinkEvent) (k : String) (m : Dict ActiveProbe)
    → Distinct m
    → count_canary k (report_matched tx a e m) ≡ reports_due tx a e true (lookup k m)
unfolding report_matched lookup is_reportable
count-report_matched tx a e k [] h = refl
count-report_matched tx a e k ((c, p) ∷ m) h =
    count_first k (sink_finding tx a e c p) (report_matched tx a e m) (is_reportable tx a e p)
      (str_eq c k) (ap (λ x. str_eq x k) (sink_finding_canary tx a e c p))
    ∙ rw (count-report_matched tx a e k m h.1) (elim (Bool-cases (str_eq c k)) [
      | inl s ↦ rw (s, subst (λ x. lookup x m ≡ none) ((eq_iff c k).0 s) h.0) (ground arith)
      | inr s ↦ rw (s) (ground arith)
    ])

due_of :
    (tx : Texts) (a : Analyzer) (e : SinkEvent) (b : Bool) (o : Option ActiveProbe)
    → reports_due tx a e true (if b then or_else o none else none) ≡ reports_due tx a e b o
due_of tx a e true none = refl
due_of tx a e true (some p) = refl
due_of tx a e false o = refl

-- For every text, processSinkEvent reports exactly one finding under it if it is a canary in the
-- value of the event that an active probe has, the flow is valid for its probe and the page is no
-- error page, and else none.
pub count-process_sink :
    (tx : Texts) (a : Analyzer) (e : SinkEvent) (k : String)
    → count_canary k (process_sink tx a e)
      ≡ reports_due tx a e (is_one_of_texts k (tx.find_canaries e.value)) (lookup k a.active_probes)
unfolding process_sink lookup
count-process_sink tx a e k =
    count-report_matched tx a e k _
      (matched_probes-Distinct a.active_probes (tx.find_canaries e.value) [] tt)
    ∙ rw (lookup-matched_probes a.active_probes (tx.find_canaries e.value) [] k)
        (due_of tx a e (is_one_of_texts k (tx.find_canaries e.value)) (lookup k a.active_probes))

-- A static finding of the finding's script, with which it shares sink, source and line.
abbrev pub Confirmed : Texts → Analyzer → CorrelatedFinding → Type 0
Confirmed tx a f =
    (sf : StaticFinding) × (f.static_finding ≡ some sf)
    × IsAmong sf (candidates tx a.static_findings f)
    × Matches (line_of tx f) f sf

-- A finding on a value belongs to a probe that is known, and is confirmed only by static analysis.
abbrev pub Sound : Texts → Analyzer → CorrelatedFinding → Type 0
Sound tx a f =
    (lookup f.canary a.active_probes ≡ some f.probe)
    × (((f.is_confirmed ≡ false) × (f.confirmed_static ≡ false))
        ⊎ ((f.is_confirmed ≡ true) × (f.confirmed_static ≡ true) × Confirmed tx a f))

-- Every entry of a map is what its canary stands for.
abbrev Known : Dict ActiveProbe → Dict ActiveProbe → Type 0
Known active m = All (λ (c, p). lookup c active ≡ some p) m

insert-Known :
    (active : Dict ActiveProbe) (c : String) (p : ActiveProbe) (m : Dict ActiveProbe)
    → lookup c active ≡ some p
    → Known active m
    → Known active (insert c p m)
unfolding insert
insert-Known active c p [] e h = (e, tt)
insert-Known active c p ((j, w) ∷ m) e h = elim (Bool-cases (str_eq j c)) [
  | inl s ↦ rw (s) (e, h.1)
  | inr s ↦ rw (s) (h.0, insert-Known active c p m e h.1)
]

with_match-Known :
    (active : Dict ActiveProbe) (c : String) (o : Option ActiveProbe) (m : Dict ActiveProbe)
    → lookup c active ≡ o
    → Known active m
    → Known active (with_match o c m)
with_match-Known active c none m e h = h
with_match-Known active c (some p) m e h = insert-Known active c p m e h

matched_probes-Known :
    (active : Dict ActiveProbe) (found : List String) (m : Dict ActiveProbe)
    → Known active m
    → Known active (matched_probes active found m)
unfolding matched_probes
matched_probes-Known active [] m h = h
matched_probes-Known active (c ∷ found) m h =
    matched_probes-Known active found (with_match (lookup c active) c m)
      (with_match-Known active c (lookup c active) m refl h)

correlate-Sound :
    (tx : Texts) (a : Analyzer) (f : CorrelatedFinding)
    → lookup f.canary a.active_probes ≡ some f.probe
    → f.is_confirmed ≡ false
    → f.confirmed_static ≡ false
    → Sound tx a (correlate tx a.static_findings f)
correlate-Sound tx a f h c d = elim (correlate-Correlated tx a.static_findings f) [
  | inl (miss, same) ↦ subst (λ g. Sound tx a g) (sym same) (h, inl (c, d))
  | inr (sf, (before, after, split, miss, match), same) ↦
      subst (λ g. Sound tx a g) (sym same)
        (h, inr (refl, refl, (sf, refl, (before, after, split), match)))
]

report_matched-Sound :
    (tx : Texts) (a : Analyzer) (e : SinkEvent) (m : Dict ActiveProbe)
    → Known a.active_probes m
    → All (λ f. Sound tx a f) (report_matched tx a e m)
unfolding report_matched
report_matched-Sound tx a e [] h = tt
report_matched-Sound tx a e ((c, p) ∷ m) h = elim (Bool-cases (is_reportable tx a e p)) [
  | inl r ↦ rw (r) (correlate-Sound tx a _ h.0 refl refl, report_matched-Sound tx a e m h.1)
  | inr r ↦ rw (r) (report_matched-Sound tx a e m h.1)
]

-- Every finding that processSinkEvent reports names the active probe that stands under its canary,
-- and is either not confirmed, or confirmed by a static finding that it names, which is known for
-- its script, is of the same sink, has the probe's source among its sources, and is at most three
-- lines away where the line is known.
pub process_sink-Sound :
    (tx : Texts) (a : Analyzer) (e : SinkEvent) → All (λ f. Sound tx a f) (process_sink tx a e)
unfolding process_sink
process_sink-Sound tx a e =
    report_matched-Sound tx a e _
      (matched_probes-Known a.active_probes (tx.find_canaries e.value) [] tt)
