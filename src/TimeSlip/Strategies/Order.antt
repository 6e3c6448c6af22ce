-- ===== src/TimeSlip/Strategies/Order.antt =====
-- The order of the findings.
use scalpel_cli.Common.{
  ◌≡◌, ◌≢◌, refl, ◌∙◌, inl, inr, ◌⊎◌, Bool, false, ◌&&◌, ◌||◌, List, [], ◌∷◌, Option, some, arith,
  Bool-cases, Option-cases, All, leb, ◌==◌,
}
use scalpel_cli.TimeSlip.Types.{RaceStrategy, RaceResponse, RaceResult, Config, Floats, Analysis}
use scalpel_cli.TimeSlip.Heuristics.{
  check_toctou, check_timing_anomalies, check_differential_state, check_state_flutter, Heuristic,
  pipeline, run_pipeline, conclude, counted, judged, analysis_of, analyze_results,
}
use scalpel_cli.TimeSlip.Statistics.{Aggregate, prepare_and_aggregate}
use scalpel_cli.TimeSlip.Strategies.{
  StrategyError, unsupported, unreachable, misconfigured, unexpected, critical, Finding, Run, Ended,
  is_unsupported, severity_of, report_finding, after_analysis, after_outcome, analyze_from, analyze,
  determine_strategies,
}

-- Nothing follows a critical finding.
abbrev pub CriticalIsLast : List Finding → Type 0
CriticalIsLast [] = Unit
CriticalIsLast (f ∷ []) = Unit
CriticalIsLast (f ∷ g ∷ fs) = (f.severity ≢ critical) × CriticalIsLast (g ∷ fs)

-- The findings are those of some of the strategies, one each and in their order.
pub data Follows : List RaceStrategy → List Finding → Type 0 where
  empty : Follows [] []
  skips :
      (s : RaceStrategy) {ss : List RaceStrategy} {fs : List Finding}
      → Follows ss fs
      → Follows (s ∷ ss) fs
  takes :
      (s : RaceStrategy) (f : Finding) {ss : List RaceStrategy} {fs : List Finding}
      → f.strategy ≡ s
      → Follows ss fs
      → Follows (s ∷ ss) (f ∷ fs)

no_findings : (ss : List RaceStrategy) → Follows ss []
no_findings [] = empty
no_findings (s ∷ ss) = skips s (no_findings ss)

cons-CriticalIsLast :
    (f : Finding) (fs : List Finding)
    → f.severity ≢ critical
    → CriticalIsLast fs
    → CriticalIsLast (f ∷ fs)
cons-CriticalIsLast f [] n h = tt
cons-CriticalIsLast f (g ∷ fs) n h = (n, h)

module _ (F : Type 0) (fl : Floats F) where
  not_critical :
      (a : Analysis F)
      → (a.is_vulnerable && a.confidence == 10) ≡ false
      → severity_of F fl a ≢ critical
  unfolding severity_of
  not_critical a h e = ground (arith, h, e)

  finding-strategy :
      (r : RaceResult) (a : Analysis F) → (report_finding F fl r a).strategy ≡ a.strategy
  unfolding report_finding
  finding-strategy r a = refl

  finding-not_critical :
      (r : RaceResult) (a : Analysis F)
      → (a.is_vulnerable && a.confidence == 10) ≡ false
      → (report_finding F fl r a).severity ≢ critical
  unfolding report_finding
  finding-not_critical r a h = not_critical a h

  abbrev pub Ordered : List RaceStrategy → Ended → Type 0
  Ordered ss e = Follows ss e.reported × CriticalIsLast e.reported

  after_analysis-Ordered :
      (s : RaceStrategy) (ss : List RaceStrategy) (r : RaceResult) (a : Analysis F) (rest : Ended)
      → a.strategy ≡ s
      → Ordered ss rest
      → Ordered (s ∷ ss) (after_analysis F fl r a rest)
  unfolding after_analysis
  after_analysis-Ordered s ss r a rest q (f, c) =
      elim (Bool-cases (a.is_vulnerable || leb 3 a.confidence)) [
        | inr e ↦ simp e (skips s f, c)
        | inl e ↦ elim (Bool-cases (a.is_vulnerable && a.confidence == 10)) [
          | inl k ↦
              simp (e, k)
                (takes s (report_finding F fl r a) (finding-strategy r a ∙ q) (no_findings ss), tt)
          | inr k ↦
              simp (e, k)
                (
                  takes s (report_finding F fl r a) (finding-strategy r a ∙ q) f,
                  cons-CriticalIsLast (report_finding F fl r a) rest.reported
                      (finding-not_critical r a k) c,
                )
        ]
      ]

  abbrev Keeps : (RaceResult → Config → Analysis F → Option (Analysis F)) → Type 0
  Keeps h =
      (r : RaceResult) (cfg : Config) (a a' : Analysis F)
      → h r cfg a ≡ some a'
      → a'.strategy ≡ a.strategy

  toctou-Keeps : Keeps (check_toctou F fl)
  unfolding check_toctou
  toctou-Keeps r cfg a a' e = ground (arith, e)

  timing-Keeps : Keeps (check_timing_anomalies F fl)
  unfolding check_timing_anomalies
  timing-Keeps r cfg a a' e = ground (arith, e)

  differential-Keeps : Keeps (check_differential_state F fl)
  unfolding check_differential_state
  differential-Keeps r cfg a a' e = ground (arith, e)

  flutter-Keeps : Keeps (check_state_flutter F fl)
  unfolding check_state_flutter
  flutter-Keeps r cfg a a' e = ground (arith, e)

  run-strategy :
      (hs : List (Heuristic F fl))
      → All Keeps hs
      → (r : RaceResult) (cfg : Config) (a : Analysis F)
      → (run_pipeline F fl hs r cfg a).strategy ≡ a.strategy
  unfolding run_pipeline
  run-strategy [] k r cfg a = refl
  run-strategy (h ∷ hs) (k, ks) r cfg a = elim (Option-cases (h r cfg a)) [
    | inl e ↦ rw (e, run_pipeline) (run-strategy hs ks r cfg a)
    | inr (a', e) ↦ rw (e, run_pipeline) (k r cfg a a' e)
  ]

  conclude-strategy : (a : Analysis F) → (conclude F fl a).strategy ≡ a.strategy
  unfolding conclude
  conclude-strategy a = ground arith

  judged-strategy :
      (r : RaceResult) (cfg : Config) (t : Aggregate) → (judged F fl r cfg t).strategy ≡ r.strategy
  judged-strategy r cfg ([], u, n) = refl
  judged-strategy r cfg (v ∷ vs, u, n) =
      conclude-strategy (run_pipeline F fl (pipeline F fl) r cfg (counted F fl r (v ∷ vs, u, n)))
      ∙ run-strategy (pipeline F fl)
          (toctou-Keeps, (timing-Keeps, (differential-Keeps, (flutter-Keeps, tt)))) r cfg
          (counted F fl r (v ∷ vs, u, n))

  analysis-strategy :
      (r : RaceResult) (cfg : Config) (rs : List RaceResponse)
      → (analysis_of F fl r cfg rs).strategy ≡ r.strategy
  analysis-strategy r cfg [] = refl
  analysis-strategy r cfg (x ∷ xs) = judged-strategy r cfg (prepare_and_aggregate (x ∷ xs))

  after_outcome-Ordered :
      (cfg : Config) (run : Run) (s : RaceStrategy) (ss : List RaceStrategy) (rest : Ended)
      (o : StrategyError ⊎ RaceResult)
      → ((r : RaceResult) → o ≡ inr r → r.strategy ≡ s)
      → Ordered ss rest
      → Ordered (s ∷ ss) (after_outcome F fl cfg run rest o)
  unfolding analyze_results
  after_outcome-Ordered cfg run s ss rest (inl unsupported) n (f, c) = (skips s f, c)
  after_outcome-Ordered cfg run s ss rest (inl unreachable) n (f, c) =
      elim (Bool-cases run.is_cancelled_behind) [
        | inl e ↦ rw e (no_findings (s ∷ ss), tt)
        | inr e ↦ rw e (skips s f, c)
      ]
  after_outcome-Ordered cfg run s ss rest (inl misconfigured) n o = (no_findings (s ∷ ss), tt)
  after_outcome-Ordered cfg run s ss rest (inl unexpected) n (f, c) = (skips s f, c)
  after_outcome-Ordered cfg run s ss rest (inr r) n (f, c) =
      elim (Bool-cases (is_unsupported r.responses)) [
        | inl e ↦ rw e (skips s f, c)
        | inr e ↦ rw e (
            after_analysis-Ordered s ss r (analyze_results F fl r cfg) rest
              (analysis-strategy r cfg r.responses ∙ n r refl) (f, c))
      ]

  analyze_from-Ordered :
      (cfg : Config) (runs : RaceStrategy → Run)
      → ((s : RaceStrategy) (r : RaceResult) → (runs s).outcome ≡ inr r → r.strategy ≡ s)
      → (ss : List RaceStrategy) → Ordered ss (analyze_from F fl cfg runs ss)
  unfolding analyze_from
  analyze_from-Ordered cfg runs n [] = (empty, tt)
  analyze_from-Ordered cfg runs n (s ∷ ss) = elim (Bool-cases (runs s).is_cancelled) [
    | inl e ↦ rw e (no_findings (s ∷ ss), tt)
    | inr e ↦ rw e (
        after_outcome-Ordered cfg (runs s) s ss (analyze_from F fl cfg runs ss) (runs s).outcome
          (λ r q. n s r q) (analyze_from-Ordered cfg runs n ss))
  ]

  -- Where each strategy names itself in its result, `Analyze` reports at most one finding for a strategy,
  -- in the order of the strategies of the candidate, and no finding follows a critical one.
  pub analyze-Ordered :
      (cfg : Config) (runs : RaceStrategy → Run)
      → ((s : RaceStrategy) (r : RaceResult) → (runs s).outcome ≡ inr r → r.strategy ≡ s)
      → (is_graphql only_http1 : Bool)
      → Ordered
          (determine_strategies is_graphql only_http1)
          (analyze F fl cfg runs is_graphql only_http1)
  unfolding analyze
  analyze-Ordered cfg runs n is_graphql only_http1 =
      analyze_from-Ordered cfg runs n (determine_strategies is_graphql only_http1)
