-- ===== src/TimeSlip/Strategies.antt =====
-- Analyze, determineStrategies and reportFinding of internal/analysis/active/timeslip/timeslip_analyzer.go.
-- What the strategies come to, and when the context ends, is an argument.
pub mod Order
use Prim.Native.String.{String}
use scalpel_cli.Common.{
  Bool, true, false, ◌&&◌, ◌||◌, ◌⊎◌, inl, inr, List, [], ◌∷◌, Option, none, some, leb, ◌==◌,
  if◌then◌else◌,
}
use scalpel_cli.TimeSlip.Types.{
  RaceStrategy, h1_concurrent, h1_single_byte_send, h2_multiplexing, h2_dependency, async_graphql,
  RaceResponse, RaceResult, Config, Floats, Detail, Analysis,
}
use scalpel_cli.TimeSlip.Heuristics.{analyze_results}
use scalpel_cli.TimeSlip.Samples.{Sample, sample_unique_responses}

-- The errors that `Analyze` tells apart: `unsupported` is ErrH2Unsupported, ErrPipeliningRejected or
-- ErrH2FrameError, and `misconfigured` is ErrConfigurationError or ErrPayloadMutationFail.
pub data StrategyError : Type 0 where
  unsupported unreachable misconfigured unexpected : StrategyError

pub data Severity : Type 0 where
  critical high medium low info : Severity

-- The three titles of a finding.
pub data Title : Type 0 where
  confirmed detected anomaly : Title

pub record Finding : Type 0 where
  pub severity : Severity
  pub title : Title
  pub strategy : RaceStrategy
  pub details : Option Detail
  pub cwe : String
  pub samples : List Sample

unfoldable pub determine_strategies : (is_graphql only_http1 : Bool) → List RaceStrategy
determine_strategies true only_http1 = async_graphql ∷ []
determine_strategies false true = h1_single_byte_send ∷ h1_concurrent ∷ []
determine_strategies false false =
    h2_dependency ∷ h2_multiplexing ∷ h1_single_byte_send ∷ h1_concurrent ∷ []

-- What happens to a strategy: the context before it, its outcome, and the context behind it.
pub record Run : Type 0 where
  pub is_cancelled : Bool
  pub outcome : StrategyError ⊎ RaceResult
  pub is_cancelled_behind : Bool

unfoldable pub all_errors : List RaceResponse → Bool
all_errors [] = true
all_errors (r ∷ rs) = r.has_error && all_errors rs

abbrev pub is_unsupported : List RaceResponse → Bool
is_unsupported [] = false
is_unsupported (r ∷ rs) = all_errors (r ∷ rs)

-- The loop's end: `Analyze` returns nil, or the error of the context.
pub record Ended : Type 0 where
  pub is_cancelled : Bool
  pub reported : List Finding

abbrev pub ended : Bool → Ended
ended is_cancelled = record { is_cancelled = is_cancelled; reported = [] }

abbrev pub with_finding : Finding → Ended → Ended
with_finding f e = record e { reported = f ∷ e.reported }

module _ (F : Type 0) (fl : Floats F) where
  unfoldable pub severity_of : Analysis F → Severity
  severity_of a =
      if a.is_vulnerable
      then (if a.confidence == 10
          then critical
          else if leb 8 a.confidence
          then high
          else if leb 6 a.confidence
          then medium
          else low)
      else info

  abbrev title_of : Analysis F → Title
  title_of a =
      if a.is_vulnerable then if a.confidence == 10 then confirmed else detected else anomaly

  abbrev cwe_of : Analysis F → String
  cwe_of a =
      if a.is_vulnerable && a.confidence == 10
      then "CWE-367: Time-of-check Time-of-use (TOCTOU) Race Condition"
      else if a.is_vulnerable
      then "CWE-362: Concurrent Execution using Shared Resource with Improper Synchronization ('Race Condition')"
      else "CWE-362"

  -- `reportFinding`
  unfoldable pub report_finding : RaceResult → Analysis F → Finding
  report_finding r a = record {
    severity = severity_of a;
    title = title_of a;
    strategy = a.strategy;
    details = a.details;
    cwe = cwe_of a;
    samples = sample_unique_responses r.responses;
  }

  -- The end of a round that has an analysis.
  unfoldable pub after_analysis : RaceResult → Analysis F → (rest : Ended) → Ended
  after_analysis r a rest =
      if a.is_vulnerable || leb 3 a.confidence
      then with_finding (report_finding r a)
          (if a.is_vulnerable && a.confidence == 10 then ended false else rest)
      else rest

  abbrev pub after_outcome : Config → Run → (rest : Ended) → StrategyError ⊎ RaceResult → Ended
  after_outcome cfg run rest (inl unsupported) = rest
  after_outcome cfg run rest (inl unreachable) =
      if run.is_cancelled_behind then ended true else rest
  after_outcome cfg run rest (inl misconfigured) = ended false
  after_outcome cfg run rest (inl unexpected) = rest
  after_outcome cfg run rest (inr r) =
      if is_unsupported r.responses
      then rest
      else after_analysis r (analyze_results F fl r cfg) rest

  -- The loop of `Analyze`.
  unfoldable pub analyze_from : Config → (RaceStrategy → Run) → List RaceStrategy → Ended
  analyze_from cfg runs [] = ended false
  analyze_from cfg runs (s ∷ ss) =
      let rest = analyze_from cfg runs ss in
      let run = runs s in
      if run.is_cancelled then ended true else after_outcome cfg run rest run.outcome

  unfoldable pub analyze : Config → (RaceStrategy → Run) → (is_graphql only_http1 : Bool) → Ended
  analyze cfg runs is_graphql only_http1 =
      analyze_from cfg runs (determine_strategies is_graphql only_http1)
