-- ===== src/TimeSlip/Heuristics.antt =====
-- analyzeResults and its heuristics, of internal/analysis/active/timeslip/timeslip_analyzer.go. A
-- heuristic gives none where it returns false, which leaves the analysis as it is.
pub mod Verdicts
use Prim.Native.String.{String}
use scalpel_cli.Common.{
  ℕ, zero, suc, ◌+◌, ◌*◌, ◌/◌, Bool, true, false, not, ◌&&◌, ◌||◌, List, [], ◌∷◌, Option, none,
  some, ltb, leb, ◌==◌, if◌then◌else◌, length,
}
use scalpel_cli.TimeSlip.Types.{
  RaceStrategy, h2_dependency, h1_single_byte_send, async_graphql, RaceResponse, RaceResult, Config,
  Floats, Statistics, Detail, Analysis,
}
use scalpel_cli.TimeSlip.Statistics.{
  Aggregate, prepare_and_aggregate, no_statistics, calculate_statistics,
}

-- The strategies that do not time each request.
unfoldable pub is_untimed : RaceStrategy → Bool
is_untimed h2_dependency = true
is_untimed h1_single_byte_send = true
is_untimed async_graphql = true
is_untimed _ = false

abbrev pub expected_of : Config → ℕ
expected_of cfg = if ltb 0 cfg.expected_successes then cfg.expected_successes else 1

module _ (F : Type 0) (fl : Floats F) where
  unfoldable pub check_toctou : RaceResult → Config → Analysis F → Option (Analysis F)
  check_toctou r cfg a =
      if ltb (expected_of cfg) a.success_count
      then some (record a {
        is_vulnerable = true;
        confidence = 10;
        details =
            some
              (Detail.toctou a.success_count (expected_of cfg) (ltb 1 (length a.unique_responses)));
      })
      else none

  unfoldable pub check_differential_state : RaceResult → Config → Analysis F → Option (Analysis F)
  check_differential_state r cfg a =
      let n = length a.unique_responses in
      if ltb 1 n && leb 1 a.success_count
      then (if a.success_count == expected_of cfg && n == 2
          then elim a.details [
            | some d ↦ some a
            | none ↦ some (record a {
              is_vulnerable = false;
              confidence = 4;
              details = some (Detail.serialized n a.success_count);
            })
          ]
          else some (record a {
            is_vulnerable = true;
            confidence = 8;
            details = some (Detail.inconsistent n);
          }))
      else none

  unfoldable pub is_large_delta : Config → Analysis F → Bool
  is_large_delta cfg a = ltb 0 cfg.threshold_ms && ltb cfg.threshold_ms a.stats.delta

  -- The coefficient of variation is above one half.
  unfoldable pub is_high_variation : Analysis F → Bool
  is_high_variation a = fl.less (fl.quotient (fl.of_int 1) (fl.of_int 2)) (
      if fl.less (fl.of_int 0) a.stats.average
      then fl.quotient a.stats.deviation a.stats.average
      else fl.of_int 0)

  unfoldable pub check_state_flutter : RaceResult → Config → Analysis F → Option (Analysis F)
  check_state_flutter r cfg a =
      if ltb 1 (length a.unique_responses) && a.success_count == 0
      then (if is_high_variation a || is_large_delta cfg a
          then none
          else some (record a {
            is_vulnerable = true;
            confidence = 6;
            details = some (Detail.unstable (length a.unique_responses));
          }))
      else none

  -- The median and three standard deviations.
  unfoldable pub upper_bound : Statistics F → F
  upper_bound s = fl.add s.median (fl.multiply (fl.of_int 3) s.deviation)

  unfoldable pub outliers_in : F → List RaceResponse → ℕ
  outliers_in bound [] = 0
  outliers_in bound (r ∷ rs) =
      let rest = outliers_in bound rs in
      if r.has_error then rest else elim r.parsed [
        | none ↦ rest
        | some p ↦
            if ltb 0 p.duration && fl.less bound (fl.of_int (p.duration / 1000000))
            then suc rest
            else rest
      ]

  abbrev is_spread : Statistics F → Bool
  is_spread s =
      not (fl.less s.deviation (fl.of_int 10))
      && (not (fl.less s.median (fl.of_int 20))
          && fl.less (upper_bound s) (fl.of_int s.max_duration))

  abbrev is_few : (outliers count : ℕ) → Bool
  is_few outliers count =
      ltb 0 outliers
      && (leb outliers 2
          || fl.less (fl.quotient (fl.of_int outliers) (fl.of_int count))
              (fl.quotient (fl.of_int 15) (fl.of_int 100)))

  abbrev informs : ℕ → Detail → Analysis F → Option (Analysis F)
  informs confidence d a =
      some (record a { is_vulnerable = false; confidence = confidence; details = some d })

  abbrev by_delta : ℕ → Detail → Config → Analysis F → Option (Analysis F)
  by_delta confidence d cfg a = if is_large_delta cfg a then informs confidence d a else none

  abbrev by_outliers : RaceResult → Config → Analysis F → Option (Analysis F)
  by_outliers r cfg a =
      let n = outliers_in (upper_bound a.stats) r.responses in
      let is_bimodal = n == 1 && leb 10 a.stats.count in
      if is_spread a.stats && is_few n a.stats.count
      then informs (if is_bimodal then 5 else 4) (Detail.lock_wait n a.stats.count is_bimodal) a
      else by_delta 3 (Detail.large_delta a.stats.delta) cfg a

  unfoldable pub check_timing_anomalies : RaceResult → Config → Analysis F → Option (Analysis F)
  check_timing_anomalies r cfg a =
      if is_untimed r.strategy
      then none
      else if ltb a.stats.count 5
      then (if leb 2 a.stats.count
          then by_delta 2 (Detail.small_sample a.stats.delta a.stats.count) cfg a
          else none)
      else by_outliers r cfg a

  abbrev pub Heuristic : Type 0
  Heuristic = RaceResult → Config → Analysis F → Option (Analysis F)

  -- The order of `heuristicsPipeline`.
  abbrev pub pipeline : List Heuristic
  pipeline =
      check_toctou ∷ check_timing_anomalies ∷ check_differential_state ∷ check_state_flutter ∷ []

  unfoldable pub run_pipeline : List Heuristic → RaceResult → Config → Analysis F → Analysis F
  run_pipeline [] r cfg a = a
  run_pipeline (h ∷ hs) r cfg a =
      let rest = run_pipeline hs r cfg a in elim (h r cfg a) [ none ↦ rest | some a' ↦ a' ]

  abbrev is_noisy : Statistics F → Bool
  is_noisy s =
      fl.less (fl.of_int 0) s.deviation
      && (fl.less (fl.of_int 50) s.average
          && fl.less (fl.quotient (fl.of_int 3) (fl.of_int 10)) (fl.quotient s.deviation s.average))

  -- The end of `analyzeResults`.
  unfoldable pub conclude : Analysis F → Analysis F
  conclude a = elim a.details [
    | some d ↦ a
    | none ↦
        if is_noisy a.stats
        then record a { details = some Detail.noisy; confidence = 1 }
        else record a { details = some Detail.nothing_found }
  ]

  abbrev pub fresh_analysis : RaceResult → Analysis F
  fresh_analysis r = record {
    strategy = r.strategy;
    is_vulnerable = false;
    details = none;
    confidence = 0;
    success_count = 0;
    unique_responses = [];
    stats = no_statistics F fl;
  }

  -- The analysis that the heuristics are given.
  abbrev pub counted : RaceResult → Aggregate → Analysis F
  counted r (valid, unique, successes) = record (fresh_analysis r) {
    success_count = successes;
    unique_responses = unique;
    stats = if ltb 1 (length valid) then calculate_statistics F fl valid else no_statistics F fl;
  }

  abbrev pub judged : RaceResult → Config → Aggregate → Analysis F
  judged r cfg ([], unique, successes) = record (counted r ([], unique, successes)) {
    details = some (Detail.all_failed (length r.responses));
  }
  judged r cfg (v ∷ vs, unique, successes) =
      conclude (run_pipeline pipeline r cfg (counted r (v ∷ vs, unique, successes)))

  abbrev pub analysis_of : RaceResult → Config → List RaceResponse → Analysis F
  analysis_of r cfg [] = record (fresh_analysis r) { details = some Detail.no_responses }
  analysis_of r cfg (x ∷ xs) = judged r cfg (prepare_and_aggregate (x ∷ xs))

  unfoldable pub analyze_results : RaceResult → Config → Analysis F
  analyze_results r cfg = analysis_of r cfg r.responses
