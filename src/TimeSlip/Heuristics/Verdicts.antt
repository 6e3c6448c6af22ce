-- ===== src/TimeSlip/Heuristics/Verdicts.antt =====
-- When a race is reported.
use scalpel_cli.Common.{
  ℕ, ◌+◌, ◌/◌, ◌≡◌, ◌≤◌, refl, sym, ap, ◌∙◌, inl, inr, Bool, true, false, not, ◌&&◌, ◌||◌, List, [],
  ◌∷◌, Option, none, some, arith, Option-cases, Bool-cases, ltb, leb, ◌==◌, if◌then◌else◌, length,
}
use scalpel_cli.TimeSlip.Types.{
  RaceStrategy, h1_concurrent, h1_single_byte_send, h2_multiplexing, h2_dependency, async_graphql,
  RaceResponse, RaceResult, Config, Floats, Analysis,
}
use scalpel_cli.TimeSlip.Statistics.{Aggregate, aggregate_from, prepare_and_aggregate}
use scalpel_cli.TimeSlip.Statistics.Counts.{valid_of, successes_in, counts_of_valid}
use scalpel_cli.TimeSlip.Heuristics.{
  check_toctou, check_differential_state, is_large_delta, is_high_variation, check_state_flutter,
  check_timing_anomalies, is_untimed, upper_bound, outliers_in, pipeline, run_pipeline, conclude,
  counted, judged, analysis_of, analyze_results,
}

module _ (F : Type 0) (fl : Floats F) where
  abbrev pub fires : Option (Analysis F) → Bool
  fires none = false
  fires (some a) = true

  -- The strategies whose requests are timed one by one.
  abbrev pub is_timed : RaceStrategy → Bool
  is_timed h1_concurrent = true
  is_timed h2_multiplexing = true
  is_timed _ = false

  -- A response without an error whose time, in milliseconds, is above a bound.
  abbrev is_late : F → RaceResponse → Bool
  is_late bound r = not r.has_error && elim r.parsed [
    | none ↦ false
    | some p ↦ ltb 0 p.duration && fl.less bound (fl.of_int (p.duration / 1000000))
  ]

  unfoldable pub late_in : F → List RaceResponse → ℕ
  late_in bound [] = 0
  late_in bound (r ∷ rs) = let rest = late_in bound rs in if is_late bound r then 1 + rest else rest

  abbrev late : RaceResult → Analysis F → ℕ
  late r a =
      late_in (fl.add a.stats.median (fl.multiply (fl.of_int 3) a.stats.deviation)) r.responses

  -- The times differ by more than a threshold above 0.
  abbrev pub is_wide : Config → Analysis F → Bool
  is_wide cfg a = ltb 0 cfg.threshold_ms && ltb cfg.threshold_ms a.stats.delta

  -- The deviation is at least 10, the median at least 20, and the longest time above three deviations
  -- behind the median, with one or two late responses or less than fifteen in a hundred.
  abbrev pub has_outliers : RaceResult → Analysis F → Bool
  has_outliers r a =
      let bound = fl.add a.stats.median (fl.multiply (fl.of_int 3) a.stats.deviation) in
      (not (fl.less a.stats.deviation (fl.of_int 10))
        && (not (fl.less a.stats.median (fl.of_int 20))
            && fl.less bound (fl.of_int a.stats.max_duration)))
      && (ltb 0 (late r a)
          && (leb (late r a) 2
              || fl.less (fl.quotient (fl.of_int (late r a)) (fl.of_int a.stats.count))
                  (fl.quotient (fl.of_int 15) (fl.of_int 100))))

  -- Where the requests are timed: two to four times that differ widely, or five and more that do or
  -- that have outliers.
  abbrev pub has_odd_times : RaceResult → Config → Analysis F → Bool
  has_odd_times r cfg a =
      is_timed r.strategy
      && (if ltb a.stats.count 5
          then leb 2 a.stats.count && is_wide cfg a
          else has_outliers r a || is_wide cfg a)

  -- The deviation is more than half of an average above 0.
  abbrev pub varies : Analysis F → Bool
  varies a =
      if fl.less (fl.of_int 0) a.stats.average
      then fl.less (fl.quotient (fl.of_int 1) (fl.of_int 2))
          (fl.quotient a.stats.deviation a.stats.average)
      else fl.less (fl.quotient (fl.of_int 1) (fl.of_int 2)) (fl.of_int 0)

  -- The rule: too many successes; or else, where the times are not odd, more than one fingerprint, and
  -- either successes, but not just two fingerprints with as many successes as expected, or no success and
  -- times that vary little.
  abbrev pub is_race : RaceResult → Config → Analysis F → Bool
  is_race r cfg a =
      let n = length a.unique_responses in
      let expected = if ltb 0 cfg.expected_successes then cfg.expected_successes else 1 in
      ltb expected a.success_count
      || (not (has_odd_times r cfg a)
          && (ltb 1 n
              && (if a.success_count == 0
                  then not (varies a) && not (is_wide cfg a)
                  else not (a.success_count == expected) || not (n == 2))))

  late_in-outliers_in :
      (bound : F) (rs : List RaceResponse) → outliers_in F fl bound rs ≡ late_in bound rs
  unfolding outliers_in late_in
  late_in-outliers_in bound [] = refl
  late_in-outliers_in bound (r ∷ rs) = ground (arith, late_in-outliers_in bound rs)

  untimed_lem : (s : RaceStrategy) → is_untimed s ≡ not (is_timed s)
  unfolding is_untimed
  untimed_lem h1_concurrent = refl
  untimed_lem h1_single_byte_send = refl
  untimed_lem h2_multiplexing = refl
  untimed_lem h2_dependency = refl
  untimed_lem async_graphql = refl

  fires-has_odd_times :
      (r : RaceResult) (cfg : Config) (a : Analysis F)
      → fires (check_timing_anomalies F fl r cfg a) ≡ has_odd_times r cfg a
  unfolding check_timing_anomalies is_large_delta upper_bound
  fires-has_odd_times r cfg a =
      let bound = fl.add a.stats.median (fl.multiply (fl.of_int 3) a.stats.deviation) in
      rw (untimed_lem r.strategy) (
        rw (late_in-outliers_in bound r.responses) (elim (Bool-cases (is_timed r.strategy)) [
          | inl e ↦ rw e (ground arith)
          | inr e ↦ rw e (ground arith)
        ]))

  conclude-vulnerable : (a : Analysis F) → (conclude F fl a).is_vulnerable ≡ a.is_vulnerable
  unfolding conclude
  conclude-vulnerable a = ground arith

  timing_informs :
      (r : RaceResult) (cfg : Config) (a a' : Analysis F)
      → check_timing_anomalies F fl r cfg a ≡ some a'
      → a'.is_vulnerable ≡ false
  unfolding check_timing_anomalies
  timing_informs r cfg a a' e = ground (arith, e)

  run-is_race :
      (r : RaceResult) (cfg : Config) (a : Analysis F)
      → a.is_vulnerable ≡ false
      → a.details ≡ none
      → (run_pipeline F fl (pipeline F fl) r cfg a).is_vulnerable ≡ is_race r cfg a
  unfolding run_pipeline check_toctou check_differential_state check_state_flutter is_large_delta
      is_high_variation
  run-is_race r cfg a v d =
      let o = fires-has_odd_times r cfg a in
      elim (Option-cases (check_timing_anomalies F fl r cfg a)) [
        | inl e ↦
            let odd : has_odd_times r cfg a ≡ false = sym o ∙ ap fires e in
            ground (arith, e, v, d, odd)
        | inr (a', e) ↦
            let odd : has_odd_times r cfg a ≡ true = sym o ∙ ap fires e in
            let w = timing_informs r cfg a a' e in ground (arith, e, v, d, w, odd)
      ]

  -- No response that counts gives no race.
  nothing-is_race :
      (r : RaceResult) (cfg : Config) (a : Analysis F)
      → length a.unique_responses ≡ 0
      → a.success_count ≡ 0
      → is_race r cfg a ≡ false
  nothing-is_race r cfg a u s = ground (arith, u, s)

  judged-is_race :
      (r : RaceResult) (cfg : Config) (t : Aggregate)
      → (length t.1 ≤ length t.0)
      → (t.2 ≤ length t.0)
      → (judged F fl r cfg t).is_vulnerable ≡ is_race r cfg (counted F fl r t)
  judged-is_race r cfg ([], u, s) n m =
      sym (nothing-is_race r cfg (counted F fl r ([], u, s)) (omega (arith, n)) (omega (arith, m)))
  judged-is_race r cfg (v ∷ vs, u, s) n m =
      let a = counted F fl r (v ∷ vs, u, s) in
      conclude-vulnerable (run_pipeline F fl (pipeline F fl) r cfg a)
      ∙ run-is_race r cfg a refl refl

  successes-length : (rs : List RaceResponse) → successes_in rs ≤ length rs
  unfolding successes_in
  successes-length [] = omega arith
  successes-length (r ∷ rs) = ground (arith, successes-length rs)

  counts_fit :
      (rs : List RaceResponse)
      → let t = prepare_and_aggregate rs in (length t.1 ≤ length t.0) × (t.2 ≤ length t.0)
  counts_fit rs =
      let (v, c, n, s) = counts_of_valid rs in
      let e : length (prepare_and_aggregate rs).0 ≡ length (valid_of rs) = ap length v in
      (omega (arith, n, e), omega (arith, s, e, successes-length (valid_of rs)))

  analysis_of-is_race :
      (r : RaceResult) (cfg : Config) (rs : List RaceResponse)
      → (analysis_of F fl r cfg rs).is_vulnerable
        ≡ is_race r cfg (counted F fl r (prepare_and_aggregate rs))
  unfolding prepare_and_aggregate aggregate_from
  analysis_of-is_race r cfg [] =
      sym (nothing-is_race r cfg (counted F fl r (prepare_and_aggregate [])) refl refl)
  analysis_of-is_race r cfg (x ∷ xs) =
      let (n, m) = counts_fit (x ∷ xs) in judged-is_race r cfg (prepare_and_aggregate (x ∷ xs)) n m

  -- The analysis of a race reports a vulnerability exactly if more of the responses that count
  -- succeeded than expected (1 where nothing is configured), or the times are not odd, there is more
  -- than one fingerprint, and either there are successes, but not just two fingerprints with exactly
  -- as many successes as expected, or there is no success, the deviation is not more than half of an
  -- average above 0, and the times do not differ by more than a threshold above 0; where times are
  -- odd if the strategy times each request and there are two to four times that differ by more than
  -- such a threshold, or five and more that do, or that have a deviation of at least 10, a median of
  -- at least 20, and outliers above three deviations behind the median, one or two of them or less
  -- than fifteen in a hundred.
  pub verdict_exact :
      (r : RaceResult) (cfg : Config)
      → (analyze_results F fl r cfg).is_vulnerable
        ≡ is_race r cfg (counted F fl r (prepare_and_aggregate r.responses))
  unfolding analyze_results
  verdict_exact r cfg = analysis_of-is_race r cfg r.responses

  -- A vulnerability is reported only where at least two responses count.
  pub race_needs_two :
      (r : RaceResult) (cfg : Config)
      → (analyze_results F fl r cfg).is_vulnerable ≡ true
      → 2 ≤ length (valid_of r.responses)
  race_needs_two r cfg h =
      let (v, c, n, s) = counts_of_valid r.responses in
      let e = sym (verdict_exact r cfg) ∙ h in
      ground (arith, e, n, s, successes-length (valid_of r.responses))
