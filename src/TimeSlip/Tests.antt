-- ===== src/TimeSlip/Tests.antt =====
-- Responses of a small race, and what is reported. Whole numbers stand for the floats.
use Prim.Native.String.{String}
use text.Mathlib.Text.{◌==◌ as str_eq}
use scalpel_cli.Common.{
  ℕ, ◌+◌, ◌-◌, ◌*◌, ◌/◌, ◌≡◌, ◌≤◌, refl, ap, sym, arith, inl, inr, ◌⊎◌, Bool, true, false, [], ◌∷◌,
  none, some, ltb, length,
}
use scalpel_cli.Common.Dict.{lookup, insert}
use scalpel_cli.TimeSlip.Types.{
  RaceStrategy, h1_concurrent, h1_single_byte_send, h2_multiplexing, h2_dependency, async_graphql,
  RaceResponse, RaceResult, Config, Floats, Detail,
}
use scalpel_cli.TimeSlip.Oracle.{
  SuccessOracle, is_success_of, check_status_code, check_header_regex, any_value,
}
use scalpel_cli.TimeSlip.Statistics.{
  is_valid, increment, aggregate_from, prepare_and_aggregate, durations, insert_number,
  sort_numbers, total, median_of, statistics_of, variance_sum, calculate_statistics,
}
use scalpel_cli.TimeSlip.Statistics.Counts.{
  Kept, successes_in, with_fingerprint, count_of, aggregate_counts,
}
use scalpel_cli.TimeSlip.Heuristics.{
  analyze_results, counted, check_toctou, check_timing_anomalies, check_differential_state,
  check_state_flutter, is_untimed, is_large_delta, is_high_variation, run_pipeline, conclude,
}
use scalpel_cli.TimeSlip.Heuristics.Verdicts.{is_race, verdict_exact}
use scalpel_cli.TimeSlip.Samples.{cut_index}
use scalpel_cli.TimeSlip.Strategies.{StrategyError, unreachable, Run, analyze, determine_strategies}
use scalpel_cli.TimeSlip.Strategies.Order.{Ordered, analyze-Ordered}

abbrev whole : Floats ℕ
whole = record {
  of_int = λ n. n;
  add = λ a b. a + b;
  multiply = λ a b. a * b;
  quotient = λ a b. a / b;
  squared_distance = λ a b. (a - b + (b - a)) * (a - b + (b - a));
  root = λ a. a;
  less = λ a b. ltb a b;
}

abbrev response : String → Bool → RaceResponse
response print is_success = record {
  parsed = some (record { status_code = 200; headers = []; duration = 3000000 });
  fingerprint = print;
  has_error = false;
  is_success = is_success;
  specific_body = 1 ∷ [];
}

-- One response won, one lost, and one was both different and successful.
abbrev raced : RaceResult
raced = record {
  strategy = h2_dependency;
  responses = response "a" true ∷ response "b" false ∷ response "c" true ∷ [];
}

abbrev config : Config
config = record { threshold_ms = 500; expected_successes = 0; status_codes = [] }

raced_twice : (analyze_results ℕ whole raced config).details ≡ some (Detail.toctou 2 1 true)
unfolding analyze_results prepare_and_aggregate aggregate_from is_valid increment insert lookup
    calculate_statistics durations sort_numbers insert_number statistics_of total median_of
    variance_sum run_pipeline check_toctou check_timing_anomalies check_differential_state
    check_state_flutter is_untimed is_large_delta is_high_variation conclude
raced_twice = refl

race_is_found : (analyze_results ℕ whole raced config).is_vulnerable ≡ true
unfolding analyze_results prepare_and_aggregate aggregate_from is_valid increment insert lookup
    calculate_statistics durations sort_numbers insert_number statistics_of total median_of
    variance_sum run_pipeline check_toctou check_timing_anomalies check_differential_state
    check_state_flutter is_untimed is_large_delta is_high_variation conclude
race_is_found = refl

aggregate_counts_example :
    let a = prepare_and_aggregate raced.responses in
    Kept raced.responses a.0
    × ((k : String) → count_of k a.1 ≡ with_fingerprint k a.0)
    × (length a.1 ≤ length a.0)
    × (a.2 ≡ successes_in a.0)
aggregate_counts_example = aggregate_counts raced.responses

verdict_exact_example :
    (analyze_results ℕ whole raced config).is_vulnerable
    ≡ is_race ℕ whole raced config (counted ℕ whole raced (prepare_and_aggregate raced.responses))
verdict_exact_example = verdict_exact ℕ whole raced config

-- Each strategy but the first ends with the same responses.
abbrev runs : RaceStrategy → Run
runs h2_dependency = record {
  is_cancelled = false;
  outcome = inl unreachable;
  is_cancelled_behind = false;
}
runs s = record {
  is_cancelled = false;
  outcome = inr (record raced { strategy = s });
  is_cancelled_behind = false;
}

abbrev strategy_in : StrategyError ⊎ RaceResult → RaceStrategy
strategy_in (inl e) = h2_dependency
strategy_in (inr r) = r.strategy

runs_named : (s : RaceStrategy) (r : RaceResult) → (runs s).outcome ≡ inr r → r.strategy ≡ s
runs_named h2_dependency r e = absurd (ground (arith, e))
runs_named h1_concurrent r e = sym (ap strategy_in e)
runs_named h1_single_byte_send r e = sym (ap strategy_in e)
runs_named h2_multiplexing r e = sym (ap strategy_in e)
runs_named async_graphql r e = sym (ap strategy_in e)

analyze-Ordered_example :
    Ordered ℕ whole (determine_strategies false false) (analyze ℕ whole config runs false false)
analyze-Ordered_example = analyze-Ordered ℕ whole config runs runs_named false false

-- A header line is enough for the oracle, and an empty list of codes accepts a redirect.
abbrev oracle : SuccessOracle
oracle = record {
  config = some config;
  body_matches = none;
  header_matches = some (λ line. str_eq line "X-Won: yes");
  is_graphql = false;
  is_graphql_success = λ body. false;
}

won :
    is_success_of oracle (record (response "a" false) {
      parsed =
          some (record {
            status_code = 302;
            headers = ("X-Won", "no" ∷ "yes" ∷ []) ∷ [];
            duration = 0;
          });
    })
    ≡ true
unfolding is_success_of check_status_code check_header_regex any_value
won = refl

-- A body that is cut inside a character ends before it.
cut_before_rune : cut_index (1 ∷ 226 ∷ 130 ∷ 172 ∷ []) 3 ≡ 1
unfolding cut_index
cut_before_rune = refl
