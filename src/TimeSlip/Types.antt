-- ===== src/TimeSlip/Types.antt =====
-- The data of internal/analysis/active/timeslip/types.go.
use Prim.Native.String.{String}
use scalpel_cli.Common.{ℕ, Bool, List, Option}
use scalpel_cli.Common.Dict.{Dict}

pub data RaceStrategy : Type 0 where
  h1_concurrent h1_single_byte_send h2_multiplexing h2_dependency async_graphql : RaceStrategy

-- `ParsedResponse`; the duration is in nanoseconds, and not below 0.
pub record ParsedResponse : Type 0 where
  pub status_code : ℕ
  pub headers : Dict (List String)
  pub duration : ℕ

pub record RaceResponse : Type 0 where
  pub parsed : Option ParsedResponse
  pub fingerprint : String
  pub has_error : Bool
  pub is_success : Bool
  pub specific_body : List ℕ

pub record RaceResult : Type 0 where
  pub strategy : RaceStrategy
  pub responses : List RaceResponse

-- The fields of `Config` that are read here. A number below 0 acts as 0.
pub record Config : Type 0 where
  pub threshold_ms : ℕ
  pub expected_successes : ℕ
  pub status_codes : List ℕ

-- float64, with the operations that the analysis uses; `quotient a b` is a / b.
pub record Floats (F : Type 0) : Type 0 where
  pub of_int : ℕ → F
  pub add : F → F → F
  pub multiply : F → F → F
  pub quotient : F → F → F
  pub squared_distance : F → F → F
  pub root : F → F
  pub less : F → F → Bool

-- `ResponseStatistics`. The integers are durations in milliseconds.
pub record Statistics (F : Type 0) : Type 0 where
  pub count : ℕ
  pub min_duration : ℕ
  pub max_duration : ℕ
  pub average : F
  pub median : F
  pub deviation : F
  pub delta : ℕ

-- The texts of `Details`, with the numbers in them.
pub data Detail : Type 0 where
  no_responses nothing_found noisy : Detail
  all_failed inconsistent unstable large_delta : ℕ → Detail
  toctou : (successes expected : ℕ) (is_differential : Bool) → Detail
  serialized small_sample : ℕ → ℕ → Detail
  lock_wait : (outliers count : ℕ) (is_bimodal : Bool) → Detail

-- `AnalysisResult`; the confidence is in tenths.
pub record Analysis (F : Type 0) : Type 0 where
  pub strategy : RaceStrategy
  pub is_vulnerable : Bool
  pub details : Option Detail
  pub confidence : ℕ
  pub success_count : ℕ
  pub unique_responses : Dict ℕ
  pub stats : Statistics F
