-- ===== src/TimeSlip/Statistics.antt =====
-- prepareAndAggregate and calculateStatistics of internal/analysis/active/timeslip/timeslip_analyzer.go.
pub mod Counts
use Prim.Native.String.{String}
use text.Mathlib.Text.{◌==◌ as str_eq}
use scalpel_cli.Common.{
  ℕ, zero, suc, ◌+◌, ◌-◌, ◌*◌, ◌/◌, ◌%◌, Bool, true, false, not, ◌&&◌, List, [], ◌∷◌, Option, none,
  some, ltb, leb, ◌==◌, if◌then◌else◌, length, get_elem?,
}
use scalpel_cli.Common.Dict.{Dict, lookup, insert}
use scalpel_cli.TimeSlip.Types.{ParsedResponse, RaceResponse, Floats, Statistics}

-- The filter of `prepareAndAggregate`.
unfoldable pub is_valid : RaceResponse → Bool
is_valid r = if r.has_error then false else elim r.parsed [
  | none ↦ false
  | some p ↦ not (str_eq r.fingerprint "") && not (p.status_code == 0)
]

abbrev pub or_zero : Option ℕ → ℕ
or_zero none = 0
or_zero (some n) = n

-- `m[k]++`
unfoldable pub increment : String → Dict ℕ → Dict ℕ
increment k d = insert k (suc (or_zero (lookup k d))) d

-- The valid responses, the counts of their fingerprints, and the successes.
abbrev pub Aggregate : Type 0
Aggregate = List RaceResponse × Dict ℕ × ℕ

-- One round of the loop, and the rounds behind it.
unfoldable pub aggregate_from : List RaceResponse → Dict ℕ → (successes : ℕ) → Aggregate
aggregate_from [] unique successes = ([], unique, successes)
aggregate_from (r ∷ rs) unique successes =
    let kept =
      aggregate_from rs (increment r.fingerprint unique)
        (if r.is_success then suc successes else successes) in
    let dropped = aggregate_from rs unique successes in
    if is_valid r then (r ∷ kept.0, kept.1, kept.2) else dropped

unfoldable pub prepare_and_aggregate : List RaceResponse → Aggregate
prepare_and_aggregate rs = aggregate_from rs [] 0

abbrev millis : ℕ → ℕ
millis d = d / 1000000

-- The durations above 0.
unfoldable pub durations : List RaceResponse → List ℕ
durations [] = []
durations (r ∷ rs) =
    let rest = durations rs in
    elim r.parsed [
      | none ↦ rest
      | some p ↦ if ltb 0 p.duration then millis p.duration ∷ rest else rest
    ]

unfoldable pub insert_number : ℕ → List ℕ → List ℕ
insert_number n [] = n ∷ []
insert_number n (m ∷ ms) = let rest = insert_number n ms in if leb n m then n ∷ m ∷ ms else m ∷ rest

unfoldable pub sort_numbers : List ℕ → List ℕ
sort_numbers [] = []
sort_numbers (n ∷ ns) = insert_number n (sort_numbers ns)

unfoldable pub total : List ℕ → ℕ
total [] = 0
total (n ∷ ns) = n + total ns

abbrev at : List ℕ → ℕ → ℕ
at ns i = or_zero (get_elem? ns i)

module _ (F : Type 0) (fl : Floats F) where
  abbrev pub no_statistics : Statistics F
  no_statistics = record {
    count = 0;
    min_duration = 0;
    max_duration = 0;
    average = fl.of_int 0;
    median = fl.of_int 0;
    deviation = fl.of_int 0;
    delta = 0;
  }

  unfoldable pub variance_sum : F → F → List ℕ → F
  variance_sum average acc [] = acc
  variance_sum average acc (d ∷ ds) =
      variance_sum average (fl.add acc (fl.squared_distance (fl.of_int d) average)) ds

  unfoldable pub median_of : List ℕ → F
  median_of ds =
      let n = length ds in
      if n % 2 == 0
      then fl.quotient (fl.of_int (at ds (n / 2 - 1) + at ds (n / 2))) (fl.of_int 2)
      else fl.of_int (at ds (n / 2))

  -- The statistics of at least two durations, in order.
  unfoldable pub statistics_of : List ℕ → Statistics F
  statistics_of ds =
      let n = length ds in
      let average = fl.quotient (fl.of_int (total ds)) (fl.of_int n) in
      record {
        count = n;
        min_duration = at ds 0;
        max_duration = at ds (n - 1);
        average = average;
        median = median_of ds;
        deviation = fl.root (fl.quotient (variance_sum average (fl.of_int 0) ds) (fl.of_int n));
        delta = at ds (n - 1) - at ds 0;
      }

  unfoldable pub calculate_statistics : List RaceResponse → Statistics F
  calculate_statistics rs =
      let ds = durations rs in
      if ltb (length ds) 2 then no_statistics else statistics_of (sort_numbers ds)
