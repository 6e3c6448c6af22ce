-- ===== src/TimeSlip/Samples.antt =====
-- sampleUniqueResponses of internal/analysis/active/timeslip/timeslip_analyzer.go. A body is a list of
-- bytes.
pub mod Bounds
use Prim.Native.String.{String}
use text.Mathlib.Text.{◌==◌ as str_eq}
use scalpel_cli.Common.{
  ℕ, zero, suc, ◌+◌, ◌-◌, Bool, true, false, not, ◌&&◌, ◌||◌, List, [], ◌∷◌, Option, none, some,
  ltb, leb, ◌==◌, if◌then◌else◌, length, get_elem?, take,
}
use scalpel_cli.Common.Dict.{Dict}
use scalpel_cli.TimeSlip.Types.{ParsedResponse, RaceResponse}

-- `core.SerializedResponse`, with the fingerprint it was chosen by; the suffix of a body that was cut
-- says how many bytes were left out.
pub record Sample : Type 0 where
  pub fingerprint : String
  pub status_code : ℕ
  pub headers : Dict (List String)
  pub body : List ℕ
  pub omitted : Option ℕ

abbrev pub max_samples : ℕ
max_samples = 5

abbrev pub max_body_length : ℕ
max_body_length = 1024

-- `utf8.RuneStart`; a byte out of range is not asked about.
abbrev is_rune_start : Option ℕ → Bool
is_rune_start none = true
is_rune_start (some b) = ltb b 128 || leb 192 b

-- The loop that steps back to the start of a rune.
unfoldable pub cut_index : List ℕ → ℕ → ℕ
cut_index body zero = zero
cut_index body (suc i) =
    let earlier = cut_index body i in
    if ltb (suc i) (length body) && not (is_rune_start (get_elem? body (suc i)))
    then earlier
    else suc i

unfoldable pub sample_body : List ℕ → List ℕ × Option ℕ
sample_body body =
    if ltb max_body_length (length body)
    then (
      take (cut_index body max_body_length) body,
      some (length body - length (take (cut_index body max_body_length) body)),
    )
    else (body, none)

unfoldable pub is_seen : String → List String → Bool
is_seen f [] = false
is_seen f (g ∷ gs) = if str_eq f g then true else is_seen f gs

abbrev pub sample_of : RaceResponse → ParsedResponse → Sample
sample_of r p = record {
  fingerprint = r.fingerprint;
  status_code = p.status_code;
  headers = p.headers;
  body = (sample_body r.specific_body).0;
  omitted = (sample_body r.specific_body).1;
}

unfoldable pub samples_from : (taken : ℕ) → (seen : List String) → List RaceResponse → List Sample
samples_from taken seen [] = []
samples_from taken seen (r ∷ rs) =
    let skipped = samples_from taken seen rs in
    let kept = samples_from (suc taken) (r.fingerprint ∷ seen) rs in
    if leb max_samples taken
    then []
    else if str_eq r.fingerprint "" || (is_seen r.fingerprint seen || r.has_error)
    then skipped
    else elim r.parsed [ none ↦ skipped | some p ↦ sample_of r p ∷ kept ]

unfoldable pub sample_unique_responses : List RaceResponse → List Sample
sample_unique_responses rs = samples_from 0 [] rs
