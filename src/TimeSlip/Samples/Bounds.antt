-- ===== src/TimeSlip/Samples/Bounds.antt =====
-- How large the samples are.
use Prim.Native.String.{String}
use text.Mathlib.Text.{◌==◌ as str_eq}
use scalpel_cli.Common.{
  ℕ, zero, suc, ◌+◌, ◌≡◌, ◌≤◌, refl, inl, inr, true, false, ◌||◌, List, [], ◌∷◌, arith, Bool-cases,
  Option-cases, leb, length, length-take, All,
}
use scalpel_cli.TimeSlip.Types.{RaceResponse}
use scalpel_cli.TimeSlip.Samples.{
  Sample, max_samples, max_body_length, cut_index, sample_body, is_seen, samples_from,
  sample_unique_responses,
}

cut_index-le : (body : List ℕ) (i : ℕ) → cut_index body i ≤ i
unfolding cut_index
cut_index-le body zero = omega arith
cut_index-le body (suc i) = ground (arith, cut_index-le body i)

sample_body-short : (body : List ℕ) → length (sample_body body).0 ≤ 1024
unfolding sample_body
sample_body-short body =
    ground
      (arith, cut_index-le body max_body_length, length-take (cut_index body max_body_length) body)

-- No fingerprint of the samples was seen before, and no two are the same.
abbrev pub Fresh : List String → List Sample → Type 0
Fresh seen [] = Unit
Fresh seen (s ∷ ss) = (is_seen s.fingerprint seen ≡ false) × Fresh (s.fingerprint ∷ seen) ss

abbrev pub Fit : (room : ℕ) → List String → List Sample → Type 0
Fit room seen ss =
    (length ss ≤ room) × Fresh seen ss × All (λ (s : Sample). length s.body ≤ 1024) ss

samples_from-Fit :
    (taken room : ℕ) (seen : List String) (rs : List RaceResponse)
    → taken + room ≡ 5
    → Fit room seen (samples_from taken seen rs)
unfolding samples_from
samples_from-Fit taken room seen [] h = (omega arith, tt, tt)
samples_from-Fit taken zero seen (r ∷ rs) h =
    let e : leb max_samples taken ≡ true = ground (arith, h) in rw e (omega arith, tt, tt)
samples_from-Fit taken (suc room) seen (r ∷ rs) h =
    let e : leb max_samples taken ≡ false = ground (arith, h) in
    elim (Bool-cases (str_eq r.fingerprint "" || (is_seen r.fingerprint seen || r.has_error))) [
      | inl f ↦ rw (e, f) (samples_from-Fit taken (suc room) seen rs h)
      | inr f ↦ elim (Option-cases r.parsed) [
        | inl g ↦ rw (e, f, g) (samples_from-Fit taken (suc room) seen rs h)
        | inr (p, g) ↦
            let (n, d, b) =
              samples_from-Fit (suc taken) room (r.fingerprint ∷ seen) rs (omega (arith, h)) in
            simp (e, f, g)
              (omega (arith, n), (ground (arith, f), d), (sample_body-short r.specific_body, b))
      ]
    ]

-- The evidence has at most five samples, of different fingerprints, whose bodies have at most 1024
-- bytes.
pub samples-Fit : (rs : List RaceResponse) → Fit 5 [] (sample_unique_responses rs)
unfolding sample_unique_responses
samples-Fit rs = samples_from-Fit 0 5 [] rs refl
