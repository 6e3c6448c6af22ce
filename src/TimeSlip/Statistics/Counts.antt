-- ===== src/TimeSlip/Statistics/Counts.antt =====
-- What prepareAndAggregate counts.
use Prim.Native.String.{String}
use text.Mathlib.Text.{◌==◌ as str_eq}
use text.Mathlib.TextEquality.{eq_iff}
use scalpel_cli.Common.{
  ℕ, suc, ◌+◌, ◌≡◌, ◌≢◌, ◌≤◌, Option-cases, true, false, some, refl, ap, inl, inr, List, [], ◌∷◌,
  arith, Bool-cases, if◌then◌else◌, length,
}
use scalpel_cli.Common.Dict.{Dict, lookup, insert, lookup-insert}
use scalpel_cli.TimeSlip.Types.{ParsedResponse, RaceResponse}
use scalpel_cli.TimeSlip.Statistics.{
  is_valid, or_zero, increment, aggregate_from, prepare_and_aggregate,
}

-- The responses that count.
unfoldable pub valid_of : List RaceResponse → List RaceResponse
valid_of [] = []
valid_of (r ∷ rs) = let rest = valid_of rs in if is_valid r then r ∷ rest else rest

unfoldable pub successes_in : List RaceResponse → ℕ
successes_in [] = 0
successes_in (r ∷ rs) = let rest = successes_in rs in if r.is_success then suc rest else rest

-- How many responses have a fingerprint.
unfoldable pub with_fingerprint : String → List RaceResponse → ℕ
with_fingerprint k [] = 0
with_fingerprint k (r ∷ rs) =
    let rest = with_fingerprint k rs in if str_eq r.fingerprint k then suc rest else rest

abbrev pub count_of : String → Dict ℕ → ℕ
count_of k d = or_zero (lookup k d)

count_of-increment :
    (k j : String) (d : Dict ℕ)
    → count_of k (increment j d) ≡ (if str_eq j k then suc (count_of k d) else count_of k d)
unfolding increment
count_of-increment k j d =
    ground (arith, eq_iff j k, lookup-insert j k (suc (or_zero (lookup j d))) d)

length-insert : (k : String) (n : ℕ) (d : Dict ℕ) → length (insert k n d) ≤ suc (length d)
unfolding insert
length-insert k n [] = omega arith
length-insert k n ((j, m) ∷ d) = ground (arith, length-insert k n d)

length-increment : (k : String) (d : Dict ℕ) → length (increment k d) ≤ suc (length d)
unfolding increment
length-increment k d = length-insert k (suc (or_zero (lookup k d))) d

aggregate_from_counts :
    (rs : List RaceResponse) (d : Dict ℕ) (s : ℕ)
    → let a = aggregate_from rs d s in
      (a.0 ≡ valid_of rs)
      × ((k : String) → count_of k a.1 ≡ count_of k d + with_fingerprint k (valid_of rs))
      × (length a.1 ≤ length d + length (valid_of rs))
      × (a.2 ≡ s + successes_in (valid_of rs))
unfolding aggregate_from valid_of with_fingerprint successes_in
aggregate_from_counts [] d s = (refl, λ k. omega arith, omega arith, omega arith)
aggregate_from_counts (r ∷ rs) d s = elim (Bool-cases (is_valid r)) [
  | inr e ↦ rw e (aggregate_from_counts rs d s)
  | inl e ↦
      let d' = increment r.fingerprint d in
      let (v, c, n, t) = aggregate_from_counts rs d' (if r.is_success then suc s else s) in
      rw e (
        ap (λ xs. r ∷ xs) v,
        λ k. ground (arith, c k, count_of-increment k r.fingerprint d),
        omega (arith, n, length-increment r.fingerprint d),
        ground (arith, t),
      )
]

-- A response counts where it has no error, a result with a status, and a fingerprint.
abbrev pub Counts : RaceResponse → Type 0
Counts r =
    (p : ParsedResponse) × (r.parsed ≡ some p)
    × (r.has_error ≡ false)
    × (r.fingerprint ≢ "")
    × (p.status_code ≢ 0)

-- The second list has the responses of the first that count, in order, and no other.
pub data Kept : List RaceResponse → List RaceResponse → Type 0 where
  nothing : Kept [] []
  keeps :
      {rs vs : List RaceResponse} (r : RaceResponse)
      → Counts r
      → Kept rs vs
      → Kept (r ∷ rs) (r ∷ vs)
  drops :
      {rs vs : List RaceResponse} (r : RaceResponse) → ¬ (Counts r) → Kept rs vs → Kept (r ∷ rs) vs

is_valid-Counts : (r : RaceResponse) → is_valid r ≡ true → Counts r
unfolding is_valid
is_valid-Counts r h = elim (Option-cases r.parsed) [
  | inl e ↦ absurd (ground (arith, h, e))
  | inr (p, e) ↦ (
    p,
    e,
    ground (arith, h, e),
    (λ f. ground (arith, h, e, (eq_iff r.fingerprint "").1 f)),
    (λ z. ground (arith, h, e, z)),
  )
]

Counts-is_valid : (r : RaceResponse) → Counts r → is_valid r ≡ true
unfolding is_valid
Counts-is_valid r (p, e, c, f, z) = ground (arith, e, c, f, z, eq_iff r.fingerprint "")

valid_of-Kept : (rs : List RaceResponse) → Kept rs (valid_of rs)
unfolding valid_of
valid_of-Kept [] = nothing
valid_of-Kept (r ∷ rs) = elim (Bool-cases (is_valid r)) [
  | inl e ↦ rw e (keeps r (is_valid-Counts r e) (valid_of-Kept rs))
  | inr e ↦
      rw e (drops r (λ c. let h = Counts-is_valid r c in ground (arith, h, e)) (valid_of-Kept rs))
]

pub counts_of_valid :
    (rs : List RaceResponse)
    → let a = prepare_and_aggregate rs in
      (a.0 ≡ valid_of rs)
      × ((k : String) → count_of k a.1 ≡ with_fingerprint k (valid_of rs))
      × (length a.1 ≤ length (valid_of rs))
      × (a.2 ≡ successes_in (valid_of rs))
unfolding prepare_and_aggregate lookup
counts_of_valid rs =
    let (v, c, n, s) = aggregate_from_counts rs [] 0 in
    (v, λ k. omega (arith, c k), omega (arith, n), omega (arith, s))

-- Of the responses of a race, those that have no error, a result with a status that is not 0 and a
-- fingerprint that is not empty are kept in order, and no other; the count of each fingerprint is
-- the number of those that have it, there are at most as many fingerprints as those, and the
-- successes are those of them that succeeded.
pub aggregate_counts :
    (rs : List RaceResponse)
    → let a = prepare_and_aggregate rs in
      Kept rs a.0
      × ((k : String) → count_of k a.1 ≡ with_fingerprint k a.0)
      × (length a.1 ≤ length a.0)
      × (a.2 ≡ successes_in a.0)
aggregate_counts rs = let (v, c, n, s) = counts_of_valid rs in rw v (valid_of-Kept rs, c, n, s)
