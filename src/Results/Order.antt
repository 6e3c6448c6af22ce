-- ===== src/Results/Order.antt =====
-- What a report holds.
use Prim.Native.String.{String}
use text.Mathlib.Text.{◌==◌ as str_eq}
use text.Mathlib.TextEquality.{eq_iff}
use mathlib.Core.List.{Permᴰ}
use mathlib.Core.List.Permᴰ
use scalpel_cli.Common.{
  ℕ, suc, ◌+◌, ◌≡◌, ◌≢◌, refl, inl, inr, true, false, List, [], ◌∷◌, some, arith, Bool-cases,
  if◌then◌else◌, length,
}
use scalpel_cli.Common.Dict.{Dict, lookup, insert, lookup-insert}
use scalpel_cli.Common.TextOrder.{text_lt_asym}
use scalpel_cli.Results.{
  Finding, CweEntry, comes_before, insert_finding, prioritize, or_zero, count_severities,
  generate_summary, enrich_all, Report, process_scan_results,
}

comes_before_asym : (f g : Finding) → comes_before f g ≡ true → comes_before g f ≡ false
unfolding comes_before
comes_before_asym f g h = ground (arith, h, text_lt_asym f.vulnerability_name g.vulnerability_name)

-- The first of the findings, if there is one, does not come before another.
abbrev pub Follow : Finding → List Finding → Type 0
Follow f [] = Unit
Follow f (g ∷ gs) = comes_before g f ≡ false

-- No finding comes before the one that it follows.
abbrev pub Ordered : List Finding → Type 0
Ordered [] = Unit
Ordered (f ∷ fs) = Follow f fs × Ordered fs

insert-Follow :
    (f g : Finding) (gs : List Finding)
    → comes_before g f ≡ true
    → Follow g gs
    → Follow g (insert_finding f gs)
unfolding insert_finding
insert-Follow f g [] e h = comes_before_asym g f e
insert-Follow f g (k ∷ ks) e h = elim (Bool-cases (comes_before k f)) [
  | inl c ↦ rw c h
  | inr c ↦ rw c (comes_before_asym g f e)
]

insert-Ordered : (f : Finding) (gs : List Finding) → Ordered gs → Ordered (insert_finding f gs)
unfolding insert_finding
insert-Ordered f [] o = (tt, tt)
insert-Ordered f (g ∷ gs) (h, o) = elim (Bool-cases (comes_before g f)) [
  | inl e ↦ rw e (insert-Follow f g gs e h, insert-Ordered f gs o)
  | inr e ↦ simp e (refl, (h, o))
]

prioritize-Ordered : (fs : List Finding) → Ordered (prioritize fs)
unfolding prioritize
prioritize-Ordered [] = tt
prioritize-Ordered (f ∷ fs) = insert-Ordered f (prioritize fs) (prioritize-Ordered fs)

insert-perm : (f : Finding) (gs : List Finding) → Permᴰ (f ∷ gs) (insert_finding f gs)
unfolding insert_finding
insert-perm f [] = Permᴰ.refl (f ∷ [])
insert-perm f (g ∷ gs) = elim (Bool-cases (comes_before g f)) [
  | inl e ↦ rw e (Permᴰ.trans (Permᴰ.swap refl refl) (Permᴰ.cons refl (insert-perm f gs)))
  | inr e ↦ rw e (Permᴰ.refl (f ∷ g ∷ gs))
]

prioritize-perm : (fs : List Finding) → Permᴰ fs (prioritize fs)
unfolding prioritize
prioritize-perm [] = Permᴰ.nil
prioritize-perm (f ∷ fs) =
    Permᴰ.trans (Permᴰ.cons refl (prioritize-perm fs)) (insert-perm f (prioritize fs))

-- How many findings have a severity.
unfoldable pub with_severity : String → List Finding → ℕ
with_severity s [] = 0
with_severity s (f ∷ fs) =
    let rest = with_severity s fs in if str_eq f.severity s then suc rest else rest

abbrev pub count_of : String → Dict ℕ → ℕ
count_of s d = or_zero (lookup s d)

count_severities-count :
    (s : String) (fs : List Finding) (d : Dict ℕ)
    → count_of s (count_severities fs d) ≡ count_of s d + with_severity s fs
unfolding count_severities with_severity
count_severities-count s [] d = omega arith
count_severities-count s (f ∷ fs) d =
    let n = suc (or_zero (lookup f.severity d)) in
    ground (
      arith,
      eq_iff f.severity s,
      lookup-insert f.severity s n d,
      count_severities-count s fs (insert f.severity n d),
    )

summary-count :
    (s : String) (fs : List Finding)
    → count_of s (generate_summary fs)
      ≡ (if str_eq "total" s then length fs else 0) + with_severity s fs
unfolding generate_summary lookup insert
summary-count s fs = ground (arith, count_severities-count s fs (insert "total" (length fs) []))

-- A report has the findings of the store, each enriched, in an order in which none comes before the one
-- that it follows; for every severity the summary counts its findings, and under "total" all of them, to which
-- those of a severity of that name are added.
pub report_exact :
    (entries : Dict CweEntry) (scan_id : String) (fs : List Finding)
    → (r : Report) × (process_scan_results entries scan_id (some fs) ≡ some r)
      × Permᴰ (enrich_all entries fs) r.findings
      × Ordered r.findings
      × ((s : String) → s ≢ "total" → count_of s r.summary ≡ with_severity s r.findings)
      × (count_of "total" r.summary ≡ length r.findings + with_severity "total" r.findings)
unfolding process_scan_results
report_exact entries scan_id fs =
    let sorted = prioritize (enrich_all entries fs) in
    (
      record { scan_id = scan_id; findings = sorted; summary = generate_summary sorted },
      refl,
      prioritize-perm (enrich_all entries fs),
      prioritize-Ordered (enrich_all entries fs),
      (λ s h. ground (arith, h, eq_iff "total" s, summary-count s sorted)),
      summary-count "total" sorted,
    )
