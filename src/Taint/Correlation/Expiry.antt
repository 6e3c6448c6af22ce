-- ===== src/Taint/Correlation/Expiry.antt =====
-- What executeCleanup of internal/analysis/active/taint/taint_analyzer.go keeps, and that events of
-- what it deleted are not reported.
use Prim.Native.String.{String}
use text.Mathlib.Text.{◌==◌ as str_eq}
use text.Mathlib.TextEquality.{eq_iff}
use scalpel_cli.Common.{
  ℕ, ◌≡◌, ◌≢◌, refl, sym, ap, ◌∙◌, subst, Bool, true, false, [], ◌∷◌, Option, none, some, inl, inr,
  arith, Bool-cases, Option-cases, if◌then◌else◌,
}
use scalpel_cli.Common.Dict.{Dict, lookup, Distinct}
use scalpel_cli.Taint.Types.{
  ActiveProbe, SinkEvent, CorrelatedFinding, ExecutionProof, OastInteraction, Event, sink, proof,
  oast, Analyzer, Texts,
}
use scalpel_cli.Taint.Static.{is_one_of_texts, correlate}
use scalpel_cli.Taint.Correlation.{
  oast_finding, proof_finding, pollution_finding, is_expired, execute_cleanup, process_oast,
  process_proof, process_pollution, process_sensitive, process_sink, process_event,
}
use scalpel_cli.Taint.Correlation.Reports.{
  count_canary, reports_due, count-process_sink, canary_kept,
}

-- What is left of the probe of a canary.
abbrev pub kept : (expiration now : ℕ) → Option ActiveProbe → Option ActiveProbe
kept expiration now none = none
kept expiration now (some p) = if is_expired expiration now p then none else some p

-- The cleanup of a map takes the expired probes out, and leaves every other as it is.
pub lookup-execute_cleanup :
    (expiration now : ℕ) (probes : Dict ActiveProbe) (k : String)
    → Distinct probes
    → lookup k (execute_cleanup expiration now probes) ≡ kept expiration now (lookup k probes)
unfolding lookup execute_cleanup
lookup-execute_cleanup x now [] k h = refl
lookup-execute_cleanup x now ((c, p) ∷ d) k h = elim (Bool-cases (str_eq c k)) [
  | inl s ↦
      let gone : lookup k (execute_cleanup x now d) ≡ none =
        lookup-execute_cleanup x now d k h.1
        ∙ ap (kept x now) (subst (λ i. lookup i d ≡ none) ((eq_iff c k).0 s) h.0) in
      ground (arith, s, gone)
  | inr s ↦ ground (arith, s, lookup-execute_cleanup x now d k h.1)
]

-- The analyzer after a cleanup.
abbrev pub cleaned : ℕ → Analyzer → Analyzer
cleaned now a = record a { active_probes = execute_cleanup a.config.expiration now a.active_probes }

count_one :
    (k c : String) (f : CorrelatedFinding) → f.canary ≡ c → c ≢ k → count_canary k (f ∷ []) ≡ 0
count_one k c f same n = ground (arith, eq_iff f.canary k, ap (λ x. str_eq x k) same, eq_iff c k, n)

module _ (tx : Texts) (a : Analyzer) (k : String) (e : lookup k a.active_probes ≡ none) where
  known_differs : (c : String) (p : ActiveProbe) → lookup c a.active_probes ≡ some p → c ≢ k
  known_differs c p h same =
      absurd (ground (arith, sym e ∙ ap (λ x. lookup x a.active_probes) (sym same) ∙ h))

  oast_unreported : (i : OastInteraction) → count_canary k (process_oast a i) ≡ 0
  unfolding process_oast
  oast_unreported i = elim (Option-cases (lookup i.canary a.active_probes)) [
    | inl h ↦ rw (h, process_oast) refl
    | inr (p, h) ↦
        rw (h, process_oast)
          (count_one k i.canary (oast_finding a i p) refl (known_differs i.canary p h))
  ]

  proof_unreported : (x : ExecutionProof) → count_canary k (process_proof tx a x) ≡ 0
  unfolding process_proof
  proof_unreported x = elim (Option-cases (lookup x.canary a.active_probes)) [
    | inl h ↦ rw (h, process_proof) refl
    | inr (p, h) ↦
        rw (h, process_proof)
          (count_one k x.canary (correlate tx a.static_findings (proof_finding a x p))
            (canary_kept tx a.static_findings (proof_finding a x p)) (known_differs x.canary p h))
  ]

  pollution_unreported : (x : SinkEvent) → count_canary k (process_pollution tx a x) ≡ 0
  unfolding process_pollution
  pollution_unreported x = elim (Option-cases (lookup x.value a.active_probes)) [
    | inl h ↦ rw (h, process_pollution) refl
    | inr (p, h) ↦ elim (Bool-cases (str_eq p.type "PROTOTYPE_POLLUTION")) [
      | inl t ↦
          rw (h, process_pollution, t)
            (count_one k x.value (correlate tx a.static_findings (pollution_finding a x p))
              (canary_kept tx a.static_findings (pollution_finding a x p))
              (known_differs x.value p h))
      | inr t ↦ rw (h, process_pollution, t) refl
    ]
  ]

  sink_unreported : (x : SinkEvent) → count_canary k (process_sink tx a x) ≡ 0
  sink_unreported x =
      count-process_sink tx a x k
      ∙ rw (e) (nothing_due (is_one_of_texts k (tx.find_canaries x.value)))
    where
      nothing_due : (b : Bool) → reports_due tx a x b none ≡ 0
      nothing_due true = refl
      nothing_due false = refl

  sensitive_unreported :
      "N/A (Sensitive Data)" ≢ k → (x : SinkEvent) → count_canary k (process_sensitive tx a x) ≡ 0
  unfolding process_sensitive
  sensitive_unreported n x = ground (arith, eq_iff "N/A (Sensitive Data)" k, n)

  -- An event of any kind says nothing about a canary without a probe.
  unknown_unreported :
      "N/A (Sensitive Data)" ≢ k → (x : Event) → count_canary k (process_event tx a x) ≡ 0
  unfolding process_event
  unknown_unreported n (sink x) =
      ground (arith, pollution_unreported x, sensitive_unreported n x, sink_unreported x)
  unknown_unreported n (proof x) = proof_unreported x
  unknown_unreported n (oast i) = oast_unreported i

-- After a cleanup, no event of any kind is reported under the canary of a probe that had expired,
-- the name of the findings without a canary excepted.
pub expired_unreported :
    (tx : Texts) (a : Analyzer) (now : ℕ) (k : String) (p : ActiveProbe) (x : Event)
    → Distinct a.active_probes
    → lookup k a.active_probes ≡ some p
    → is_expired a.config.expiration now p ≡ true
    → "N/A (Sensitive Data)" ≢ k
    → count_canary k (process_event tx (cleaned now a) x) ≡ 0
expired_unreported tx a now k p x d h old n =
    unknown_unreported tx (cleaned now a) k
      (lookup-execute_cleanup a.config.expiration now a.active_probes k d
        ∙ ap (kept a.config.expiration now) h
        ∙ rw (old) refl)
      n x
