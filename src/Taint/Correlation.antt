-- ===== src/Taint/Correlation.antt =====
-- The handlers of events of internal/analysis/active/taint/taint_analyzer.go, with registerProbe and
-- executeCleanup. A handler gives the findings that it reports, in order.
pub mod Reports
pub mod Expiry
use Prim.Native.String.{String, ◌++◌ as str_append}
use text.Mathlib.Text.{◌==◌ as str_eq}
use scalpel_cli.Common.{
  ℕ, ◌+◌, Bool, true, false, ◌&&◌, List, [], ◌∷◌, Option, none, some, ltb, if◌then◌else◌,
}
use scalpel_cli.Common.Dict.{Dict, lookup, insert}
use scalpel_cli.Taint.Types.{
  SanitizationLevel, unsanitized, ActiveProbe, no_probe, SinkEvent, ExecutionProof, OastInteraction,
  Event, sink, proof, oast, CorrelatedFinding, Analyzer, Texts, text_contains,
}
use scalpel_cli.Taint.Rules.{is_context_valid, is_error_page_context, check_sanitization}
use scalpel_cli.Taint.Static.{correlate}
use scalpel_cli.Taint.Pans.{has_valid_pan}

-- `registerProbe`
unfoldable pub register_probe : ActiveProbe → Dict ActiveProbe → Dict ActiveProbe
register_probe p probes = insert p.canary p probes

abbrev pub is_expired : (expiration now : ℕ) → ActiveProbe → Bool
is_expired expiration now p = ltb (p.created_at + expiration) now

-- `executeCleanup`
unfoldable pub execute_cleanup : (expiration now : ℕ) → Dict ActiveProbe → Dict ActiveProbe
execute_cleanup expiration now [] = []
execute_cleanup expiration now ((canary, p) ∷ probes) =
    let rest = execute_cleanup expiration now probes in
    if is_expired expiration now p then rest else (canary, p) ∷ rest

abbrev pub oast_finding : Analyzer → OastInteraction → ActiveProbe → CorrelatedFinding
oast_finding a i p = record {
  task_id = a.config.task_id;
  target_url = a.config.target;
  occurrence_url = a.config.target;
  occurrence_title = "N/A (Out of Band)";
  sink = "OAST_INTERACTION";
  origin = p.source;
  value = p.value;
  canary = i.canary;
  probe = p;
  detail =
      str_append "Out-of-band interaction ("
        (str_append i.protocol (str_append ") detected from " (str_append i.source_ip ".")));
  is_confirmed = true;
  sanitization = unsanitized;
  stack_trace = "N/A (Out of Band)";
  oast_details = some i;
  confirmed_static = false;
  confirmed_dynamic = true;
  static_finding = none;
}

-- `processOASTInteraction`
unfoldable pub process_oast : Analyzer → OastInteraction → List CorrelatedFinding
process_oast a i = elim (lookup i.canary a.active_probes) [
  | none ↦ []
  | some p ↦ oast_finding a i p ∷ []
]

abbrev pub proof_finding : Analyzer → ExecutionProof → ActiveProbe → CorrelatedFinding
proof_finding a e p = record {
  task_id = a.config.task_id;
  target_url = a.config.target;
  occurrence_url = e.page_url;
  occurrence_title = e.page_title;
  sink = "EXECUTION_PROOF";
  origin = p.source;
  value = p.value;
  canary = e.canary;
  probe = p;
  detail = "Payload execution confirmed via JS callback.";
  is_confirmed = true;
  sanitization = unsanitized;
  stack_trace = e.stack_trace;
  oast_details = none;
  confirmed_static = false;
  confirmed_dynamic = true;
  static_finding = none;
}

-- `processExecutionProof`
unfoldable pub process_proof : Texts → Analyzer → ExecutionProof → List CorrelatedFinding
process_proof tx a e = elim (lookup e.canary a.active_probes) [
  | none ↦ []
  | some p ↦ correlate tx a.static_findings (proof_finding a e p) ∷ []
]

-- A finding on an event of the page.
abbrev pub event_finding :
    Analyzer
    → SinkEvent
    → ActiveProbe
    → (canary value detail : String) → (is_confirmed : Bool) → SanitizationLevel
    → CorrelatedFinding
event_finding a e p canary value detail is_confirmed level = record {
  task_id = a.config.task_id;
  target_url = a.config.target;
  occurrence_url = e.page_url;
  occurrence_title = e.page_title;
  sink = e.type;
  origin = p.source;
  value = value;
  canary = canary;
  probe = p;
  detail = detail;
  is_confirmed = is_confirmed;
  sanitization = level;
  stack_trace = e.stack_trace;
  oast_details = none;
  confirmed_static = false;
  confirmed_dynamic = true;
  static_finding = none;
}

abbrev sensitive_finding : Analyzer → SinkEvent → String → Bool → CorrelatedFinding
sensitive_finding a e detail is_confirmed =
    record (event_finding a e no_probe "N/A (Sensitive Data)" e.value detail is_confirmed
      unsanitized) { origin = "HEURISTIC_CLIENT_DATA" }

abbrev is_empty {ℓ} : {A : Type ℓ} → List A → Bool
is_empty [] = true
is_empty (x ∷ xs) = false

-- `processSensitiveDataEvent`: what looks like a card number and has a wrong checksum is dropped.
unfoldable pub process_sensitive : Texts → Analyzer → SinkEvent → List CorrelatedFinding
process_sensitive tx a e =
    if has_valid_pan tx e.value
    then sensitive_finding a e
        (str_append "High Confidence: Verified Credit Card PAN leaked. " e.detail) true
      ∷ []
    else if text_contains e.detail "Sensitive pattern detected" && is_empty (tx.find_pans e.value)
    then sensitive_finding a e (str_append "Potential Secret/Key Leak: " e.detail) false ∷ []
    else []

abbrev pub with_match : Option ActiveProbe → String → Dict ActiveProbe → Dict ActiveProbe
with_match none canary acc = acc
with_match (some p) canary acc = insert canary p acc

-- The map of the probes whose canaries were found.
unfoldable pub matched_probes : Dict ActiveProbe → List String → Dict ActiveProbe → Dict ActiveProbe
matched_probes active [] acc = acc
matched_probes active (canary ∷ found) acc =
    matched_probes active found (with_match (lookup canary active) canary acc)

abbrev pub sink_finding : Texts → Analyzer → SinkEvent → String → ActiveProbe → CorrelatedFinding
sink_finding tx a e canary p =
    let (level, suffix) = check_sanitization e.value p in
    correlate tx a.static_findings
      (event_finding a e p canary e.value (str_append e.detail suffix) false level)

-- The tests of one probe that was found.
unfoldable pub is_reportable : Texts → Analyzer → SinkEvent → ActiveProbe → Bool
is_reportable tx a e p =
    if is_context_valid tx a e p
    then (if is_error_page_context tx e.page_url e.page_title then false else true)
    else false

unfoldable pub report_matched :
    Texts → Analyzer → SinkEvent → Dict ActiveProbe → List CorrelatedFinding
report_matched tx a e [] = []
report_matched tx a e ((canary, p) ∷ matched) =
    let rest = report_matched tx a e matched in
    if is_reportable tx a e p then sink_finding tx a e canary p ∷ rest else rest

-- `processSinkEvent`
unfoldable pub process_sink : Texts → Analyzer → SinkEvent → List CorrelatedFinding
process_sink tx a e =
    report_matched tx a e (matched_probes a.active_probes (tx.find_canaries e.value) [])

abbrev pub pollution_finding : Analyzer → SinkEvent → ActiveProbe → CorrelatedFinding
pollution_finding a e p =
    record (event_finding a e p e.value p.value
      (str_append "Successfully polluted Object.prototype property: " e.detail) true unsanitized) {
        sink = "PROTOTYPE_POLLUTION_CONFIRMED";
      }

-- `processPrototypePollutionConfirmation`: the value of the event is the canary.
unfoldable pub process_pollution : Texts → Analyzer → SinkEvent → List CorrelatedFinding
process_pollution tx a e = elim (lookup e.value a.active_probes) [
  | none ↦ []
  | some p ↦
      if str_eq p.type "PROTOTYPE_POLLUTION"
      then correlate tx a.static_findings (pollution_finding a e p) ∷ []
      else []
]

-- `processEvent`
unfoldable pub process_event : Texts → Analyzer → Event → List CorrelatedFinding
process_event tx a (sink e) =
    if str_eq e.type "PROTOTYPE_POLLUTION_CONFIRMED"
    then process_pollution tx a e
    else if str_eq e.type "SENSITIVE_STORAGE_WRITE"
    then process_sensitive tx a e
    else process_sink tx a e
process_event tx a (proof e) = process_proof tx a e
process_event tx a (oast i) = process_oast a i
