-- ===== src/Taint/Tests.antt =====
-- internal/analysis/active/taint at concrete inputs.
use text.Mathlib.Text.{◌==◌ as str_eq, find?}
use text.Mathlib.TextEquality.{eq_iff}
use scalpel_cli.Common.{
  ℕ, ◌≡◌, refl, true, false, List, [], ◌∷◌, ◌++◌, none, some, All, arith, if◌then◌else◌,
}
use scalpel_cli.Common.Dict.{lookup, insert}
use scalpel_cli.Taint.Types.{
  ActiveProbe, SinkEvent, sink, StaticFinding, text_contains, SanitizationLevel, CorrelatedFinding,
  Analyzer, Texts,
}
use scalpel_cli.Taint.Rules.{
  valid_taint_flows, is_valid_flow, is_error_page_context, check_sanitization, is_context_valid,
}
use scalpel_cli.Taint.Static.{
  candidates, correlate, line_of, correlate_from, is_match_of, get_sink_type, any_source,
  split_bars, is_source, is_one_of_texts,
}
use scalpel_cli.Taint.Static.Matches.{Correlated, correlate-Correlated}
use scalpel_cli.Common.Text.{atoi, ends_with}
use scalpel_cli.Taint.Pans.{luhn_check, luhn_from, weight}
use scalpel_cli.Taint.Pans.Luhn.{luhn_detects}
use scalpel_cli.Taint.Correlation.{
  event_finding, matched_probes, report_matched, is_reportable, process_sink, process_event,
}
use scalpel_cli.Taint.Correlation.Reports.{
  count_canary, reports_due, count-process_sink, Sound, process_sink-Sound,
}
use scalpel_cli.Taint.Correlation.Expiry.{cleaned, expired_unreported}

-- One canary, where it is found; the stack says where the script is; no card numbers.
abbrev texts : Texts
texts = record {
  lower = λ s. s;
  find_canaries = λ s. elim (find? s "SCALPEL_Q_XSS_01234567") [
    | none ↦ []
    | some i ↦ "SCALPEL_Q_XSS_01234567" ∷ "SCALPEL_Q_XSS_01234567" ∷ []
  ];
  locate = λ s. if str_eq s "" then none else some ("https://a/app.js", "15");
  url_path = λ s. some "/";
  find_pans = λ s. [];
  is_digit = λ c. false;
}

abbrev probe : ActiveProbe
probe = record {
  type = "XSS";
  key = "sc_test_0";
  value = "<img>";
  canary = "SCALPEL_Q_XSS_01234567";
  source = "URL_PARAM";
  created_at = 5;
}

abbrev search_flow : StaticFinding
search_flow = record {
  source = "window.name|location.search";
  line = 17;
  canonical_type = "INNER_HTML";
}

abbrev analyzer : Analyzer
analyzer = record {
  config = record { task_id = "t"; target = "https://a/"; probes = []; expiration = 10 };
  active_probes = ("SCALPEL_Q_XSS_01234567", probe) ∷ [];
  valid_flows = valid_taint_flows;
  static_findings = ("https://a/app.js", search_flow ∷ []) ∷ [];
}

abbrev html_event : SinkEvent
html_event = record {
  type = "INNER_HTML";
  value = "<img>SCALPEL_Q_XSS_01234567";
  detail = "innerHTML";
  stack_trace = "at app.js";
  page_url = "https://a/";
  page_title = "A";
}

xss_flow : is_valid_flow valid_taint_flows "XSS" "INNER_HTML" ≡ true
unfolding is_valid_flow
xss_flow = refl

sql_flow : is_valid_flow valid_taint_flows "SQLI" "EVAL" ≡ false
unfolding is_valid_flow
sql_flow = refl

abbrev visa : List ℕ
visa =
    b'4' ∷ b'1' ∷ b'1' ∷ b'1' ∷ b'1' ∷ b'1' ∷ b'1' ∷ b'1' ∷ b'1' ∷ b'1' ∷ b'1' ∷ b'1' ∷ b'1' ∷ b'1'
    ∷ b'1' ∷ []

is_valid_visa : luhn_check (visa ++ b'1' ∷ []) ≡ true
unfolding luhn_check luhn_from weight
is_valid_visa = refl

luhn_detects_example : luhn_check (visa ++ b'2' ∷ []) ≡ false
luhn_detects_example = luhn_detects visa [] b'1' b'2' (ground arith) is_valid_visa

count-process_sink_example :
    count_canary "SCALPEL_Q_XSS_01234567" (process_sink texts analyzer html_event)
    ≡ reports_due texts analyzer html_event
        (is_one_of_texts "SCALPEL_Q_XSS_01234567" (texts.find_canaries html_event.value))
        (lookup "SCALPEL_Q_XSS_01234567" analyzer.active_probes)
count-process_sink_example = count-process_sink texts analyzer html_event "SCALPEL_Q_XSS_01234567"

one_report : count_canary "SCALPEL_Q_XSS_01234567" (process_sink texts analyzer html_event) ≡ 1
unfolding process_sink matched_probes report_matched is_reportable lookup insert is_context_valid
    is_valid_flow is_error_page_context check_sanitization text_contains ends_with correlate
    correlate_from is_match_of get_sink_type is_one_of_texts any_source split_bars is_source atoi
one_report = refl

process_sink-Sound_example :
    All (λ f. Sound texts analyzer f) (process_sink texts analyzer html_event)
process_sink-Sound_example = process_sink-Sound texts analyzer html_event

abbrev plain : CorrelatedFinding
plain =
    event_finding analyzer html_event probe "SCALPEL_Q_XSS_01234567" html_event.value "innerHTML"
      false SanitizationLevel.unsanitized

correlate-Correlated_example :
    Correlated
      (line_of texts plain)
      plain
      (candidates texts analyzer.static_findings plain)
      (correlate texts analyzer.static_findings plain)
correlate-Correlated_example = correlate-Correlated texts analyzer.static_findings plain

is_verified : (correlate texts analyzer.static_findings plain).is_confirmed ≡ true
unfolding lookup correlate correlate_from is_match_of get_sink_type is_one_of_texts any_source
    split_bars is_source atoi
is_verified = refl

is_known : lookup "SCALPEL_Q_XSS_01234567" analyzer.active_probes ≡ some probe
unfolding lookup
is_known = refl

expired_unreported_example :
    count_canary "SCALPEL_Q_XSS_01234567"
      (process_event texts (cleaned 100 analyzer) (sink html_event))
    ≡ 0
unfolding lookup
expired_unreported_example =
    expired_unreported texts analyzer 100 "SCALPEL_Q_XSS_01234567" probe (sink html_event)
      (refl, tt) is_known refl
      (λ e. ground (arith, (eq_iff "N/A (Sensitive Data)" "SCALPEL_Q_XSS_01234567").1 e))
