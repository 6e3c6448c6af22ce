-- ===== src/Taint/Probing/Tests.antt =====
-- The probes of internal/analysis/active/taint at concrete inputs.
use scalpel_cli.Common.{◌≡◌, refl, true, [], ◌∷◌, none, some, arith}
use scalpel_cli.Common.Dict.{lookup, insert}
use scalpel_cli.Taint.Types.{ProbeDefinition, text_contains}
use scalpel_cli.Taint.Correlation.{register_probe}
use scalpel_cli.Taint.Probing.{Web, Naming, Probing, inject, generate_canary, prepare_payload}
use scalpel_cli.Taint.Probing.Replacer.{replace_from, first_match}
use scalpel_cli.Taint.Probing.Urls.{query_probes}
use scalpel_cli.Taint.Probing.Tracking.{SentAs, query_tracked}

-- A target without parameters of its own.
abbrev web : Web
web = record {
  upper = λ s. s;
  decimal = λ i. "0";
  quoted = λ s. s;
  json_text = λ s. s;
  query_escape = λ s. s;
  encode = λ q. "q";
  is_parsed = true;
  is_https = true;
  target = "https://a/";
  query = [];
  fragment_query = [];
  with_query = λ q. q;
  with_fragment = λ f. f;
}

abbrev naming : Naming
naming = record { proof_name = "proof"; oast_server = none }

abbrev html_probe : ProbeDefinition
html_probe = record {
  type = "XSS";
  payload = "<img onerror={{.ProofCallbackName}}('{{.Canary}}')>";
  context = "";
}

abbrev probing : Probing
probing = record { active_probes = []; actions = []; pauses = []; ids = "01234567" ∷ []; clock = 0 }

query_tracked_example :
    SentAs web.query
      (query_probes web naming 0 (html_probe ∷ []) 0 web.query probing).1
      (query_probes web naming 0 (html_probe ∷ []) 0 web.query probing).2
      "sc_test_0"
unfolding lookup
query_tracked_example =
    query_tracked web naming (html_probe ∷ []) probing (omega arith) (refl, (λ s. refl), tt, tt)
      "sc_test_0"

is_sent :
    lookup "sc_test_0" (query_probes web naming 0 (html_probe ∷ []) 0 web.query probing).1
    ≡ some ("<img onerror=proof('SCALPEL_Q_XSS_01234567')>" ∷ [])
unfolding lookup insert query_probes inject generate_canary prepare_payload replace_from first_match
    text_contains register_probe
is_sent = refl
