-- ===== src/Taint/Rules.antt =====
-- The rules of internal/analysis/active/taint: the flows of probes.go, and isContextValid,
-- isErrorPageContext and checkSanitization of taint_analyzer.go.
use Prim.Native.Char.{code}
use Prim.Native.String.{String, ◌++◌ as str_append}
use text.Mathlib.Text.{◌==◌ as str_eq, starts_with}
use scalpel_cli.Common.{
  Bool, true, false, not, ◌&&◌, ◌||◌, List, [], ◌∷◌, ◌++◌, map, Option, none, some, ◌==◌,
  if◌then◌else◌,
}
use scalpel_cli.Common.Text.{ends_with}
use scalpel_cli.Taint.Types.{
  SanitizationLevel, unsanitized, partly, fully, ActiveProbe, SinkEvent, TaintFlowPath, Analyzer,
  Texts, text_contains,
}

abbrev pub flows_of : String → List String → List (TaintFlowPath × Bool)
flows_of probe sinks = map (λ s. (record { probe_type = probe; sink_type = s }, true)) sinks

-- `ValidTaintFlows`
abbrev pub valid_taint_flows : List (TaintFlowPath × Bool)
valid_taint_flows =
    flows_of "XSS" (
      "EVAL" ∷ "INNER_HTML" ∷ "OUTER_HTML" ∷ "DOCUMENT_WRITE" ∷ "IFRAME_SRCDOC"
      ∷ "FUNCTION_CONSTRUCTOR" ∷ "SCRIPT_SRC" ∷ "IFRAME_SRC" ∷ "NAVIGATION" ∷ "POST_MESSAGE"
      ∷ "WORKER_POST_MESSAGE" ∷ [])
    ++ flows_of "DOM_CLOBBERING" ("EVAL" ∷ "INNER_HTML" ∷ "NAVIGATION" ∷ [])
    ++ flows_of "SSTI" (
        "EVAL" ∷ "INNER_HTML" ∷ "OUTER_HTML" ∷ "DOCUMENT_WRITE" ∷ "IFRAME_SRCDOC"
        ∷ "FUNCTION_CONSTRUCTOR" ∷ [])
    ++ flows_of "SQLI" ("INNER_HTML" ∷ [])
    ++ flows_of "CMD_INJECTION" ("INNER_HTML" ∷ [])
    ++ flows_of "GENERIC" (
        "WEBSOCKET_SEND" ∷ "XHR_BODY" ∷ "XHR_URL" ∷ "FETCH_BODY" ∷ "FETCH_URL" ∷ "NAVIGATION"
        ∷ "SEND_BEACON" ∷ "WORKER_SRC" ∷ [])
    ++ flows_of "OAST" (
        "WEBSOCKET_SEND" ∷ "XHR_BODY" ∷ "XHR_URL" ∷ "FETCH_BODY" ∷ "FETCH_URL" ∷ "NAVIGATION"
        ∷ "SEND_BEACON" ∷ "WORKER_SRC" ∷ [])

abbrev pub is_path : String → String → TaintFlowPath → Bool
is_path probe sink f = str_eq f.probe_type probe && str_eq f.sink_type sink

-- A flow that is not defined counts as one that is not valid.
unfoldable pub is_valid_flow : List (TaintFlowPath × Bool) → String → String → Bool
is_valid_flow [] probe sink = false
is_valid_flow ((f, v) ∷ fs) probe sink =
    if is_path probe sink f then v else is_valid_flow fs probe sink

-- `UpdateTaintFlowRuleForTesting`
unfoldable pub update_rule :
    TaintFlowPath → Bool → List (TaintFlowPath × Bool) → List (TaintFlowPath × Bool)
update_rule g w [] = (g, w) ∷ []
update_rule g w ((f, v) ∷ fs) =
    let rest = update_rule g w fs in
    if is_path g.probe_type g.sink_type f then (g, w) ∷ fs else (f, v) ∷ rest

abbrev is_executable_scheme : String → Bool
is_executable_scheme val =
    starts_with val "javascript:" || (starts_with val "data:" || starts_with val "vbscript:")

unfoldable pub is_context_valid : Texts → Analyzer → SinkEvent → ActiveProbe → Bool
is_context_valid tx a e p =
    is_valid_flow a.valid_flows p.type e.type
    && (if str_eq e.type "NAVIGATION" && str_eq p.type "XSS"
        then is_executable_scheme (tx.lower e.value)
        else true)

abbrev names_error : String → Bool
names_error title =
    text_contains title "404 not found"
    || (text_contains title "page not found"
        || (text_contains title "server error" || text_contains title "internal server error"))

abbrev has_segment : String → (within at_end : String) → Bool
has_segment s within at_end = text_contains s within || ends_with s at_end

-- The tests on the path, and those on the whole URL where it cannot be parsed.
abbrev is_error_path : Option String → String → Bool
is_error_path none u = has_segment u "/404/" "/404" || has_segment u "/500/" "/500"
is_error_path (some path) u =
    (has_segment path "/404/" "/404" || text_contains path "/404.")
    || (has_segment path "/500/" "/500" || text_contains path "/500.")

unfoldable pub is_error_page_context : Texts → (url title : String) → Bool
is_error_page_context tx url title =
    let u = tx.lower url in
    names_error (tx.lower title)
    || (text_contains u "/error."
        || text_contains u "/errors/"
        || is_error_path (tx.url_path url) u)

-- `strings.ReplaceAll` of the quotes of a text.
unfoldable pub replace_quotes : String → String → String
replace_quotes r String.[] = ""
replace_quotes r (String.◌∷◌ c s) =
    let rest = replace_quotes r s in if code c == b'"' then str_append r rest else String.◌∷◌ c rest

abbrev tag_details : String → String → List String
tag_details value seen =
    if text_contains value "<" && not (text_contains seen "<")
    then "HTML tags modified or stripped" ∷ []
    else []

abbrev quote_details : String → String → List String
quote_details value seen =
    if text_contains value "\""
    then if text_contains seen (replace_quotes "\\\"" value)
      then "Quotes escaped" ∷ []
      else if text_contains seen (replace_quotes "" value)
      then "Quotes removed or encoded" ∷ []
      else []
    else []

unfoldable pub sanitization_details : String → ActiveProbe → List String
sanitization_details seen p =
    if str_eq p.type "XSS" then tag_details p.value seen ++ quote_details p.value seen else []

unfoldable pub join_details : List String → String
join_details [] = ""
join_details (d ∷ []) = d
join_details (d ∷ e ∷ ds) = str_append d (str_append ", " (join_details (e ∷ ds)))

abbrev level_of : List String → SanitizationLevel × String
level_of [] = (fully, " (Payload fully sanitized)")
level_of (d ∷ ds) =
    (partly, str_append " (Potential Sanitization: " (str_append (join_details (d ∷ ds)) ")"))

unfoldable pub check_sanitization : String → ActiveProbe → SanitizationLevel × String
check_sanitization seen p =
    if text_contains seen p.value then (unsanitized, "") else level_of (sanitization_details seen p)
