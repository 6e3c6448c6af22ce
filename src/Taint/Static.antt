-- ===== src/Taint/Static.antt =====
-- correlateWithStaticFindings of internal/analysis/active/taint/taint_analyzer.go, with
-- isSourceContextMatch, parseStackTrace and GetSinkType of internal/analysis/core/definitions.go.
pub mod Matches
use Prim.Native.Char.{code}
use Prim.Native.String.{String, ◌++◌ as str_append}
use text.Mathlib.Text.{◌==◌ as str_eq, starts_with}
use scalpel_cli.Common.{
  ℕ, ◌+◌, Bool, true, false, ◌&&◌, ◌||◌, List, [], ◌∷◌, Option, none, some, ◌==◌, leb,
  if◌then◌else◌,
}
use scalpel_cli.Common.Dict.{Dict, lookup}
use scalpel_cli.Common.Int.{ℤ, pos, negsuc}
use scalpel_cli.Common.Text.{atoi}
use scalpel_cli.Taint.Types.{StaticFinding, CorrelatedFinding, Texts, text_contains}

-- `SinkType`
pub data SinkType : Type 0 where
  execution html_injection url_redirection attribute_injection data_leak unknown : SinkType

unfoldable pub is_one_of_texts : String → List String → Bool
is_one_of_texts s [] = false
is_one_of_texts s (t ∷ ts) = if str_eq s t then true else is_one_of_texts s ts

-- `GetSinkType`
unfoldable pub get_sink_type : String → SinkType
get_sink_type s =
    if is_one_of_texts s ("EVAL" ∷ "FUNCTION_CONSTRUCTOR" ∷ "SCRIPT_SRC" ∷ "EXECUTION_PROOF" ∷ [])
    then execution
    else if is_one_of_texts s
        ("INNER_HTML" ∷ "OUTER_HTML" ∷ "DOCUMENT_WRITE" ∷ "IFRAME_SRCDOC" ∷ [])
    then html_injection
    else if is_one_of_texts s ("NAVIGATION" ∷ "IFRAME_SRC" ∷ "WORKER_SRC" ∷ [])
    then url_redirection
    else if is_one_of_texts s (
        "WEBSOCKET_SEND" ∷ "XHR_BODY" ∷ "XHR_URL" ∷ "FETCH_BODY" ∷ "FETCH_URL" ∷ "SEND_BEACON"
        ∷ "POST_MESSAGE" ∷ "WORKER_POST_MESSAGE" ∷ "OAST_INTERACTION" ∷ [])
    then data_leak
    else if text_contains s "HTML"
    then html_injection
    else if text_contains s "ATTRIBUTE"
    then attribute_injection
    else unknown

abbrev pub is_execution : SinkType → Bool
is_execution execution = true
is_execution _ = false

abbrev prefix_to : String → List String → List String
prefix_to s [] = s ∷ []
prefix_to s (t ∷ ts) = str_append s t ∷ ts

-- `strings.Split(s, "|")`
unfoldable pub split_bars : String → List String
split_bars String.[] = "" ∷ []
split_bars (String.◌∷◌ c s) =
    let rest = split_bars s in
    if code c == b'|' then "" ∷ rest else prefix_to (String.◌∷◌ c "") rest

unfoldable pub is_source : String → String → Bool
is_source dynamic s =
    if str_eq dynamic "URL_PARAM"
    then str_eq s "location.search" || (str_eq s "location.href" || starts_with s "param:query:")
    else if str_eq dynamic "HASH_FRAGMENT"
    then str_eq s "location.hash" || starts_with s "param:hash:"
    else if str_eq dynamic "LOCAL_STORAGE"
    then str_eq s "localStorage.getItem" || starts_with s "param:storage:"
    else if str_eq dynamic "SESSION_STORAGE"
    then str_eq s "sessionStorage.getItem" || starts_with s "param:storage:"
    else str_eq dynamic "COOKIE" && str_eq s "document.cookie"

unfoldable pub any_source : String → List String → Bool
any_source dynamic [] = false
any_source dynamic (s ∷ ss) = if is_source dynamic s then true else any_source dynamic ss

-- `isSourceContextMatch`
abbrev pub is_source_context_match : String → String → Bool
is_source_context_match dynamic static = any_source dynamic (split_bars static)

-- The result of Atoi on digits whose error is dropped: out of range it is the largest int.
abbrev line_number : Option ℤ → ℕ
line_number (some (pos n)) = n
line_number _ = 9223372036854775807

-- `parseStackTrace`; no line stands for -1.
abbrev located : Option (String × String) → String × Option ℕ
located none = ("", none)
located (some (file, line)) = (file, some (line_number (atoi line)))

abbrev pub is_sink_match : StaticFinding → CorrelatedFinding → Bool
is_sink_match sf f =
    str_eq sf.canonical_type f.sink
    || (str_eq f.sink "EXECUTION_PROOF" && is_execution (get_sink_type sf.canonical_type))

abbrev pub is_location_match : StaticFinding → Option ℕ → Bool
is_location_match sf none = true
is_location_match sf (some line) = leb sf.line (line + 3) && leb line (sf.line + 3)

unfoldable pub is_match_of : Option ℕ → CorrelatedFinding → StaticFinding → Bool
is_match_of line f sf =
    is_sink_match sf f
    && (is_source_context_match f.probe.source sf.source && is_location_match sf line)

abbrev verified : CorrelatedFinding → StaticFinding → CorrelatedFinding
verified f sf = record f {
  confirmed_static = true;
  is_confirmed = true;
  detail = if f.is_confirmed then f.detail else str_append f.detail " (Statically Verified)";
  static_finding = some sf;
}

unfoldable pub correlate_from :
    Option ℕ → CorrelatedFinding → List StaticFinding → CorrelatedFinding
correlate_from line f [] = f
correlate_from line f (sf ∷ sfs) =
    if is_match_of line f sf then verified f sf else correlate_from line f sfs

abbrev pub or_none {ℓ} : {A : Type ℓ} → Option (List A) → List A
or_none none = []
or_none (some xs) = xs

-- The file that the finding is looked up under.
abbrev pub file_of : String → String → String
file_of script page = if str_eq script "" then page else script

abbrev pub candidates : Texts → Dict (List StaticFinding) → CorrelatedFinding → List StaticFinding
candidates tx known f =
    let file = file_of (located (tx.locate f.stack_trace)).0 f.occurrence_url in
    if str_eq file "" then [] else or_none (lookup file known)

abbrev pub line_of : Texts → CorrelatedFinding → Option ℕ
line_of tx f = (located (tx.locate f.stack_trace)).1

-- `correlateWithStaticFindings`
unfoldable pub correlate : Texts → Dict (List StaticFinding) → CorrelatedFinding → CorrelatedFinding
correlate tx known f = correlate_from (line_of tx f) f (candidates tx known f)
