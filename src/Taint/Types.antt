-- ===== src/Taint/Types.antt =====
-- The data of internal/analysis/active/taint/types.go, and the Analyzer of taint_analyzer.go.
use Prim.Native.String.{String}
use text.Mathlib.Text.{find?}
use scalpel_cli.Common.{ℕ, Bool, true, false, List, Option, none, some}
use scalpel_cli.Common.Dict.{Dict}

pub data SanitizationLevel : Type 0 where
  unsanitized partly fully : SanitizationLevel

-- `ProbeDefinition`, without the description.
pub record ProbeDefinition : Type 0 where
  pub type : String
  pub payload : String
  pub context : String

pub record ActiveProbe : Type 0 where
  pub type : String
  pub key : String
  pub value : String
  pub canary : String
  pub source : String
  pub created_at : ℕ

-- The zero value, in the findings that no probe led to.
abbrev pub no_probe : ActiveProbe
no_probe = record { type = ""; key = ""; value = ""; canary = ""; source = ""; created_at = 0 }

pub record SinkEvent : Type 0 where
  pub type : String
  pub value : String
  pub detail : String
  pub stack_trace : String
  pub page_url : String
  pub page_title : String

pub record ExecutionProof : Type 0 where
  pub canary : String
  pub stack_trace : String
  pub page_url : String
  pub page_title : String

pub record OastInteraction : Type 0 where
  pub canary : String
  pub protocol : String
  pub source_ip : String

pub data Event : Type 0 where
  sink : SinkEvent → Event
  proof : ExecutionProof → Event
  oast : OastInteraction → Event

-- `StaticFinding` of static/javascript, as the correlation reads it.
pub record StaticFinding : Type 0 where
  pub source : String
  pub line : ℕ
  pub canonical_type : String

pub record CorrelatedFinding : Type 0 where
  pub task_id : String
  pub target_url : String
  pub occurrence_url : String
  pub occurrence_title : String
  pub sink : String
  pub origin : String
  pub value : String
  pub canary : String
  pub probe : ActiveProbe
  pub detail : String
  pub is_confirmed : Bool
  pub sanitization : SanitizationLevel
  pub stack_trace : String
  pub oast_details : Option OastInteraction
  pub confirmed_static : Bool
  pub confirmed_dynamic : Bool
  pub static_finding : Option StaticFinding

pub record TaintFlowPath : Type 0 where
  pub probe_type : String
  pub sink_type : String

-- The fields of `Config` that are read here; the target is its text. No duration is below 0.
pub record Config : Type 0 where
  pub task_id : String
  pub target : String
  pub probes : List ProbeDefinition
  pub expiration : ℕ

-- The fields of `Analyzer` that the handlers of events read.
pub record Analyzer : Type 0 where
  pub config : Config
  pub active_probes : Dict ActiveProbe
  pub valid_flows : List (TaintFlowPath × Bool)
  pub static_findings : Dict (List StaticFinding)

-- strings.ToLower, the regular expressions, the path that url.Parse gives and unicode.IsDigit.
-- `locate` gives the file and the digits of the line.
pub record Texts : Type 0 where
  pub lower : String → String
  pub find_canaries : String → List String
  pub locate : String → Option (String × String)
  pub url_path : String → Option String
  pub find_pans : String → List String
  pub is_digit : ℕ → Bool

abbrev is_found : Option ℕ → Bool
is_found none = false
is_found (some i) = true

-- `strings.Contains`
unfoldable pub text_contains : String → String → Bool
text_contains s t = is_found (find? s t)
