-- ===== src/Taint/Probing.antt =====
-- The probes of internal/analysis/active/taint/taint_analyzer.go: generateCanary, preparePayload, the
-- injections into the parameters of the URL, the fragment, the storage and the cookies, and the order
-- of executeProbes.
pub mod Replacer
pub mod Urls
pub mod Storage
pub mod Session
pub mod Tracking
mod Tests
use Prim.Native.String.{String, ◌++◌ as str_append}
use text.Mathlib.Text.{◌==◌ as str_eq}
use scalpel_cli.Common.{
  ℕ, zero, suc, Bool, true, false, not, ◌&&◌, List, [], ◌∷◌, ◌++◌, Option, none, some, ◌⊎◌, inl,
  inr, if◌then◌else◌,
}
use scalpel_cli.Common.Dict.{Dict, lookup, insert}
use scalpel_cli.Taint.Types.{ProbeDefinition, ActiveProbe, text_contains}
use scalpel_cli.Taint.Correlation.{register_probe}
use scalpel_cli.Taint.Probing.Replacer.{replace_all}

-- net/url, encoding/json and fmt, on the target of the analysis. `with_query` and `with_fragment` are
-- the texts of the target with another query or fragment; `base` is url.Parse of its text.
pub record Web : Type 0 where
  pub upper : String → String
  pub decimal : ℕ → String
  pub quoted : String → String
  pub json_text : String → String
  pub query_escape : String → String
  pub encode : Dict (List String) → String
  pub is_parsed : Bool
  pub is_https : Bool
  pub target : String
  pub query : Dict (List String)
  pub fragment_query : Dict (List String)
  pub with_query : String → String
  pub with_fragment : String → String

-- What preparePayload reads of the analyzer; no server where out-of-band tests are not configured.
pub record Naming : Type 0 where
  pub proof_name : String
  pub oast_server : Option String

pub data Action : Type 0 where
  navigate execute_script : String → Action
  interact : Action

-- The state of a session of probes. `ids` are the identifiers to come, of eight characters, `clock`
-- the time, and `pauses` says which of the pauses to come fail.
pub record Probing : Type 0 where
  pub active_probes : Dict ActiveProbe
  pub actions : List Action
  pub pauses : List Bool
  pub ids : List String
  pub clock : ℕ

infixr 60 ◌++ₛ◌
abbrev pub ◌++ₛ◌ : String → String → String
s ++ₛ t = str_append s t

-- `generateCanary`, with the identifier that uuid.New gives.
unfoldable pub generate_canary : Web → (prefix type id : String) → String
generate_canary w prefix type id = ("SCALPEL_" ++ₛ prefix ++ₛ "_" ++ₛ w.upper type ++ₛ "_") ++ₛ id

abbrev replacements : Naming → String → List (String × String)
replacements n canary = ("{{.Canary}}", canary) ∷ ("{{.ProofCallbackName}}", n.proof_name) ∷ []

abbrev with_server : Naming → String → Option String → String → String
with_server n payload none canary = ""
with_server n payload (some server) canary =
    replace_all (replacements n canary ++ ("{{.OASTServer}}", server) ∷ []) payload

-- `preparePayload`
unfoldable pub prepare_payload : Naming → ProbeDefinition → String → String
prepare_payload n d canary =
    if text_contains d.payload "{{.OASTServer}}"
    then with_server n d.payload n.oast_server canary
    else replace_all (replacements n canary) d.payload

abbrev next_id : List String → String × List String
next_id [] = ("", [])
next_id (id ∷ ids) = (id, ids)

abbrev pub probe_of : (canary payload source key : String) → ProbeDefinition → ℕ → ActiveProbe
probe_of canary payload source key d now = record {
  type = d.type;
  key = key;
  value = payload;
  canary = canary;
  source = source;
  created_at = now;
}

abbrev pub registered : (canary payload source key : String) → ProbeDefinition → Probing → Probing
registered canary payload source key d p = record p {
  active_probes = register_probe (probe_of canary payload source key d p.clock) p.active_probes;
}

-- The probe is registered unless its payload is empty.
abbrev pub inject_as :
    (canary payload source key : String) → ProbeDefinition → Probing → Option String × Probing
inject_as canary payload source key d p =
    if str_eq payload ""
    then (none, p)
    else (some payload, registered canary payload source key d p)

-- One probe with its own canary: the payload, if there is one.
unfoldable pub inject :
    Web
    → Naming
    → (prefix source key : String) → ProbeDefinition
    → Probing
    → Option String × Probing
inject w n prefix source key d p =
    let (id, ids) = next_id p.ids in
    let canary = generate_canary w prefix d.type id in
    inject_as canary (prepare_payload n d canary) source key d (record p { ids = ids })

-- A function that ends early or not, as its error says.
abbrev pub Ended : Type 0
Ended = Bool × Probing

abbrev first_pause : List Bool → Bool × List Bool
first_pause [] = (false, [])
first_pause (b ∷ bs) = (b, bs)

-- `executePause`, and what comes after it.
abbrev pub pause_then : (Probing → Ended) → Probing → Ended
pause_then next p =
    let (fails, pauses) = first_pause p.pauses in
    let q = record p { pauses = pauses } in if fails then (true, q) else next q

abbrev pub act : Action → Probing → Probing
act x p = record p { actions = p.actions ++ x ∷ [] }

abbrev pub ok : Probing → Ended
ok p = (false, p)

-- An error of a navigation is not looked at.
unfoldable pub visit : String → Probing → Ended
visit url p = pause_then (λ q. pause_then ok (act (navigate url) q)) p

-- The steps of the source where an error is logged.
abbrev pub and_on : Ended → (Probing → Ended) → Ended
and_on (failed, p) next = next p

-- The steps where it is returned.
abbrev pub and_then : Ended → (Probing → Ended) → Ended
and_then (failed, p) next = if failed then (true, p) else next p
