-- ===== src/Discovery.antt =====
-- internal/discovery: the scope of a session (scope.go) and normalizeAndValidate of engine.go.
pub mod Crawl
pub mod Normal
pub mod Invariant
pub mod Steps
pub mod Ends
pub mod Recorded
mod Tests
use Prim.Native.String.{String, ◌++◌ as str_append}
use text.Mathlib.Text.{◌==◌ as str_eq}
use scalpel_cli.Common.{
  ℕ, Bool, true, false, not, ◌&&◌, ◌||◌, List, [], ◌∷◌, Option, none, some, if◌then◌else◌,
}
use scalpel_cli.Common.Text.{ends_with}

-- `url.URL`, with the fields that are read.
pub record Url : Type 0 where
  pub scheme : String
  pub host : String
  pub path : String
  pub raw_query : String
  pub fragment : String

-- net/url, path/filepath and the list of public suffixes; `hostname` is a host without its port,
-- `new_id` the identifiers of uuid in their order.
pub record Net : Type 0 where
  pub parse : String → Option Url
  pub resolve : Url → Url → Url
  pub hostname : String → String
  pub print : Url → String
  pub sort_query : String → String
  pub extension : String → String
  pub root_of : String → Option String
  pub new_id : ℕ → String

-- `BasicScopeManager`
pub record Scope : Type 0 where
  pub root_domain : String
  pub include_subdomains : Bool

abbrev scope_of : Bool → Option String → Option Scope
scope_of subs none = none
scope_of subs (some d) = some (record { root_domain = d; include_subdomains = subs })

-- `NewBasicScopeManager`, with none for its errors.
unfoldable pub new_scope : Net → String → Bool → Option Scope
new_scope net initial subs = elim (net.parse initial) [
  | none ↦ none
  | some u ↦
      if str_eq (net.hostname u.host) ""
      then none
      else scope_of subs (net.root_of (net.hostname u.host))
]

-- The test of `IsInScope`, on the host without its port.
unfoldable pub is_scoped : Scope → String → Bool
is_scoped s host =
    if str_eq host s.root_domain
    then true
    else s.include_subdomains && ends_with host (str_append "." s.root_domain)

abbrev pub is_in_scope : Net → Scope → Url → Bool
is_in_scope net s u = is_scoped s (net.hostname u.host)

abbrev resolved_by : Net → Option Url → Url → Option Url
resolved_by net none u = none
resolved_by net (some base) u = some (net.resolve base u)

-- A URL without a scheme takes it from its base, or https where it has a host and there is no base.
unfoldable pub absolute : Net → (base : String) → Url → Option Url
absolute net base u =
    if not (str_eq u.scheme "")
    then some u
    else if str_eq base ""
    then if str_eq u.host "" then none else some (record u { scheme = "https" })
    else resolved_by net (net.parse base) u

abbrev is_default_port : Url → Bool
is_default_port u =
    (str_eq u.scheme "http" && ends_with u.host ":80")
    || (str_eq u.scheme "https" && ends_with u.host ":443")

unfoldable pub is_ignored : String → Bool
is_ignored ext =
    str_eq ext ".css"
    || (str_eq ext ".png"
        || (str_eq ext ".jpg"
            || (str_eq ext ".jpeg"
                || (str_eq ext ".gif"
                    || (str_eq ext ".woff"
                        || (str_eq ext ".woff2"
                            || (str_eq ext ".ico"
                                || (str_eq ext ".svg"
                                    || (str_eq ext ".ttf" || str_eq ext ".eot")))))))))

-- The parts of a URL in their normal form.
unfoldable pub normal : Net → Url → Url
normal net u = record u {
  host = if is_default_port u then net.hostname u.host else u.host;
  path = if str_eq u.path "" then "/" else u.path;
  raw_query = if str_eq u.raw_query "" then "" else net.sort_query u.raw_query;
}

abbrev pub without_fragment : Url → Url
without_fragment u = record u { fragment = "" }

abbrev unless_ignored : Net → Url → Option Url
unless_ignored net u = if is_ignored (net.extension u.path) then none else some u

-- The tests after the URL is absolute.
unfoldable pub validated : Net → Scope → Url → Option Url
validated net s u =
    if str_eq u.scheme "http" || str_eq u.scheme "https"
    then if is_in_scope net s u then unless_ignored net (normal net u) else none
    else none

abbrev pub validated_if : Net → Scope → Option Url → Option Url
validated_if net s none = none
validated_if net s (some u) = validated net s (without_fragment u)

abbrev pub absolute_if : Net → String → Option Url → Option Url
absolute_if net base none = none
absolute_if net base (some u) = absolute net base u

-- `normalizeAndValidate`, with none for its errors.
unfoldable pub normalize_and_validate : Net → Scope → (raw base : String) → Option Url
normalize_and_validate net s raw base = validated_if net s (absolute_if net base (net.parse raw))
