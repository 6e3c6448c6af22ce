-- ===== src/HttpClient/Challenges.antt =====
-- handleAuthentication of pkg/customhttp/client.go: the challenges of a 401 or 407 response, and the
-- request that answers them.
pub mod Answers
use Prim.Native.Char.{Char, code}
use Prim.Native.String.{String, len, slice, ◌++◌ as str_append}
use text.Mathlib.Text.{◌==◌ as str_eq, starts_with, find?}
use scalpel_cli.Common.{
  ℕ, ◌+◌, Bool, true, false, ◌&&◌, ◌||◌, List, [], ◌∷◌, Option, none, some, ◌==◌, if◌then◌else◌,
}
use scalpel_cli.HttpClient.Types.{HttpRequest, HttpResponse, Net, header_values, header_set}

-- What `GetCredentials` gives: not found is its own error, and any other is `failed`.
pub data Credentials : Type 0 where
  found : (username password : String) → Credentials
  not_found failed : Credentials

-- A quote or a space.
abbrev is_trimmed : Char → Bool
is_trimmed c = code c == b'"' || code c == b' '

unfoldable pub trim_left : String → String
trim_left String.[] = ""
trim_left (String.◌∷◌ c s) = if is_trimmed c then trim_left s else String.◌∷◌ c s

unfoldable pub trim_right : String → String
trim_right String.[] = ""
trim_right (String.◌∷◌ c s) =
    let rest = trim_right s in if is_trimmed c && str_eq rest "" then "" else String.◌∷◌ c rest

-- `strings.Trim(s, "\" ")`
unfoldable pub trim : String → String
trim s = trim_left (trim_right s)

abbrev up_to : String → Option ℕ → String
up_to s none = s
up_to s (some i) = trim (slice s 0 i)

-- The realm, up to a comma.
unfoldable pub realm_value : String → String
realm_value text = let realm = trim text in up_to realm (find? realm ",")

abbrev after_key : String → Option ℕ → Option String
after_key challenge none = none
after_key challenge (some i) = some (realm_value (slice challenge (i + 6) (len challenge)))

-- A challenge of the scheme Basic with a realm.
unfoldable pub challenge_realm : Net → String → Option String
challenge_realm net challenge =
    if starts_with (net.lower challenge) "basic"
    then after_key challenge (find? challenge "realm=")
    else none

-- The loop over the challenges, up to its `break`; empty is none.
unfoldable pub basic_realm : Net → List String → String
basic_realm net [] = ""
basic_realm net (c ∷ cs) =
    let rest = basic_realm net cs in
    elim (challenge_realm net c) [ none ↦ rest | some realm ↦ realm ]

abbrev pub challenge_key : Bool → String
challenge_key true = "Proxy-Authenticate"
challenge_key false = "WWW-Authenticate"

abbrev pub answer_key : Bool → String
answer_key true = "Proxy-Authorization"
answer_key false = "Authorization"

-- The host that is asked about: the proxy's, if there is one.
abbrev pub challenger : Bool → Option String → HttpRequest → String
challenger true (some proxy) r = proxy
challenger _ _ r = r.url.host

abbrev pub answer : Net → Bool → HttpRequest → Credentials → Option HttpRequest
answer net is_proxy r (found username password) = some (record r {
  header =
      header_set (answer_key is_proxy) (str_append "Basic " (net.basic_auth username password))
        r.header;
})
answer net is_proxy r _ = none

-- `handleAuthentication`: the next request, where the challenge is handled. `GetCredentials` failing is
-- reported with handled false, which the caller takes for no challenge.
unfoldable pub handle_authentication :
    Net
    → (String → String → Credentials)
    → (proxy_host : Option String) → HttpRequest
    → HttpResponse
    → Option HttpRequest
handle_authentication net credentials proxy_host r resp =
    let is_proxy = resp.status == 407 in
    let realm = basic_realm net (header_values (challenge_key is_proxy) resp.header) in
    if str_eq realm ""
    then none
    else answer net is_proxy r (credentials (challenger is_proxy proxy_host r) realm)
