-- ===== src/HttpClient/Challenges/Answers.antt =====
-- What the answer to a challenge changes.
use Prim.Native.String.{String, ◌++◌ as str_append}
use text.Mathlib.Text.{◌==◌ as str_eq, starts_with}
use scalpel_cli.Common.{◌≡◌, ◌≢◌, List, ◌∷◌, ◌++◌, true, Option, none, some, ◌==◌}
use scalpel_cli.HttpClient.Types.{HttpRequest, Net, header_get, header_values}
use scalpel_cli.HttpClient.Challenges.{Credentials, found, challenge_realm}

-- The realm of one of the challenges, of the scheme Basic.
abbrev pub IsOffered : Net → (challenges : List String) → (realm : String) → Type 0
IsOffered net challenges realm =
    (before : List String) × (challenge : String) × (after : List String) × (challenges
      ≡ before ++ challenge ∷ after)
    × (starts_with (net.lower challenge) "basic" ≡ true)
    × (challenge_realm net challenge ≡ some realm)

-- What a request that answers one of these challenges of a host is.
abbrev pub IsAnswer :
    Net
    → (String → String → Credentials)
    → (host : String) → (challenges : List String) → (key : String) → (r next : HttpRequest)
    → Type 0
IsAnswer net credentials host challenges key r next =
    (realm : String) × (username : String) × (password : String) × IsOffered net challenges realm
    × (realm ≢ "")
    × (credentials host realm ≡ found username password)
    × (header_get key next.header ≡ str_append "Basic " (net.basic_auth username password))
    × ((k : String) → k ≢ key → header_values k next.header ≡ header_values k r.header)
    × (next ≡ record r { header = next.header })

-- The proxy's host, if there is one.
abbrev pub proxy_or : String → Option String → String
proxy_or host none = host
proxy_or host (some proxy) = proxy
