-- ===== src/HttpClient/Requests.antt =====
-- addCookies, storeCookies, handleRedirect, doInternal and Do of pkg/customhttp/client.go.
pub mod Rounds
pub mod Ends
pub mod Pooling
use Prim.Native.String.{String, ◌++◌ as str_append}
use text.Mathlib.Text.{◌==◌ as str_eq}
use scalpel_cli.Common.{
  ℕ, zero, suc, ◌+◌, ◌*◌, Bool, true, false, not, ◌&&◌, ◌||◌, ◌⊎◌, inl, inr, List, [], ◌∷◌, ◌++◌,
  Option, none, some, ◌==◌, leb, if◌then◌else◌,
}
use scalpel_cli.HttpClient.Types.{
  Url, Cookie, HttpRequest, HttpResponse, ClientError, Net, header_get, header_set,
}
use scalpel_cli.HttpClient.Redirects.{is_redirect, prepare_next_request, ensure_body_replayable}
use scalpel_cli.HttpClient.Pools.{Pools}
use scalpel_cli.HttpClient.Retries.{RetryPolicy, Attempt}
use scalpel_cli.HttpClient.Retries.Loop.{Returned, Tried, execute_with_retries}
use scalpel_cli.HttpClient.Challenges.{Credentials, handle_authentication}

-- What `CheckRedirect` says: nil, `http.ErrUseLastResponse`, or another error.
pub data Verdict : Type 0 where
  follow use_last refuse : Verdict

-- The parts of `ClientConfig` that a request meets. A `MaxRedirects` below 0 acts as 0.
pub record Config : Type 0 where
  pub net : Net
  pub policy : RetryPolicy
  pub has_jar : Bool
  pub credentials : Option (String → String → Credentials)
  pub proxy_host : Option String
  pub check_redirect : Option (HttpRequest → List HttpRequest → Verdict)
  pub max_redirects : ℕ

unfoldable pub cookie_pair : Cookie → String
cookie_pair (name, value) = str_append name (str_append "=" value)

-- `strings.Join(pairs, "; ")`
unfoldable pub join : List String → String
join [] = ""
join (s ∷ []) = s
join (s ∷ t ∷ ss) = str_append s (str_append "; " (join (t ∷ ss)))

abbrev pairs : List Cookie → List String
pairs [] = []
pairs (c ∷ cs) = cookie_pair c ∷ pairs cs

-- The `Cookie` header, behind what is in it.
unfoldable pub cookie_header : String → List Cookie → String
cookie_header existing cookies =
    join (if str_eq existing "" then pairs cookies else existing ∷ pairs cookies)

abbrev with_cookies : HttpRequest → List Cookie → HttpRequest
with_cookies r [] = r
with_cookies r (c ∷ cs) = record r {
  header = header_set "Cookie" (cookie_header (header_get "Cookie" r.header) (c ∷ cs)) r.header;
}

unfoldable pub add_cookies : Config → Pools → HttpRequest → HttpRequest
add_cookies cfg p r = if cfg.has_jar then with_cookies r (cfg.net.cookies_of p.jar r.url) else r

abbrev pub set_cookies : Url → Pools → List Cookie → Pools
set_cookies u p [] = p
set_cookies u p (c ∷ cs) = record p { jar = p.jar ++ ((u, c ∷ cs) ∷ []) }

unfoldable pub store_cookies : Config → Url → HttpResponse → Pools → Pools
store_cookies cfg u resp p = if cfg.has_jar then set_cookies u p resp.cookies else p

-- What follows a response: the return, or another request.
pub data Move : Type 0 where
  gives : Returned → Move
  authenticates redirects : HttpRequest → Move

abbrev pub bounded : Config → (count : ℕ) → HttpRequest → Move
bounded cfg count next =
    if leb cfg.max_redirects count
    then gives (none, some (ClientError.too_many_redirects cfg.max_redirects))
    else redirects next

abbrev pub checked : Config → (count : ℕ) → HttpRequest → HttpResponse → Option Verdict → Move
checked cfg count next resp (some Verdict.use_last) = gives (some resp, none)
checked cfg count next resp (some Verdict.refuse) = gives (none, some ClientError.redirect_refused)
checked cfg count next resp _ = bounded cfg count next

abbrev pub verdict :
    Option (HttpRequest → List HttpRequest → Verdict)
    → HttpRequest
    → List HttpRequest
    → Option Verdict
verdict none next via = none
verdict (some check) next via = some (check next via)

abbrev pub prepared :
    Config → (count : ℕ) → List HttpRequest → HttpResponse → ClientError ⊎ HttpRequest → Move
prepared cfg count via resp (inl e) = gives (none, some e)
prepared cfg count via resp (inr next) =
    checked cfg count next resp (verdict cfg.check_redirect next via)

abbrev pub located :
    Config → (count : ℕ) → List HttpRequest → HttpRequest → HttpResponse → Option Url → Move
located cfg count via r resp none = gives (some resp, some ClientError.bad_location)
located cfg count via r resp (some u) =
    prepared cfg count via resp (prepare_next_request cfg.net r u resp.status)

-- `handleRedirect`; `via` ends in the request itself.
unfoldable pub handle_redirect :
    Config → (count : ℕ) → List HttpRequest → HttpRequest → HttpResponse → Move
handle_redirect cfg count via r resp =
    let location = header_get "Location" resp.header in
    if str_eq location ""
    then gives (some resp, some (ClientError.missing_location resp.status))
    else located cfg count via r resp (cfg.net.parse r.url location)

abbrev asked : Config → HttpRequest → HttpResponse → Option HttpRequest
asked cfg r resp = elim cfg.credentials [
  | none ↦ none
  | some credentials ↦
      if resp.status == 401 || resp.status == 407
      then handle_authentication cfg.net credentials cfg.proxy_host r resp
      else none
]

abbrev pub answered : (auth_attempted : Bool) → Move → Option HttpRequest → Move
answered false other (some next) = authenticates next
answered _ other _ = other

-- Steps 4 and 5 of `doInternal`.
unfoldable pub after_response :
    Config
    → (count : ℕ) → List HttpRequest
    → (auth_attempted : Bool) → HttpRequest
    → HttpResponse
    → Move
after_response cfg count via auth_attempted r resp =
    let other =
      if is_redirect resp.status
      then handle_redirect cfg count (via ++ (r ∷ [])) r resp
      else gives (some resp, none) in
    answered auth_attempted other (asked cfg r resp)
