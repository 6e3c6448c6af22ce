-- ===== src/HttpClient/Types.antt =====
-- The data of pkg/customhttp/client.go: requests, responses, errors, and what it takes from other code.
use Prim.Native.String.{String}
use scalpel_cli.Common.{ℕ, Bool, List, [], ◌∷◌, Option, none, some}
use scalpel_cli.Common.Int.{ℤ}
use scalpel_cli.Common.Dict.{Dict, lookup, insert}
use scalpel_cli.Http2.Types.{BodySource}

-- `url.URL`, with the parts that its methods give, and its text.
pub record Url : Type 0 where
  pub scheme : String
  pub hostname : String
  pub port : String
  pub host : String
  pub text : String

abbrev pub Header : Type 0
Header = Dict (List String)

-- `http.Request`. A body of nil or `http.NoBody` is `has_body` false, and `body_source` is what `GetBody` gives.
pub record HttpRequest : Type 0 where
  pub method : String
  pub url : Url
  pub host : String
  pub header : Header
  pub has_body : Bool
  pub body_source : BodySource
  pub content_length : ℤ

-- A name and a value.
abbrev pub Cookie : Type 0
Cookie = String × String

pub record HttpResponse : Type 0 where
  pub status : ℕ
  pub header : Header
  pub cookies : List Cookie
  pub body : List ℕ

-- What the client asks of an error: the code of a reset (`some true` for REFUSED_STREAM), whether it is
-- a timeout, the operation of a `net.OpError` (empty for none), whether it is `io.EOF`, and its text.
pub record ExecError : Type 0 where
  pub reset : Option Bool
  pub is_timeout : Bool
  pub operation : String
  pub is_eof : Bool
  pub message : String

pub data ClientError : Type 0 where
  execution_failed : ExecError → ClientError
  context_done body_reset_failed bad_location bad_request redirect_refused : ClientError
  not_replayable body_too_large body_read_failed : ClientError
  missing_location too_many_redirects : ℕ → ClientError

-- net/url, net/http, strings and encoding/base64. `date_wait` is the time until a date that
-- `http.ParseTime` reads, 0 for none and for the past, and `backoff` the result of `calculateBackoff`.
pub record Net : Type 0 where
  pub lower : String → String
  pub contains : String → String → Bool
  pub parse : Url → String → Option Url
  pub is_valid_request : String → Url → Bool
  pub referer : Url → String
  pub date_wait : String → ℕ
  pub backoff : ℕ → ℕ
  pub basic_auth : String → String → String
  pub cookies_of : List (Url × List Cookie) → Url → List Cookie

abbrev first_value : Option (List String) → String
first_value none = ""
first_value (some []) = ""
first_value (some (v ∷ vs)) = v

-- `Header.Get`, `Header.Values` and `Header.Set`, for a key in canonical form.
unfoldable pub header_get : String → Header → String
header_get k h = first_value (lookup k h)

abbrev or_no_values : Option (List String) → List String
or_no_values none = []
or_no_values (some vs) = vs

unfoldable pub header_values : String → Header → List String
header_values k h = or_no_values (lookup k h)

unfoldable pub header_set : String → String → Header → Header
header_set k v h = insert k (v ∷ []) h
