-- ===== src/HttpClient/Redirects.antt =====
-- isRedirect, isSameOrigin, prepareNextRequest and ensureBodyReplayable of pkg/customhttp/client.go.
pub mod Safety
use Prim.Native.String.{String}
use text.Mathlib.Text.{◌==◌ as str_eq}
use scalpel_cli.Common.{
  ℕ, Bool, true, false, not, ◌&&◌, ◌||◌, ◌⊎◌, inl, inr, List, [], ◌∷◌, ◌++◌, Option, none, some,
  ltb, ◌==◌, if◌then◌else◌, length,
}
use scalpel_cli.Common.Int.{ℤ, pos, ltb_ℤ}
use scalpel_cli.Http2.Types.{BodySource, no_get_body, get_body_error, reads}
use scalpel_cli.Http2.Flow.{is_zero}
use scalpel_cli.Http2.Calls.{lacks_get_body}
use scalpel_cli.HttpClient.Types.{Url, Header, HttpRequest, ClientError, Net, header_set}

unfoldable pub is_redirect : ℕ → Bool
is_redirect s = s == 301 || (s == 302 || (s == 303 || (s == 307 || s == 308)))

unfoldable pub effective_port : Url → String
effective_port u =
    if str_eq u.port ""
    then if str_eq u.scheme "https" then "443" else if str_eq u.scheme "http" then "80" else ""
    else u.port

-- A nil URL has no origin.
unfoldable pub is_same_origin : Option Url → Option Url → Bool
is_same_origin none v = false
is_same_origin (some u) none = false
is_same_origin (some u) (some v) =
    str_eq u.scheme v.scheme
    && (str_eq u.hostname v.hostname && str_eq (effective_port u) (effective_port v))

abbrev pub NextBody : Type 0
NextBody = String × BodySource × ℤ

-- 303: GET without a body, but HEAD stays.
abbrev see_other : HttpRequest → NextBody
see_other r = (if str_eq r.method "HEAD" then r.method else "GET", no_get_body, pos 0)

-- 301 and 302: only GET and HEAD keep their method and their length.
abbrev found : HttpRequest → NextBody
found r =
    if not (str_eq r.method "GET") && not (str_eq r.method "HEAD")
    then ("GET", no_get_body, pos 0)
    else (r.method, no_get_body, r.content_length)

-- 307 and 308 keep the method, and take `GetBody` over.
abbrev same_method : HttpRequest → ClientError ⊎ NextBody
same_method r =
    if not (lacks_get_body r.body_source)
    then inr (r.method, r.body_source, r.content_length)
    else if r.has_body && not (is_zero r.content_length)
    then inl ClientError.not_replayable
    else inr (r.method, no_get_body, r.content_length)

-- The `switch` of `prepareNextRequest`.
unfoldable pub next_body : ℕ → HttpRequest → ClientError ⊎ NextBody
next_body status r =
    if status == 303
    then inr (see_other r)
    else if status == 302 || status == 301
    then inr (found r)
    else if status == 307 || status == 308
    then same_method r
    else inr (r.method, no_get_body, r.content_length)

unfoldable pub copy_headers : (String → Bool) → Header → Header
copy_headers keep [] = []
copy_headers keep ((k, vs) ∷ h) =
    let rest = copy_headers keep h in if keep k then (k, vs) ∷ rest else rest

module _ (net : Net) where
  -- The `continue`s of the loop over the headers.
  unfoldable pub keeps_header :
      (method : String) (no_body cross_origin : Bool) (key : String) → Bool
  keeps_header method no_body cross_origin key =
      let k = net.lower key in
      not (str_eq k "host" || (str_eq k "content-length" || str_eq k "cookie"))
      && (not (str_eq k "content-type" && (str_eq method "GET" && no_body))
          && not (cross_origin && (str_eq k "authorization" || str_eq k "proxy-authorization")))

  -- Not from https to http.
  unfoldable pub add_referer : HttpRequest → Url → Header → Header
  add_referer r next h =
      if str_eq r.url.scheme "https" && str_eq next.scheme "http"
      then h
      else header_set "Referer" (net.referer r.url) h

  -- The new request is made with a nil body.
  unfoldable pub with_body : HttpRequest → Url → NextBody → HttpRequest
  with_body r next (method, source, content_length) = record {
    method = method;
    url = next;
    host = next.host;
    header = add_referer r next (
        copy_headers
          (keeps_header method (lacks_get_body source)
            (not (is_same_origin (some r.url) (some next))))
          r.header);
    has_body = false;
    body_source = source;
    content_length = content_length;
  }

  abbrev make_request : HttpRequest → Url → ClientError ⊎ NextBody → ClientError ⊎ HttpRequest
  make_request r next (inl e) = inl e
  make_request r next (inr (method, source, content_length)) =
      if net.is_valid_request method next
      then inr (with_body r next (method, source, content_length))
      else inl ClientError.bad_request

  unfoldable pub prepare_next_request : HttpRequest → Url → ℕ → ClientError ⊎ HttpRequest
  prepare_next_request r next status = make_request r next (next_body status r)

abbrev pub max_replayable_body_bytes : ℕ
max_replayable_body_bytes = 2097152

-- The body is read once, at most one byte past the limit, and kept.
abbrev keep_body : HttpRequest → (List ℕ × Bool) → ClientError ⊎ HttpRequest
keep_body r (bytes, fails) =
    if fails && not (ltb max_replayable_body_bytes (length bytes))
    then inl ClientError.body_read_failed
    else if ltb max_replayable_body_bytes (length bytes)
    then inl ClientError.body_too_large
    else inr (record r {
      has_body = true;
      body_source = reads bytes false;
      content_length = pos (length bytes);
    })

-- `ensureBodyReplayable`; the body's bytes are an argument, and whether its reader then
-- fails.
unfoldable pub ensure_body_replayable : (List ℕ × Bool) → HttpRequest → ClientError ⊎ HttpRequest
ensure_body_replayable body r =
    if not r.has_body
    then inr r
    else if not (lacks_get_body r.body_source)
    then inr r
    else if ltb_ℤ (pos max_replayable_body_bytes) r.content_length
    then inl ClientError.body_too_large
    else keep_body r body
