-- ===== src/HttpClient/Tests.antt =====
-- A small client, and what its operations do.
mod Requests
use Prim.Native.String.{String}
use text.Mathlib.Text.{◌==◌ as str_eq}
use text.Mathlib.TextEquality.{eq_iff}
use scalpel_cli.Common.{
  ℕ, ◌*◌, ◌≡◌, ◌≤◌, ◌↔◌, ◌≢◌, refl, ap, inl, inr, true, false, [], ◌∷◌, Option, none, some, length,
  zero, suc, arith, if◌then◌else◌,
}
use scalpel_cli.Common.Int.{pos, negsuc}
use scalpel_cli.Common.Dict.{insert, lookup}
use scalpel_cli.Http2.Types.{no_get_body, reads, ok}
use scalpel_cli.Http2.Calls.{read_body}
use scalpel_cli.HttpClient.Types.{
  Url, HttpRequest, HttpResponse, ExecError, Net, header_get, header_set, header_values,
}
use scalpel_cli.HttpClient.Redirects.{
  is_redirect, ensure_body_replayable, is_same_origin, effective_port, next_body, with_body,
  copy_headers, keeps_header, add_referer, prepare_next_request,
}
use scalpel_cli.HttpClient.Redirects.Safety.{
  origin, is_same_origin_iff, AllKeys, IsPublic, redirect-IsPublic, redirected_body_lost,
}
use scalpel_cli.HttpClient.Pools.{
  no_pools, h2, get_client, should_attempt_h3, is_listed, close_client,
}
use scalpel_cli.HttpClient.Pools.Conservation.{
  Conserved, here, next, gets, closes, reachable-Conserved,
}
use scalpel_cli.HttpClient.Retries.{
  RetryPolicy, Call, Attempt, wrap_int64, execute_once, execute, should_retry, is_idempotent,
  retry_after,
}
use scalpel_cli.HttpClient.Retries.Loop.{Tried, retry_loop, wait_time, execute_with_retries}
use scalpel_cli.HttpClient.Retries.Attempts.{not_idempotent_once}
use scalpel_cli.HttpClient.Challenges.{
  found, trim, trim_left, trim_right, basic_realm, challenge_realm, realm_value,
  handle_authentication,
}
use scalpel_cli.HttpClient.Challenges.Answers.{IsAnswer}
use scalpel_cli.HttpClient.Requests.{
  Config, cookie_header, cookie_pair, join, store_cookies, after_response, handle_redirect,
  add_cookies,
}
use scalpel_cli.HttpClient.Requests.Rounds.{Done, total_attempts, do_internal, do_request}
use scalpel_cli.HttpClient.Requests.Ends.{do_ends}
use scalpel_cli.HttpClient.Requests.Pooling.{do_request-Conserved}

abbrev here_url : Url
here_url = record {
  scheme = "https";
  hostname = "a.com";
  port = "";
  host = "a.com";
  text = "https://a.com/";
}

abbrev there_url : Url
there_url = record {
  scheme = "https";
  hostname = "b.com";
  port = "";
  host = "b.com";
  text = "https://b.com/";
}

abbrev here_port_url : Url
here_port_url = record {
  scheme = "https";
  hostname = "a.com";
  port = "443";
  host = "a.com:443";
  text = "https://a.com:443/";
}

-- The two header names that the tests use, in lower case.
abbrev lower_case : String → String
lower_case s =
    if str_eq s "Authorization"
    then "authorization"
    else if str_eq s "Referer"
    then "referer"
    else s

abbrev net : Net
net = record {
  lower = lower_case;
  contains = λ s t. false;
  parse = λ base s. some there_url;
  is_valid_request = λ m u. true;
  referer = λ u. u.text;
  date_wait = λ s. 0;
  backoff = λ n. n;
  basic_auth = λ u p. "dTpw";
  cookies_of = λ jar u. ("s", "1") ∷ [];
}

abbrev get : HttpRequest
get = record {
  method = "GET";
  url = here_url;
  host = "a.com";
  header = ("Authorization", "secret" ∷ []) ∷ ("Accept", "*/*" ∷ []) ∷ [];
  has_body = false;
  body_source = no_get_body;
  content_length = pos 0;
}

abbrev rounds : Option Tried → ℕ
rounds none = 0
rounds (some t) = t.attempts

abbrev post : HttpRequest
post = record get {
  method = "POST";
  has_body = true;
  body_source = reads (7 ∷ 8 ∷ []) false;
  content_length = pos 2;
}

-- The request that follows a redirect to the other host.
abbrev redirected : HttpRequest → HttpRequest
redirected r = record r {
  url = there_url;
  host = "b.com";
  header = ("Accept", "*/*" ∷ []) ∷ ("Referer", "https://a.com/" ∷ []) ∷ [];
  has_body = false;
}

is_redirected : prepare_next_request net get there_url 302 ≡ inr (redirected get)
unfolding prepare_next_request next_body with_body copy_headers keeps_header add_referer header_set
    insert is_same_origin effective_port
is_redirected = refl

post_is_redirected : prepare_next_request net post there_url 307 ≡ inr (redirected post)
unfolding prepare_next_request next_body with_body copy_headers keeps_header add_referer header_set
    insert is_same_origin effective_port
post_is_redirected = refl

other_origin : origin here_url ≢ origin there_url
unfolding effective_port
other_origin e =
    let n : str_eq "a.com" "b.com" ≡ false = refl in
    let f : "a.com" ≡ "b.com" = ap (λ (o : String × String × String). o.1) e in
    ground (arith, f, n, eq_iff "a.com" "b.com")

redirect-IsPublic_example : AllKeys (IsPublic net) (redirected get).header
redirect-IsPublic_example =
    redirect-IsPublic net get (redirected get) there_url 302 refl other_origin is_redirected

reachable-Conserved_example :
    Conserved (close_client h2 "a.com" (get_client h2 true "a.com" no_pools).0)
reachable-Conserved_example = reachable-Conserved (
    next (next here (gets h2 true "a.com" no_pools))
      (closes h2 "a.com" (get_client h2 true "a.com" no_pools).0))
