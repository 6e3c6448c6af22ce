-- ===== src/HttpClient/Tests/Requests.antt =====
-- A small client with retries, challenges and redirects, and what its requests come to.
use scalpel_cli.Common.{
  ℕ, ◌*◌, ◌≡◌, ◌≤◌, All, refl, inl, inr, true, false, [], ◌∷◌, Option, none, some, length, zero,
  suc,
}
use scalpel_cli.Common.Int.{negsuc}
use scalpel_cli.Common.Dict.{insert, lookup}
use scalpel_cli.HttpClient.Types.{
  HttpRequest, HttpResponse, ExecError, header_get, header_set, header_values,
}
use scalpel_cli.HttpClient.Redirects.{
  is_redirect, ensure_body_replayable, is_same_origin, effective_port, next_body, with_body,
  copy_headers, keeps_header, add_referer, prepare_next_request,
}
use scalpel_cli.HttpClient.Pools.{
  h1, h2, h3, should_attempt_h2, close_client, drop_client, delete_key, no_pools, get_client,
  should_attempt_h3, is_listed,
}
use scalpel_cli.HttpClient.Retries.{
  RetryPolicy, Call, Attempt, wrap_int64, try_h2, is_negotiation_failure, execute_once, execute,
  should_retry, is_idempotent, retry_after,
}
use scalpel_cli.HttpClient.Retries.Loop.{retry_loop, wait_time, execute_with_retries}
use scalpel_cli.HttpClient.Challenges.{
  found, trim, trim_left, trim_right, basic_realm, challenge_realm, realm_value,
  handle_authentication,
}
use scalpel_cli.HttpClient.Requests.{
  Config, cookie_header, cookie_pair, join, store_cookies, after_response, handle_redirect,
  add_cookies,
}
use scalpel_cli.HttpClient.Requests.Rounds.{Done, total_attempts, do_internal, do_request}
use scalpel_cli.HttpClient.Requests.Ends.{Bounded, do_ends}
use scalpel_cli.HttpClient.Retries.Dropped.{OneEach, GivenUp, LastGone, failed_attempt_drops}
use scalpel_cli.HttpClient.Tests.{here_url, net, get, rounds}

abbrev policy : RetryPolicy
policy = record { max_retries = 2; is_retryable = λ status. true }

abbrev no_error : ExecError
no_error = record { reset = none; is_timeout = true; operation = ""; is_eof = false; message = "" }

abbrev replies : HttpResponse → Call
replies resp = record { is_made = true; result = inr resp; make_error = no_error }

abbrev attempt : HttpResponse → Attempt
attempt resp = record {
  is_done = false;
  on_h3 = replies resp;
  on_h2 = replies resp;
  on_h1 = replies resp;
  is_done_at_decision = false;
  is_done_in_wait = false;
}

abbrev unauthorized : HttpResponse
unauthorized = record {
  status = 401;
  header = ("WWW-Authenticate", "basic realm=\"x\", charset" ∷ []) ∷ [];
  cookies = [];
  body = [];
}

abbrev found_there : HttpResponse
found_there = record {
  status = 302;
  header = ("Location", "https://b.com/" ∷ []) ∷ [];
  cookies = ("s", "1") ∷ [];
  body = [];
}

abbrev unavailable : HttpResponse
unavailable = record { status = 503; header = []; cookies = []; body = [] }

abbrev fine : HttpResponse
fine = record { status = 200; header = []; cookies = []; body = 1 ∷ [] }

post_is_not_idempotent : is_idempotent "POST" ≡ false
unfolding is_idempotent
post_is_not_idempotent = refl

post_is_unavailable : (execute_once net (attempt unavailable) here_url no_pools).1 ≡ inr unavailable
unfolding execute_once execute should_attempt_h3 is_listed get_client lookup no_pools
post_is_unavailable = refl

-- A GET is sent three times under the same policy.
get_is_retried :
    rounds (execute_with_retries net policy (λ n. attempt unavailable) get no_pools) ≡ 3
unfolding execute_with_retries retry_loop execute_once execute should_attempt_h3 is_listed
    get_client lookup insert no_pools should_retry is_idempotent retry_after header_get wait_time
get_is_retried = refl

-- The first request is challenged, its answer redirected, and that served.
abbrev world : ℕ → ℕ → Attempt
world zero n = attempt unauthorized
world (suc zero) n = attempt found_there
world (suc (suc k)) n = attempt fine

abbrev config : Config
config = record {
  net = net;
  policy = policy;
  has_jar = true;
  credentials = some (λ host realm. found "u" realm);
  proxy_host = none;
  check_redirect = none;
  max_redirects = 1;
}

abbrev requests : Option Done → ℕ
requests none = 0
requests (some d) = length d.made

three_requests : requests (do_request config world ([], false) get no_pools) ≡ 3
unfolding do_request ensure_body_replayable do_internal add_cookies store_cookies cookie_header
    cookie_pair join after_response handle_redirect handle_authentication basic_realm
    challenge_realm realm_value trim trim_left trim_right is_redirect prepare_next_request next_body
    with_body copy_headers keeps_header add_referer is_same_origin effective_port
    execute_with_retries retry_loop execute_once execute should_attempt_h3 is_listed get_client
    lookup insert no_pools should_retry is_idempotent retry_after header_get header_values
    header_set wait_time
three_requests = refl

do_ends_example :
    (d : Done) × (do_request config world ([], false) get no_pools ≡ some d)
    × (length d.made ≤ 4)
    × All (Bounded config world) d.made
    × (total_attempts d.made ≤ 12)
do_ends_example = do_ends config world ([], false) get no_pools

-- A client that speaks HTTP/2 and fails.
abbrev broken : Call
broken = record { is_made = true; result = inl no_error; make_error = no_error }

abbrev broken_attempt : Attempt
broken_attempt = record (attempt fine) { on_h3 = broken; on_h2 = broken }

one_each : OneEach no_pools
unfolding no_pools
one_each h1 = tt
one_each h2 = tt
one_each h3 = tt

it_fails : (execute_once net broken_attempt here_url no_pools).1 ≡ inl no_error
unfolding execute_once try_h2 execute should_attempt_h3 should_attempt_h2 is_listed get_client
    close_client drop_client delete_key is_negotiation_failure lookup insert no_pools
it_fails = refl

failed_attempt_drops_example :
    GivenUp here_url no_pools (execute_once net broken_attempt here_url no_pools).0
    × LastGone here_url (execute_once net broken_attempt here_url no_pools).0
failed_attempt_drops_example =
    failed_attempt_drops net broken_attempt here_url no_pools no_error one_each it_fails

abbrev authorized : HttpRequest
authorized = record get {
  header = ("Authorization", "Basic dTpw" ∷ []) ∷ ("Accept", "*/*" ∷ []) ∷ [];
}

-- A realm ends at a comma, and its quotes and spaces are dropped.
realm_of_a_list : realm_value " \"x y\", charset" ≡ "x y"
unfolding realm_value trim trim_left trim_right
realm_of_a_list = refl

-- The answer to a challenge has the cookies of the jar twice, since `addCookies` adds them to both requests.
cookies_twice :
    header_get "Cookie" (add_cookies config no_pools (add_cookies config no_pools get)).header
    ≡ "s=1; s=1"
unfolding add_cookies cookie_header cookie_pair join header_get header_set lookup insert
cookies_twice = refl

-- A wait of ten thousand million seconds leaves int64, and is negative.
long_wait : wrap_int64 (10000000000 * 1000000000) ≡ negsuc 8446744073709551615
unfolding wrap_int64
long_wait = refl
