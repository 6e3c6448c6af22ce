-- ===== src/HttpClient/Requests/Rounds.antt =====
-- doInternal and Do of pkg/customhttp/client.go: a request and those that follow it.
use scalpel_cli.Common.{
  ℕ, zero, suc, ◌+◌, ◌*◌, Bool, true, false, ◌⊎◌, inl, inr, List, [], ◌∷◌, ◌++◌, Option, none, some,
}
use scalpel_cli.HttpClient.Types.{Url, HttpRequest, ClientError}
use scalpel_cli.HttpClient.Redirects.{ensure_body_replayable}
use scalpel_cli.HttpClient.Pools.{Pools}
use scalpel_cli.HttpClient.Retries.{Attempt}
use scalpel_cli.HttpClient.Retries.Loop.{Returned, Tried, execute_with_retries}
use scalpel_cli.HttpClient.Requests.{
  Config, add_cookies, store_cookies, Move, after_response, gives, authenticates, redirects,
}

-- The rounds of all the requests that were made.
abbrev pub total_attempts : List (HttpRequest × Tried) → ℕ
total_attempts [] = 0
total_attempts ((r, t) ∷ ms) = t.attempts + total_attempts ms

-- What `Do` comes to: the pools, the result, and the requests that were made, each with its rounds.
pub record Done : Type 0 where
  pub pools : Pools
  pub result : Returned
  pub made : List (HttpRequest × Tried)

abbrev pub done : Pools → Returned → Done
done p result = record { pools = p; result = result; made = [] }

abbrev pub made_first : HttpRequest → Tried → Option Done → Option Done
made_first r t none = none
made_first r t (some d) = some (record d { made = (r, t) ∷ d.made })

-- What `executeWithRetries` gives, with the cookies of a response stored.
abbrev pub stored : Config → Url → Pools → Returned → Pools
stored cfg u p (some resp, none) = store_cookies cfg u resp p
stored cfg u p _ = p

abbrev pub replied :
    Config
    → (count : ℕ) → List HttpRequest
    → (auth_attempted : Bool) → HttpRequest
    → Returned
    → Move
replied cfg count via auth_attempted r (some resp, none) =
    after_response cfg count via auth_attempted r resp
replied cfg count via auth_attempted r (x, e) = gives (none, e)

-- What `doInternal` does next, where `rest` is its call of itself.
abbrev pub after_move :
    Config
    → HttpRequest
    → Tried
    → Pools
    → (rest : (k count : ℕ) → List HttpRequest → Bool → HttpRequest → Pools → Option Done)
    → (k count : ℕ) → List HttpRequest
    → Move
    → Option Done
after_move cfg r t p rest k count via (gives result) = made_first r t (some (done p result))
after_move cfg r t p rest k count via (authenticates next) =
    made_first r t (rest (k + 1) count via true next p)
after_move cfg r t p rest k count via (redirects next) =
    made_first r t (rest (k + 1) (count + 1) (via ++ (r ∷ [])) false next p)

abbrev pub after_tried :
    Config
    → HttpRequest
    → (rest : (k count : ℕ) → List HttpRequest → Bool → HttpRequest → Pools → Option Done)
    → (k count : ℕ) → List HttpRequest
    → (auth_attempted : Bool) → Option Tried
    → Option Done
after_tried cfg r rest k count via auth_attempted none = none
after_tried cfg r rest k count via auth_attempted (some t) =
    after_move cfg r t (stored cfg r.url t.pools t.result) rest k count via
      (replied cfg count via auth_attempted r t.result)

-- `doInternal`, for at most `fuel` requests; none is that the fuel ran out. `env` gives the attempts of
-- each request, and `k` is the number of the request.
unfoldable pub do_internal :
    (fuel : ℕ)
    → Config
    → (ℕ → ℕ → Attempt)
    → (k count : ℕ) → List HttpRequest
    → (auth_attempted : Bool) → HttpRequest
    → Pools
    → Option Done
do_internal zero cfg env k count via auth_attempted req p = none
do_internal (suc fuel) cfg env k count via auth_attempted req p =
    let r = add_cookies cfg p req in
    after_tried cfg r (do_internal fuel cfg env) k count via auth_attempted
      (execute_with_retries cfg.net cfg.policy (env k) r p)

abbrev pub start : Config → (ℕ → ℕ → Attempt) → Pools → ClientError ⊎ HttpRequest → Option Done
start cfg env p (inl e) = some (done p (none, some e))
start cfg env p (inr r) = do_internal (2 * (cfg.max_redirects + 1)) cfg env 0 0 [] false r p

-- `Do`; the bytes of the request's body are an argument, and whether its reader then fails.
unfoldable pub do_request :
    Config → (ℕ → ℕ → Attempt) → (List ℕ × Bool) → HttpRequest → Pools → Option Done
do_request cfg env body r p = start cfg env p (ensure_body_replayable body r)
