-- ===== src/HttpClient/Retries/Loop.antt =====
-- The loop of executeWithRetries of pkg/customhttp/client.go.
use scalpel_cli.Common.{
  ℕ, zero, suc, ◌+◌, Bool, true, false, ◌&&◌, inl, inr, List, [], ◌∷◌, Option, none, some,
  if◌then◌else◌,
}
use scalpel_cli.Common.Int.{ℤ, pos}
use scalpel_cli.Http2.Types.{get_body_error}
use scalpel_cli.Http2.Flow.{is_zero}
use scalpel_cli.HttpClient.Types.{HttpRequest, HttpResponse, ClientError, Net}
use scalpel_cli.HttpClient.Pools.{Pools}
use scalpel_cli.HttpClient.Retries.{execute_once, RetryPolicy, Attempt, Outcome, should_retry}

-- The pair that `executeWithRetries` returns.
abbrev pub Returned : Type 0
Returned = Option HttpResponse × Option ClientError

abbrev pub returned : Outcome → Returned
returned (inl e) = (none, some (ClientError.execution_failed e))
returned (inr r) = (some r, none)

-- The return of a loop round that finds the context ended, with the last outcome if there is one.
abbrev pub cancelled : Option Outcome → Returned
cancelled (some (inl e)) = (none, some (ClientError.execution_failed e))
cancelled _ = (none, some ClientError.context_done)

-- The return of the wait that the context ends: the response counts here.
abbrev pub cancelled_waiting : Outcome → Returned
cancelled_waiting outcome = returned outcome

-- The wait before the next round.
unfoldable pub wait_time : Net → ℤ → (number : ℕ) → ℤ
wait_time net asked number = if is_zero asked then pos (net.backoff number) else asked

-- What the loop comes to: the pools, the result, the rounds that executed the request, and the waits. A
-- round may send the request over HTTP/3, and, where that fails, over HTTP/2 and then HTTP/1.
pub record Tried : Type 0 where
  pub pools : Pools
  pub result : Returned
  pub attempts : ℕ
  pub waits : List ℤ

abbrev pub stop_trying : Pools → Returned → Tried
stop_trying p r = record { pools = p; result = r; attempts = 0; waits = [] }

abbrev pub one_more : ℤ → Option Tried → Option Tried
one_more wait none = none
one_more wait (some t) = some (record t { attempts = t.attempts + 1; waits = wait ∷ t.waits })

abbrev pub fails_to_reset : HttpRequest → Bool
fails_to_reset r = r.has_body && elim r.body_source [ get_body_error ↦ true | _ ↦ false ]

-- The end of a round that executed the request, with the loop behind it.
abbrev pub after_decision :
    Net
    → Attempt
    → (number : ℕ) → Pools
    → Outcome
    → (again : Option Tried) → Option ℤ
    → Option Tried
after_decision net a number p outcome again none =
    some (record { pools = p; result = returned outcome; attempts = 1; waits = [] })
after_decision net a number p outcome again (some asked) =
    if a.is_done_in_wait
    then some (record { pools = p; result = cancelled_waiting outcome; attempts = 1; waits = [] })
    else one_more (wait_time net asked (number + 1)) again

-- The loop of `executeWithRetries`, for at most `fuel` rounds; none is that the fuel ran out.
unfoldable pub retry_loop :
    (fuel : ℕ)
    → Net
    → RetryPolicy
    → (ℕ → Attempt)
    → HttpRequest
    → (number : ℕ) → Option Outcome
    → Pools
    → Option Tried
retry_loop zero net policy env r number last p = none
retry_loop (suc fuel) net policy env r number last p =
    let a = env number in
    let (p', outcome) = execute_once net a r.url p in
    let again = retry_loop fuel net policy env r (number + 1) (some outcome) p' in
    if a.is_done
    then some (stop_trying p (cancelled last))
    else if fails_to_reset r
    then some (stop_trying p (none, some ClientError.body_reset_failed))
    else after_decision net a number p' outcome again (should_retry net policy r a number outcome)

unfoldable pub execute_with_retries :
    Net → RetryPolicy → (ℕ → Attempt) → HttpRequest → Pools → Option Tried
execute_with_retries net policy env r p =
    retry_loop (policy.max_retries + 1) net policy env r 0 none p
