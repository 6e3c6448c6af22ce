-- ===== src/HttpClient/Retries.antt =====
-- executeWithRetries and shouldRetry of pkg/customhttp/client.go. What the connections, the clock and the
-- context do in an attempt is an argument.
pub mod Loop
pub mod Attempts
pub mod Dropped
use Prim.Native.String.{String}
use text.Mathlib.Text.{◌==◌ as str_eq}
use scalpel_cli.Common.{
  ℕ, zero, suc, ◌+◌, ◌*◌, ◌%◌, Bool, true, false, not, ◌&&◌, ◌||◌, ◌⊎◌, inl, inr, List, [], ◌∷◌,
  Option, none, some, ltb, leb, ◌==◌, if◌then◌else◌,
}
use scalpel_cli.Common.Int.{ℤ, pos, negsuc, sub_ℕ}
use scalpel_cli.Common.Text.{atoi}
use scalpel_cli.Http2.Types.{get_body_error, max_int64}
use scalpel_cli.Http2.Flow.{is_zero}
use scalpel_cli.HttpClient.Types.{
  HttpRequest, HttpResponse, ExecError, ClientError, Net, Header, header_get, Url,
}
use scalpel_cli.HttpClient.Pools.{
  Protocol, h1, h2, h3, Pools, get_client, close_client, should_attempt_h2, should_attempt_h3,
}

-- `RetryPolicy`; a number of retries below 0 acts as 0.
pub record RetryPolicy : Type 0 where
  pub max_retries : ℕ
  pub is_retryable : ℕ → Bool

-- What a call of one of the three clients gives, and whether the client could be made if there is none.
pub record Call : Type 0 where
  pub is_made : Bool
  pub result : ExecError ⊎ HttpResponse
  pub make_error : ExecError

-- One round: whether the context has ended at the start, at the decision, and in the wait.
pub record Attempt : Type 0 where
  pub is_done : Bool
  pub on_h3 : Call
  pub on_h2 : Call
  pub on_h1 : Call
  pub is_done_at_decision : Bool
  pub is_done_in_wait : Bool

abbrev pub Outcome : Type 0
Outcome = ExecError ⊎ HttpResponse

-- `executeH1` and its like.
abbrev pub call_result : Call → Option ℕ → Outcome
call_result call none = inl call.make_error
call_result call (some c) = call.result

unfoldable pub execute : Protocol → Call → String → Pools → Pools × Outcome
execute proto call host p =
    let (p', c) = get_client proto call.is_made host p in (p', call_result call c)

-- A product of two int64 numbers, not below 0, in int64.
unfoldable pub wrap_int64 : ℕ → ℤ
wrap_int64 n =
    let m = n % 18446744073709551616 in
    if leb m max_int64 then pos m else sub_ℕ m 18446744073709551616

-- The two texts of a failed negotiation.
unfoldable pub is_negotiation_failure : Net → ExecError → Bool
is_negotiation_failure net e =
    net.contains e.message "did not negotiate HTTP/2"
    || net.contains e.message "tls: no application protocol"

abbrev pub after_h1 : String → Pools × Outcome → Pools × Outcome
after_h1 host (p, inl e) = (close_client h1 host p, inl e)
after_h1 host (p, inr r) = (p, inr r)

unfoldable pub try_h1 : Attempt → Url → Pools → Pools × Outcome
try_h1 a u p = after_h1 u.host (execute h1 a.on_h1 u.host p)

module _ (net : Net) where
  abbrev pub after_h2 : Attempt → Url → Pools × Outcome → Pools × Outcome
  after_h2 a u (p, inl e) =
      if is_negotiation_failure net e
      then try_h1 a u (record p { h2_unsupported = u.host ∷ p.h2_unsupported })
      else (close_client h2 u.host p, inl e)
  after_h2 a u (p, inr r) = (p, inr r)

  -- HTTP/2, with HTTP/1 behind it.
  unfoldable pub try_h2 : Attempt → Url → Pools → Pools × Outcome
  try_h2 a u p =
      if should_attempt_h2 u p then after_h2 a u (execute h2 a.on_h2 u.host p) else try_h1 a u p

  abbrev pub after_h3 : Attempt → Url → Pools × Outcome → Pools × Outcome
  after_h3 a u (p, inl e) =
      try_h2 a u (close_client h3 u.host (record p { h3_unsupported = u.host ∷ p.h3_unsupported }))
  after_h3 a u (p, inr r) = (p, inr r)

  -- One attempt: HTTP/3 first, which is given up for the host where it fails.
  unfoldable pub execute_once : Attempt → Url → Pools → Pools × Outcome
  execute_once a u p =
      if should_attempt_h3 u p then after_h3 a u (execute h3 a.on_h3 u.host p) else try_h2 a u p

  -- Seconds above 0 are a `time.Duration` in int64, and any other text is read as a date.
  abbrev seconds_or_date : String → Option ℤ → ℤ
  seconds_or_date v (some (pos (suc n))) = wrap_int64 (suc n * 1000000000)
  seconds_or_date v _ = pos (net.date_wait v)

  -- Retry-After; 0 is none.
  abbrev retry_after_wait : String → ℤ
  retry_after_wait v = if str_eq v "" then pos 0 else seconds_or_date v (atoi v)

  unfoldable pub retry_after : HttpResponse → ℤ
  retry_after r =
      if r.status == 429 || r.status == 503
      then retry_after_wait (header_get "Retry-After" r.header)
      else pos 0

  abbrev is_closed_text : String → Bool
  is_closed_text m =
      net.contains m "unexpected EOF"
      || (net.contains m "connection closed unexpectedly" || net.contains m "connection closed")

  -- The part of `shouldRetry` for an error: a reset is decided first.
  unfoldable pub is_transient : ExecError → Bool
  is_transient e = elim e.reset [
    | some refused ↦ refused
    | none ↦
        e.is_timeout
        || ((str_eq e.operation "dial" || (str_eq e.operation "read" || str_eq e.operation "write"))
            || (e.is_eof || is_closed_text e.message))
  ]

unfoldable pub is_idempotent : String → Bool
is_idempotent m =
    str_eq m "GET"
    || (str_eq m "HEAD"
        || (str_eq m "OPTIONS" || (str_eq m "TRACE" || (str_eq m "PUT" || str_eq m "DELETE"))))

abbrev retry_outcome : Net → RetryPolicy → HttpRequest → Outcome → Option ℤ
retry_outcome net policy r (inl e) = if is_transient net e then some (pos 0) else none
retry_outcome net policy r (inr resp) =
    if is_idempotent r.method && policy.is_retryable resp.status
    then some (retry_after net resp)
    else none

-- `shouldRetry`: none is no, and else the wait that the server asks for (0 for none).
unfoldable pub should_retry :
    Net → RetryPolicy → HttpRequest → Attempt → (number : ℕ) → Outcome → Option ℤ
should_retry net policy r a number outcome =
    if leb policy.max_retries number
    then none
    else if a.is_done_at_decision
    then none
    else retry_outcome net policy r outcome
