-- ===== src/HttpClient/Retries/Attempts.antt =====
-- How often a request is tried, and which protocols are tried again.
use scalpel_cli.Common.{
  ℕ, zero, suc, ◌+◌, ◌≡◌, ◌≤◌, ◌<◌, refl, sym, subst, ap, inl, inr, false, [], ◌∷◌, Option, none,
  some, arith, Option-cases, Bool-cases, length,
}
use native.Mathlib.Numerals.{add-one}
use scalpel_cli.Common.Int.{ℤ}
use scalpel_cli.HttpClient.Types.{HttpRequest, HttpResponse, ClientError, Net}
use scalpel_cli.HttpClient.Pools.{Pools}
use scalpel_cli.HttpClient.Retries.{
  RetryPolicy, Attempt, Outcome, try_h1, try_h2, execute_once, is_idempotent, should_retry,
}
use scalpel_cli.HttpClient.Retries.Loop.{
  Tried, one_more, stop_trying, fails_to_reset, cancelled, returned, wait_time, retry_loop,
  execute_with_retries,
}

-- Within the bound on the rounds that are left, the loop ends, and its rounds are within it.
abbrev Within : ℕ → Option Tried → Type 0
Within n o = (t : Tried) × (o ≡ some t) × (t.attempts ≤ n + 1) × (length t.waits ≤ n)

-- The end of a round that executed the request.
abbrev ended : Pools × Outcome → Tried
ended t = record { pools = t.0; result = returned t.1; attempts = 1; waits = [] }

module _ (net : Net) (policy : RetryPolicy) (env : ℕ → Attempt) (r : HttpRequest) where
  last_decision :
      (number : ℕ) (a : Attempt) (o : Outcome)
      → policy.max_retries ≤ number
      → should_retry net policy r a number o ≡ none
  unfolding should_retry
  last_decision number a o h = ground arith

  one_more-Within :
      (n : ℕ) (wait : ℤ) (o : Option Tried) → Within n o → Within (suc n) (one_more wait o)
  one_more-Within n wait o (t, e, s, w) = (
    record t { attempts = t.attempts + 1; waits = wait ∷ t.waits },
    rw e refl,
    omega (arith, s),
    omega (arith, w),
  )

  -- A round is within the bound if the rounds behind it are.
  round-Within :
      (fuel number : ℕ) (last : Option Outcome) (p : Pools)
      → ((asked : ℤ)
          → should_retry net policy r (env number) number (execute_once net (env number) r.url p).1
            ≡ some asked
          → Within fuel (
              one_more (wait_time net asked (number + 1)) (
                retry_loop fuel net policy env r
                  (number + 1)
                  (some (execute_once net (env number) r.url p).1)
                  (execute_once net (env number) r.url p).0)))
      → Within fuel (retry_loop (suc fuel) net policy env r number last p)
  unfolding retry_loop execute_once try_h2 try_h1
  round-Within fuel number last p again =
      let a = env number in
      let t = execute_once net a r.url p in
      elim (Bool-cases a.is_done) [
        | inl e ↦ (stop_trying p (cancelled last), rw e refl, omega arith, omega arith)
        | inr e ↦ elim (Bool-cases (fails_to_reset r)) [
          | inl f ↦ (
            stop_trying p (none, some ClientError.body_reset_failed),
            rw (f, e) refl,
            omega arith,
            omega arith,
          )
          | inr f ↦ elim (Option-cases (should_retry net policy r a number t.1)) [
            | inl g ↦ (ended t, rw (g, f, e) refl, omega arith, omega arith)
            | inr (asked, g) ↦ elim (Bool-cases a.is_done_in_wait) [
              | inl k ↦ (ended t, rw (g, k, f, e) refl, omega arith, omega arith)
              | inr k ↦ let (x, q, b, w) = again asked g in (x, rw (g, k, f, e) q, b, w)
            ]
          ]
        ]
      ]

  loop-Within :
      (fuel number : ℕ) (last : Option Outcome) (p : Pools)
      → policy.max_retries < number + suc fuel
      → Within fuel (retry_loop (suc fuel) net policy env r number last p)
  loop-Within zero number last p h = round-Within zero number last p λ asked g. absurd (
      let e =
        last_decision number (env number) (execute_once net (env number) r.url p).1
          (omega (arith, h)) in
      ground (arith, e, g))
  loop-Within (suc fuel) number last p h = round-Within (suc fuel) number last p λ asked g.
      one_more-Within fuel (wait_time net asked (number + 1)) _ (
        loop-Within fuel (number + 1) (some (execute_once net (env number) r.url p).1)
          (execute_once net (env number) r.url p).0 (omega (arith, h)))

  -- `executeWithRetries` ends, whatever its attempts come to: it tries the request at most once more than
  -- the policy's number of retries, and waits at most as often as that number.
  pub execute_with_retries_ends :
      (p : Pools)
      → (t : Tried) × (execute_with_retries net policy env r p ≡ some t)
        × (t.attempts ≤ policy.max_retries + 1)
        × (length t.waits ≤ policy.max_retries)
  unfolding execute_with_retries
  execute_with_retries_ends p =
      subst (λ n. Within policy.max_retries (retry_loop n net policy env r 0 none p))
        (sym (add-one policy.max_retries)) (loop-Within policy.max_retries 0 none p (omega arith))

  never :
      (a : Attempt) (o : Outcome) (resp : HttpResponse)
      → is_idempotent r.method ≡ false
      → o ≡ inr resp
      → should_retry net policy r a 0 o ≡ none
  unfolding should_retry
  never a o resp h e = rw e (ground (arith, h))

  -- A request whose method is not idempotent and that gets a response is not tried again, whatever the
  -- response says: where the context has not ended and the body can be read again, the first response is
  -- the result.
  pub not_idempotent_once :
      (p : Pools) (resp : HttpResponse)
      → is_idempotent r.method ≡ false
      → (env 0).is_done ≡ false
      → fails_to_reset r ≡ false
      → (execute_once net (env 0) r.url p).1 ≡ inr resp
      → execute_with_retries net policy env r p
        ≡ some (record {
          pools = (execute_once net (env 0) r.url p).0;
          result = (some resp, none);
          attempts = 1;
          waits = [];
        })
  unfolding execute_with_retries retry_loop execute_once try_h2 try_h1
  not_idempotent_once p resp h d f e = rw (add-one policy.max_retries) (
      rw (never (env 0) _ resp h e, f, d)
        (ap (λ (o : Outcome). some (ended ((execute_once net (env 0) r.url p).0, o))) e))
