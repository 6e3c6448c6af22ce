-- ===== src/HttpClient/Requests/Pooling.antt =====
-- The pools of connections through a whole request.
use Prim.Native.String.{String}
use scalpel_cli.Common.{
  ℕ, zero, suc, ◌+◌, ◌*◌, ◌≡◌, subst, Bool, true, false, ◌⊎◌, inl, inr, List, [], ◌∷◌, ◌++◌, Option,
  none, some, if◌then◌else◌,
}
use scalpel_cli.Common.Int.{ℤ}
use scalpel_cli.HttpClient.Types.{HttpRequest, ClientError, Net, Url, Cookie}
use scalpel_cli.HttpClient.Redirects.{ensure_body_replayable}
use scalpel_cli.HttpClient.Pools.{Protocol, h1, h2, h3, Pools, should_attempt_h2, should_attempt_h3}
use scalpel_cli.HttpClient.Pools.Conservation.{held, Conserved, Step-Conserved, gets, closes}
use scalpel_cli.HttpClient.Retries.{
  RetryPolicy, Call, Attempt, Outcome, execute, try_h1, try_h2, execute_once,
  is_negotiation_failure, after_h1, after_h2, after_h3, should_retry,
}
use scalpel_cli.HttpClient.Retries.Loop.{
  Returned, Tried, one_more, wait_time, fails_to_reset, after_decision, retry_loop,
  execute_with_retries,
}
use scalpel_cli.HttpClient.Requests.{
  Config, Move, gives, authenticates, redirects, add_cookies, store_cookies, set_cookies,
}
use scalpel_cli.HttpClient.Requests.Rounds.{
  replied, stored, made_first, after_move, after_tried, Done, start, do_internal, do_request,
}

if-keeps : {A : Type 0} (P : A → Type 0) (b : Bool) (x y : A) → P x → P y → P (if b then x else y)
if-keeps P true x y f g = f
if-keeps P false x y f g = g

abbrev Kept : Pools × Outcome → Type 0
Kept t = Conserved t.0

execute-Kept :
    (proto : Protocol) (c : Call) (host : String) (p : Pools)
    → Conserved p
    → Kept (execute proto c host p)
unfolding execute
execute-Kept proto c host p v = Step-Conserved (gets proto c.is_made host p) v

after_h1-Kept : (host : String) (t : Pools × Outcome) → Kept t → Kept (after_h1 host t)
after_h1-Kept host (p, inl e) v = Step-Conserved (closes h1 host p) v
after_h1-Kept host (p, inr r) v = v

try_h1-Kept : (a : Attempt) (u : Url) (p : Pools) → Conserved p → Kept (try_h1 a u p)
unfolding try_h1
try_h1-Kept a u p v = after_h1-Kept u.host _ (execute-Kept h1 a.on_h1 u.host p v)

module _ (net : Net) where
  after_h2-Kept : (a : Attempt) (u : Url) (t : Pools × Outcome) → Kept t → Kept (after_h2 net a u t)
  unfolding held
  after_h2-Kept a u (p, inl e) v =
      if-keeps Kept (is_negotiation_failure net e) _ _
        (try_h1-Kept a u (record p { h2_unsupported = u.host ∷ p.h2_unsupported }) v)
        (Step-Conserved (closes h2 u.host p) v)
  after_h2-Kept a u (p, inr r) v = v

  try_h2-Kept : (a : Attempt) (u : Url) (p : Pools) → Conserved p → Kept (try_h2 net a u p)
  unfolding try_h2
  try_h2-Kept a u p v =
      if-keeps Kept (should_attempt_h2 u p) _ _
        (after_h2-Kept a u _ (execute-Kept h2 a.on_h2 u.host p v)) (try_h1-Kept a u p v)

  after_h3-Kept : (a : Attempt) (u : Url) (t : Pools × Outcome) → Kept t → Kept (after_h3 net a u t)
  unfolding held
  after_h3-Kept a u (p, inl e) v = try_h2-Kept a u _ (
      Step-Conserved (closes h3 u.host (record p { h3_unsupported = u.host ∷ p.h3_unsupported })) v)
  after_h3-Kept a u (p, inr r) v = v

  execute_once-Kept :
      (a : Attempt) (u : Url) (p : Pools) → Conserved p → Kept (execute_once net a u p)
  unfolding execute_once
  execute_once-Kept a u p v =
      if-keeps Kept (should_attempt_h3 u p) _ _
        (after_h3-Kept a u _ (execute-Kept h3 a.on_h3 u.host p v)) (try_h2-Kept a u p v)

-- Of what a computation gives, if it gives anything.
abbrev OnSome : {A : Type 0} → (A → Type 0) → Option A → Type 0
OnSome P none = Unit
OnSome P (some a) = P a

abbrev TriedKept : Option Tried → Type 0
TriedKept = OnSome (λ t. Conserved t.pools)

one_more-Kept : (w : ℤ) (o : Option Tried) → TriedKept o → TriedKept (one_more w o)
one_more-Kept w none v = tt
one_more-Kept w (some t) v = v

after_decision-Kept :
    (net : Net) (a : Attempt) (number : ℕ) (p : Pools) (outcome : Outcome) (again : Option Tried)
    (d : Option ℤ)
    → Conserved p
    → TriedKept again
    → TriedKept (after_decision net a number p outcome again d)
after_decision-Kept net a number p outcome again none v w = v
after_decision-Kept net a number p outcome again (some asked) v w =
    if-keeps TriedKept a.is_done_in_wait _ _ v
      (one_more-Kept (wait_time net asked (number + 1)) again w)

retry_loop-Kept :
    (fuel : ℕ) (net : Net) (policy : RetryPolicy) (env : ℕ → Attempt) (r : HttpRequest) (number : ℕ)
    (last : Option Outcome) (p : Pools)
    → Conserved p
    → TriedKept (retry_loop fuel net policy env r number last p)
unfolding retry_loop
retry_loop-Kept zero net policy env r number last p v = tt
retry_loop-Kept (suc fuel) net policy env r number last p v =
    let a = env number in
    let (p', outcome) = execute_once net a r.url p in
    let v' = execute_once-Kept net a r.url p v in
    if-keeps TriedKept a.is_done _ _ v (
      if-keeps TriedKept (fails_to_reset r) _ _ v (
        after_decision-Kept net a number p' outcome _ (should_retry net policy r a number outcome)
          v' (retry_loop-Kept fuel net policy env r (number + 1) (some outcome) p' v')))

abbrev DoneKept : Option Done → Type 0
DoneKept = OnSome (λ d. Conserved d.pools)

made_first-Kept :
    (r : HttpRequest) (t : Tried) (o : Option Done) → DoneKept o → DoneKept (made_first r t o)
made_first-Kept r t none v = tt
made_first-Kept r t (some d) v = v

set_cookies-Kept :
    (u : Url) (p : Pools) (cs : List Cookie) → Conserved p → Conserved (set_cookies u p cs)
unfolding held
set_cookies-Kept u p [] v = v
set_cookies-Kept u p (c ∷ cs) v = v

module _ (cfg : Config) (env : ℕ → ℕ → Attempt) where
  stored-Kept :
      (u : Url) (p : Pools) (result : Returned) → Conserved p → Conserved (stored cfg u p result)
  unfolding store_cookies
  stored-Kept u p (some resp, none) v =
      if-keeps Conserved cfg.has_jar _ _ (set_cookies-Kept u p resp.cookies v) v
  stored-Kept u p (some resp, some e) v = v
  stored-Kept u p (none, e) v = v

  after_move-Kept :
      (r : HttpRequest) (t : Tried) (p : Pools)
      (rest : (k count : ℕ) → List HttpRequest → Bool → HttpRequest → Pools → Option Done)
      (k count : ℕ) (via : List HttpRequest) (move : Move)
      → ((k' count' : ℕ) (via' : List HttpRequest) (tried : Bool) (next : HttpRequest)
          → DoneKept (rest k' count' via' tried next p))
      → Conserved p
      → DoneKept (after_move cfg r t p rest k count via move)
  after_move-Kept r t p rest k count via (gives result) f v = v
  after_move-Kept r t p rest k count via (authenticates next) f v =
      made_first-Kept r t _ (f (k + 1) count via true next)
  after_move-Kept r t p rest k count via (redirects next) f v =
      made_first-Kept r t _ (f (k + 1) (count + 1) (via ++ (r ∷ [])) false next)

  after_tried-Kept :
      (r : HttpRequest)
      (rest : (k count : ℕ) → List HttpRequest → Bool → HttpRequest → Pools → Option Done)
      (k count : ℕ) (via : List HttpRequest) (tried : Bool) (o : Option Tried)
      → ((k' count' : ℕ) (via' : List HttpRequest) (tried' : Bool) (next : HttpRequest) (p : Pools)
          → Conserved p
          → DoneKept (rest k' count' via' tried' next p))
      → TriedKept o
      → DoneKept (after_tried cfg r rest k count via tried o)
  after_tried-Kept r rest k count via tried none f v = tt
  after_tried-Kept r rest k count via tried (some t) f v =
      let v' = stored-Kept r.url t.pools t.result v in
      after_move-Kept r t (stored cfg r.url t.pools t.result) rest k count via
        (replied cfg count via tried r t.result)
        (λ k' c' w t' n. f k' c' w t' n (stored cfg r.url t.pools t.result) v') v'

  do_internal-Kept :
      (fuel k count : ℕ) (via : List HttpRequest) (tried : Bool) (req : HttpRequest) (p : Pools)
      → Conserved p
      → DoneKept (do_internal fuel cfg env k count via tried req p)
  unfolding do_internal execute_with_retries
  do_internal-Kept zero k count via tried req p v = tt
  do_internal-Kept (suc fuel) k count via tried req p v =
      let r = add_cookies cfg p req in
      after_tried-Kept r (do_internal fuel cfg env) k count via tried
        (execute_with_retries cfg.net cfg.policy (env k) r p)
        (λ k' c' w t' n p' v'. do_internal-Kept fuel k' c' w t' n p' v')
        (retry_loop-Kept (cfg.policy.max_retries + 1) cfg.net cfg.policy (env k) r 0 none p v)

  start-Kept :
      (p : Pools) (o : ClientError ⊎ HttpRequest) → Conserved p → DoneKept (start cfg env p o)
  start-Kept p (inl e) v = v
  start-Kept p (inr r) v = do_internal-Kept (2 * (cfg.max_redirects + 1)) 0 0 [] false r p v

  -- A request, with all its retries, fallbacks between protocols, answers to challenges and redirects,
  -- leaves the pools as it must find them: each client that was made stands under exactly one host of
  -- one protocol, or was closed exactly once.
  pub do_request-Conserved :
      (body : List ℕ × Bool) (r : HttpRequest) (p : Pools) (d : Done)
      → Conserved p
      → do_request cfg env body r p ≡ some d
      → Conserved d.pools
  unfolding do_request
  do_request-Conserved body r p d v e =
      subst DoneKept e (start-Kept p (ensure_body_replayable body r) v)
