-- ===== src/HttpClient/Requests/Ends.antt =====
-- How many requests `Do` makes.
use scalpel_cli.Common.{
  ℕ, zero, suc, ◌+◌, ◌*◌, ◌≡◌, ◌≤◌, ◌<◌, refl, sym, subst, inl, inr, ◌⊎◌, Bool, true, false, List,
  [], ◌∷◌, ◌++◌, Option, none, some, All, arith, Bool-cases, Sum-cases, leb, length, if◌then◌else◌,
}
use native.Mathlib.Nat.{suc-mul}
use scalpel_cli.HttpClient.Types.{HttpRequest, HttpResponse, ClientError, Url, header_get}
use scalpel_cli.HttpClient.Redirects.{is_redirect, prepare_next_request, ensure_body_replayable}
use scalpel_cli.HttpClient.Pools.{Pools}
use scalpel_cli.HttpClient.Retries.{Attempt}
use scalpel_cli.HttpClient.Retries.Loop.{Returned, Tried}
use scalpel_cli.HttpClient.Retries.Attempts.{execute_with_retries_ends}
use scalpel_cli.HttpClient.Requests.{
  Verdict, follow, use_last, refuse, Config, bounded, checked, verdict, prepared, located, answered,
  Move, gives, authenticates, redirects, add_cookies, handle_redirect, after_response,
}
use scalpel_cli.HttpClient.Requests.Rounds.{
  after_move, after_tried, made_first, total_attempts, done, replied, stored, Done, do_internal,
  do_request,
}

-- A redirect is followed only below the limit, and an answer is sent only where none was.
abbrev Allowed : (limit count : ℕ) → (auth_attempted : Bool) → Move → Type 0
Allowed limit count tried (gives result) = 0 ≤ 0
Allowed limit count tried (authenticates next) = tried ≡ false
Allowed limit count tried (redirects next) = count < limit

module _ (cfg : Config) (count : ℕ) (tried : Bool) where
  abbrev Fine : Move → Type 0
  Fine = Allowed cfg.max_redirects count tried

  bounded-Allowed : (next : HttpRequest) → Fine (bounded cfg count next)
  bounded-Allowed next = elim (Bool-cases (leb cfg.max_redirects count)) [
    | inl e ↦ rw e (omega arith)
    | inr e ↦ rw e (ground (arith, e))
  ]

  checked-Allowed :
      (next : HttpRequest) (resp : HttpResponse) (v : Option Verdict)
      → Fine (checked cfg count next resp v)
  checked-Allowed next resp none = bounded-Allowed next
  checked-Allowed next resp (some follow) = bounded-Allowed next
  checked-Allowed next resp (some use_last) = omega arith
  checked-Allowed next resp (some refuse) = omega arith

  prepared-Allowed :
      (via : List HttpRequest) (resp : HttpResponse) (next : ClientError ⊎ HttpRequest)
      → Fine (prepared cfg count via resp next)
  prepared-Allowed via resp (inl e) = omega arith
  prepared-Allowed via resp (inr next) =
      checked-Allowed next resp (verdict cfg.check_redirect next via)

  located-Allowed :
      (via : List HttpRequest) (r : HttpRequest) (resp : HttpResponse) (u : Option Url)
      → Fine (located cfg count via r resp u)
  located-Allowed via r resp none = omega arith
  located-Allowed via r resp (some u) =
      prepared-Allowed via resp (prepare_next_request cfg.net r u resp.status)

  if-Allowed : (b : Bool) (x y : Move) → Fine x → Fine y → Fine (if b then x else y)
  if-Allowed true x y f g = f
  if-Allowed false x y f g = g

  handle_redirect-Allowed :
      (via : List HttpRequest) (r : HttpRequest) (resp : HttpResponse)
      → Fine (handle_redirect cfg count via r resp)
  unfolding handle_redirect
  handle_redirect-Allowed via r resp =
      if-Allowed _ (gives (some resp, some (ClientError.missing_location resp.status))) _
        (omega arith)
        (located-Allowed via r resp (cfg.net.parse r.url (header_get "Location" resp.header)))

module _ (cfg : Config) (count : ℕ) where
  answered-Allowed :
      (tried : Bool) (other : Move) (next : Option HttpRequest)
      → Allowed cfg.max_redirects count tried other
      → Allowed cfg.max_redirects count tried (answered tried other next)
  answered-Allowed true other next h = h
  answered-Allowed false other none h = h
  answered-Allowed false other (some next) h = refl

  replied-Allowed :
      (via : List HttpRequest) (tried : Bool) (r : HttpRequest) (result : Returned)
      → Allowed cfg.max_redirects count tried (replied cfg count via tried r result)
  unfolding after_response
  replied-Allowed via tried r (some resp, none) = answered-Allowed tried _ _ (
      if-Allowed cfg count tried (is_redirect resp.status) _ (gives (some resp, none))
        (handle_redirect-Allowed cfg count tried (via ++ (r ∷ [])) r resp) (omega arith))
  replied-Allowed via tried r (some resp, some e) = omega arith
  replied-Allowed via tried r (none, e) = omega arith

-- The number of requests that can be made, with so many redirects behind them.
abbrev Left : (limit count : ℕ) → (auth_attempted : Bool) → ℕ → Type 0
Left limit count true n = (count ≤ limit) × (2 * limit + 1 ≤ n + 2 * count)
Left limit count false n = (count ≤ limit) × (2 * limit + 2 ≤ n + 2 * count)

module _ (cfg : Config) (env : ℕ → ℕ → Attempt) where
  -- A request is tried at most once more than there are retries.
  abbrev pub Bounded : HttpRequest × Tried → Type 0
  Bounded (r, t) = t.attempts ≤ cfg.policy.max_retries + 1

  -- It ends, within so many requests.
  abbrev Ends : ℕ → Option Done → Type 0
  Ends n o =
      (d : Done) × (o ≡ some d)
      × (length d.made ≤ n)
      × All Bounded d.made
      × (total_attempts d.made ≤ n * (cfg.policy.max_retries + 1))

  made_first-Ends :
      (n : ℕ) (r : HttpRequest) (t : Tried) (o : Option Done)
      → t.attempts ≤ cfg.policy.max_retries + 1
      → Ends n o
      → Ends (suc n) (made_first r t o)
  made_first-Ends n r t o s (d, e, l, b, m) = (
    record d { made = (r, t) ∷ d.made },
    rw e refl,
    omega (arith, l),
    (s, b),
    omega (arith, s, m, suc-mul n (cfg.policy.max_retries + 1)),
  )

  move-Ends :
      (fuel k count : ℕ) (via : List HttpRequest) (tried : Bool) (r : HttpRequest) (t : Tried)
      (p : Pools) (move : Move)
      → t.attempts ≤ cfg.policy.max_retries + 1
      → Allowed cfg.max_redirects count tried move
      → Left cfg.max_redirects count tried (suc fuel)
      → ((k' count' : ℕ) (via' : List HttpRequest) (tried' : Bool) (next : HttpRequest) (p' : Pools)
          → Left cfg.max_redirects count' tried' fuel
          → Ends fuel (do_internal fuel cfg env k' count' via' tried' next p'))
      → Ends (suc fuel) (after_move cfg r t p (do_internal fuel cfg env) k count via move)
  move-Ends fuel k count via tried r t p (gives result) s a b rest =
      made_first-Ends fuel r t _ s (done p result, refl, omega arith, tt, omega arith)
  move-Ends fuel k count via true r t p (authenticates next) s a b rest = absurd (ground (arith, a))
  move-Ends fuel k count via false r t p (authenticates next) s a b rest =
      made_first-Ends fuel r t _ s (rest (k + 1) count via true next p (b.0, omega (arith, b.1)))
  move-Ends fuel k count via true r t p (redirects next) s a b rest = made_first-Ends fuel r t _ s (
      rest (k + 1) (count + 1) (via ++ (r ∷ [])) false next p
        (omega (arith, a), omega (arith, b.1)))
  move-Ends fuel k count via false r t p (redirects next) s a b rest =
      made_first-Ends fuel r t _ s (
        rest (k + 1) (count + 1) (via ++ (r ∷ [])) false next p
          (omega (arith, a), omega (arith, b.1)))

  do_internal-Ends :
      (fuel k count : ℕ) (via : List HttpRequest) (tried : Bool) (req : HttpRequest) (p : Pools)
      → Left cfg.max_redirects count tried fuel
      → Ends fuel (do_internal fuel cfg env k count via tried req p)
  unfolding do_internal
  do_internal-Ends zero k count via true req p b = absurd (omega (arith, b.0, b.1))
  do_internal-Ends zero k count via false req p b = absurd (omega (arith, b.0, b.1))
  do_internal-Ends (suc fuel) k count via tried req p b =
      let r = add_cookies cfg p req in
      let (t, e, s, w) = execute_with_retries_ends cfg.net cfg.policy (env k) r p in
      subst
        (λ o. Ends (suc fuel) (after_tried cfg r (do_internal fuel cfg env) k count via tried o))
        (sym e)
        (move-Ends fuel k count via tried r t (stored cfg r.url t.pools t.result) _ s
          (replied-Allowed cfg count via tried r t.result) b
          (λ k' c' v' t' n' p' b'. do_internal-Ends fuel k' c' v' t' n' p' b'))

  -- Do ends, whatever its servers answer: it makes at most two requests more than twice the limit on
  -- redirects, and each of them is tried in at most one round more than the policy's number of
  -- retries, where a round is one pass through HTTP/3, HTTP/2 and HTTP/1 as they are tried in turn;
  -- the rounds of all of them are within the product of the two bounds.
  pub do_ends :
      (body : List ℕ × Bool) (r : HttpRequest) (p : Pools)
      → (d : Done) × (do_request cfg env body r p ≡ some d)
        × (length d.made ≤ 2 * (cfg.max_redirects + 1))
        × All Bounded d.made
        × (total_attempts d.made ≤ 2 * (cfg.max_redirects + 1) * (cfg.policy.max_retries + 1))
  unfolding do_request
  do_ends body r p = elim (Sum-cases (ensure_body_replayable body r)) [
    | inl (e, q) ↦ rw q (done p (none, some e), refl, omega arith, tt, omega arith)
    | inr (r', q) ↦ rw q (
        do_internal-Ends (2 * (cfg.max_redirects + 1)) 0 0 [] false r' p (omega arith, omega arith))
  ]
