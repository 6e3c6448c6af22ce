-- ===== src/HttpClient/Retries/Dropped.antt =====
-- Which clients a failed attempt of executeWithRetries of pkg/customhttp/client.go leaves.
use Prim.Native.String.{String}
use text.Mathlib.Text.{◌==◌ as str_eq}
use text.Mathlib.TextEquality.{eq_iff}
use scalpel_cli.Common.{
  ℕ, ◌≡◌, ◌⊎◌, ◌∙◌, inl, inr, refl, ap, subst, sym, true, false, [], ◌∷◌, none, arith, Bool-cases,
  Option-cases,
}
use scalpel_cli.Common.Dict.{Dict, lookup, Distinct, insert-Distinct}
use scalpel_cli.HttpClient.Types.{ExecError, Net, Url}
use scalpel_cli.HttpClient.Pools.{
  Protocol, h1, h2, h3, Pools, clients, set_clients, get_client, delete_key, drop_client,
  close_client, is_listed, should_attempt_h2, should_attempt_h3,
}
use scalpel_cli.HttpClient.Retries.{
  Call, Attempt, Outcome, execute, is_negotiation_failure, try_h1, try_h2, after_h1, after_h2,
  after_h3, execute_once,
}

-- No map has a host twice.
abbrev pub OneEach : Pools → Type 0
OneEach p = (proto : Protocol) → Distinct (clients proto p)

lookup-delete_key : (k : String) (d : Dict ℕ) → Distinct d → lookup k (delete_key k d) ≡ none
unfolding lookup delete_key
lookup-delete_key k [] h = refl
lookup-delete_key k ((j, c) ∷ d) h = elim (Bool-cases (str_eq j k)) [
  | inl e ↦ rw (e) (subst (λ x. lookup x d ≡ none) ((eq_iff j k).0 e) h.0)
  | inr e ↦ rw (e, e) (lookup-delete_key k d h.1)
]

clients-set :
    (proto : Protocol) (d : Dict ℕ) (p : Pools) → clients proto (set_clients proto d p) ≡ d
clients-set h1 d p = refl
clients-set h2 d p = refl
clients-set h3 d p = refl

clients-drop_client :
    (proto : Protocol) (host : String) (c : ℕ) (p : Pools)
    → clients proto (drop_client proto host c p) ≡ delete_key host (clients proto p)
unfolding drop_client
clients-drop_client h1 host c p = refl
clients-drop_client h2 host c p = refl
clients-drop_client h3 host c p = refl

-- A host whose client was closed has none.
closed_gone :
    (proto : Protocol) (host : String) (p : Pools)
    → Distinct (clients proto p)
    → lookup host (clients proto (close_client proto host p)) ≡ none
unfolding close_client
closed_gone proto host p h = elim (Option-cases (lookup host (clients proto p))) [
  | inl e ↦ rw (e, close_client) e
  | inr (c, e) ↦
      rw (e, close_client)
        (rw (clients-drop_client proto host c p) (lookup-delete_key host (clients proto p) h))
]

clients-made :
    (proto : Protocol) (n : ℕ) (d : Dict ℕ) (p : Pools)
    → clients proto (record (set_clients proto d p) { made = n }) ≡ d
clients-made h1 n d p = refl
clients-made h2 n d p = refl
clients-made h3 n d p = refl

executed-Distinct :
    (proto : Protocol) (call : Call) (host : String) (p : Pools)
    → Distinct (clients proto p)
    → Distinct (clients proto (execute proto call host p).0)
unfolding execute get_client
executed-Distinct proto call host p h = elim (Option-cases (lookup host (clients proto p))) [
  | inr (c, e) ↦ rw (e, get_client) h
  | inl e ↦ elim (Bool-cases call.is_made) [
    | inr m ↦ rw (e, get_client, m) h
    | inl m ↦
        rw (e, get_client, m)
          (rw (clients-made proto _ _ p) (insert-Distinct host p.made (clients proto p) h))
  ]
]

-- What an attempt over one protocol leaves of the others.
abbrev SameH1 : Pools → Pools → Type 0
SameH1 p q = q.h1_clients ≡ p.h1_clients

abbrev SameH2 : Pools → Pools → Type 0
SameH2 p q = q.h2_unsupported ≡ p.h2_unsupported

abbrev SameH3 : Pools → Pools → Type 0
SameH3 p q = (q.h3_clients ≡ p.h3_clients) × (q.h3_unsupported ≡ p.h3_unsupported)

execute_h1_same :
    (call : Call) (host : String) (p : Pools)
    → SameH2 p (execute h1 call host p).0 × SameH3 p (execute h1 call host p).0
unfolding execute get_client
execute_h1_same call host p = ground arith

execute_h2_same :
    (call : Call) (host : String) (p : Pools)
    → SameH1 p (execute h2 call host p).0
      × SameH2 p (execute h2 call host p).0
      × SameH3 p (execute h2 call host p).0
unfolding execute get_client
execute_h2_same call host p = ground arith

execute_h3_same :
    (call : Call) (host : String) (p : Pools)
    → SameH1 p (execute h3 call host p).0 × ((execute h3 call host p).0.h2_clients ≡ p.h2_clients)
unfolding execute get_client
execute_h3_same call host p = ground arith

close_h1_same :
    (host : String) (p : Pools)
    → SameH2 p (close_client h1 host p) × SameH3 p (close_client h1 host p)
unfolding close_client drop_client
close_h1_same host p = ground arith

close_h2_same :
    (host : String) (p : Pools)
    → SameH2 p (close_client h2 host p) × SameH3 p (close_client h2 host p)
unfolding close_client drop_client
close_h2_same host p = ground arith

close_h3_same :
    (host : String) (p : Pools)
    → SameH1 p (close_client h3 host p)
      × ((close_client h3 host p).h2_clients ≡ p.h2_clients)
      × ((close_client h3 host p).h3_unsupported ≡ p.h3_unsupported)
unfolding close_client drop_client
close_h3_same host p = ground arith

after_h1_same :
    (host : String) (t : Pools × Outcome)
    → SameH2 t.0 (after_h1 host t).0 × SameH3 t.0 (after_h1 host t).0
after_h1_same host (p, inl e) = close_h1_same host p
after_h1_same host (p, inr r) = (refl, (refl, refl))

try_h1_same :
    (a : Attempt) (u : Url) (p : Pools) → SameH2 p (try_h1 a u p).0 × SameH3 p (try_h1 a u p).0
unfolding try_h1
try_h1_same a u p =
    let (x, (y, z)) = execute_h1_same a.on_h1 u.host p in
    let (x', (y', z')) = after_h1_same u.host (execute h1 a.on_h1 u.host p) in
    (x' ∙ x, (y' ∙ y, z' ∙ z))

attempt_h2_same :
    (u : Url) (p q : Pools) → SameH2 p q → should_attempt_h2 u q ≡ should_attempt_h2 u p
unfolding should_attempt_h2
attempt_h2_same u p q h = rw h refl

attempt_h3_same :
    (u : Url) (p q : Pools)
    → q.h3_unsupported ≡ p.h3_unsupported
    → should_attempt_h3 u q ≡ should_attempt_h3 u p
unfolding should_attempt_h3
attempt_h3_same u p q h = rw h refl

-- The host has no client of the protocol that the failure was of: HTTP/2 where that is still tried for
-- the host, and else HTTP/1.
abbrev pub LastGone : Url → Pools → Type 0
LastGone u p =
    ((should_attempt_h2 u p ≡ true) × (lookup u.host p.h2_clients ≡ none))
    ⊎ ((should_attempt_h2 u p ≡ false) × (lookup u.host p.h1_clients ≡ none))

after_h1_gone :
    (host : String) (t : Pools × Outcome) (e : ExecError)
    → Distinct t.0.h1_clients
    → (after_h1 host t).1 ≡ inl e
    → lookup host (after_h1 host t).0.h1_clients ≡ none
after_h1_gone host (p, inl x) e d h = closed_gone h1 host p d
after_h1_gone host (p, inr r) e d h = absurd (ground (arith, h))

-- Where HTTP/2 is not tried for the host, a failed attempt over HTTP/1 leaves no client of it.
try_h1-LastGone :
    (a : Attempt) (u : Url) (p : Pools) (e : ExecError)
    → Distinct p.h1_clients
    → should_attempt_h2 u p ≡ false
    → (try_h1 a u p).1 ≡ inl e
    → LastGone u (try_h1 a u p).0
unfolding try_h1
try_h1-LastGone a u p e d n h = inr (
  attempt_h2_same u p (try_h1 a u p).0 (try_h1_same a u p).0 ∙ n,
  after_h1_gone u.host (execute h1 a.on_h1 u.host p) e (executed-Distinct h1 a.on_h1 u.host p d) h,
)

listed_not_attempted :
    (u : Url) (p : Pools)
    → should_attempt_h2 u (record p { h2_unsupported = u.host ∷ p.h2_unsupported }) ≡ false
unfolding should_attempt_h2 is_listed
listed_not_attempted u p = ground (arith, eq_iff u.host u.host)

listed_not_attempted_h3 :
    (u : Url) (p : Pools)
    → should_attempt_h3 u (record p { h3_unsupported = u.host ∷ p.h3_unsupported }) ≡ false
unfolding should_attempt_h3 is_listed
listed_not_attempted_h3 u p = ground (arith, eq_iff u.host u.host)

-- HTTP/3 is not tried for the host again, and where it was tried, its client is gone.
abbrev pub GivenUp : Url → Pools → Pools → Type 0
GivenUp u p q =
    (should_attempt_h3 u q ≡ false)
    × ((should_attempt_h3 u p ≡ false) ⊎ (lookup u.host q.h3_clients ≡ none))

module _ (net : Net) (a : Attempt) (u : Url) where
  after_h2-LastGone :
      (t : Pools × Outcome) (e : ExecError)
      → Distinct t.0.h1_clients
      → Distinct t.0.h2_clients
      → should_attempt_h2 u t.0 ≡ true
      → (after_h2 net a u t).1 ≡ inl e
      → LastGone u (after_h2 net a u t).0
  after_h2-LastGone (p, inr r) e d1 d2 n h = absurd (ground (arith, h))
  after_h2-LastGone (p, inl x) e d1 d2 n h = elim (Bool-cases (is_negotiation_failure net x)) [
    | inl f ↦ rw (f) (
        try_h1-LastGone a u (record p { h2_unsupported = u.host ∷ p.h2_unsupported }) e d1
          (listed_not_attempted u p) (rw f at h))
    | inr f ↦ rw (f) (
        inl (
          attempt_h2_same u p (close_client h2 u.host p) (close_h2_same u.host p).0 ∙ n,
          closed_gone h2 u.host p d2,
        ))
  ]

  try_h2-LastGone :
      (p : Pools) (e : ExecError)
      → Distinct p.h1_clients
      → Distinct p.h2_clients
      → (try_h2 net a u p).1 ≡ inl e
      → LastGone u (try_h2 net a u p).0
  unfolding try_h2
  try_h2-LastGone p e d1 d2 h = elim (Bool-cases (should_attempt_h2 u p)) [
    | inl n ↦
        let (x, y, z) = execute_h2_same a.on_h2 u.host p in
        rw (n, try_h2)
          (after_h2-LastGone (execute h2 a.on_h2 u.host p) e (subst (λ m. Distinct m) (sym x) d1)
            (executed-Distinct h2 a.on_h2 u.host p d2)
            (attempt_h2_same u p (execute h2 a.on_h2 u.host p).0 y ∙ n) (rw (n) at h))
    | inr n ↦ rw (n, try_h2) (try_h1-LastGone a u p e d1 n (rw (n) at h))
  ]

  after_h2_same : (t : Pools × Outcome) → SameH3 t.0 (after_h2 net a u t).0
  after_h2_same (p, inr r) = (refl, refl)
  after_h2_same (p, inl x) = elim (Bool-cases (is_negotiation_failure net x)) [
    | inl f ↦ rw (f) (try_h1_same a u (record p { h2_unsupported = u.host ∷ p.h2_unsupported })).1
    | inr f ↦ rw (f) (close_h2_same u.host p).1
  ]

  try_h2_same : (p : Pools) → SameH3 p (try_h2 net a u p).0
  unfolding try_h2
  try_h2_same p = elim (Bool-cases (should_attempt_h2 u p)) [
    | inl n ↦
        let (x, y, z) = execute_h2_same a.on_h2 u.host p in
        let w = after_h2_same (execute h2 a.on_h2 u.host p) in rw (n, try_h2) (w.0 ∙ z.0, w.1 ∙ z.1)
    | inr n ↦ rw (n, try_h2) (try_h1_same a u p).1
  ]

  abbrev Failed : Pools → Pools → Type 0
  Failed p q = GivenUp u p q × LastGone u q

  after_h3-Failed :
      (p : Pools) (t : Pools × Outcome) (e : ExecError)
      → Distinct t.0.h1_clients
      → Distinct t.0.h2_clients
      → Distinct t.0.h3_clients
      → (after_h3 net a u t).1 ≡ inl e
      → Failed p (after_h3 net a u t).0
  after_h3-Failed p (q, inr r) e d1 d2 d3 h = absurd (ground (arith, h))
  after_h3-Failed p (q, inl x) e d1 d2 d3 h =
      let marked : Pools = record q { h3_unsupported = u.host ∷ q.h3_unsupported } in
      let closed = close_client h3 u.host marked in
      let (s1, s2, s3) = close_h3_same u.host marked in
      let (w1, w2) = try_h2_same closed in
      (
        (
          attempt_h3_same u marked (try_h2 net a u closed).0 (w2 ∙ s3)
              ∙ listed_not_attempted_h3 u q,
          inr (ap (λ m. lookup u.host m) w1 ∙ closed_gone h3 u.host marked d3),
        ),
        try_h2-LastGone closed e (subst (λ m. Distinct m) (sym s1) d1)
            (subst (λ m. Distinct m) (sym s2) d2) h,
      )

  over_h3 :
      (p : Pools)
      → should_attempt_h3 u p ≡ true
      → execute_once net a u p ≡ after_h3 net a u (execute h3 a.on_h3 u.host p)
  unfolding execute_once
  over_h3 p n = rw n refl

  over_h2 : (p : Pools) → should_attempt_h3 u p ≡ false → execute_once net a u p ≡ try_h2 net a u p
  unfolding execute_once
  over_h2 p n = rw n refl

  -- Where no pool has a host twice, an attempt of executeWithRetries that ends with an error leaves
  -- HTTP/3 given up for the host, with no HTTP/3 client of it where that was tried, and no client of
  -- the protocol that failed last: HTTP/2 where that is still to be tried for the host, and else
  -- HTTP/1.
  pub failed_attempt_drops :
      (p : Pools) (e : ExecError)
      → OneEach p
      → (execute_once net a u p).1 ≡ inl e
      → GivenUp u p (execute_once net a u p).0 × LastGone u (execute_once net a u p).0
  failed_attempt_drops p e d h = elim (Bool-cases (should_attempt_h3 u p)) [
    | inl n ↦
        let (s1, s2) = execute_h3_same a.on_h3 u.host p in
        let o = over_h3 p n in
        subst (λ t. Failed p t.0) (sym o)
          (after_h3-Failed p (execute h3 a.on_h3 u.host p) e
            (subst (λ m. Distinct m) (sym s1) (d h1)) (subst (λ m. Distinct m) (sym s2) (d h2))
            (executed-Distinct h3 a.on_h3 u.host p (d h3)) (sym (ap (λ t. t.1) o) ∙ h))
    | inr n ↦
        let o = over_h2 p n in
        subst (λ t. Failed p t.0) (sym o)
          (
            (attempt_h3_same u p (try_h2 net a u p).0 (try_h2_same p).1 ∙ n, inl n),
            try_h2-LastGone p e (d h1) (d h2) (sym (ap (λ t. t.1) o) ∙ h),
          )
  ]
