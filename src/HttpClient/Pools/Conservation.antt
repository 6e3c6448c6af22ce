-- ===== src/HttpClient/Pools/Conservation.antt =====
-- No client is lost, shared between hosts, or closed twice.
use Prim.Native.String.{String}
use scalpel_cli.Common.{
  ℕ, suc, ◌+◌, ◌≡◌, ◌∙◌, refl, ap, inl, inr, Bool, List, [], ◌∷◌, ◌++◌, none, some, arith,
  Option-cases, Bool-cases, ltb, ◌==◌, if◌then◌else◌,
}
use scalpel_cli.Common.Dict.{Dict, lookup, insert}
use scalpel_cli.HttpClient.Pools.{
  Protocol, h1, h2, h3, Pools, no_pools, clients, set_clients, get_client, delete_key, drop_client,
  close_client, ClientRef, evict, values, close_all,
}

-- How often a client stands in a list.
unfoldable pub times : ℕ → List ℕ → ℕ
times c [] = 0
times c (d ∷ ds) = let rest = times c ds in if d == c then suc rest else rest

times-append : (c : ℕ) (xs ys : List ℕ) → times c (xs ++ ys) ≡ times c xs + times c ys
unfolding times
times-append c [] ys = omega arith
times-append c (x ∷ xs) ys = ground (arith, times-append c xs ys)

times-insert :
    (c n : ℕ) (k : String) (d : Dict ℕ)
    → lookup k d ≡ none
    → times c (values (insert k n d)) ≡ times c (values d) + (if n == c then 1 else 0)
unfolding times values insert lookup
times-insert c n k [] h = ground arith
times-insert c n k ((j, m) ∷ d) h = ground (arith, times-insert c n k d)

times-delete_key :
    (c n : ℕ) (k : String) (d : Dict ℕ)
    → lookup k d ≡ some n
    → times c (values (delete_key k d)) + (if n == c then 1 else 0) ≡ times c (values d)
unfolding times values delete_key lookup
times-delete_key c n k [] h = ground arith
times-delete_key c n k ((j, m) ∷ d) h = ground (arith, times-delete_key c n k d)

-- How often a client stands in the pools or was closed.
unfoldable pub held : ℕ → Pools → ℕ
held c p =
    times c (values p.h1_clients)
    + (times c (values p.h2_clients) + (times c (values p.h3_clients) + times c p.closed))

-- Every client that was made is in one place, and no other is anywhere.
abbrev pub Conserved : Pools → Type 0
Conserved p = (c : ℕ) → held c p ≡ (if ltb c p.made then 1 else 0)

no_pools-Conserved : Conserved no_pools
unfolding no_pools held values times
no_pools-Conserved c = ground arith

-- The count behind the insertion of a new client, and behind the removal of one.
inserted :
    (proto : Protocol) (host : String) (c n : ℕ) (p : Pools)
    → lookup host (clients proto p) ≡ none
    → held c (set_clients proto (insert host n (clients proto p)) p)
      ≡ held c p + (if n == c then 1 else 0)
unfolding held
inserted h1 host c n p e = omega (arith, times-insert c n host p.h1_clients e)
inserted h2 host c n p e = omega (arith, times-insert c n host p.h2_clients e)
inserted h3 host c n p e = omega (arith, times-insert c n host p.h3_clients e)

deleted :
    (proto : Protocol) (host : String) (c n : ℕ) (p : Pools)
    → lookup host (clients proto p) ≡ some n
    → held c (set_clients proto (delete_key host (clients proto p)) p) + (if n == c then 1 else 0)
      ≡ held c p
unfolding held
deleted h1 host c n p e = omega (arith, times-delete_key c n host p.h1_clients e)
deleted h2 host c n p e = omega (arith, times-delete_key c n host p.h2_clients e)
deleted h3 host c n p e = omega (arith, times-delete_key c n host p.h3_clients e)

set_clients-made :
    (proto : Protocol) (d : Dict ℕ) (p : Pools) → (set_clients proto d p).made ≡ p.made
set_clients-made h1 d p = refl
set_clients-made h2 d p = refl
set_clients-made h3 d p = refl

set_clients-closed :
    (proto : Protocol) (d : Dict ℕ) (p : Pools) → (set_clients proto d p).closed ≡ p.closed
set_clients-closed h1 d p = refl
set_clients-closed h2 d p = refl
set_clients-closed h3 d p = refl

held-made : (c n : ℕ) (p : Pools) → held c (record p { made = n }) ≡ held c p
unfolding held
held-made c n p = refl

held-closed :
    (c n : ℕ) (p : Pools)
    → held c (record p { closed = p.closed ++ n ∷ [] }) ≡ held c p + (if n == c then 1 else 0)
unfolding held times
held-closed c n p = ground (arith, times-append c p.closed (n ∷ []))

get_client-Conserved :
    (proto : Protocol) (b : Bool) (host : String) (p : Pools)
    → Conserved p
    → Conserved (get_client proto b host p).0
unfolding get_client
get_client-Conserved proto b host p v c = elim (Option-cases (lookup host (clients proto p))) [
  | inr (d, e) ↦ rw (e, get_client) (v c)
  | inl e ↦ elim (Bool-cases b) [
    | inr f ↦ rw (e, f, get_client) (v c)
    | inl f ↦
        let q = set_clients proto (insert host p.made (clients proto p)) p in
        rw (e, f, get_client)
          (ground (arith, v c, inserted proto host c p.made p e, held-made c (p.made + 1) q))
  ]
]

drop_client-Conserved :
    (proto : Protocol) (host : String) (n : ℕ) (p : Pools)
    → lookup host (clients proto p) ≡ some n
    → Conserved p
    → Conserved (drop_client proto host n p)
unfolding drop_client
drop_client-Conserved proto host n p e v c =
    let q = set_clients proto (delete_key host (clients proto p)) p in
    let same : q.closed ≡ p.closed =
      set_clients-closed proto (delete_key host (clients proto p)) p in
    let made : q.made ≡ p.made = set_clients-made proto (delete_key host (clients proto p)) p in
    rw (← same) (ground (arith, v c, made, deleted proto host c n p e, held-closed c n q))

close_client-Conserved :
    (proto : Protocol) (host : String) (p : Pools)
    → Conserved p
    → Conserved (close_client proto host p)
unfolding close_client
close_client-Conserved proto host p v = elim (Option-cases (lookup host (clients proto p))) [
  | inl e ↦ rw (e, close_client) v
  | inr (n, e) ↦ rw (e, close_client) (drop_client-Conserved proto host n p e v)
]

evict-Conserved : (refs : List ClientRef) (p : Pools) → Conserved p → Conserved (evict refs p)
unfolding evict
evict-Conserved [] p v = v
evict-Conserved ((proto, host, c) ∷ refs) p v =
    elim (Option-cases (lookup host (clients proto p))) [
      | inl e ↦ rw (e, evict) (evict-Conserved refs p v)
      | inr (n, e) ↦ elim (Bool-cases (n == c)) [
        | inr f ↦ rw (e, f, evict) (evict-Conserved refs p v)
        | inl f ↦
            let same : n ≡ c = ground arith in
            rw (e, f, evict)
              (evict-Conserved refs (drop_client proto host c p)
                (drop_client-Conserved proto host c p (e ∙ ap some same) v))
      ]
    ]

close_all-Conserved : (p : Pools) → Conserved p → Conserved (close_all p)
unfolding close_all held times values
close_all-Conserved p v c = ground (
  arith,
  v c,
  times-append c p.closed (values p.h1_clients ++ (values p.h2_clients ++ values p.h3_clients)),
  times-append c (values p.h1_clients) (values p.h2_clients ++ values p.h3_clients),
  times-append c (values p.h2_clients) (values p.h3_clients),
)

-- What the callers and the evictor do to the pools, one section under the lock a step.
pub data Step : Pools → Pools → Type 0 where
  gets :
      (proto : Protocol) (is_made : Bool) (host : String) (p : Pools)
      → Step p (get_client proto is_made host p).0
  closes : (proto : Protocol) (host : String) (p : Pools) → Step p (close_client proto host p)
  evicts : (refs : List ClientRef) (p : Pools) → Step p (evict refs p)
  closes_all : (p : Pools) → Step p (close_all p)

pub data Reach (p : Pools) : Pools → Type 0 where
  here : Reach p p
  next : {q r : Pools} → Reach p q → Step q r → Reach p r

pub Step-Conserved : {p q : Pools} → Step p q → Conserved p → Conserved q
Step-Conserved (gets proto b host p) v = get_client-Conserved proto b host p v
Step-Conserved (closes proto host p) v = close_client-Conserved proto host p v
Step-Conserved (evicts refs p) v = evict-Conserved refs p v
Step-Conserved (closes_all p) v = close_all-Conserved p v

Reach-Conserved : {p q : Pools} → Reach p q → Conserved p → Conserved q
Reach-Conserved here v = v
Reach-Conserved (next r s) v = Step-Conserved s (Reach-Conserved r v)

-- In every state that the pools of a new client reach, by calls for connections, closes after errors,
-- evictions of any references, stale ones included, and `CloseAll`: a client that was made stands under
-- exactly one host of one protocol and was not closed, or stands nowhere and was closed exactly once; and
-- no other client stands anywhere.
pub reachable-Conserved : {p : Pools} → Reach no_pools p → Conserved p
reachable-Conserved r = Reach-Conserved r no_pools-Conserved
