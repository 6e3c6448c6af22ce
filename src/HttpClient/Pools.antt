-- ===== src/HttpClient/Pools.antt =====
-- The pools of connections: getH1Client and its like, closeClient, evictIdleConnections and CloseAll.
-- A client of any protocol is a number; `made` is the next one.
pub mod Conservation
use Prim.Native.String.{String}
use text.Mathlib.Text.{◌==◌ as str_eq}
use scalpel_cli.Common.{
  ℕ, ◌+◌, Bool, true, false, List, [], ◌∷◌, ◌++◌, Option, none, some, ◌==◌, if◌then◌else◌,
}
use scalpel_cli.Common.Dict.{Dict, lookup, insert}
use scalpel_cli.HttpClient.Types.{Url, Cookie}

pub data Protocol : Type 0 where
  h1 h2 h3 : Protocol

-- The state of `CustomClient`. `closed` lists the clients that `Close` was called on, and `jar` the calls
-- of `SetCookies`.
pub record Pools : Type 0 where
  pub h1_clients : Dict ℕ
  pub h2_clients : Dict ℕ
  pub h3_clients : Dict ℕ
  pub h2_unsupported : List String
  pub h3_unsupported : List String
  pub made : ℕ
  pub closed : List ℕ
  pub jar : List (Url × List Cookie)

unfoldable pub no_pools : Pools
no_pools = record {
  h1_clients = [];
  h2_clients = [];
  h3_clients = [];
  h2_unsupported = [];
  h3_unsupported = [];
  made = 0;
  closed = [];
  jar = [];
}

abbrev pub clients : Protocol → Pools → Dict ℕ
clients h1 p = p.h1_clients
clients h2 p = p.h2_clients
clients h3 p = p.h3_clients

abbrev pub set_clients : Protocol → Dict ℕ → Pools → Pools
set_clients h1 d p = record p { h1_clients = d }
set_clients h2 d p = record p { h2_clients = d }
set_clients h3 d p = record p { h3_clients = d }

-- A client that is there is used again; else one is made, unless that fails.
unfoldable pub get_client : Protocol → (is_made : Bool) → (host : String) → Pools → Pools × Option ℕ
get_client proto is_made host p = elim (lookup host (clients proto p)) [
  | some c ↦ (p, some c)
  | none ↦
      if is_made
      then (
        record (set_clients proto (insert host p.made (clients proto p)) p) { made = p.made + 1 },
        some p.made,
      )
      else (p, none)
]

-- `delete`, on a map with one entry for each key.
unfoldable pub delete_key : String → Dict ℕ → Dict ℕ
delete_key k [] = []
delete_key k ((j, c) ∷ d) = if str_eq j k then d else (j, c) ∷ delete_key k d

-- The client leaves its map and is closed.
unfoldable pub drop_client : Protocol → String → ℕ → Pools → Pools
drop_client proto host c p =
    let q = set_clients proto (delete_key host (clients proto p)) p in
    record q { closed = p.closed ++ c ∷ [] }

unfoldable pub close_client : Protocol → String → Pools → Pools
close_client proto host p = elim (lookup host (clients proto p)) [
  | none ↦ p
  | some c ↦ drop_client proto host c p
]

-- A `clientRef`.
abbrev pub ClientRef : Type 0
ClientRef = Protocol × String × ℕ

unfoldable pub idle_refs : (ℕ → Bool) → Protocol → Dict ℕ → List ClientRef
idle_refs is_idle proto [] = []
idle_refs is_idle proto ((host, c) ∷ d) =
    let rest = idle_refs is_idle proto d in if is_idle c then (proto, host, c) ∷ rest else rest

-- The first two parts of `evictIdleConnections`: the references, and those of them that are idle.
unfoldable pub collect_idle : (ℕ → Bool) → Pools → List ClientRef
collect_idle is_idle p =
    idle_refs is_idle h1 p.h1_clients
    ++ (idle_refs is_idle h2 p.h2_clients ++ idle_refs is_idle h3 p.h3_clients)

abbrev is_current : ℕ → Option ℕ → Bool
is_current c none = false
is_current c (some d) = d == c

-- Its third and fourth part: an idle client that is still the one of its host leaves and is closed.
unfoldable pub evict : List ClientRef → Pools → Pools
evict [] p = p
evict ((proto, host, c) ∷ refs) p =
    evict refs
      (if is_current c (lookup host (clients proto p)) then drop_client proto host c p else p)

unfoldable pub values : Dict ℕ → List ℕ
values [] = []
values ((k, c) ∷ d) = c ∷ values d

-- The sections of `CloseAll` under the lock.
unfoldable pub close_all : Pools → Pools
close_all p = record p {
  h1_clients = [];
  h2_clients = [];
  h3_clients = [];
  closed = p.closed ++ (values p.h1_clients ++ (values p.h2_clients ++ values p.h3_clients));
}

-- Hosts that are known not to speak a protocol.
unfoldable pub is_listed : String → List String → Bool
is_listed h [] = false
is_listed h (k ∷ ks) = if str_eq k h then true else is_listed h ks

unfoldable pub should_attempt_h2 : Url → Pools → Bool
should_attempt_h2 u p =
    if str_eq u.scheme "https"
    then if is_listed u.host p.h2_unsupported then false else true
    else false

unfoldable pub should_attempt_h3 : Url → Pools → Bool
should_attempt_h3 u p =
    if str_eq u.scheme "https"
    then if is_listed u.host p.h3_unsupported then false else true
    else false
