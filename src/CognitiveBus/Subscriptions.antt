-- ===== src/CognitiveBus/Subscriptions.antt =====
-- Who gets a message: Subscribe, its unsubscribe function, and the channels that Post collects.
use Prim.Native.String.{String}
use text.Mathlib.Text.{◌==◌ as str_eq}
use text.Mathlib.TextEquality.{eq_iff}
use scalpel_cli.Common.{
  ℕ, ◌+◌, ◌-◌, ◌≡◌, ◌∙◌, refl, ap, inl, inr, false, List, [], ◌∷◌, ◌++◌, none, arith, Bool-cases,
  ◌==◌, if◌then◌else◌, length,
}
use scalpel_cli.Common.Dict.{Dict, lookup, insert, lookup-insert}
use scalpel_cli.CognitiveBus.{Bus, subscribed, or_nil, contains, targets}
use scalpel_cli.CognitiveBus.Subscribers.{
  or_all, without, delete, store, add_subscriber, subscribe, remove_subscriber, unsubscribe,
}
use scalpel_cli.CognitiveBus.Counts.{
  count, count-append, contains-count, count-unique, count-without,
}

-- A message of a type goes to every channel that is subscribed to the type or to all messages, once,
-- however many of its subscriptions fit, and to no other.
pub targets_exact :
    (t : String) (b : Bus) (i : ℕ)
    → count i (targets t b)
      ≡ (if count i (subscribed t b) + count i (subscribed "" b) == 0 then 0 else 1)
unfolding targets
targets_exact t b i =
    count-unique i (subscribed t b ++ subscribed "" b)
    ∙ ap (λ (n : ℕ). if n == 0 then 0 else 1) (count-append i (subscribed t b) (subscribed "" b))

lookup-delete :
    (t u : String) (d : Dict (List ℕ))
    → lookup t (delete u d) ≡ (if str_eq u t then none else lookup t d)
unfolding lookup delete
lookup-delete t u [] = ground arith
lookup-delete t u ((k, l) ∷ d) =
    ground (arith, lookup-delete t u d, eq_iff k u, eq_iff k t, eq_iff u t)

lookup-store :
    (t u : String) (l : List ℕ) (d : Dict (List ℕ))
    → or_nil (lookup t (store u l d)) ≡ (if str_eq u t then l else or_nil (lookup t d))
unfolding store
lookup-store t u [] d = ground (arith, lookup-delete t u d)
lookup-store t u (i ∷ is) d = ground (arith, lookup-insert u t (i ∷ is) d)

-- How often a type stands among the types of a call.
unfoldable pub occurrences : String → List String → ℕ
occurrences t [] = 0
occurrences t (u ∷ us) = if str_eq u t then 1 + occurrences t us else occurrences t us

-- One type more or less for a channel.
added-count :
    (t u : String) (i ch : ℕ) (b : Bus)
    → count i (
        subscribed t
          (record b { subscribers = insert u (subscribed u b ++ ch ∷ []) b.subscribers }))
      ≡ count i (subscribed t b) + (if ch == i then if str_eq u t then 1 else 0 else 0)
unfolding subscribed count
added-count t u i ch b = ground (
  arith,
  lookup-insert u t (subscribed u b ++ ch ∷ []) b.subscribers,
  count-append i (subscribed u b) (ch ∷ []),
  eq_iff u t,
)

removed-count :
    (t u : String) (i ch : ℕ) (b : Bus)
    → count i (
        subscribed t
          (record b { subscribers = store u (without ch (subscribed u b)) b.subscribers }))
      ≡ count i (subscribed t b) - (if ch == i then if str_eq u t then 1 else 0 else 0)
unfolding subscribed
removed-count t u i ch b = ground (
  arith,
  lookup-store t u (without ch (subscribed u b)) b.subscribers,
  count-without i ch (subscribed u b),
  eq_iff u t,
)

add_subscriber-count :
    (t : String) (i ch : ℕ) (ts : List String) (b : Bus)
    → count i (subscribed t (add_subscriber ch ts b))
      ≡ count i (subscribed t b) + (if ch == i then occurrences t ts else 0)
unfolding add_subscriber occurrences
add_subscriber-count t i ch [] b = ground arith
add_subscriber-count t i ch (u ∷ us) b =
    add_subscriber-count t i ch us _ ∙ ground (arith, added-count t u i ch b)

-- Where the channel is not in the list, there is none to take away.
absent-count :
    (t u : String) (i ch : ℕ) (b : Bus)
    → contains ch (subscribed u b) ≡ false
    → count i (subscribed t b)
      ≡ count i (subscribed t b) - (if ch == i then if str_eq u t then 1 else 0 else 0)
absent-count t u i ch b h = ground (arith, contains-count ch (subscribed u b), eq_iff u t)

remove_subscriber-count :
    (t : String) (i ch : ℕ) (ts : List String) (b : Bus)
    → count i (subscribed t (remove_subscriber ch ts b))
      ≡ count i (subscribed t b) - (if ch == i then occurrences t ts else 0)
unfolding remove_subscriber occurrences
remove_subscriber-count t i ch [] b = ground arith
remove_subscriber-count t i ch (u ∷ us) b = elim (Bool-cases (contains ch (subscribed u b))) [
  | inl e ↦
      rw (e, remove_subscriber)
        (remove_subscriber-count t i ch us _ ∙ ground (arith, removed-count t u i ch b))
  | inr e ↦
      rw (e, remove_subscriber)
        (remove_subscriber-count t i ch us b ∙ ground (arith, absent-count t u i ch b e))
]

-- A subscription that is taken back leaves, for every type, every channel in the list as often as it
-- was before, whatever the types of the call.
pub unsubscribe-subscribe :
    (types : List String) (b : Bus) (t : String) (i : ℕ)
    → count i (subscribed t (unsubscribe (subscribe types b).1 types (subscribe types b).0))
      ≡ count i (subscribed t b)
unfolding subscribe unsubscribe
unsubscribe-subscribe types b t i =
    let ch = length b.channels in
    let made : Bus = record b {
      channels = b.channels ++ record { queue = []; is_closed = false } ∷ [];
    } in
    let same : count i (subscribed t made) ≡ count i (subscribed t b) = unfold subscribed in refl in
    let added = add_subscriber-count t i ch (or_all types) made in
    let removed =
      remove_subscriber-count t i ch (or_all types) (add_subscriber ch (or_all types) made) in
    omega (arith, added, removed, same)
