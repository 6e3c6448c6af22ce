-- ===== src/EvolutionBus/Safety.antt =====
-- The evolution bus under any interleaving of posts, consumers, subscriptions and a shutdown.
use Prim.Native.String.{String}
use scalpel_cli.Common.{
  ℕ, zero, suc, ◌+◌, ◌≡◌, ◌<◌, refl, inl, inr, false, List, [], ◌∷◌, some, arith, length, get_elem?,
  set, length-set, All, Option-cases, Bool-cases,
}
use scalpel_cli.Common.Int.{ℤ}
use scalpel_cli.CognitiveBus.{
  Message, Channel, Posting, entered, delivering, selecting, Bus, Choice, begin_delivery,
  deliver_next, receive, acknowledge, unique, subscribed, is_shutdown,
}
use scalpel_cli.CognitiveBus.Closing.{all_subscribers, close_all}
use scalpel_cli.CognitiveBus.Counts.{
  waiting_in, waiting_in-set, waiting_in-close_all, unsent_by, unsent_in, unsent_in-set,
}
use scalpel_cli.CognitiveBus.Safety.{
  Safe, busy, set_post-Safe, at_once, end_post-Safe, begin_delivery-Safe, deliver_next-Safe,
  add_subscriber-Safe, remove_subscriber-Safe, made-Safe, receive-Safe, acknowledge-Safe,
}
use scalpel_cli.EvolutionBus.{
  new_bus, begin_post, with_copy, snapshot, hand_to, hand_over, subscribe, subscribe_open,
  unsubscribe, emptied, drain, shutdown_step,
}

new_bus-Safe : (n : ℤ) → Safe (new_bus n)
unfolding new_bus waiting_in unsent_in
new_bus-Safe n = ground arith

begin_post-Safe :
    (id : String) (now : ℕ) (t payload : String) (b : Bus)
    → Safe b
    → Safe (begin_post id now t payload b).0
unfolding begin_post unsent_in
begin_post-Safe id now t payload b v = ground arith

with_copy-Safe :
    (n : ℕ) (m : Message) (chs : List ℕ) (b : Bus) {p : Posting}
    → get_elem? b.posts n ≡ some p
    → unsent_by p ≡ 0
    → Safe b
    → Safe (with_copy n m chs b)
with_copy-Safe n m [] b {p} h u v = end_post-Safe n b {p = p} h u v
with_copy-Safe n m (ch ∷ chs) b {p} h u v =
    at_once b (set_post-Safe n 0 _ b {p = p} h (omega (arith, u)) v)

snapshot-Safe : (n : ℕ) (b : Bus) → Safe b → Safe (snapshot n b)
unfolding snapshot
snapshot-Safe n b v = elim (Option-cases (get_elem? b.posts n)) [
  | inl e ↦ rw (e, snapshot) v
  | inr (entered m, e) ↦
      rw (e, snapshot) (with_copy-Safe n m (subscribed m.msg_type b) b {p = entered m} e refl v)
  | inr (delivering m l, e) ↦ rw (e, snapshot) v
  | inr (selecting m ch l, e) ↦ rw (e, snapshot) v
]

get-Open :
    (ks : List Channel) (i : ℕ) {k : Channel}
    → get_elem? ks i ≡ some k
    → All (λ (c : Channel). c.is_closed ≡ false) ks
    → k.is_closed ≡ false
get-Open [] i h a = ground arith
get-Open (x ∷ ks) zero {k} h a = ground arith
get-Open (x ∷ ks) (suc i) {k} h a = get-Open ks i {k = k} h a.1

hand_to-Safe :
    (n : ℕ) (m : Message) (ch : ℕ) (rest : List ℕ) (b : Bus)
    → get_elem? b.posts n ≡ some (selecting m ch rest)
    → Safe b
    → Safe (hand_to n m rest (get_elem? b.channels ch) b)
hand_to-Safe n m ch rest b h v = elim (Option-cases (get_elem? b.channels ch)) [
  | inl e ↦ rw e v
  | inr (k, e) ↦
      let still = busy n b {p = selecting m ch rest} h v in
      let is_open = get-Open b.channels ch {k = k} e (v.opened still) in
      rw (e, is_open)
        (ground (
          arith,
          v,
          still,
          length-set b.posts n (Posting.delivering m rest),
          unsent_in-set b.posts n (selecting m ch rest) (Posting.delivering m rest) h,
        ))
]

hand_over-Safe : (n : ℕ) (b : Bus) → Safe b → Safe (hand_over n b)
unfolding hand_over
hand_over-Safe n b v = elim (Option-cases (get_elem? b.posts n)) [
  | inl e ↦ rw (e, hand_over) v
  | inr (entered m, e) ↦ rw (e, hand_over) v
  | inr (delivering m l, e) ↦ rw (e, hand_over) v
  | inr (selecting m ch rest, e) ↦ rw (e, hand_over) (hand_to-Safe n m ch rest b e v)
]

subscribe_open-Safe : (ts : List String) (b : Bus) → Safe b → Safe (subscribe_open ts b).0
subscribe_open-Safe [] b v = v
subscribe_open-Safe (t ∷ ts) b v =
    add_subscriber-Safe (length b.channels) (t ∷ ts) _ (made-Safe b v)

subscribe-Safe : (ts : List String) (b : Bus) → Safe b → Safe (subscribe ts b).0
unfolding subscribe
subscribe-Safe ts b v = elim (Bool-cases (is_shutdown b.phase)) [
  | inl e ↦ rw e v
  | inr e ↦ rw e (subscribe_open-Safe ts b v)
]

-- What is drained was waiting.
waiting_in-drain :
    (chs : List ℕ) (ks : List Channel)
    → waiting_in (drain chs ks).0 + (drain chs ks).1 ≡ waiting_in ks
unfolding drain
waiting_in-drain [] ks = omega arith
waiting_in-drain (ch ∷ chs) ks = elim (Option-cases (get_elem? ks ch)) [
  | inl e ↦ rw (e, drain) (waiting_in-drain chs ks)
  | inr (k, e) ↦
      rw (e, drain)
        (omega (
          arith,
          waiting_in-drain chs (set ks ch (emptied k)),
          waiting_in-set ks ch k (emptied k) e,
        ))
]

pub shutdown_step-Safe : (b : Bus) → Safe b → Safe (shutdown_step b)
unfolding shutdown_step
shutdown_step-Safe b v =
    let chs = unique (all_subscribers b.subscribers) in
    ground
      (arith, waiting_in-close_all chs b.channels, waiting_in-drain chs (close_all chs b.channels))

-- One step of the bus, by whoever takes it. A consumer acknowledges what it has taken.
pub data Step : Bus → Bus → Type 0 where
  begins :
      (id : String) (now : ℕ) (t payload : String) (b : Bus)
      → Step b (begin_post id now t payload b).0
  looks : (n : ℕ) (b : Bus) → Step b (snapshot n b)
  chooses : (n : ℕ) (b : Bus) → Step b (begin_delivery n b)
  delivers : (choice : Choice) (n : ℕ) (b : Bus) → Step b (deliver_next choice n b).0
  hands : (n : ℕ) (b : Bus) → Step b (hand_over n b)
  subscribes : (ts : List String) (b : Bus) → Step b (subscribe ts b).0
  unsubscribes : (ch : ℕ) (ts : List String) (b : Bus) → Step b (unsubscribe ch ts b)
  receives : (ch : ℕ) (b : Bus) → Step b (receive ch b)
  acknowledges : (b : Bus) → 0 < b.in_hand → Step b (acknowledge b)
  shuts : (b : Bus) → Step b (shutdown_step b)

pub data Reach (b : Bus) : Bus → Type 0 where
  here : Reach b b
  next : {c d : Bus} → Reach b c → Step c d → Reach b d

Step-Safe : {b c : Bus} → Step b c → Safe b → Safe c
unfolding unsubscribe
Step-Safe (begins id now t payload b) v = begin_post-Safe id now t payload b v
Step-Safe (looks n b) v = snapshot-Safe n b v
Step-Safe (chooses n b) v = begin_delivery-Safe n b v
Step-Safe (delivers choice n b) v = deliver_next-Safe choice n b v
Step-Safe (hands n b) v = hand_over-Safe n b v
Step-Safe (subscribes ts b) v = subscribe-Safe ts b v
Step-Safe (unsubscribes ch ts b) v = remove_subscriber-Safe ch ts b v
Step-Safe (receives ch b) v = receive-Safe ch b v
Step-Safe (acknowledges b h) v = acknowledge-Safe b h v
Step-Safe (shuts b) v = shutdown_step-Safe b v

-- In whatever order posts, consumers that acknowledge no more than they took, subscriptions and a
-- shutdown of a new evolution bus take their steps, with or without buffers, no message is sent on a
-- closed channel and no count falls below 0; the count of messages that the shutdown waits for is
-- that of the posts that have added theirs and stand in their select, of the buffers and of those
-- taken and not acknowledged, the drained ones left out; and it is 0 once the shutdown has returned.
pub evolution-Safe : (n : ℤ) {b : Bus} → Reach (new_bus n) b → Safe b
evolution-Safe n here = new_bus-Safe n
evolution-Safe n (next r s) = Step-Safe s (evolution-Safe n r)
