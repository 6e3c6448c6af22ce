-- ===== src/CognitiveBus/Safety/Steps.antt =====
-- The steps of the cognitive bus, in any order.
use Prim.Native.String.{String}
use scalpel_cli.Common.{ℕ, ◌<◌, List}
use scalpel_cli.Common.Int.{ℤ}
use scalpel_cli.CognitiveBus.{
  Message, Bus, Choice, new_bus, begin_post, snapshot, begin_delivery, deliver_next, receive,
  acknowledge,
}
use scalpel_cli.CognitiveBus.Closing.{shutdown_step}
use scalpel_cli.CognitiveBus.Subscribers.{subscribe, unsubscribe, or_all}
use scalpel_cli.CognitiveBus.Safety.{
  Safe, new_bus-Safe, begin_post-Safe, snapshot-Safe, begin_delivery-Safe, deliver_next-Safe,
  remove_subscriber-Safe, subscribe-Safe, receive-Safe, acknowledge-Safe, shutdown_step-Safe,
}

-- One step of the bus, by whoever takes it. A consumer acknowledges what it has taken.
pub data Step : Bus → Bus → Type 0 where
  begins : (fresh : String) (now : ℕ) (m : Message) (b : Bus) → Step b (begin_post fresh now m b).0
  looks : (n : ℕ) (b : Bus) → Step b (snapshot n b)
  chooses : (n : ℕ) (b : Bus) → Step b (begin_delivery n b)
  delivers : (choice : Choice) (n : ℕ) (b : Bus) → Step b (deliver_next choice n b).0
  subscribes : (ts : List String) (b : Bus) → Step b (subscribe ts b).0
  unsubscribes : (ch : ℕ) (ts : List String) (b : Bus) → Step b (unsubscribe ch ts b)
  receives : (ch : ℕ) (b : Bus) → Step b (receive ch b)
  acknowledges : (b : Bus) → 0 < b.in_hand → Step b (acknowledge b)
  shuts : (b : Bus) → Step b (shutdown_step b)

pub data Reach (b : Bus) : Bus → Type 0 where
  here : Reach b b
  next : {c d : Bus} → Reach b c → Step c d → Reach b d

Step-Safe : {b c : Bus} → Step b c → Safe b → Safe c
unfolding unsubscribe
Step-Safe (begins fresh now m b) v = begin_post-Safe fresh now m b v
Step-Safe (looks n b) v = snapshot-Safe n b v
Step-Safe (chooses n b) v = begin_delivery-Safe n b v
Step-Safe (delivers choice n b) v = deliver_next-Safe choice n b v
Step-Safe (subscribes ts b) v = subscribe-Safe ts b v
Step-Safe (unsubscribes ch ts b) v = remove_subscriber-Safe ch (or_all ts) b v
Step-Safe (receives ch b) v = receive-Safe ch b v
Step-Safe (acknowledges b h) v = acknowledge-Safe b h v
Step-Safe (shuts b) v = shutdown_step-Safe b v

Reach-Safe : {b c : Bus} → Reach b c → Safe b → Safe c
Reach-Safe here v = v
Reach-Safe (next r s) v = Step-Safe s (Reach-Safe r v)

-- In every state that a new bus reaches by any interleaving of posts, consumers that acknowledge no
-- more than they took, subscriptions and a shutdown, nothing has panicked, so that no message is
-- sent on a closed channel and no count falls below 0; no channel is closed while a post is under
-- way; and the count of messages is that of the posts that have added theirs and stand in their
-- select, of the buffers and of the consumers, and 0 once the shutdown has returned.
pub reachable-Safe : (n : ℤ) {b : Bus} → Reach (new_bus n) b → Safe b
reachable-Safe n r = Reach-Safe r (new_bus-Safe n)
