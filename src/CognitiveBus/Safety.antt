-- ===== src/CognitiveBus/Safety.antt =====
-- The bus under any interleaving of posts, consumers, subscriptions and a shutdown.
pub mod Steps
use Prim.Native.String.{String}
use scalpel_cli.Common.{
  ℕ, zero, suc, ◌+◌, ◌≡◌, ◌<◌, refl, ap, inl, inr, Bool, true, false, List, [], ◌∷◌, ◌++◌, some,
  arith, length, get_elem?, set, length-set, length-append, All, All-append, Option-cases,
  Bool-cases,
}
use scalpel_cli.Common.Int.{ℤ}
use scalpel_cli.Common.Dict.{Dict}
use scalpel_cli.CognitiveBus.{
  Message, Channel, Posting, entered, delivering, selecting, Phase, Bus, Choice, sends, cancels,
  stops, new_bus, begin_post, snapshot, send, end_post, deliver_to, deliver_next, begin_delivery,
  undo_add, is_stopped, receive, take_first, acknowledge, unique, put_message, subscribed, contains,
}
use scalpel_cli.CognitiveBus.Closing.{all_subscribers, shutdown_step}
use scalpel_cli.CognitiveBus.Subscribers.{
  add_subscriber, subscribe, remove_subscriber, unsubscribe, or_all,
}
use scalpel_cli.CognitiveBus.Counts.{
  waiting_in, waiting_in-append, waiting_in-set, waiting_in-close_all, length-remove_at, unsent_by,
  unsent_in, unsent_in-set, unsent_in-remove_at,
}

abbrev pub Open : Channel → Type 0
Open k = k.is_closed ≡ false

abbrev pub has_closed : Phase → Bool
has_closed Phase.closing = true
has_closed Phase.finished = true
has_closed _ = false

-- The posts under way are counted, nothing has panicked, no channel is closed while a post is under
-- way, the count of messages is that of the posts in their select, of the buffers and of the
-- consumers, and is 0 at the end.
pub record Safe (b : Bus) : Type 0 where
  pub counted : b.active_posts ≡ length b.posts
  pub calm : b.panicked ≡ false
  pub opened : has_closed b.phase ≡ false → All Open b.channels
  pub quiet : has_closed b.phase ≡ true → b.posts ≡ []
  pub owed : b.processing ≡ unsent_in b.posts + (waiting_in b.channels + b.in_hand)
  pub settled : b.phase ≡ Phase.finished → b.processing ≡ 0

All-get_elem? :
    (ks : List Channel) (i : ℕ) {k : Channel} → get_elem? ks i ≡ some k → All Open ks → Open k
All-get_elem? [] i h a = ground arith
All-get_elem? (x ∷ ks) zero {k} h a = ground arith
All-get_elem? (x ∷ ks) (suc i) {k} h a = All-get_elem? ks i {k = k} h a.1

All-set : (ks : List Channel) (i : ℕ) (k : Channel) → Open k → All Open ks → All Open (set ks i k)
All-set [] i k o a = tt
All-set (x ∷ ks) zero k o a = (o, a.1)
All-set (x ∷ ks) (suc i) k o a = (a.0, All-set ks i k o a.1)

new_bus-Safe : (n : ℤ) → Safe (new_bus n)
unfolding new_bus waiting_in unsent_in
new_bus-Safe n = ground arith

begin_post-Safe :
    (fresh : String) (now : ℕ) (m : Message) (b : Bus) → Safe b → Safe (begin_post fresh now m b).0
unfolding begin_post unsent_in
begin_post-Safe fresh now m b v = ground arith

pub end_post-Safe :
    (n : ℕ) (b : Bus) {p : Posting}
    → get_elem? b.posts n ≡ some p
    → unsent_by p ≡ 0
    → Safe b
    → Safe (end_post n b)
unfolding end_post
end_post-Safe n b {p} h u v =
    ground (arith, u, length-remove_at n b.posts {p = p} h, unsent_in-remove_at n b.posts p h)

-- While a post is under way, no channel is closed.
pub busy :
    (n : ℕ) (b : Bus) {p : Posting}
    → get_elem? b.posts n ≡ some p
    → Safe b
    → has_closed b.phase ≡ false
busy n b {p} h v = elim (Bool-cases (has_closed b.phase)) [
  | inl e ↦ absurd (let h' = rw (v.quiet e) at h in ground arith)
  | inr e ↦ e
]

-- A post that goes on to its next channel or statement, with the count of messages that it leaves.
pub set_post-Safe :
    (n added : ℕ) (q : Posting) (b : Bus) {p : Posting}
    → get_elem? b.posts n ≡ some p
    → unsent_by q ≡ added + unsent_by p
    → Safe b
    → Safe (record b { processing = b.processing + added; posts = set b.posts n q })
set_post-Safe n added q b {p} h u v =
    let still = busy n b {p = p} h v in
    let size = length-set b.posts n q in
    let sum = unsent_in-set b.posts n p q h in
    record {
      counted = omega (arith, size, v.counted);
      calm = v.calm;
      opened = v.opened;
      quiet = λ e. absurd (ground (arith, still, e));
      owed = omega (arith, sum, u, v.owed);
      settled = λ e. absurd (ground (arith, still, e));
    }

-- Nothing is added.
pub at_once :
    (b : Bus) {ps : List Posting}
    → Safe (record b { processing = b.processing + 0; posts = ps })
    → Safe (record b { posts = ps })
at_once b {ps} v = record {
  counted = v.counted;
  calm = v.calm;
  opened = v.opened;
  quiet = v.quiet;
  owed = omega (arith, v.owed);
  settled = λ e. omega (arith, v.settled e);
}

snapshot-Safe : (n : ℕ) (b : Bus) → Safe b → Safe (snapshot n b)
unfolding snapshot
snapshot-Safe n b v = elim (Option-cases (get_elem? b.posts n)) [
  | inl e ↦ rw (e, snapshot) v
  | inr (entered m, e) ↦
      rw (e, snapshot) (at_once b (set_post-Safe n 0 _ b {p = entered m} e refl v))
  | inr (delivering m l, e) ↦ rw (e, snapshot) v
  | inr (selecting m ch l, e) ↦ rw (e, snapshot) v
]

-- `Add` ahead of the `select`, or the return behind the last round.
pub begin_delivery-Safe : (n : ℕ) (b : Bus) → Safe b → Safe (begin_delivery n b)
unfolding begin_delivery
begin_delivery-Safe n b v = elim (Option-cases (get_elem? b.posts n)) [
  | inl e ↦ rw (e, begin_delivery) v
  | inr (entered m, e) ↦ rw (e, begin_delivery) v
  | inr (selecting m ch rest, e) ↦ rw (e, begin_delivery) v
  | inr (delivering m [], e) ↦
      rw (e, begin_delivery) (end_post-Safe n b {p = delivering m []} e refl v)
  | inr (delivering m (ch ∷ rest), e) ↦
      rw (e, begin_delivery) (set_post-Safe n 1 _ b {p = delivering m (ch ∷ rest)} e refl v)
]

module _ (n : ℕ) (m : Message) (ch : ℕ) (rest : List ℕ) (b : Bus)
    (h : get_elem? b.posts n ≡ some (selecting m ch rest)) (v : Safe b) where
  -- What is in a select is counted, so undoing it does not fall below zero.
  undone-Safe : Safe (end_post n (undo_add b))
  unfolding end_post undo_add
  undone-Safe = ground (
    arith,
    v,
    busy n b {p = selecting m ch rest} h v,
    length-remove_at n b.posts {p = selecting m ch rest} h,
    unsent_in-remove_at n b.posts (selecting m ch rest) h,
  )

  send-Safe : Safe (send n m ch rest b)
  unfolding send
  send-Safe = elim (Option-cases (get_elem? b.channels ch)) [
    | inl e ↦ rw (e, send) v
    | inr (k, e) ↦
        let still = busy n b {p = selecting m ch rest} h v in
        let is_open = All-get_elem? b.channels ch {k = k} e (v.opened still) in
        rw (e, send, is_open)
          (ground (
            arith,
            v,
            still,
            length-set b.posts n (Posting.delivering m rest),
            All-set b.channels ch (put_message m k) is_open (v.opened still),
            unsent_in-set b.posts n (selecting m ch rest) (Posting.delivering m rest) h,
            waiting_in-set b.channels ch k (put_message m k) e,
            length-append k.queue (m ∷ []),
          ))
  ]

  deliver_to-Safe : (choice : Choice) → Safe (deliver_to choice n m ch rest b).0
  unfolding deliver_to
  deliver_to-Safe sends = send-Safe
  deliver_to-Safe cancels = undone-Safe
  deliver_to-Safe stops = elim (Bool-cases (is_stopped b.phase)) [
    | inl e ↦ rw (e) undone-Safe
    | inr e ↦ rw (e) v
  ]

pub deliver_next-Safe :
    (choice : Choice) (n : ℕ) (b : Bus) → Safe b → Safe (deliver_next choice n b).0
unfolding deliver_next
deliver_next-Safe choice n b v = elim (Option-cases (get_elem? b.posts n)) [
  | inl e ↦ rw (e, deliver_next) v
  | inr (entered m, e) ↦ rw (e, deliver_next) v
  | inr (delivering m l, e) ↦ rw (e, deliver_next) v
  | inr (selecting m ch rest, e) ↦ rw (e, deliver_next) (deliver_to-Safe n m ch rest b e v choice)
]

-- A change of the subscribers alone.
pub subscribers-Safe : (b : Bus) (d : Dict (List ℕ)) → Safe b → Safe (record b { subscribers = d })
subscribers-Safe b d v = ground arith

pub add_subscriber-Safe :
    (ch : ℕ) (ts : List String) (b : Bus) → Safe b → Safe (add_subscriber ch ts b)
unfolding add_subscriber
add_subscriber-Safe ch [] b v = v
add_subscriber-Safe ch (t ∷ ts) b v = add_subscriber-Safe ch ts _ (subscribers-Safe b _ v)

pub remove_subscriber-Safe :
    (ch : ℕ) (ts : List String) (b : Bus) → Safe b → Safe (remove_subscriber ch ts b)
unfolding remove_subscriber
remove_subscriber-Safe ch [] b v = v
remove_subscriber-Safe ch (t ∷ ts) b v = elim (Bool-cases (contains ch (subscribed t b))) [
  | inl e ↦ rw (e) (remove_subscriber-Safe ch ts _ (subscribers-Safe b _ v))
  | inr e ↦ rw (e) (remove_subscriber-Safe ch ts b v)
]

pub made-Safe :
    (b : Bus)
    → Safe b
    → Safe (record b { channels = b.channels ++ record { queue = []; is_closed = false } ∷ [] })
unfolding waiting_in
made-Safe b v = ground (
  arith,
  All-append Open b.channels (record { queue = []; is_closed = false } ∷ []),
  waiting_in-append b.channels (record { queue = []; is_closed = false } ∷ []),
)

subscribe-Safe : (ts : List String) (b : Bus) → Safe b → Safe (subscribe ts b).0
unfolding subscribe
subscribe-Safe ts b v = add_subscriber-Safe (length b.channels) (or_all ts) _ (made-Safe b v)

take_first-Safe :
    (ch : ℕ) (k : Channel) (q : List Message) (b : Bus)
    → get_elem? b.channels ch ≡ some k
    → k.queue ≡ q
    → Safe b
    → Safe (take_first ch k q b)
take_first-Safe ch k [] b e h v = v
take_first-Safe ch k (m ∷ ms) b e h v =
    let still_open : (has_closed b.phase ≡ false
        → All Open (set b.channels ch (record k { queue = ms }))) =
      λ o.
        All-set b.channels ch (record k { queue = ms })
          (All-get_elem? b.channels ch {k = k} e (v.opened o)) (v.opened o) in
    let sum = waiting_in-set b.channels ch k (record k { queue = ms }) e in
    let size = ap length h in
    record {
      counted = v.counted;
      calm = v.calm;
      opened = still_open;
      quiet = v.quiet;
      owed = omega (arith, sum, size, v.owed);
      settled = v.settled;
    }

pub receive-Safe : (ch : ℕ) (b : Bus) → Safe b → Safe (receive ch b)
unfolding receive
receive-Safe ch b v = elim (Option-cases (get_elem? b.channels ch)) [
  | inl e ↦ rw (e, receive) v
  | inr (k, e) ↦ rw (e, receive) (take_first-Safe ch k k.queue b e refl v)
]

pub acknowledge-Safe : (b : Bus) → 0 < b.in_hand → Safe b → Safe (acknowledge b)
unfolding acknowledge
acknowledge-Safe b h v = ground (arith, v.owed)

shutdown_step-Safe : (b : Bus) → Safe b → Safe (shutdown_step b)
unfolding shutdown_step
shutdown_step-Safe b v =
    ground (arith, waiting_in-close_all (unique (all_subscribers b.subscribers)) b.channels)
