-- ===== src/EvolutionBus.antt =====
-- internal/evolution/bus/bus.go: the bus of the evolution engine. Its state has the fields of the
-- cognitive bus, and its steps are those of CognitiveBus where the code is the same: the deliveries, the
-- loops over the types, and what consumers do.
pub mod Safety
pub mod Stalls
mod Tests
use Prim.Native.String.{String}
use scalpel_cli.Common.{
  ℕ, suc, ◌+◌, ◌-◌, Bool, true, false, List, [], ◌∷◌, ◌++◌, Option, none, some, ltb, ◌==◌,
  if◌then◌else◌, length, get_elem?, set,
}
use scalpel_cli.Common.Int.{ℤ, pos_part}
use scalpel_cli.CognitiveBus.{
  Message, Channel, Posting, entered, delivering, selecting, Phase, running, flagged, stopping,
  closing, finished, Bus, BusError, is_shutdown, subscribed, end_post, unique,
}
use scalpel_cli.CognitiveBus.Closing.{all_subscribers, close_all}
use scalpel_cli.CognitiveBus.Subscribers.{add_subscriber, remove_subscriber}

-- `NewEvolutionBus`: a size below 0 is 0.
unfoldable pub new_bus : ℤ → Bus
new_bus buffer_size = record {
  subscribers = [];
  buffer_size = pos_part buffer_size;
  phase = Phase.running;
  active_posts = 0;
  processing = 0;
  channels = [];
  posts = [];
  in_hand = 0;
  panicked = false;
}

-- The first section of `Post`, with its message; the identifier and the clock are arguments.
unfoldable pub begin_post : String → ℕ → (msg_type payload : String) → Bus → Bus × Option BusError
begin_post id now msg_type payload b =
    if is_shutdown b.phase then (b, some BusError.is_shut_down) else (
      record b {
        active_posts = b.active_posts + 1;
        posts =
            Posting.entered
              (record { id = id; timestamp = now; msg_type = msg_type; payload = payload })
            ∷ b.posts;
      },
      none,
    )

abbrev pub with_copy : ℕ → Message → List ℕ → Bus → Bus
with_copy n m [] b = end_post n b
with_copy n m (ch ∷ chs) b = record b { posts = set b.posts n (Posting.delivering m (ch ∷ chs)) }

-- The section under the read lock: a copy of the type's subscribers, and a return where there are none.
unfoldable pub snapshot : ℕ → Bus → Bus
snapshot n b = elim (get_elem? b.posts n) [
  | some (entered m) ↦ with_copy n m (subscribed m.msg_type b) b
  | _ ↦ b
]

abbrev pub handed : ℕ → Message → List ℕ → Bus → Bus
handed n m rest b = record b {
  in_hand = b.in_hand + 1;
  posts = set b.posts n (Posting.delivering m rest);
}

abbrev pub hand_to : ℕ → Message → List ℕ → Option Channel → Bus → Bus
hand_to n m rest none b = b
hand_to n m rest (some k) b =
    if k.is_closed
    then record b { panicked = true }
    else if b.buffer_size == 0
    then handed n m rest b
    else b

-- A send on a channel without a buffer, to a consumer that waits; the message is counted before.
unfoldable pub hand_over : ℕ → Bus → Bus
hand_over n b = elim (get_elem? b.posts n) [
  | some (selecting m ch rest) ↦ hand_to n m rest (get_elem? b.channels ch) b
  | _ ↦ b
]

-- What `Subscribe` gives: a channel of the bus, a closed channel that is in no list, or its panic.
pub data Subscription : Type 0 where
  listens : ℕ → Subscription
  is_late panics : Subscription

abbrev pub subscribe_open : List String → Bus → Bus × Subscription
subscribe_open [] b = (b, panics)
subscribe_open (t ∷ ts) b = (
  add_subscriber (length b.channels) (t ∷ ts)
      (record b { channels = b.channels ++ record { queue = []; is_closed = false } ∷ [] }),
  listens (length b.channels),
)

unfoldable pub subscribe : List String → Bus → Bus × Subscription
subscribe types b = if is_shutdown b.phase then (b, is_late) else subscribe_open types b

-- The function that `Subscribe` returns.
unfoldable pub unsubscribe : ℕ → List String → Bus → Bus
unsubscribe ch types b = remove_subscriber ch types b

abbrev pub emptied : Channel → Channel
emptied k = record k { queue = [] }

-- The buffers of the channels are emptied; with the number of messages in them.
unfoldable pub drain : List ℕ → List Channel → List Channel × ℕ
drain [] ks = (ks, 0)
drain (ch ∷ chs) ks = elim (get_elem? ks ch) [
  | none ↦ drain chs ks
  | some k ↦ let rest = drain chs (set ks ch (emptied k)) in (rest.0, length k.queue + rest.1)
]

-- Step 4 of `Shutdown`; a wait group below zero panics.
abbrev pub closed_and_drained : List Channel × ℕ → Bus → Bus
closed_and_drained (ks, n) b = record b {
  phase = Phase.closing;
  channels = ks;
  processing = b.processing - n;
  subscribers = [];
  panicked = if ltb b.processing n then true else b.panicked;
}

-- The next statement of `Shutdown`; a wait that has not ended changes nothing.
unfoldable pub shutdown_step : Bus → Bus
shutdown_step b = elim b.phase [
  | running ↦ record b { phase = Phase.flagged }
  | flagged ↦ record b { phase = Phase.stopping }
  | stopping ↦
      let chs = unique (all_subscribers b.subscribers) in
      if b.active_posts == 0 then closed_and_drained (drain chs (close_all chs b.channels)) b else b
  | closing ↦ if b.processing == 0 then record b { phase = Phase.finished } else b
  | finished ↦ b
]
