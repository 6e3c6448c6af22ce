-- ===== src/CognitiveBus.antt =====
-- internal/agent/cognitive_bus.go: the bus that hands messages to subscribers and is shut down
-- gracefully. A step is a critical section, a channel operation or a wait that has ended.
pub mod Closing
pub mod Subscribers
pub mod Counts
pub mod Subscriptions
pub mod Safety
mod Tests
use Prim.Native.String.{String}
use text.Mathlib.Text.{◌==◌ as str_eq}
use scalpel_cli.Common.{
  ℕ, zero, suc, ◌+◌, ◌-◌, Bool, true, false, not, ◌||◌, List, [], ◌∷◌, ◌++◌, Option, none, some,
  ltb, ◌==◌, if◌then◌else◌, length, get_elem?, set,
}
use scalpel_cli.Common.Int.{ℤ, pos, ltb_ℤ, pos_part}
use scalpel_cli.Common.Dict.{Dict, lookup, insert}

-- `CognitiveMessage`; the payload is opaque, and the zero time is 0.
pub record Message : Type 0 where
  pub id : String
  pub timestamp : ℕ
  pub msg_type : String
  pub payload : String

-- A Go channel of messages; its capacity is that of the bus.
pub record Channel : Type 0 where
  pub queue : List Message
  pub is_closed : Bool

-- A call of `Post` that has passed the first check: before its copy of the subscribers; between two
-- rounds of the loop over the copy; and in the `select` for one channel, which it has counted.
pub data Posting : Type 0 where
  entered : Message → Posting
  delivering : Message → List ℕ → Posting
  selecting : Message → (channel : ℕ) → (rest : List ℕ) → Posting

-- The statements of `Shutdown`: not called; the flag is set; `shutdownChan` is closed; the channels
-- are closed; returned.
pub data Phase : Type 0 where
  running flagged stopping closing finished : Phase

-- `CognitiveBus` with the channels that it has made, by number, and its calls of `Post`. The wait
-- groups are counters. `in_hand` counts the messages that consumers have taken and not acknowledged.
pub record Bus : Type 0 where
  pub subscribers : Dict (List ℕ)
  pub buffer_size : ℕ
  pub phase : Phase
  pub active_posts : ℕ
  pub processing : ℕ
  pub channels : List Channel
  pub posts : List Posting
  pub in_hand : ℕ
  pub panicked : Bool

pub data BusError : Type 0 where
  is_shut_down shutting_down context_done : BusError

unfoldable pub new_bus : ℤ → Bus
new_bus buffer_size = record {
  subscribers = [];
  buffer_size = if ltb_ℤ (pos 0) buffer_size then pos_part buffer_size else 100;
  phase = Phase.running;
  active_posts = 0;
  processing = 0;
  channels = [];
  posts = [];
  in_hand = 0;
  panicked = false;
}

abbrev pub is_shutdown : Phase → Bool
is_shutdown Phase.running = false
is_shutdown _ = true

-- `shutdownChan`
abbrev pub is_stopped : Phase → Bool
is_stopped Phase.running = false
is_stopped Phase.flagged = false
is_stopped _ = true

-- A fresh identifier and the clock are arguments.
unfoldable pub enrich : String → ℕ → Message → Message
enrich fresh now m = record m {
  id = if str_eq m.id "" then fresh else m.id;
  timestamp = if m.timestamp == 0 then now else m.timestamp;
}

-- The first section of `Post`, with the message enriched.
unfoldable pub begin_post : String → ℕ → Message → Bus → Bus × Option BusError
begin_post fresh now m b = if is_shutdown b.phase then (b, some BusError.is_shut_down) else (
  record b {
    active_posts = b.active_posts + 1;
    posts = Posting.entered (enrich fresh now m) ∷ b.posts;
  },
  none,
)

abbrev pub or_nil : Option (List ℕ) → List ℕ
or_nil none = []
or_nil (some l) = l

unfoldable pub subscribed : String → Bus → List ℕ
subscribed t b = or_nil (lookup t b.subscribers)

unfoldable pub contains : ℕ → List ℕ → Bool
contains i [] = false
contains i (j ∷ js) = if j == i then true else contains i js

-- The keys of a map from the elements; a Go map has no order, here each stands at its last place.
unfoldable pub unique : List ℕ → List ℕ
unique [] = []
unique (i ∷ is) = let rest = unique is in if contains i is then rest else i ∷ rest

-- The channels that get a message of this type.
unfoldable pub targets : String → Bus → List ℕ
targets t b = unique (subscribed t b ++ subscribed "" b)

unfoldable pub remove_at : ℕ → List Posting → List Posting
remove_at n [] = []
remove_at zero (p ∷ ps) = ps
remove_at (suc n) (p ∷ ps) = p ∷ remove_at n ps

-- The return of a `Post`, with its deferred call.
unfoldable pub end_post : ℕ → Bus → Bus
end_post n b = record b { active_posts = b.active_posts - 1; posts = remove_at n b.posts }

-- The section under the read lock.
unfoldable pub snapshot : ℕ → Bus → Bus
snapshot n b = elim (get_elem? b.posts n) [
  | some (entered m) ↦ record b {
    posts = set b.posts n (Posting.delivering m (targets m.msg_type b));
  }
  | _ ↦ b
]

-- The case of the `select` that is taken.
pub data Choice : Type 0 where
  sends cancels stops : Choice

abbrev pub put_message : Message → Channel → Channel
put_message m k = record k { queue = k.queue ++ m ∷ [] }

-- The start of a round of the loop over the copy: `processingWg.Add(1)`, ahead of the `select`. Behind
-- the last round the call returns.
unfoldable pub begin_delivery : ℕ → Bus → Bus
begin_delivery n b = elim (get_elem? b.posts n) [
  | some (delivering m (ch ∷ rest)) ↦ record b {
    processing = b.processing + 1;
    posts = set b.posts n (Posting.selecting m ch rest);
  }
  | some (delivering m []) ↦ end_post n b
  | _ ↦ b
]

-- The `Done` that undoes the `Add`; a wait group below zero panics.
unfoldable pub undo_add : Bus → Bus
undo_add b =
    if b.processing == 0
    then record b { panicked = true }
    else record b { processing = b.processing - 1 }

-- A delivery goes on to the rest of the channels.
abbrev pub delivered : ℕ → Message → ℕ → List ℕ → Channel → Bus → Bus
delivered n m ch rest k b = record b {
  channels = set b.channels ch (put_message m k);
  posts = set b.posts n (Posting.delivering m rest);
}

-- A send waits while the buffer is full, and panics on a closed channel.
unfoldable pub send : ℕ → Message → ℕ → List ℕ → Bus → Bus
send n m ch rest b = elim (get_elem? b.channels ch) [
  | none ↦ b
  | some k ↦
      if k.is_closed
      then record b { panicked = true }
      else if ltb (length k.queue) b.buffer_size
      then delivered n m ch rest k b
      else b
]

-- The `select` of `Post`. Where the delivery fails, the `Add` is undone, and the call returns.
unfoldable pub deliver_to : Choice → ℕ → Message → ℕ → List ℕ → Bus → Bus × Option BusError
deliver_to sends n m ch rest b = (send n m ch rest b, none)
deliver_to cancels n m ch rest b = (end_post n (undo_add b), some BusError.context_done)
deliver_to stops n m ch rest b =
    if is_stopped b.phase then (end_post n (undo_add b), some BusError.shutting_down) else (b, none)

unfoldable pub deliver_next : Choice → ℕ → Bus → Bus × Option BusError
deliver_next choice n b = elim (get_elem? b.posts n) [
  | some (selecting m ch rest) ↦ deliver_to choice n m ch rest b
  | _ ↦ (b, none)
]

-- A consumer takes the first message of a channel.
abbrev pub take_first : ℕ → Channel → List Message → Bus → Bus
take_first ch k [] b = b
take_first ch k (m ∷ ms) b = record b {
  channels = set b.channels ch (record k { queue = ms });
  in_hand = b.in_hand + 1;
}

unfoldable pub receive : ℕ → Bus → Bus
receive ch b = elim (get_elem? b.channels ch) [ none ↦ b | some k ↦ take_first ch k k.queue b ]

-- `Acknowledge`; a wait group below zero panics.
unfoldable pub acknowledge : Bus → Bus
acknowledge b =
    if b.processing == 0
    then record b { panicked = true }
    else record b { processing = b.processing - 1; in_hand = b.in_hand - 1 }
