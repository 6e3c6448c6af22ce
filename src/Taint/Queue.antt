-- ===== src/Taint/Queue.antt =====
-- The queue of events between the page and the workers of
-- internal/analysis/active/taint/taint_analyzer.go: enqueueEvent in its two selects,
-- fetchAndEnqueueOAST, startBackgroundWorkers, correlateWorker and shutdown.
pub mod Steps
pub mod Drained
pub mod Late
mod Tests
use Prim.Native.String.{String}
use text.Mathlib.Text.{◌==◌ as str_eq}
use scalpel_cli.Common.{
  ℕ, zero, suc, ◌-◌, Bool, true, false, not, ◌||◌, List, [], ◌∷◌, ◌++◌, Option, none, some, ◌==◌,
  ltb, length, get_elem?, remove_at, if◌then◌else◌,
}
use scalpel_cli.Common.Dict.{Dict}
use scalpel_cli.Taint.Types.{ActiveProbe, Event, oast, OastInteraction, text_contains}

-- The channel of events with the goroutines around it. `checked` and `polling` are the events of
-- callbacks and of the poller between the two selects of enqueueEvent; `accepted` and `taken` record
-- what went into the channel and came out.
pub record Engine : Type 0 where
  pub events : List Event
  pub capacity : ℕ
  pub checked : List Event
  pub polling : List Event
  pub is_cleaning : Bool
  pub is_polling : Bool
  pub workers : ℕ
  pub is_cancelled : Bool
  pub is_closed : Bool
  pub has_panicked : Bool
  pub accepted : List Event
  pub taken : List Event

-- `startBackgroundWorkers` on a new channel.
abbrev pub start_workers : (capacity workers : ℕ) → (has_oast : Bool) → Engine
start_workers capacity workers has_oast = record {
  events = [];
  capacity = capacity;
  checked = [];
  polling = [];
  is_cleaning = true;
  is_polling = has_oast;
  workers = workers;
  is_cancelled = false;
  is_closed = false;
  has_panicked = false;
  accepted = [];
  taken = [];
}

-- The second select of `enqueueEvent`: a full channel drops the event, a closed one panics.
unfoldable pub try_send : Event → Engine → Engine
try_send e s =
    if s.is_closed
    then record s { has_panicked = true }
    else if ltb (length s.events) s.capacity
    then record s { events = s.events ++ e ∷ []; accepted = s.accepted ++ e ∷ [] }
    else s

-- The first select of `enqueueEvent`, in a callback of the page.
unfoldable pub check_callback : Event → Engine → Engine
check_callback e s = if s.is_cancelled then s else record s { checked = e ∷ s.checked }

unfoldable pub send_callback : ℕ → Engine → Engine
send_callback i s = elim (get_elem? s.checked i) [
  | none ↦ s
  | some e ↦ try_send e (record s { checked = remove_at i s.checked })
]

-- The same in the poller.
unfoldable pub check_poll : Event → Engine → Engine
check_poll e s =
    if s.is_cancelled || not s.is_polling then s else record s { polling = e ∷ s.polling }

unfoldable pub send_poll : ℕ → Engine → Engine
send_poll i s = elim (get_elem? s.polling i) [
  | none ↦ s
  | some e ↦ try_send e (record s { polling = remove_at i s.polling })
]

-- `enqueueEvent` where nothing happens between its selects.
unfoldable pub enqueue_event : Event → Engine → Engine
enqueue_event e s = if s.is_cancelled then s else try_send e s

unfoldable pub enqueue_all : List OastInteraction → Engine → Engine
enqueue_all [] s = s
enqueue_all (i ∷ is) s = enqueue_all is (enqueue_event (oast i) s)

unfoldable pub oast_canaries : (server : String) → Dict ActiveProbe → List String
oast_canaries server [] = []
oast_canaries server ((canary, p) ∷ probes) =
    let rest = oast_canaries server probes in
    if str_eq p.type "OAST" || text_contains p.value server then canary ∷ rest else rest

abbrev enqueue_result : Option (List OastInteraction) → Engine → Engine
enqueue_result none s = s
enqueue_result (some is) s = enqueue_all is s

abbrev fetch_for : List String → (List String → Option (List OastInteraction)) → Engine → Engine
fetch_for [] ask s = s
fetch_for (c ∷ cs) ask s = enqueue_result (ask (c ∷ cs)) s

-- `fetchAndEnqueueOAST`; `ask` is GetInteractions, with none for its error.
unfoldable pub fetch_and_enqueue :
    String → (List String → Option (List OastInteraction)) → Dict ActiveProbe → Engine → Engine
fetch_and_enqueue server ask probes s = fetch_for (oast_canaries server probes) ask s

abbrev pub take_event : List Event → Engine → Engine
take_event [] s = s
take_event (e ∷ es) s = record s { events = es; taken = s.taken ++ e ∷ [] }

-- One round of `correlateWorker`: an event is taken, and handled by processEvent.
unfoldable pub worker_takes : Engine → Engine
worker_takes s = if s.workers == 0 then s else take_event s.events s

abbrev pub end_worker : List Event → Engine → Engine
end_worker [] s = record s { workers = s.workers - 1 }
end_worker (e ∷ es) s = s

-- The range over the channel ends once it is closed and empty.
unfoldable pub worker_ends : Engine → Engine
worker_ends s = if s.is_closed then end_worker s.events s else s

-- The goroutine of the cleanup returns when the context is done,
unfoldable pub cleaner_ends : Engine → Engine
cleaner_ends s = if s.is_cancelled then record s { is_cleaning = false } else s

abbrev pub end_poller : List Event → Engine → Engine
end_poller [] s = record s { is_polling = false }
end_poller (e ∷ es) s = s

-- and the poller between its calls of enqueueEvent.
unfoldable pub poller_ends : Engine → Engine
poller_ends s = if s.is_cancelled then end_poller s.polling s else s

-- `shutdown`: the context is cancelled,
unfoldable pub cancel : Engine → Engine
cancel s = record s { is_cancelled = true }

-- the channel is closed once the producers have returned,
unfoldable pub close_events : Engine → Engine
close_events s =
    if s.is_cancelled
    then (if s.is_cleaning || s.is_polling then s else record s { is_closed = true })
    else s

-- and it returns once the workers have.
unfoldable pub has_shut_down : Engine → Bool
has_shut_down s = if s.is_closed then s.workers == 0 else false
