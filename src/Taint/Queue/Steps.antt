-- ===== src/Taint/Queue/Steps.antt =====
-- What holds of the queue of internal/analysis/active/taint/taint_analyzer.go in every order of steps.
use scalpel_cli.Common.{
  remove_at, remove_at-nil, ℕ, ◌≤◌, ◌<◌, ◌≡◌, refl, Bool, true, false, List, [], ◌∷◌, ◌++◌, arith,
  length, length-append, get_elem?, Option-cases, Bool-cases, inl, inr,
}
use mathlib.Core.List.{append_assoc}
use scalpel_cli.Taint.Types.{Event}
use scalpel_cli.Taint.Queue.{
  Engine, start_workers, try_send, check_callback, send_callback, check_poll, send_poll, take_event,
  end_worker, end_poller, worker_takes, worker_ends, cleaner_ends, poller_ends, cancel,
  close_events,
}

pub data Step : Engine → Engine → Type 0 where
  callback_checks : (e : Event) (s : Engine) → Step s (check_callback e s)
  callback_sends : (i : ℕ) (s : Engine) → Step s (send_callback i s)
  poller_checks : (e : Event) (s : Engine) → Step s (check_poll e s)
  poller_sends : (i : ℕ) (s : Engine) → Step s (send_poll i s)
  worker_took : (s : Engine) → Step s (worker_takes s)
  worker_ended : (s : Engine) → Step s (worker_ends s)
  cleaner_ended : (s : Engine) → Step s (cleaner_ends s)
  poller_ended : (s : Engine) → Step s (poller_ends s)
  cancelled : (s : Engine) → Step s (cancel s)
  closed : (s : Engine) → Step s (close_events s)

pub data Reach (start : Engine) : Engine → Type 0 where
  here : Reach start start
  later : {s t : Engine} → Reach start s → Step s t → Reach start t

-- `n` is the number of workers that were started.
pub record Inv (n : ℕ) (s : Engine) : Type 0 where
  pub conserved : s.accepted ≡ s.taken ++ s.events
  pub bounded : length s.events ≤ s.capacity
  pub closed_late : s.is_closed ≡ true → (s.is_cancelled ≡ true) × (s.is_polling ≡ false)
  pub polled : s.is_polling ≡ false → s.polling ≡ []
  pub ended : s.workers < n → (s.is_closed ≡ true) × (s.events ≡ [])
  pub started : s.workers ≤ n

start_workers-Inv : (cap n : ℕ) (o : Bool) → Inv n (start_workers cap n o)
start_workers-Inv cap n o = record {
  conserved = refl;
  bounded = omega arith;
  closed_late = λ e. absurd (ground (arith, e));
  polled = λ e. refl;
  ended = λ h. absurd (omega arith);
  started = omega arith;
}

module _ (n : ℕ) where
  try_send-Inv : (e : Event) (s : Engine) → Inv n s → Inv n (try_send e s)
  unfolding try_send
  try_send-Inv e s i =
      ground (arith, length-append s.events (e ∷ []), append_assoc s.taken s.events (e ∷ []))

  take_event-Inv :
      (s : Engine) → (es : List Event) → s.events ≡ es → Inv n s → Inv n (take_event es s)
  take_event-Inv s [] h i = i
  take_event-Inv s (e ∷ es) h i = ground (arith, h, append_assoc s.taken (e ∷ []) es)

  end_worker-Inv :
      (s : Engine)
      → (es : List Event) → s.events ≡ es
      → s.is_closed ≡ true
      → Inv n s
      → Inv n (end_worker es s)
  end_worker-Inv s [] h c i = ground (arith, h, c)
  end_worker-Inv s (e ∷ es) h c i = i

  worker_takes-Inv : (s : Engine) → Inv n s → Inv n (worker_takes s)
  unfolding worker_takes
  worker_takes-Inv s i = ground (arith, take_event-Inv s s.events refl i)

  worker_ends-Inv : (s : Engine) → Inv n s → Inv n (worker_ends s)
  unfolding worker_ends
  worker_ends-Inv s i = elim (Bool-cases s.is_closed) [
    | inl c ↦ ground (arith, c, end_worker-Inv s s.events refl c i)
    | inr c ↦ ground (arith, c, i)
  ]

  check_callback-Inv : (e : Event) (s : Engine) → Inv n s → Inv n (check_callback e s)
  unfolding check_callback
  check_callback-Inv e s i = ground arith

  send_callback-Inv : (j : ℕ) (s : Engine) → Inv n s → Inv n (send_callback j s)
  unfolding send_callback
  send_callback-Inv j s i = elim (Option-cases (get_elem? s.checked j)) [
    | inl h ↦ rw (h, send_callback) i
    | inr (e, h) ↦
        rw (h, send_callback)
          (try_send-Inv e (record s { checked = remove_at j s.checked }) (ground arith))
  ]

  check_poll-Inv : (e : Event) (s : Engine) → Inv n s → Inv n (check_poll e s)
  unfolding check_poll
  check_poll-Inv e s i = ground arith

  send_poll-Inv : (j : ℕ) (s : Engine) → Inv n s → Inv n (send_poll j s)
  unfolding send_poll
  send_poll-Inv j s i = elim (Option-cases (get_elem? s.polling j)) [
    | inl h ↦ rw (h, send_poll) i
    | inr (e, h) ↦
        rw (h, send_poll)
          (try_send-Inv e (record s { polling = remove_at j s.polling })
            (ground (arith, i, remove_at-nil {A = Event} j)))
  ]

  cleaner_ends-Inv : (s : Engine) → Inv n s → Inv n (cleaner_ends s)
  unfolding cleaner_ends
  cleaner_ends-Inv s i = ground arith

  end_poller-Inv :
      (s : Engine)
      → (es : List Event) → s.polling ≡ es
      → Inv n s
      → s.is_cancelled ≡ true
      → Inv n (end_poller es s)
  end_poller-Inv s [] h i c = ground (arith, h, c)
  end_poller-Inv s (e ∷ es) h i c = i

  poller_ends-Inv : (s : Engine) → Inv n s → Inv n (poller_ends s)
  unfolding poller_ends
  poller_ends-Inv s i = elim (Bool-cases s.is_cancelled) [
    | inl c ↦ ground (arith, c, end_poller-Inv s s.polling refl i c)
    | inr c ↦ ground (arith, c, i)
  ]

  cancel-Inv : (s : Engine) → Inv n s → Inv n (cancel s)
  unfolding cancel
  cancel-Inv s i = ground arith

  close_events-Inv : (s : Engine) → Inv n s → Inv n (close_events s)
  unfolding close_events
  close_events-Inv s i = ground arith

  pub Step-Inv : {s t : Engine} → Step s t → Inv n s → Inv n t
  Step-Inv (callback_checks e s) i = check_callback-Inv e s i
  Step-Inv (callback_sends j s) i = send_callback-Inv j s i
  Step-Inv (poller_checks e s) i = check_poll-Inv e s i
  Step-Inv (poller_sends j s) i = send_poll-Inv j s i
  Step-Inv (worker_took s) i = worker_takes-Inv s i
  Step-Inv (worker_ended s) i = worker_ends-Inv s i
  Step-Inv (cleaner_ended s) i = cleaner_ends-Inv s i
  Step-Inv (poller_ended s) i = poller_ends-Inv s i
  Step-Inv (cancelled s) i = cancel-Inv s i
  Step-Inv (closed s) i = close_events-Inv s i

-- In every order of the callbacks, the poller, the workers and the sections of a shutdown, the
-- events that the channel accepted are those taken and those waiting in order, no more wait than it
-- holds, it is closed only after the cancellation and the end of the poller, and a worker ends only
-- once it is closed and empty.
pub reachable_queue-Inv :
    (capacity n : ℕ) (has_oast : Bool) {s : Engine}
    → Reach (start_workers capacity n has_oast) s
    → Inv n s
reachable_queue-Inv capacity n o here = start_workers-Inv capacity n o
reachable_queue-Inv capacity n o (later r st) = Step-Inv n st (reachable_queue-Inv capacity n o r)
