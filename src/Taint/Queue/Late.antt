-- ===== src/Taint/Queue/Late.antt =====
-- Events that come late to the queue of internal/analysis/active/taint/taint_analyzer.go.
use Prim.Native.String.{String}
use scalpel_cli.Common.{
  remove_at, ℕ, zero, suc, ◌≡◌, refl, sym, ap, ◌∙◌, Bool, true, false, List, [], ◌∷◌, Option, none,
  some, inl, inr, arith, get_elem?, Option-cases, Bool-cases,
}
use scalpel_cli.Common.Dict.{Dict}
use scalpel_cli.Taint.Types.{ActiveProbe, Event, OastInteraction}
use scalpel_cli.Taint.Queue.{
  Engine, start_workers, try_send, enqueue_event, enqueue_all, oast_canaries, fetch_for,
  fetch_and_enqueue, check_callback, send_callback, check_poll, send_poll, worker_takes, take_event,
  worker_ends, end_worker, cleaner_ends, poller_ends, end_poller, cancel, close_events,
}
use scalpel_cli.Taint.Queue.Steps.{
  Step, callback_checks, callback_sends, poller_checks, poller_sends, worker_took, worker_ended,
  cleaner_ended, poller_ended, cancelled, closed, Reach, here, later, Inv, Step-Inv,
  reachable_queue-Inv,
}

enqueue_all_cancelled :
    (is : List OastInteraction) (s : Engine) → s.is_cancelled ≡ true → enqueue_all is s ≡ s
unfolding enqueue_all enqueue_event
enqueue_all_cancelled [] s h = refl
enqueue_all_cancelled (i ∷ is) s h = ground (arith, h, enqueue_all_cancelled is s h)

fetch_for_cancelled :
    (cs : List String) (ask : List String → Option (List OastInteraction)) (s : Engine)
    → s.is_cancelled ≡ true
    → fetch_for cs ask s ≡ s
fetch_for_cancelled [] ask s h = refl
fetch_for_cancelled (c ∷ cs) ask s h = elim (Option-cases (ask (c ∷ cs))) [
  | inl e ↦ rw (e) refl
  | inr (is, e) ↦ rw (e) (enqueue_all_cancelled is s h)
]

-- The last poll.
pub final_poll_lost :
    (server : String) (ask : List String → Option (List OastInteraction))
    (probes : Dict ActiveProbe) (s : Engine)
    → fetch_and_enqueue server ask probes (cancel s) ≡ cancel s
unfolding fetch_and_enqueue cancel
final_poll_lost server ask probes s =
    fetch_for_cancelled (oast_canaries server probes) ask (cancel s) refl

-- The statements of `shutdown` up to the closing of the channel, with the poller's and the cleaner's end.
abbrev pub shut : Engine → Engine
shut s = close_events (poller_ends (cleaner_ends (cancel s)))

shut_keeps :
    (s : Engine) → s.polling ≡ [] → ((shut s).checked ≡ s.checked) × ((shut s).is_closed ≡ true)
unfolding close_events poller_ends cleaner_ends cancel
shut_keeps s p = ground (arith, p)

closed_panics :
    (i : ℕ) (s : Engine) (e : Event)
    → s.is_closed ≡ true
    → get_elem? s.checked i ≡ some e
    → (send_callback i s).has_panicked ≡ true
unfolding send_callback try_send
closed_panics i s e c h = rw (h, send_callback) (ground (arith, c))

-- A callback that has passed the check of enqueueEvent before the shutdown, while the poller is at
-- no event, panics if it sends after the shutdown has closed the channel.
pub late_callback_panics :
    (i : ℕ) (s : Engine) (e : Event)
    → s.polling ≡ []
    → get_elem? s.checked i ≡ some e
    → (send_callback i (shut s)).has_panicked ≡ true
late_callback_panics i s e p h =
    let (same, shut_now) = shut_keeps s p in
    closed_panics i (shut s) e shut_now (ap (λ c. get_elem? c i) same ∙ h)

get-nil {ℓ} : {A : Type ℓ} (j : ℕ) → get_elem? {A = A} [] j ≡ none
get-nil zero = refl
get-nil (suc j) = refl

-- No callback is between its selects, and nothing has gone wrong.
abbrev pub Quiet : Engine → Type 0
Quiet s = (s.is_cancelled ≡ true) × (s.checked ≡ []) × (s.has_panicked ≡ false)

try_send-Quiet : (e : Event) (s : Engine) → s.is_closed ≡ false → Quiet s → Quiet (try_send e s)
unfolding try_send
try_send-Quiet e s c q = ground (arith, c, q)

callback-Quiet : (j : ℕ) (s : Engine) → Quiet s → Quiet (send_callback j s)
unfolding send_callback
callback-Quiet j s q = elim (Option-cases (get_elem? s.checked j)) [
  | inl h ↦ rw (h, send_callback) q
  | inr (e, h) ↦ absurd (ground (arith, sym h ∙ ap (λ c. get_elem? c j) q.1, get-nil {A = Event} j))
]

poll-Quiet : (n j : ℕ) (s : Engine) → Inv n s → Quiet s → Quiet (send_poll j s)
unfolding send_poll
poll-Quiet n j s i q = elim (Option-cases (get_elem? s.polling j)) [
  | inl h ↦ rw (h, send_poll) q
  | inr (e, h) ↦ elim (Bool-cases s.is_closed) [
    | inl c ↦ absurd (
        ground (
          arith,
          sym h ∙ ap (λ c. get_elem? c j) (i.polled (i.closed_late c).1),
          get-nil {A = Event} j,
        ))
    | inr c ↦
        rw (h, send_poll) (try_send-Quiet e (record s { polling = remove_at j s.polling }) c q)
  ]
]

take_event-Quiet : (es : List Event) (s : Engine) → Quiet s → Quiet (take_event es s)
take_event-Quiet [] s q = q
take_event-Quiet (e ∷ es) s q = q

end_worker-Quiet : (es : List Event) (s : Engine) → Quiet s → Quiet (end_worker es s)
end_worker-Quiet [] s q = q
end_worker-Quiet (e ∷ es) s q = q

end_poller-Quiet : (es : List Event) (s : Engine) → Quiet s → Quiet (end_poller es s)
end_poller-Quiet [] s q = q
end_poller-Quiet (e ∷ es) s q = q

Step-Quiet : (n : ℕ) {s t : Engine} → Step s t → Inv n s → Quiet s → Quiet t
unfolding check_callback check_poll worker_takes worker_ends cleaner_ends poller_ends cancel
    close_events
Step-Quiet n (callback_checks e s) i q = ground (arith, q)
Step-Quiet n (callback_sends j s) i q = callback-Quiet j s q
Step-Quiet n (poller_checks e s) i q = ground (arith, q)
Step-Quiet n (poller_sends j s) i q = poll-Quiet n j s i q
Step-Quiet n (worker_took s) i q = ground (arith, q, take_event-Quiet s.events s q)
Step-Quiet n (worker_ended s) i q = ground (arith, q, end_worker-Quiet s.events s q)
Step-Quiet n (cleaner_ended s) i q = ground (arith, q)
Step-Quiet n (poller_ended s) i q = ground (arith, q, end_poller-Quiet s.polling s q)
Step-Quiet n (cancelled s) i q = ground (arith, q)
Step-Quiet n (closed s) i q = ground (arith, q)

Reach-Quiet : (n : ℕ) {s t : Engine} → Inv n s → Quiet s → Reach s t → Inv n t × Quiet t
Reach-Quiet n i q here = (i, q)
Reach-Quiet n i q (later {s = u} r st) =
    let (j, p) = Reach-Quiet n i q r in (Step-Inv n st j, Step-Quiet n st j p)

-- No late callback, no panic.
pub panics_only_late :
    (capacity n : ℕ) (has_oast : Bool) {s t : Engine}
    → Reach (start_workers capacity n has_oast) s
    → Quiet s
    → Reach s t
    → t.has_panicked ≡ false
panics_only_late capacity n o r q on = (Reach-Quiet n (reachable_queue-Inv capacity n o r) q on).1.2
