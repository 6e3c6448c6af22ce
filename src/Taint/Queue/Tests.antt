-- ===== src/Taint/Queue/Tests.antt =====
-- The queue of internal/analysis/active/taint at concrete inputs.
use scalpel_cli.Common.{◌≤◌, ◌≡◌, refl, true, false, [], some, arith, get_elem?}
use scalpel_cli.Taint.Types.{SinkEvent, Event, sink}
use scalpel_cli.Taint.Queue.{
  Engine, try_send, start_workers, check_callback, send_callback, worker_takes, worker_ends,
  cleaner_ends, cancel, close_events, has_shut_down,
}
use scalpel_cli.Taint.Queue.Steps.{
  callback_checks, callback_sends, worker_took, worker_ended, cleaner_ended, cancelled, closed,
  Reach, here, later, Inv, reachable_queue-Inv,
}
use scalpel_cli.Taint.Queue.Drained.{all_handled, rounds_left, work, work_ends}
use scalpel_cli.Taint.Queue.Late.{shut, late_callback_panics}

abbrev html_event : SinkEvent
html_event = record {
  type = "INNER_HTML";
  value = "<img>SCALPEL_Q_XSS_01234567";
  detail = "innerHTML";
  stack_trace = "at app.js";
  page_url = "https://a/";
  page_title = "A";
}

-- A queue of one event with one worker.
abbrev started : Engine
started = start_workers 1 1 false

abbrev event : Event
event = sink html_event

abbrev checking : Engine
checking = check_callback event started

abbrev sent : Engine
sent = send_callback 0 checking

abbrev closing : Engine
closing = close_events (cleaner_ends (cancel sent))

abbrev finished : Engine
finished = worker_ends (worker_takes closing)

finished_reached : Reach started finished
finished_reached =
    later
      (later
        (later
          (later
            (later (later (later here (callback_checks event started)) (callback_sends 0 checking))
              (cancelled sent))
            (cleaner_ended (cancel sent)))
          (closed (cleaner_ends (cancel sent))))
        (worker_took closing))
      (worker_ended (worker_takes closing))

reachable_queue-Inv_example : Inv 1 finished
reachable_queue-Inv_example = reachable_queue-Inv 1 1 false finished_reached

has_finished : has_shut_down finished ≡ true
unfolding check_callback send_callback try_send cancel cleaner_ends close_events worker_takes
    worker_ends has_shut_down
has_finished = refl

all_handled_example : finished.taken ≡ finished.accepted
all_handled_example = all_handled 1 1 false (omega arith) finished_reached has_finished

is_closing : closing.is_closed ≡ true
unfolding check_callback send_callback try_send cancel cleaner_ends close_events
is_closing = refl

few_rounds : rounds_left closing ≤ 2
unfolding check_callback send_callback try_send cancel cleaner_ends close_events
few_rounds = omega arith

work_ends_example : has_shut_down (work 2 closing) ≡ true
work_ends_example = work_ends 2 closing is_closing few_rounds

is_checking : get_elem? checking.checked 0 ≡ some event
unfolding check_callback
is_checking = refl

no_polls : checking.polling ≡ []
unfolding check_callback
no_polls = refl

late_callback_panics_example : (send_callback 0 (shut checking)).has_panicked ≡ true
late_callback_panics_example = late_callback_panics 0 checking event no_polls is_checking
