-- ===== src/Http2/Tests.antt =====
-- A small connection, and what h2client.go does with it.
mod Bodies
use scalpel_cli.Common.{
  ℕ, ◌+◌, ◌≤◌, ◌<◌, ◌≡◌, refl, true, false, List, [], ◌∷◌, ◌++◌, none, some, arith,
}
use scalpel_cli.Common.Int.{pos, ◌-ℤ◌, ◌≤ℤ◌}
use scalpel_cli.Http2.Types.{
  ErrCode, protocol, H2Error, connection_error, Stage, no_get_body, Request, Response, Stream,
  Client, ok, err, panic, Frame, push_promise, rst_stream, target_stream_window_size,
  target_conn_window_size,
}
use scalpel_cli.Http2.Streams.{find, remove}
use scalpel_cli.Http2.Conn.{
  fresh_client, ConnectIo, connect, begin_shutdown, close_done, end_shutdown, shutdown,
  initialize_stream, finalize_stream,
}
use scalpel_cli.Http2.Frames.{
  process_frame, process_control_frame, read_frame, read_step, read_loop,
}
use scalpel_cli.Http2.Writes.{header_frames, enqueue}
use scalpel_cli.Http2.Sending.{
  cut_chunk, chunk_size, queue_data, debited, put_object, Round, waiting, failed, Padding, Turn,
  finished, pending, stream_object, send_round, sent, send_data, frame_limit, full_chunk,
}
use scalpel_cli.Http2.Calls.{
  close, wait_response, refused, replied, first_select, second_select, stream_done,
}
use scalpel_cli.Http2.Invariant.{Inv}
use scalpel_cli.Http2.Steps.{
  here, next, connects, opens, reads, begins_shutdown, closes_done, ends_shutdown, reachable-Inv,
}
use scalpel_cli.Http2.Responses.{Replied, data_frames, join}
use scalpel_cli.Http2.Responses.Assembled.{response_assembled}
use scalpel_cli.Http2.SendLoop.{concat, send_data_conserves}
use scalpel_cli.Http2.SendEnds.{Calm, send_data_finishes, send_data_starves}
use scalpel_cli.Http2.Chunks.{send_round_fits}
use scalpel_cli.Http2.HeaderBlocks.{block_of, WellCut, header_frames_carry}
use scalpel_cli.Http2.Errors.{process_frame_error}
use scalpel_cli.Http2.Isolation.{process_frame_isolated}
use scalpel_cli.Http2.Lifecycle.{
  reopened_panics, shutdown_final, early_response_lost, first_select_raw,
}
use scalpel_cli.Http2.Padded.{data_payload, padded_frame_overruns}

abbrev get_root : Request
get_root = record {
  method = "GET";
  host = "example.com";
  uri = "/";
  content_length = pos 0;
  header = [];
  has_body = false;
  body_source = no_get_body;
}

-- Streams 1 and 3, with their status, and one on which nothing has come.
abbrev stream_number : ℕ → Stream
stream_number i = record {
  id = i;
  request = get_root;
  response = none;
  body = [];
  headers = ("server", "x") ∷ [];
  status_code = pos 200;
  done = none;
  send_window = pos 10;
  recv_window = target_stream_window_size;
  recv_window_max = target_stream_window_size;
}

abbrev busy_client : Client
busy_client = record {
  is_connected = true;
  next_stream_id = 5;
  streams = stream_number 1 ∷ stream_number 3 ∷ [];
  streams_nil = false;
  detached = [];
  last_used = 0;
  conn_send_window = pos 65535;
  max_frame_size = 4;
  initial_stream_send_window = 65535;
  conn_recv_window = target_conn_window_size;
  conn_recv_window_max = target_conn_window_size;
  ping_acks = [];
  acked_pings = [];
  write_queue = [];
  done_closed = false;
  fatal_error = none;
  wire = [];
  table_sizes = [];
  encoded = [];
}

abbrev all_written : ConnectIo
all_written = record {
  dialed = true;
  preface_written = true;
  settings_written = true;
  update_written = true;
}

-- Nothing happens between two rounds, and the write succeeds.
abbrev quiet_turn : Turn
quiet_turn = record { others = λ c. c; write_error = none; choose_done = false }

-- The wire after a client has connected, opened a stream, read a frame for it and shut down.
abbrev connected : Client
connected = (connect all_written 1 (fresh_client 0)).0

abbrev opened : Client
opened = elim (initialize_stream get_root 2 connected) [
  | ok (c, s) ↦ c
  | err e ↦ connected
  | panic ↦ connected
]

abbrev reset_of : ℕ → Frame
reset_of i = record { stream_id = i; payload = rst_stream protocol }

-- The client has begun to shut down, while the read loop still takes a frame for its stream.
abbrev shutting : Client
shutting = close_done (read_step 3 (read_frame (reset_of 1)) (begin_shutdown none opened)).0

reachable-Inv_example : Inv (end_shutdown none shutting)
unfolding fresh_client connect initialize_stream begin_shutdown
reachable-Inv_example = reachable-Inv 0 (
    next
      (next
        (next
          (next
            (next (next here (connects all_written 1 (fresh_client 0)))
              (opens get_root 2 connected refl))
            (begins_shutdown none opened))
          (reads 3 (read_frame (reset_of 1)) (begin_shutdown none opened)))
        (closes_done (read_step 3 (read_frame (reset_of 1)) (begin_shutdown none opened)).0))
      (ends_shutdown none shutting refl))

response_assembled_example :
    ((read_loop (data_frames 9 3 ((1 ∷ 2 ∷ []) ∷ []) (3 ∷ [])) busy_client).1 ≡ true)
    × Replied 3
        (stream_number 3)
        (1 ∷ 2 ∷ 3 ∷ [])
        (read_loop (data_frames 9 3 ((1 ∷ 2 ∷ []) ∷ []) (3 ∷ [])) busy_client).0
unfolding find join
response_assembled_example =
    response_assembled 9 3 ((1 ∷ 2 ∷ []) ∷ []) (3 ∷ []) busy_client (stream_number 3) (record {
      numbered = ground arith;
      held = refl;
      status = ground arith;
      undone = refl;
      running = refl;
      conn = ground arith;
      own = ground arith;
      size = ground arith;
    })

reopened_panics_example :
    ((connect all_written 5 (close busy_client)).0.is_connected ≡ true)
    × (initialize_stream get_root 6 (connect all_written 5 (close busy_client)).0 ≡ panic)
unfolding connect close shutdown
reopened_panics_example = reopened_panics all_written 5 6 get_root busy_client refl refl refl

-- A stream whose response is complete, while its caller is in `Do`.
abbrev answer : Response
answer = record {
  status_code = pos 200;
  header = ("content-encoding", "gzip") ∷ [];
  body = 31 ∷ [];
  content_length = 1;
  request = get_root;
}

abbrev answered_client : Client
answered_client = record busy_client {
  streams = [];
  detached = record (stream_number 3) { response = some answer; done = some none } ∷ [];
}

abbrev emptied : Response → Response
emptied r = record r { body = [] }
