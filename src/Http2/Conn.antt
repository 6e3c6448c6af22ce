-- ===== src/Http2/Conn.antt =====
-- The life of a connection and of its streams: NewH2Client, IsIdle, Connect, shutdown,
-- initializeStream, cleanupStream and finalizeStream of pkg/customhttp/h2client.go.
use Prim.Native.String.{String}
use text.Mathlib.Text.{◌==◌ as str_eq}
use scalpel_cli.Common.{
  ℕ, ◌+◌, ◌-◌, ◌%◌, Bool, true, false, not, ◌&&◌, ◌||◌, List, [], ◌∷◌, ◌++◌, map, Option, none,
  some, ltb, if◌then◌else◌, length,
}
use scalpel_cli.Common.Int.{pos}
use scalpel_cli.Http2.Types.{
  H2Error, Stage, Request, Response, Stream, Client, Result, ok, err, panic, enable_push,
  initial_window_size, OutFrame, out_preface, out_settings, out_window_update,
  default_initial_window_size, default_max_frame_size, target_conn_window_size,
  target_stream_window_size, uint32_mod,
}
use scalpel_cli.Http2.Streams.{find, remove, deliver}

abbrev pub is_some {ℓ} : {A : Type ℓ} → Option A → Bool
is_some none = false
is_some (some _) = true

-- The fields that `NewH2Client` sets.
unfoldable pub fresh_client : ℕ → Client
fresh_client now = record {
  is_connected = false;
  next_stream_id = 1;
  streams = [];
  streams_nil = false;
  detached = [];
  last_used = now;
  conn_send_window = pos default_initial_window_size;
  max_frame_size = default_max_frame_size;
  initial_stream_send_window = default_initial_window_size;
  conn_recv_window = target_conn_window_size;
  conn_recv_window_max = target_conn_window_size;
  ping_acks = [];
  acked_pings = [];
  write_queue = [];
  done_closed = false;
  fatal_error = none;
  wire = [];
  table_sizes = [];
  encoded = [];
}

-- `NewH2Client`; the address is that of `determineAddress`, or its error.
unfoldable pub new_client : (scheme : String) → Result String → (now : ℕ) → Result Client
unfolding fresh_client
new_client scheme (ok address) now =
    if str_eq scheme "https" then ok (fresh_client now) else err H2Error.unsupported_scheme
new_client scheme (err e) now =
    if str_eq scheme "https" then err e else err H2Error.unsupported_scheme
new_client scheme panic now = panic

unfoldable pub is_idle : (now timeout : ℕ) → Client → Bool
is_idle now timeout c =
    if not c.is_connected || is_some c.fatal_error
    then true
    else if ltb 0 (length c.streams)
    then false
    else ltb timeout (now - c.last_used)

-- Which of the four writes of `Connect` succeed.
pub record ConnectIo : Type 0 where
  pub dialed : Bool
  pub preface_written : Bool
  pub settings_written : Bool
  pub update_written : Bool

-- The WINDOW_UPDATE of `Connect`, which is sent only above the default window.
unfoldable pub initial_update : Client → List OutFrame
initial_update c =
    if ltb default_initial_window_size c.conn_recv_window
    then out_window_update 0 ((c.conn_recv_window - default_initial_window_size) % uint32_mod) ∷ []
    else []

unfoldable pub connected_client : ℕ → Client → Client
unfolding initial_update
connected_client now c = record c {
  is_connected = true;
  last_used = now;
  wire =
      c.wire
      ++ (out_preface
          ∷ out_settings (enable_push 0 ∷ initial_window_size target_stream_window_size ∷ [])
          ∷ initial_update c);
}

unfoldable pub dial_and_greet : ConnectIo → ℕ → Client → Client × Option H2Error
unfolding connected_client
dial_and_greet io now c =
    if not io.dialed
    then (c, some H2Error.dial_failed)
    else if not io.preface_written
    then (c, some H2Error.preface_failed)
    else if not io.settings_written
    then (c, some H2Error.settings_failed)
    else if ltb default_initial_window_size c.conn_recv_window && not io.update_written
    then (c, some H2Error.window_update_failed)
    else (connected_client now c, none)

unfoldable pub connect : ConnectIo → ℕ → Client → Client × Option H2Error
unfolding dial_and_greet
connect io now c = if c.is_connected then (c, none) else elim c.fatal_error [
  | some e ↦ (c, some (H2Error.wrapped Stage.previously_failed e))
  | none ↦ dial_and_greet io now c
]

-- `if err == nil { err = io.EOF }`
abbrev pub or_eof : Option H2Error → H2Error
or_eof none = H2Error.end_of_file
or_eof (some e) = e

-- `if c.fatalError == nil { c.fatalError = err }`
abbrev pub keep_first : Option H2Error → Option H2Error → Option H2Error
keep_first none e = e
keep_first (some f) e = some f

-- The sections of `shutdown`: the first one under the lock, where the rest is skipped on a connection
-- that is shut already; the close of `doneChan`, once; and the second one under the lock, in which each
-- stream in the map gets the error, and the map becomes nil.
unfoldable pub begin_shutdown : Option H2Error → Client → Client
begin_shutdown e c =
    if not c.is_connected
    then c
    else record c { is_connected = false; fatal_error = keep_first c.fatal_error e }

abbrev pub close_done : Client → Client
close_done c = record c { done_closed = true }

unfoldable pub end_shutdown : Option H2Error → Client → Client
end_shutdown e c = record c {
  streams = [];
  streams_nil = true;
  detached = map (deliver (some (or_eof e))) c.streams ++ c.detached;
}

-- `shutdown` where nobody else runs between its sections.
unfoldable pub shutdown : Option H2Error → Client → Client
unfolding begin_shutdown end_shutdown
shutdown e c = if not c.is_connected then c else end_shutdown e (close_done (begin_shutdown e c))

unfoldable pub new_stream : Request → Client → Stream
new_stream r c = record {
  id = c.next_stream_id;
  request = r;
  response = none;
  body = [];
  headers = [];
  status_code = pos 0;
  done = none;
  send_window = pos c.initial_stream_send_window;
  recv_window = target_stream_window_size;
  recv_window_max = target_stream_window_size;
}

-- `initializeStream`. The counter is a uint32; an assignment to a nil map panics.
unfoldable pub initialize_stream : Request → ℕ → Client → Result (Client × Stream)
unfolding new_stream
initialize_stream r now c =
    if not c.is_connected
    then elim c.fatal_error [
      | some e ↦ err (H2Error.wrapped Stage.connection_closed_by e)
      | none ↦ err H2Error.connection_closed
    ]
    else if c.streams_nil
    then panic
    else ok (
      record c {
        next_stream_id = (c.next_stream_id + 2) % uint32_mod;
        streams = new_stream r c ∷ remove c.next_stream_id c.streams;
        last_used = now;
      },
      new_stream r c,
    )

unfoldable pub cleanup_stream : ℕ → ℕ → H2Error → Client → Client
cleanup_stream now i e c = elim (find i c.streams) [
  | some s ↦ record c {
    streams = remove i c.streams;
    detached = deliver (some e) s ∷ c.detached;
    last_used = now;
  }
  | none ↦ record c { last_used = now }
]

unfoldable pub response_of : Stream → Response
response_of s = record {
  status_code = s.status_code;
  header = s.headers;
  body = s.body;
  content_length = length s.body;
  request = s.request;
}

unfoldable pub finalize_stream : ℕ → ℕ → Client → Client
unfolding response_of
finalize_stream now i c = elim (find i c.streams) [
  | some s ↦ record c {
    streams = remove i c.streams;
    detached = deliver none (record s { response = some (response_of s) }) ∷ c.detached;
    last_used = now;
  }
  | none ↦ c
]
