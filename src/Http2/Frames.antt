-- ===== src/Http2/Frames.antt =====
-- What a frame from the server does: processHeadersFrame, processPingFrame, processControlFrame,
-- processFrame and readLoop of pkg/customhttp/h2client.go.
use text.Mathlib.Text.{starts_with, ◌==◌ as str_eq}
use scalpel_cli.Common.{
  ◌%◌, ℕ, Bool, true, false, not, ◌&&◌, ◌⊎◌, inl, inr, List, [], ◌∷◌, ◌++◌, Option, none, some, ltb,
  ◌==◌, if◌then◌else◌, length,
}
use scalpel_cli.Common.Int.{ℤ}
use scalpel_cli.Common.Text.{atoi}
use scalpel_cli.Http2.Types.{
  ErrCode, H2Error, connection_error, stream_error, stream_reset, protocol, internal, Stage, Field,
  Stream, Client, write_ping, write_rst_stream, out_window_update, Frame, Payload, meta_headers,
  body_data, rst_stream, window_update, settings, ping, goaway, push_promise, unknown, uint32_mod,
}
use scalpel_cli.Http2.Streams.{find, put}
use scalpel_cli.Http2.Conn.{shutdown, cleanup_stream, finalize_stream}
use scalpel_cli.Http2.Flow.{
  try_enqueue, process_window_update_frame, process_settings_frame, process_data_frame, is_zero,
}

abbrev set_status : Stream → Option ℤ → H2Error ⊎ Stream
set_status s none = inl (stream_error s.id protocol)
set_status s (some k) = inr (record s { status_code = k })

-- One round of the loop over the fields. A pseudo-header other than the status is passed over.
unfoldable pub add_field : Bool → Stream → Field → H2Error ⊎ Stream
add_field is_trailer s (name, value) =
    if starts_with name ":"
    then if is_trailer
      then inl (stream_error s.id protocol)
      else if str_eq name ":status"
      then set_status s (atoi value)
      else inr s
    else inr (record s { headers = s.headers ++ (name, value) ∷ [] })

unfoldable pub add_fields : Bool → List Field → Stream → Stream × Option H2Error
add_fields is_trailer [] s = (s, none)
add_fields is_trailer (f ∷ fs) s = elim (add_field is_trailer s f) [
  | inl e ↦ (s, some e)
  | inr s' ↦ add_fields is_trailer fs s'
]

-- The checks behind the loop.
abbrev pub end_headers : Bool → Bool → Stream × Option H2Error → Stream × Bool × Option H2Error
end_headers is_trailer ended (s, some e) = (s, false, some e)
end_headers is_trailer ended (s, none) =
    if not is_trailer && is_zero s.status_code
    then (s, false, some (stream_error s.id protocol))
    else (s, ended, none)

unfoldable pub process_headers_frame : Stream → List Field → Bool → Stream × Bool × Option H2Error
process_headers_frame s fields ended =
    if not (is_zero s.status_code) && not ended
    then (s, false, none)
    else end_headers (not (is_zero s.status_code)) ended
        (add_fields (not (is_zero s.status_code)) fields s)

unfoldable pub contains : ℕ → List ℕ → Bool
contains i [] = false
contains i (j ∷ js) = if j == i then true else contains i js

unfoldable pub erase : ℕ → List ℕ → List ℕ
erase i [] = []
erase i (j ∷ js) = if j == i then js else j ∷ erase i js

-- An acknowledgement closes its channel once; a PING is answered where there is room.
unfoldable pub process_ping_frame : Bool → ℕ → Client → Client
unfolding contains erase
process_ping_frame true payload c =
    if contains payload c.ping_acks
    then record c { ping_acks = erase payload c.ping_acks; acked_pings = payload ∷ c.acked_pings }
    else c
process_ping_frame false payload c =
    if c.is_connected then (try_enqueue (write_ping payload true) c).0 else c

unfoldable pub process_control_frame : Payload → Client → Client × Option H2Error
process_control_frame (settings ack xs) c = process_settings_frame ack xs c
process_control_frame (ping ack payload) c = (process_ping_frame ack payload c, none)
process_control_frame (goaway code) c = (shutdown (some (H2Error.goaway_received code)) c, none)
process_control_frame (window_update increment) c = process_window_update_frame none increment c
process_control_frame unknown c = (c, none)
process_control_frame _ c = (c, some (connection_error protocol))

abbrev put_headers : Client → Stream × Bool × Option H2Error → Client × Bool × Option H2Error
put_headers c (s, ended, e) = (record c { streams = put s c.streams }, ended, e)

abbrev not_ended : Client × Option H2Error → Client × Bool × Option H2Error
not_ended (c, e) = (c, false, e)

-- The switch of `processFrame` on a stream of the map: the client, whether the stream ended, an error.
unfoldable pub dispatch_frame : Payload → Stream → Client → Client × Bool × Option H2Error
dispatch_frame (meta_headers fields ended) s c =
    put_headers c (process_headers_frame s fields ended)
dispatch_frame (body_data bytes ended) s c = process_data_frame s bytes ended c
dispatch_frame (rst_stream code) s c = (c, true, some (stream_reset code))
dispatch_frame (window_update increment) s c =
    not_ended (process_window_update_frame (some s) increment c)
dispatch_frame _ s c = (c, false, none)

-- `errors.As` to a StreamError, with the default.
abbrev pub reset_code : H2Error → ErrCode
reset_code (stream_error _ code) = code
reset_code _ = internal

unfoldable pub queue_reset : ℕ → ErrCode → Client → Client
queue_reset i code c = if c.is_connected then (try_enqueue (write_rst_stream i code) c).0 else c

-- A stream error: RST_STREAM unless the stream has ended, and the stream is dropped.
unfoldable pub fail_stream : ℕ → ℕ → Bool → H2Error → Client → Client
unfolding queue_reset
fail_stream now i ended e c =
    cleanup_stream now i e (if ended then c else queue_reset i (reset_code e) c)

-- What follows the switch. Only a ConnectionError is returned.
unfoldable pub settle : ℕ → ℕ → Client × Bool × Option H2Error → Client × Option H2Error
settle now i (c, ended, some (connection_error code)) = (c, some (connection_error code))
settle now i (c, ended, some e) = (fail_stream now i ended e c, none)
settle now i (c, ended, none) = (if ended then finalize_stream now i c else c, none)

-- A frame for a stream that is not in the map. Its bytes are given back to the connection window.
unfoldable pub unknown_stream_frame : Payload → Client → Client × Option H2Error
unknown_stream_frame push_promise c = (c, some (connection_error protocol))
unknown_stream_frame (body_data bytes ended) c =
    if ltb 0 (length bytes) && c.is_connected
    then (record c { wire = c.wire ++ out_window_update 0 (length bytes % uint32_mod) ∷ [] }, none)
    else (c, none)
unknown_stream_frame _ c = (c, none)

unfoldable pub process_frame : ℕ → Frame → Client → Client × Option H2Error
process_frame now f c =
    if f.stream_id == 0
    then process_control_frame f.payload c
    else elim (find f.stream_id c.streams) [
      | none ↦ unknown_stream_frame f.payload c
      | some s ↦ settle now f.stream_id (dispatch_frame f.payload s c)
    ]

-- What `ReadFrame` returns.
pub data ReadResult : Type 0 where
  read_frame : Frame → ReadResult
  read_eof read_timed_out : ReadResult
  read_failed : H2Error → ReadResult

-- The deferred call of `readLoop`.
unfoldable pub leave_read_loop : Client → Client
leave_read_loop c = if c.is_connected then shutdown (some H2Error.unexpected_exit) c else c

abbrev pub after_frame : Client × Option H2Error → Client × Bool
after_frame (c, none) = (c, true)
after_frame (c, some e) = (leave_read_loop (shutdown (some e) c), false)

-- A read on an open connection.
unfoldable pub read_open : ℕ → ReadResult → Client → Client × Bool
unfolding leave_read_loop
read_open now (read_frame f) c = after_frame (process_frame now f c)
read_open now read_eof c = (leave_read_loop c, false)
read_open now read_timed_out c = (leave_read_loop (shutdown (some H2Error.read_timeout) c), false)
read_open now (read_failed e) c =
    (leave_read_loop (shutdown (some (H2Error.wrapped Stage.frame_read e)) c), false)

-- One round of `readLoop`; the flag says whether the loop goes on.
unfoldable pub read_step : ℕ → ReadResult → Client → Client × Bool
read_step now r c = if c.done_closed then (leave_read_loop c, false) else read_open now r c

-- The loop over what arrives, each with its time.
unfoldable pub read_loop : List (ℕ × ReadResult) → Client → Client × Bool
read_loop [] c = (c, true)
read_loop ((now, r) ∷ rs) c =
    let (c', more) = read_step now r c in elim more [ true ↦ read_loop rs c' | false ↦ (c', false) ]
