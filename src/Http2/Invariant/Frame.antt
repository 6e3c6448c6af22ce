-- ===== src/Http2/Invariant/Frame.antt =====
-- The invariant through Frames: every frame, every read and every write of the connection's loops.
use scalpel_cli.Common.{
  ℕ, ◌≡◌, refl, inl, inr, Bool, true, false, not, List, [], ◌∷◌, Option, none, some, arith,
  Option-cases, Bool-cases, Sum-cases, length, ◌==◌,
}
use scalpel_cli.Common.Text.{atoi}
use scalpel_cli.Http2.Types.{
  H2Error, connection_error, ErrCode, Field, Stream, Client, Frame, Payload, meta_headers,
  body_data, window_update, settings, ping, goaway, push_promise, WriteRequest,
}
use scalpel_cli.Http2.Streams.{find, find-All}
use scalpel_cli.Http2.Flow.{is_zero}
use scalpel_cli.Http2.Frames.{
  add_field, add_fields, process_headers_frame, process_ping_frame, process_control_frame,
  dispatch_frame, queue_reset, fail_stream, settle, unknown_stream_frame, process_frame, ReadResult,
  read_frame, read_eof, read_timed_out, read_failed, leave_read_loop, after_frame, read_open,
  read_step, read_loop,
}
use scalpel_cli.Http2.Invariant.{Live, Inv, shutdown-Inv, cleanup_stream-Inv, finalize_stream-Inv}
use scalpel_cli.Http2.Invariant.Flows.{
  try_enqueue-Inv, connection_update-Inv, stream_update-Inv, put-Inv, process_settings_frame-Inv,
  process_data_frame-Inv,
}

add_field-Live :
    (t : Bool) (s : Stream) (f : Field) {s' : Stream} → Live s → add_field t s f ≡ inr s' → Live s'
unfolding add_field
add_field-Live t s (name, value) l h = ground (arith, Option-cases (atoi value))

add_fields-Live : (t : Bool) (fs : List Field) (s : Stream) → Live s → Live (add_fields t fs s).0
unfolding add_fields
add_fields-Live t [] s l = l
add_fields-Live t (f ∷ fs) s l = elim (Sum-cases (add_field t s f)) [
  | inl (e, p) ↦ rw (p, add_fields) l
  | inr (s', p) ↦ rw (p, add_fields) (add_fields-Live t fs s' (add_field-Live t s f l p))
]

process_headers_frame-Live :
    (s : Stream) (fs : List Field) (ended : Bool)
    → Live s
    → Live (process_headers_frame s fs ended).0
unfolding process_headers_frame
process_headers_frame-Live s fs ended l =
    ground (arith, add_fields-Live (not (is_zero s.status_code)) fs s l)

dispatch_frame-Inv :
    (p : Payload) (s : Stream) (c : Client) → Inv c → Live s → Inv (dispatch_frame p s c).0
unfolding dispatch_frame
dispatch_frame-Inv (meta_headers fs ended) s c v l =
    put-Inv (process_headers_frame s fs ended).0 c v (process_headers_frame-Live s fs ended l)
dispatch_frame-Inv (body_data bytes ended) s c v l =
    process_data_frame-Inv (length bytes) s c v l bytes ended refl
dispatch_frame-Inv (window_update n) s c v l = stream_update-Inv s n c v l
dispatch_frame-Inv _ s c v l = v

pub queue_reset-Inv : (i : ℕ) (code : ErrCode) (c : Client) → Inv c → Inv (queue_reset i code c)
unfolding queue_reset
queue_reset-Inv i code c v =
    ground (arith, try_enqueue-Inv (WriteRequest.write_rst_stream i code) c v)

fail_stream-Inv :
    (now i : ℕ) (ended : Bool) (e : H2Error) (c : Client)
    → Inv c
    → Inv (fail_stream now i ended e c)
unfolding fail_stream
fail_stream-Inv now i true e c v = cleanup_stream-Inv now i c v e
fail_stream-Inv now i false e c v = cleanup_stream-Inv now i _ (queue_reset-Inv i _ c v) e

settle-Inv : (now i : ℕ) (r : Client × Bool × Option H2Error) → Inv r.0 → Inv (settle now i r).0
unfolding settle
settle-Inv now i (c, ended, some (connection_error code)) v = v
settle-Inv now i (c, ended, some e) v = fail_stream-Inv now i ended e c v
settle-Inv now i (c, true, none) v = finalize_stream-Inv now i c v
settle-Inv now i (c, false, none) v = v

unknown_stream_frame-Inv : (p : Payload) (c : Client) → Inv c → Inv (unknown_stream_frame p c).0
unfolding unknown_stream_frame
unknown_stream_frame-Inv push_promise c v = v
unknown_stream_frame-Inv (body_data bytes ended) c v = ground arith
unknown_stream_frame-Inv _ c v = v

process_ping_frame-Inv :
    (ack : Bool) (n : ℕ) (c : Client) → Inv c → Inv (process_ping_frame ack n c)
unfolding process_ping_frame
process_ping_frame-Inv true n c v = ground arith
process_ping_frame-Inv false n c v =
    ground (arith, try_enqueue-Inv (WriteRequest.write_ping n true) c v)

process_control_frame-Inv : (p : Payload) (c : Client) → Inv c → Inv (process_control_frame p c).0
unfolding process_control_frame
process_control_frame-Inv (settings ack xs) c v = process_settings_frame-Inv ack xs c v
process_control_frame-Inv (ping ack n) c v = process_ping_frame-Inv ack n c v
process_control_frame-Inv (goaway code) c v = shutdown-Inv (some (H2Error.goaway_received code)) c v
process_control_frame-Inv (window_update n) c v = connection_update-Inv n c v
process_control_frame-Inv _ c v = v

process_frame-Inv : (now : ℕ) (f : Frame) (c : Client) → Inv c → Inv (process_frame now f c).0
unfolding process_frame
process_frame-Inv now f c v = elim (Bool-cases (f.stream_id == 0)) [
  | inl z ↦ rw (z, process_frame) (process_control_frame-Inv f.payload c v)
  | inr z ↦ elim (Option-cases (find f.stream_id c.streams)) [
    | inl p ↦ rw (z, p, process_frame) (unknown_stream_frame-Inv f.payload c v)
    | inr (s, p) ↦
        rw (z, p, process_frame)
          (settle-Inv now f.stream_id (dispatch_frame f.payload s c)
            (dispatch_frame-Inv f.payload s c v (find-All Live f.stream_id c.streams p v.live)))
  ]
]

leave_read_loop-Inv : (c : Client) → Inv c → Inv (leave_read_loop c)
unfolding leave_read_loop
leave_read_loop-Inv c v = ground (arith, shutdown-Inv (some H2Error.unexpected_exit) c v)

after_frame-Inv : (r : Client × Option H2Error) → Inv r.0 → Inv (after_frame r).0
after_frame-Inv (c, none) v = v
after_frame-Inv (c, some e) v = leave_read_loop-Inv _ (shutdown-Inv (some e) c v)

read_open-Inv : (now : ℕ) (r : ReadResult) (c : Client) → Inv c → Inv (read_open now r c).0
unfolding read_open
read_open-Inv now (read_frame f) c v =
    after_frame-Inv (process_frame now f c) (process_frame-Inv now f c v)
read_open-Inv now read_eof c v = leave_read_loop-Inv c v
read_open-Inv now read_timed_out c v = leave_read_loop-Inv _ (shutdown-Inv _ c v)
read_open-Inv now (read_failed e) c v = leave_read_loop-Inv _ (shutdown-Inv _ c v)

-- One round of the read loop, whatever arrives.
pub read_step-Inv : (now : ℕ) (r : ReadResult) (c : Client) → Inv c → Inv (read_step now r c).0
unfolding read_step
read_step-Inv now r c v = ground (arith, read_open-Inv now r c v, leave_read_loop-Inv c v)

-- Whatever the server sends, and in whatever order, the client stays well formed.
read_loop-Inv : (rs : List (ℕ × ReadResult)) (c : Client) → Inv c → Inv (read_loop rs c).0
unfolding read_loop
read_loop-Inv [] c v = v
read_loop-Inv ((now, r) ∷ rs) c v = elim (Bool-cases (read_step now r c).1) [
  | inl p ↦ rw (p, read_loop) (read_loop-Inv rs (read_step now r c).0 (read_step-Inv now r c v))
  | inr p ↦ rw (p, read_loop) (read_step-Inv now r c v)
]
