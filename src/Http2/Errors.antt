-- ===== src/Http2/Errors.antt =====
-- Which errors of a frame end the connection.
use scalpel_cli.Common.{
  ℕ, ◌≡◌, inl, inr, Bool, true, false, List, [], ◌∷◌, Option, none, some, arith, Option-cases,
  Bool-cases, Sum-cases, ◌==◌,
}
use scalpel_cli.Http2.Types.{
  ErrCode, H2Error, connection_error, Client, Setting, initial_window_size, max_frame_size_setting,
  header_table_size, enable_push, other_setting, Frame, Payload, body_data, window_update, settings,
  ping, goaway, push_promise, unknown,
}
use scalpel_cli.Http2.Streams.{find}
use scalpel_cli.Http2.Flow.{
  process_window_update_frame, apply_setting, apply_settings, process_settings_frame,
}
use scalpel_cli.Http2.Frames.{
  process_control_frame, dispatch_frame, settle, unknown_stream_frame, process_frame,
}

-- An error, if there is one, is a connection error.
abbrev pub OnlyConnection : Option H2Error → Type 0
OnlyConnection o = (e : H2Error) → o ≡ some e → (code : ErrCode) × (e ≡ connection_error code)

settle-OnlyConnection :
    (now i : ℕ) (r : Client × Bool × Option H2Error) → OnlyConnection (settle now i r).1
unfolding settle
settle-OnlyConnection now i (c, ended, some (connection_error code)) e h = (code, ground arith)
settle-OnlyConnection now i (c, ended, some _) e h = absurd (ground arith)
settle-OnlyConnection now i (c, true, none) e h = absurd (ground arith)
settle-OnlyConnection now i (c, false, none) e h = absurd (ground arith)

apply_setting-error :
    (c : Client) (x : Setting) {e : H2Error}
    → apply_setting c x ≡ inl e
    → (code : ErrCode) × (e ≡ connection_error code)
unfolding apply_setting
apply_setting-error c (initial_window_size n) h = ground arith
apply_setting-error c (max_frame_size_setting n) h = ground arith
apply_setting-error c (header_table_size n) h = ground arith
apply_setting-error c (enable_push n) h = ground arith
apply_setting-error c (other_setting k n) h = ground arith

apply_settings-OnlyConnection :
    (xs : List Setting) (c : Client) → OnlyConnection (apply_settings xs c).1
unfolding apply_settings
apply_settings-OnlyConnection [] c e h = absurd (ground arith)
apply_settings-OnlyConnection (x ∷ xs) c e h = elim (Sum-cases (apply_setting c x)) [
  | inl (e', p) ↦
      let same : e' ≡ e = (let h' = rw (p, apply_settings) at h in ground arith) in
      rw (← same) (apply_setting-error c x p)
  | inr (c', p) ↦ apply_settings-OnlyConnection xs c' e (rw (p, apply_settings) at h)
]

process_settings-OnlyConnection :
    (ack : Bool) (xs : List Setting) (c : Client)
    → OnlyConnection (process_settings_frame ack xs c).1
unfolding process_settings_frame
process_settings-OnlyConnection ack xs c e h = ground (arith, apply_settings-OnlyConnection xs c e)

process_control-OnlyConnection :
    (p : Payload) (c : Client) → OnlyConnection (process_control_frame p c).1
unfolding process_control_frame process_window_update_frame
process_control-OnlyConnection (settings ack xs) c e h =
    process_settings-OnlyConnection ack xs c e h
process_control-OnlyConnection (window_update n) c e h = ground arith
process_control-OnlyConnection (ping ack n) c e h = absurd (ground arith)
process_control-OnlyConnection (goaway code) c e h = absurd (ground arith)
process_control-OnlyConnection unknown c e h = absurd (ground arith)
process_control-OnlyConnection _ c e h = ground arith

unknown_stream-OnlyConnection :
    (p : Payload) (c : Client) → OnlyConnection (unknown_stream_frame p c).1
unfolding unknown_stream_frame
unknown_stream-OnlyConnection push_promise c e h = ground arith
unknown_stream-OnlyConnection (body_data bytes ended) c e h = absurd (ground arith)
unknown_stream-OnlyConnection _ c e h = absurd (ground arith)

process_frame-OnlyConnection :
    (now : ℕ) (f : Frame) (c : Client) → OnlyConnection (process_frame now f c).1
unfolding process_frame
process_frame-OnlyConnection now f c = elim (Bool-cases (f.stream_id == 0)) [
  | inl z ↦ rw (z, process_frame) (process_control-OnlyConnection f.payload c)
  | inr z ↦ elim (Option-cases (find f.stream_id c.streams)) [
    | inl p ↦ rw (z, p, process_frame) (unknown_stream-OnlyConnection f.payload c)
    | inr (s, p) ↦
        rw (z, p, process_frame)
          (settle-OnlyConnection now f.stream_id (dispatch_frame f.payload s c))
  ]
]

-- Whatever the client and the frame, an error that `processFrame` returns (for which the read loop
-- closes the connection) is a connection error; errors of a stream, resets among them, are not
-- returned.
pub process_frame_error :
    (now : ℕ) (f : Frame) (c : Client) {e : H2Error}
    → (process_frame now f c).1 ≡ some e
    → (code : ErrCode) × (e ≡ connection_error code)
process_frame_error now f c {e} h = process_frame-OnlyConnection now f c e h
