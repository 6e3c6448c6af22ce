-- ===== src/Http2/Isolation.antt =====
-- A frame of one stream leaves the other streams alone.
use scalpel_cli.Common.{
  ℕ, ◌≡◌, ◌≢◌, ◌∙◌, refl, ap, ◌-◌, ◌%◌, inl, inr, Bool, true, false, not, List, [], ◌∷◌, ◌++◌,
  Option, none, some, arith, Option-cases, Sum-cases, ◌==◌, length,
}
use scalpel_cli.Http2.Types.{
  ErrCode, H2Error, connection_error, Field, Stream, Client, Frame, Payload, meta_headers,
  body_data, window_update, push_promise, WriteRequest, uint32_mod,
}
use scalpel_cli.Common.Int.{pos, ◌+ℤ◌}
use scalpel_cli.Common.Text.{atoi}
use scalpel_cli.Http2.Streams.{find, put, find-put, find-remove, find-id}
use scalpel_cli.Http2.Conn.{cleanup_stream, finalize_stream}
use scalpel_cli.Http2.Flow.{
  try_enqueue, maybe_send_window_update, process_window_update_frame, debit_windows,
  process_data_frame, is_zero,
}
use scalpel_cli.Http2.Frames.{
  add_field, add_fields, process_headers_frame, queue_reset, reset_code, fail_stream,
  dispatch_frame, settle, unknown_stream_frame, process_frame,
}

add_field-id :
    (t : Bool) (f : Field) (s : Stream) {s' : Stream} → add_field t s f ≡ inr s' → s'.id ≡ s.id
unfolding add_field
add_field-id t (name, value) s h = ground (arith, Option-cases (atoi value))

pub nonzero : (n : ℕ) → n ≢ 0 → (n == 0) ≡ false
nonzero n h = ground arith

module _ (j : ℕ) where
  put-other : (t : Stream) (ss : List Stream) → j ≢ t.id → find j (put t ss) ≡ find j ss
  put-other t ss h = ground (arith, find-put j t ss)

  try_enqueue-streams : (w : WriteRequest) (c : Client) → (try_enqueue w c).0.streams ≡ c.streams
  unfolding try_enqueue
  try_enqueue-streams w c = ground arith

  cleanup-other :
      (now i : ℕ) (e : H2Error) (c : Client)
      → j ≢ i
      → find j (cleanup_stream now i e c).streams ≡ find j c.streams
  unfolding cleanup_stream
  cleanup-other now i e c h = ground (arith, find-remove i j c.streams h)

  finalize-other :
      (now i : ℕ) (c : Client) → j ≢ i → find j (finalize_stream now i c).streams ≡ find j c.streams
  unfolding finalize_stream
  finalize-other now i c h = ground (arith, find-remove i j c.streams h)

  queue_reset-streams :
      (i : ℕ) (code : ErrCode) (c : Client) → (queue_reset i code c).streams ≡ c.streams
  unfolding queue_reset
  queue_reset-streams i code c =
      ground (arith, try_enqueue-streams (WriteRequest.write_rst_stream i code) c)

  fail-other :
      (now i : ℕ) (ended : Bool) (e : H2Error) (c : Client)
      → j ≢ i
      → find j (fail_stream now i ended e c).streams ≡ find j c.streams
  unfolding fail_stream
  fail-other now i true e c h = cleanup-other now i e c h
  fail-other now i false e c h =
      cleanup-other now i e _ h ∙ ap (find j) (queue_reset-streams i (reset_code e) c)

  settle-other :
      (now i : ℕ) (r : Client × Bool × Option H2Error)
      → j ≢ i
      → find j (settle now i r).0.streams ≡ find j r.0.streams
  unfolding settle
  settle-other now i (c, ended, some (connection_error code)) h = refl
  settle-other now i (c, ended, some e) h = fail-other now i ended e c h
  settle-other now i (c, true, none) h = finalize-other now i c h
  settle-other now i (c, false, none) h = refl

  update-streams :
      (i current max : ℕ) (c : Client)
      → (maybe_send_window_update i current max c).0.streams ≡ c.streams
  unfolding maybe_send_window_update
  update-streams i current max c = ground (
    arith,
    try_enqueue-streams (WriteRequest.write_window_update i ((max - current) % uint32_mod)) c,
  )

  debit-streams : (n : ℕ) (s : Stream) (c : Client) → (debit_windows n s c).0.streams ≡ c.streams
  unfolding debit_windows
  debit-streams n s c =
      let conn = c.conn_recv_window - n in
      update-streams s.id (s.recv_window - n) s.recv_window_max _
      ∙ update-streams 0 conn c.conn_recv_window_max c

  debit-id : (n : ℕ) (s : Stream) (c : Client) → (debit_windows n s c).1.id ≡ s.id
  unfolding debit_windows
  debit-id n s c = refl

  data-other :
      (s : Stream) (bytes : List ℕ) (ended : Bool) (c : Client)
      → j ≢ s.id
      → find j (process_data_frame s bytes ended c).0.streams ≡ find j c.streams
  unfolding process_data_frame
  data-other s bytes ended c h =
      let (c', s') = debit_windows (length bytes) s c in
      ground (
        arith,
        debit-streams (length bytes) s c,
        debit-id (length bytes) s c,
        put-other s' c'.streams,
        put-other (record s' { body = s.body ++ bytes }) c'.streams,
      )

  add_fields-id : (t : Bool) (fs : List Field) (s : Stream) → (add_fields t fs s).0.id ≡ s.id
  unfolding add_fields
  add_fields-id t [] s = refl
  add_fields-id t (f ∷ fs) s = elim (Sum-cases (add_field t s f)) [
    | inl (e, p) ↦ rw (p, add_fields)
    | inr (s', p) ↦ rw (p, add_fields) (add_fields-id t fs s' ∙ add_field-id t f s p)
  ]

  headers-id :
      (s : Stream) (fs : List Field) (ended : Bool) → (process_headers_frame s fs ended).0.id ≡ s.id
  unfolding process_headers_frame
  headers-id s fs ended = ground (arith, add_fields-id (not (is_zero s.status_code)) fs s)

  dispatch-other :
      (p : Payload) (s : Stream) (c : Client)
      → j ≢ s.id
      → find j (dispatch_frame p s c).0.streams ≡ find j c.streams
  unfolding dispatch_frame process_window_update_frame
  dispatch-other (meta_headers fs ended) s c h =
      put-other (process_headers_frame s fs ended).0 c.streams (λ e. h (e ∙ headers-id s fs ended))
  dispatch-other (body_data bytes ended) s c h = data-other s bytes ended c h
  dispatch-other (window_update n) s c h =
      ground (arith, put-other (record s { send_window = s.send_window +ℤ pos n }) c.streams h)
  dispatch-other _ s c h = refl

  unknown-other : (p : Payload) (c : Client) → (unknown_stream_frame p c).0.streams ≡ c.streams
  unfolding unknown_stream_frame
  unknown-other push_promise c = refl
  unknown-other (body_data bytes ended) c = ground arith
  unknown-other _ c = refl

-- A frame of a stream other than 0 leaves the object of every other stream in the map as it was,
-- whether or not the frame is in error.
pub process_frame_isolated :
    (now : ℕ) (f : Frame) (c : Client) (j : ℕ)
    → f.stream_id ≢ 0
    → j ≢ f.stream_id
    → find j (process_frame now f c).0.streams ≡ find j c.streams
unfolding process_frame
process_frame_isolated now f c j z h = elim (Option-cases (find f.stream_id c.streams)) [
  | inl p ↦ rw (nonzero f.stream_id z, p, process_frame) (ap (find j) (unknown-other j f.payload c))
  | inr (s, p) ↦
      rw (nonzero f.stream_id z, p, process_frame)
        (settle-other j now f.stream_id (dispatch_frame f.payload s c) h
          ∙ dispatch-other j f.payload s c (λ e. h (e ∙ find-id f.stream_id c.streams p)))
]
