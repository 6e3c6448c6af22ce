-- ===== src/Http2/Invariant/Flows.antt =====
-- The invariant through Flow: windows, settings and data.
use scalpel_cli.Common.{
  true, ℕ, ◌+◌, ◌-◌, ◌%◌, ◌≤◌, ◌≡◌, inl, inr, Bool, List, [], ◌∷◌, ◌++◌, map, none, some, arith,
  Sum-cases, length, length-append, All, All-map,
}
use scalpel_cli.Common.Int.{ℤ, pos, ◌+ℤ◌, ◌-ℤ◌, +ℤ_parts}
use scalpel_cli.Http2.Types.{
  Stream, Client, Setting, initial_window_size, max_frame_size_setting, header_table_size,
  enable_push, other_setting, WriteRequest, max_response_body_bytes, uint32_mod,
}
use scalpel_cli.Http2.Streams.{put, put-All}
use scalpel_cli.Http2.Flow.{
  try_enqueue, maybe_send_window_update, process_window_update_frame, shift_window, apply_setting,
  apply_settings, acknowledge_settings, process_settings_frame, debit_windows, process_data_frame,
}
use scalpel_cli.Http2.Invariant.{Live, Inv}

pub try_enqueue-Inv : (w : WriteRequest) (c : Client) → Inv c → Inv (try_enqueue w c).0
unfolding try_enqueue
try_enqueue-Inv w c v = ground (arith, length-append c.write_queue (w ∷ []))

maybe_send_window_update-Inv :
    (i current max : ℕ) (c : Client) → Inv c → Inv (maybe_send_window_update i current max c).0
unfolding maybe_send_window_update
maybe_send_window_update-Inv i current max c v =
    ground (
      arith,
      try_enqueue-Inv (WriteRequest.write_window_update i ((max - current) % uint32_mod)) c v,
    )

pub connection_update-Inv :
    (n : ℕ) (c : Client) → Inv c → Inv (process_window_update_frame none n c).0
unfolding process_window_update_frame
connection_update-Inv n c v = ground (arith, +ℤ_parts c.conn_send_window (pos n))

-- The window of a stream is no part of its invariant.
pub window-Live : (s : Stream) (w : ℤ) → Live s → Live (record s { send_window = w })
window-Live s w l = ground arith

-- A change to the map alone, which has no streams once it is nil.
streams-Inv :
    (c : Client) (ss : List Stream)
    → Inv c
    → All Live ss
    → (c.streams_nil ≡ true → ss ≡ [])
    → Inv (record c { streams = ss })
streams-Inv c ss v l h = ground arith

put-nil : (t : Stream) {ss : List Stream} → ss ≡ [] → put t ss ≡ []
unfolding put
put-nil t h = rw h

pub put-Inv :
    (t : Stream) (c : Client) → Inv c → Live t → Inv (record c { streams = put t c.streams })
put-Inv t c v l =
    streams-Inv c (put t c.streams) v (put-All Live t c.streams l v.live)
      (λ h. put-nil t (v.emptied h))

pub stream_update-Inv :
    (s : Stream) (n : ℕ) (c : Client)
    → Inv c
    → Live s
    → Inv (process_window_update_frame (some s) n c).0
unfolding process_window_update_frame
stream_update-Inv s n c v l =
    let w = s.send_window +ℤ pos n in
    ground (arith, put-Inv (record s { send_window = w }) c v (window-Live s w l))

shift_window-Live : (d : ℤ) (s : Stream) → Live s → Live (shift_window d s)
unfolding shift_window
shift_window-Live d s l = ground arith

map-nil : (f : Stream → Stream) {ss : List Stream} → ss ≡ [] → map f ss ≡ []
map-nil f h = rw h

shift_all-Inv :
    (d : ℤ) (c : Client) → Inv c → Inv (record c { streams = map (shift_window d) c.streams })
shift_all-Inv d c v =
    streams-Inv c (map (shift_window d) c.streams) v
      (All-map Live (shift_window d) (shift_window-Live d) c.streams v.live)
      (λ h. map-nil (shift_window d) (v.emptied h))

apply_setting-Inv :
    (c : Client) (x : Setting) {c' : Client} → Inv c → apply_setting c x ≡ inr c' → Inv c'
unfolding apply_setting
apply_setting-Inv c (initial_window_size n) v h =
    ground (arith, shift_all-Inv (pos n -ℤ pos c.initial_stream_send_window) c v)
apply_setting-Inv c (max_frame_size_setting n) v h = ground arith
apply_setting-Inv c (header_table_size n) v h = ground arith
apply_setting-Inv c (enable_push n) v h = ground arith
apply_setting-Inv c (other_setting k n) v h = ground arith

apply_settings-Inv : (xs : List Setting) (c : Client) → Inv c → Inv (apply_settings xs c).0
unfolding apply_settings
apply_settings-Inv [] c v = v
apply_settings-Inv (x ∷ xs) c v = elim (Sum-cases (apply_setting c x)) [
  | inl (e, p) ↦ rw (p, apply_settings) v
  | inr (c', p) ↦ rw (p, apply_settings) (apply_settings-Inv xs c' (apply_setting-Inv c x v p))
]

-- SETTINGS keep the invariant, those with an error in the middle included.
pub process_settings_frame-Inv :
    (ack : Bool) (xs : List Setting) (c : Client) → Inv c → Inv (process_settings_frame ack xs c).0
unfolding process_settings_frame acknowledge_settings
process_settings_frame-Inv ack xs c v = ground (
  arith,
  apply_settings-Inv xs c v,
  try_enqueue-Inv WriteRequest.write_settings_ack (apply_settings xs c).0,
)

-- What a window may be refilled by.
update_le :
    (i current max : ℕ) (c : Client)
    → current ≤ max
    → current + (maybe_send_window_update i current max c).1 ≤ max
unfolding maybe_send_window_update
update_le i current max c h = ground arith

update_max :
    (i current max : ℕ) (c : Client)
    → (maybe_send_window_update i current max c).0.conn_recv_window_max ≡ c.conn_recv_window_max
unfolding maybe_send_window_update try_enqueue
update_max i current max c = ground arith

module _ (n : ℕ) (s : Stream) (c : Client) (v : Inv c) (l : Live s) where
  debit_windows-Live : Live (debit_windows n s c).1
  unfolding debit_windows
  debit_windows-Live =
      let c1 = (maybe_send_window_update 0 (c.conn_recv_window - n) c.conn_recv_window_max c).0 in
      ground (arith, update_le s.id (s.recv_window - n) s.recv_window_max c1)

  debit_windows-Inv : Inv (debit_windows n s c).0
  unfolding debit_windows
  debit_windows-Inv =
      let own = s.recv_window - n in
      let conn = c.conn_recv_window - n in
      let c1 = (maybe_send_window_update 0 conn c.conn_recv_window_max c).0 in
      ground (
        arith,
        update_le 0 conn c.conn_recv_window_max c,
        update_max 0 conn c.conn_recv_window_max c,
        update_max s.id own s.recv_window_max c1,
        maybe_send_window_update-Inv 0 conn c.conn_recv_window_max c v,
        maybe_send_window_update-Inv s.id own s.recv_window_max c1,
      )

  body-Live :
      (t : Stream) (bytes : List ℕ)
      → Live t
      → length bytes ≤ max_response_body_bytes
      → Live (record t { body = bytes })
  body-Live t bytes k h = ground arith

  -- DATA keeps the invariant on each branch.
  pub process_data_frame-Inv :
      (bytes : List ℕ) (ended : Bool)
      → length bytes ≡ n
      → Inv (process_data_frame s bytes ended c).0
  unfolding process_data_frame
  process_data_frame-Inv bytes ended e =
      let (c', s') = debit_windows n s c in
      ground (
        arith,
        e,
        put-Inv s' c' debit_windows-Inv debit_windows-Live,
        put-Inv (record s' { body = s.body ++ bytes }) c' debit_windows-Inv,
        body-Live s' (s.body ++ bytes) debit_windows-Live,
        length-append s.body bytes,
      )
