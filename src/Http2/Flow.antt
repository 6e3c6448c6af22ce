-- ===== src/Http2/Flow.antt =====
-- The frames that move windows and settings: maybeSendWindowUpdate, processWindowUpdateFrame,
-- processSettingsFrame and processDataFrame of pkg/customhttp/h2client.go.
use scalpel_cli.Common.{
  ℕ, ◌+◌, ◌-◌, ◌/◌, ◌%◌, Bool, true, false, ◌&&◌, ◌⊎◌, inl, inr, List, [], ◌∷◌, ◌++◌, map, Option,
  none, some, ltb, leb, ◌==◌, if◌then◌else◌, length,
}
use scalpel_cli.Common.Int.{ℤ, pos, negsuc, ◌+ℤ◌, ◌-ℤ◌, ltb_ℤ, sub_ℕ}
use scalpel_cli.Http2.Types.{
  H2Error, connection_error, stream_error, protocol, flow_control, cancel, Stream, Client, Setting,
  initial_window_size, max_frame_size_setting, header_table_size, WriteRequest, write_settings_ack,
  write_window_update, write_queue_cap, max_int64, uint32_mod, default_max_frame_size,
  max_response_body_bytes,
}
use scalpel_cli.Http2.Streams.{find, put}

-- A send on `writeChan` that does not wait.
unfoldable pub try_enqueue : WriteRequest → Client → Client × Bool
try_enqueue w c =
    if ltb (length c.write_queue) write_queue_cap
    then (record c { write_queue = c.write_queue ++ w ∷ [] }, true)
    else (c, false)

abbrev pub granted : ℕ → Client × Bool → Client × ℕ
granted increment (c, true) = (c, increment)
granted increment (c, false) = (c, 0)

-- The increment that was queued, or 0.
unfoldable pub maybe_send_window_update : (i current max : ℕ) → Client → Client × ℕ
maybe_send_window_update i current max c =
    let increment = (max - current) % uint32_mod in
    if leb current (max / 2) && (ltb 0 increment && c.is_connected)
    then granted increment (try_enqueue (write_window_update i increment) c)
    else (c, 0)

-- `stream` is none for a frame on stream 0.
unfoldable pub process_window_update_frame :
    Option Stream → (increment : ℕ) → Client → Client × Option H2Error
process_window_update_frame none increment c =
    if increment == 0
    then (c, some (connection_error protocol))
    else if ltb_ℤ (pos (max_int64 - increment)) c.conn_send_window
    then (c, some (connection_error flow_control))
    else (record c { conn_send_window = c.conn_send_window +ℤ pos increment }, none)
process_window_update_frame (some s) increment c =
    if increment == 0 then (c, some (stream_error s.id protocol)) else elim (find s.id c.streams) [
      | none ↦ (c, none)
      | some _ ↦
          if ltb_ℤ (pos (max_int64 - increment)) s.send_window
          then (c, some (stream_error s.id flow_control))
          else (
            record c {
              streams = put (record s { send_window = s.send_window +ℤ pos increment }) c.streams;
            },
            none,
          )
    ]

-- int64 arithmetic wraps.
unfoldable pub to_int64 : ℤ → ℤ
to_int64 (pos n) = if leb n max_int64 then pos n else sub_ℕ n 18446744073709551616
to_int64 (negsuc n) = if leb n max_int64 then negsuc n else sub_ℕ 18446744073709551616 (n + 1)

unfoldable pub shift_window : ℤ → Stream → Stream
unfolding to_int64
shift_window delta s = record s { send_window = to_int64 (s.send_window +ℤ delta) }

-- One round of `ForeachSetting`. As an int32 a value from 2 ^ 31 on is negative.
unfoldable pub apply_setting : Client → Setting → H2Error ⊎ Client
apply_setting c (initial_window_size v) =
    if leb 2147483648 v
    then inl (connection_error flow_control)
    else inr (record c {
      initial_stream_send_window = v;
      streams = map (shift_window (pos v -ℤ pos c.initial_stream_send_window)) c.streams;
    })
apply_setting c (max_frame_size_setting v) =
    if ltb v default_max_frame_size
    then inl (connection_error protocol)
    else if ltb 16777215 v
    then inl (connection_error protocol)
    else inr (record c { max_frame_size = v })
apply_setting c (header_table_size v) = inr (record c { table_sizes = c.table_sizes ++ v ∷ [] })
apply_setting c _ = inr c

-- The first error ends the loop; what was applied before it stays.
unfoldable pub apply_settings : List Setting → Client → Client × Option H2Error
apply_settings [] c = (c, none)
apply_settings (x ∷ xs) c = elim (apply_setting c x) [
  | inl e ↦ (c, some e)
  | inr c' ↦ apply_settings xs c'
]

unfoldable pub acknowledge_settings : Client → Client
unfolding try_enqueue
acknowledge_settings c = if c.is_connected then (try_enqueue write_settings_ack c).0 else c

abbrev pub acknowledge_or_fail : Client × Option H2Error → Client × Option H2Error
acknowledge_or_fail (c, none) = (acknowledge_settings c, none)
acknowledge_or_fail (c, some e) = (c, some e)

unfoldable pub process_settings_frame : Bool → List Setting → Client → Client × Option H2Error
process_settings_frame ack xs c =
    if ack then (c, none) else acknowledge_or_fail (apply_settings xs c)

abbrev pub is_zero : ℤ → Bool
is_zero (pos n) = n == 0
is_zero (negsuc n) = false

-- Both windows are debited, and refilled where a WINDOW_UPDATE could be queued.
unfoldable pub debit_windows : ℕ → Stream → Client → Client × Stream
debit_windows n s c =
    let conn = c.conn_recv_window - n in
    let own = s.recv_window - n in
    let (c1, conn_update) = maybe_send_window_update 0 conn c.conn_recv_window_max c in
    let (c2, own_update) = maybe_send_window_update s.id own s.recv_window_max c1 in
    (
      record c2 { conn_recv_window = conn + conn_update },
      record s { recv_window = own + own_update },
    )

-- The object is the map's, so it is written back there.
unfoldable pub process_data_frame : Stream → List ℕ → Bool → Client → Client × Bool × Option H2Error
process_data_frame s bytes ended c =
    let n = length bytes in
    let (c', s') = debit_windows n s c in
    if is_zero s.status_code
    then (c, false, some (stream_error s.id protocol))
    else if n == 0
    then (c, ended, none)
    else if ltb c.conn_recv_window n
    then (c, false, some (connection_error flow_control))
    else if ltb s.recv_window n
    then (c, false, some (stream_error s.id flow_control))
    else if ltb max_response_body_bytes (length s.body + n)
    then (record c' { streams = put s' c'.streams }, false, some (stream_error s.id cancel))
    else (
      record c' { streams = put (record s' { body = s.body ++ bytes }) c'.streams },
      ended,
      none,
    )
