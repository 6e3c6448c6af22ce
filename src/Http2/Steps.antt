-- ===== src/Http2/Steps.antt =====
-- A connection under any interleaving of its loops and its callers, one critical section a step.
use Prim.Native.String.{String}
use scalpel_cli.Common.{
  ℕ, ◌+◌, ◌<◌, ◌≡◌, inl, inr, Bool, true, false, List, ◌++◌, Option, some, arith, Option-cases,
  length, if◌then◌else◌, ◌==◌,
}
use scalpel_cli.Common.Int.{pos, ◌-ℤ◌, ◌≤ℤ◌, -ℤ_parts}
use scalpel_cli.Http2.Types.{
  ErrCode, H2Error, write_headers, default_max_frame_size, Request, Stream, Client, ok,
  WriteRequest, uint32_mod,
}
use scalpel_cli.Http2.Conn.{
  fresh_client, ConnectIo, connect, begin_shutdown, close_done, end_shutdown, initialize_stream,
  cleanup_stream,
}
use scalpel_cli.Http2.Frames.{ReadResult, read_step, queue_reset}
use scalpel_cli.Http2.Writes.{write_step, enqueue}
use scalpel_cli.Http2.Sending.{
  Codec, Padding, stream_object, sent, debited, request_fields, padding_for, send_round,
}
use scalpel_cli.Http2.Calls.{queue_headers, encode_headers, with_ping, send_ping}
use scalpel_cli.Http2.Chunks.{send_round-Cut, send_round_fits}
use scalpel_cli.Http2.Invariant.{
  Inv, fresh_client-Inv, connect-Inv, begin_shutdown-Inv, close_done-Inv, end_shutdown-Inv,
  cleanup_stream-Inv, initialize_stream-Inv,
}
use scalpel_cli.Http2.Invariant.Frame.{read_step-Inv, queue_reset-Inv}
use scalpel_cli.Http2.Invariant.Sends.{write_step-Inv, enqueue-Inv, put_window-Inv, conn_window-Inv}

debited-Inv :
    (i n : ℕ) (c : Client) (s : Stream)
    → Inv c
    → stream_object i c ≡ some s
    → pos 0 ≤ℤ (c.conn_send_window -ℤ pos n)
    → Inv (debited n s c)
unfolding debited stream_object
debited-Inv i n c s v h w =
    put_window-Inv i (record c { conn_send_window = c.conn_send_window -ℤ pos n })
      (s.send_window -ℤ pos n) (conn_window-Inv c _ v w) h

send_round-Inv :
    (d : Bool) (p : Padding) (i : ℕ) (bytes : List ℕ) (c : Client) (s : Stream) {x y : List ℕ}
    {pad : ℕ} {c' : Client}
    → Inv c
    → stream_object i c ≡ some s
    → 0 < length bytes
    → length bytes < uint32_mod
    → send_round d p s bytes c ≡ sent x y pad c'
    → Inv c'
send_round-Inv d p i bytes c s {x = x} {pad = pad} v h k l e =
    let fits = send_round_fits d p s bytes c k l (omega (arith, v.frame_low)) e in
    let cut = send_round-Cut d p s bytes c e in
    enqueue-Inv d _ _
      (debited-Inv i (length x + pad) c s v h
        (omega (arith, fits.3, -ℤ_parts c.conn_send_window (pos (length x + pad)))))
      cut.queued

encoded-Inv : (c : Client) (fs : List (String × String)) → Inv c → Inv (record c { encoded = fs })
encoded-Inv c fs v = ground arith

queue_headers-Inv :
    (k : Codec) (scheme host : String) (p : Padding) (d : Bool) (s : Stream) (body : List ℕ)
    (c : Client)
    → Inv c
    → Inv (queue_headers k scheme host p d s body c).0
unfolding queue_headers encode_headers
queue_headers-Inv k scheme host p d s body c v =
    let fields = request_fields k scheme host s.request body in
    let block = k.hpack c.encoded c.table_sizes fields in
    let max = if c.max_frame_size == 0 then default_max_frame_size else c.max_frame_size in
    let pad = padding_for p s.request true (length block) in
    let w = write_headers s.id block (length body == 0) max pad in
    let v' = encoded-Inv c (c.encoded ++ fields) v in
    elim (Option-cases (enqueue d w (record c { encoded = c.encoded ++ fields }))) [
      | inl e ↦ rw (e, queue_headers) v'
      | inr (c', e) ↦ rw (e, queue_headers) (enqueue-Inv d w _ v' e)
    ]

with_ping-Inv : (n : ℕ) (c : Client) → Inv c → Inv (with_ping n c)
unfolding with_ping
with_ping-Inv n c v = ground arith

send_ping-Inv : (d : Bool) (n : ℕ) (c : Client) → Inv c → Inv (send_ping d n c).0
unfolding send_ping
send_ping-Inv d n c v =
    let w = WriteRequest.write_ping n false in
    elim (Option-cases (enqueue d w (with_ping n c))) [
      | inl e ↦ ground (arith, e)
      | inr (c', e) ↦
          ground (arith, e, enqueue-Inv d w (with_ping n c) {c' = c'} (with_ping-Inv n c v) e)
    ]

-- One step of the connection, by the caller or the loop that takes it. That a caller takes a result out
-- of a stream's buffer is not among the steps: the streams keep what they were told.
pub data Step : Client → Client → Type 0 where
  connects : (io : ConnectIo) (now : ℕ) (c : Client) → Step c (connect io now c).0
  opens :
      (r : Request) (now : ℕ) (c : Client) {c' : Client} {s : Stream}
      → initialize_stream r now c ≡ ok (c', s)
      → Step c c'
  sends_headers :
      (k : Codec) (scheme host : String) (p : Padding) (d : Bool) (s : Stream) (body : List ℕ)
      (c : Client)
      → Step c (queue_headers k scheme host p d s body c).0
  sends_data :
      (d : Bool) (p : Padding) (i : ℕ) (bytes : List ℕ) (c : Client) (s : Stream) {x y : List ℕ}
      {pad : ℕ} {c' : Client}
      → stream_object i c ≡ some s
      → 0 < length bytes
      → length bytes < uint32_mod
      → send_round d p s bytes c ≡ sent x y pad c'
      → Step c c'
  pings : (d : Bool) (n : ℕ) (c : Client) → Step c (send_ping d n c).0
  cancels : (now i : ℕ) (e : H2Error) (c : Client) → Step c (cleanup_stream now i e c)
  resets : (i : ℕ) (code : ErrCode) (c : Client) → Step c (queue_reset i code c)
  begins_shutdown : (e : Option H2Error) (c : Client) → Step c (begin_shutdown e c)
  closes_done : (c : Client) → Step c (close_done c)
  ends_shutdown :
      (e : Option H2Error) (c : Client) → c.done_closed ≡ true → Step c (end_shutdown e c)
  reads : (now : ℕ) (r : ReadResult) (c : Client) → Step c (read_step now r c).0
  writes : (d written : Bool) (c : Client) → Step c (write_step d written c).0

pub data Reach (c : Client) : Client → Type 0 where
  here : Reach c c
  next : {d e : Client} → Reach c d → Step d e → Reach c e

Step-Inv : {c d : Client} → Step c d → Inv c → Inv d
Step-Inv (connects io now c) v = connect-Inv io now c v
Step-Inv (opens r now c h) v = initialize_stream-Inv r now c v h
Step-Inv (sends_headers k scheme host p d s body c) v =
    queue_headers-Inv k scheme host p d s body c v
Step-Inv (sends_data d p i bytes c s h k l e) v = send_round-Inv d p i bytes c s v h k l e
Step-Inv (pings d n c) v = send_ping-Inv d n c v
Step-Inv (cancels now i e c) v = cleanup_stream-Inv now i c v e
Step-Inv (resets i code c) v = queue_reset-Inv i code c v
Step-Inv (begins_shutdown e c) v = begin_shutdown-Inv e c v
Step-Inv (closes_done c) v = close_done-Inv c v
Step-Inv (ends_shutdown e c h) v = end_shutdown-Inv e c h v
Step-Inv (reads now r c) v = read_step-Inv now r c v
Step-Inv (writes d written c) v = write_step-Inv d written c v

Reach-Inv : {c d : Client} → Reach c d → Inv c → Inv d
Reach-Inv here v = v
Reach-Inv (next r s) v = Step-Inv s (Reach-Inv r v)

-- In whatever order the callers and the loops of a new client take their steps, and whatever the
-- server sends, results being left in their buffers: the streams in the map have odd numbers, no result yet, a receive window between 0
-- and its maximum and a body within the limit; every stream that has left the map has its result,
-- and a response where that is no error; the connection's send window is never below 0, its receive
-- window never above its maximum, the frame size stays between 2 ^ 14 and 2 ^ 24 - 1, the write queue
-- within its capacity, and a map of streams that is nil is empty, and its connection's loops are told to stop.
pub reachable-Inv : (now : ℕ) {c : Client} → Reach (fresh_client now) c → Inv c
reachable-Inv now r = Reach-Inv r (fresh_client-Inv now)
