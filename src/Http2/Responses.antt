-- ===== src/Http2/Responses.antt =====
-- How a response is put together from the frames of its stream.
pub mod Assembled
use scalpel_cli.Common.{
  ℕ, ◌+◌, ◌-◌, ◌≤◌, ◌<◌, ◌≡◌, ◌≢◌, ◌∙◌, refl, sym, ap, Bool, true, false, List, [], ◌∷◌, ◌++◌, none,
  some, arith, if◌then◌else◌, length, length-append,
}
use mathlib.Core.List.{append_assoc, append-nil}
use scalpel_cli.Http2.Types.{Stream, Client, Response, Frame, body_data, max_response_body_bytes}
use scalpel_cli.Http2.Streams.{find, put, deliver, find-put, find-id}
use scalpel_cli.Http2.Conn.{finalize_stream, response_of}
use scalpel_cli.Http2.Flow.{
  try_enqueue, maybe_send_window_update, debit_windows, process_data_frame, is_zero,
}
use scalpel_cli.Http2.Frames.{
  dispatch_frame, settle, process_frame, ReadResult, read_frame, read_open, read_step, read_loop,
}
use scalpel_cli.Http2.Isolation.{nonzero}

-- A stream whose status has come, with room for n more bytes.
pub record Receiving (i n : ℕ) (c : Client) (s : Stream) : Type 0 where
  pub numbered : i ≢ 0
  pub held : find i c.streams ≡ some s
  pub status : is_zero s.status_code ≡ false
  pub undone : s.done ≡ none
  pub running : c.done_closed ≡ false
  pub conn : n ≤ c.conn_recv_window
  pub own : n ≤ s.recv_window
  pub size : length s.body + n ≤ max_response_body_bytes

update_keeps :
    (i current max : ℕ) (c : Client)
    → ((maybe_send_window_update i current max c).0.streams ≡ c.streams)
      × ((maybe_send_window_update i current max c).0.done_closed ≡ c.done_closed)
unfolding maybe_send_window_update try_enqueue
update_keeps i current max c = ground arith

find-put_self :
    (i : ℕ) (t : Stream) (ss : List Stream) {s : Stream}
    → t.id ≡ i
    → find i ss ≡ some s
    → find i (put t ss) ≡ some t
find-put_self i t ss {s} h k = ground (arith, find-put i t ss)

debit_keeps :
    (n : ℕ) (s : Stream) (c : Client)
    → ((debit_windows n s c).0.streams ≡ c.streams)
      × ((debit_windows n s c).0.done_closed ≡ c.done_closed)
      × (c.conn_recv_window - n ≤ (debit_windows n s c).0.conn_recv_window)
      × (s.recv_window - n ≤ (debit_windows n s c).1.recv_window)
      × ((debit_windows n s c).1 ≡ record s { recv_window = (debit_windows n s c).1.recv_window })
unfolding debit_windows
debit_keeps n s c =
    let first = update_keeps 0 (c.conn_recv_window - n) c.conn_recv_window_max c in
    let second = update_keeps s.id (s.recv_window - n) s.recv_window_max _ in
    (second.0 ∙ first.0, second.1 ∙ first.1, omega arith, omega arith, refl)

-- The stream after a frame of data.
pub record Extended (s : Stream) (bytes : List ℕ) (t : Stream) : Type 0 where
  pub body : t.body ≡ s.body ++ bytes
  pub status_code : t.status_code ≡ s.status_code
  pub headers : t.headers ≡ s.headers
  pub request : t.request ≡ s.request

less-Receiving :
    (i m n : ℕ) (c : Client) (s : Stream) → n ≤ m → Receiving i m c s → Receiving i n c s
less-Receiving i m n c s h r = record {
  numbered = r.numbered;
  held = r.held;
  status = r.status;
  undone = r.undone;
  running = r.running;
  conn = omega (arith, h, r.conn);
  own = omega (arith, h, r.own);
  size = omega (arith, h, r.size);
}

module _ (i n : ℕ) (bytes : List ℕ) (c : Client) (s : Stream)
    (r : Receiving i (length bytes + n) c s) where
  abbrev grown : Stream
  grown = record (debit_windows (length bytes) s c).1 { body = s.body ++ bytes }

  abbrev fed : Client
  fed = record (debit_windows (length bytes) s c).0 {
    streams = put grown (debit_windows (length bytes) s c).0.streams;
  }

  fed-Receiving : Receiving i n fed grown
  unfolding debit_windows
  fed-Receiving =
      let k = debit_keeps (length bytes) s c in
      record {
        numbered = r.numbered;
        held =
            find-put_self i grown (debit_windows (length bytes) s c).0.streams
              (find-id i c.streams r.held) (ap (find i) (k.0) ∙ r.held);
        status = r.status;
        undone = r.undone;
        running = k.1 ∙ r.running;
        conn = omega (arith, k.2, r.conn);
        own = omega (arith, k.3, r.own);
        size = omega (arith, r.size, length-append s.body bytes);
      }

  grown-Extended : Extended s bytes grown
  unfolding debit_windows
  grown-Extended = record { body = refl; status_code = refl; headers = refl; request = refl }

  data_fed :
      (ended : Bool) → 0 < length bytes → process_data_frame s bytes ended c ≡ (fed, ended, none)
  unfolding process_data_frame
  data_fed ended h = ground (arith, r.status, r.conn, r.own, r.size)

data_received :
    (i n : ℕ) (bytes : List ℕ) (ended : Bool) (c : Client) (s : Stream)
    → Receiving i (length bytes + n) c s
    → (c' : Client) × (t : Stream) × (process_data_frame s bytes ended c ≡ (c', ended, none))
      × Receiving i n c' t
      × Extended s bytes t
unfolding process_data_frame
data_received i n [] ended c s r = (
  c,
  s,
  rw (r.status),
  less-Receiving i _ n c s (omega arith) r,
  record { body = sym (append-nil s.body); status_code = refl; headers = refl; request = refl },
)
data_received i n (b ∷ bs) ended c s r =
    let bytes = b ∷ bs in
    (
      fed i n bytes c s r,
      grown i n bytes c s r,
      data_fed i n bytes c s r ended (omega arith),
      fed-Receiving i n bytes c s r,
      grown-Extended i n bytes c s r,
    )

-- The stream's object has left the map with no error and a response of these bytes.
pub record Replied (i : ℕ) (s : Stream) (bytes : List ℕ) (c : Client) : Type 0 where
  pub object : Stream
  pub others : List Stream
  pub response : Response
  pub detached : c.detached ≡ object ∷ others
  pub number : object.id ≡ i
  pub done : object.done ≡ some none
  pub answer : object.response ≡ some response
  pub body : response.body ≡ bytes
  pub content_length : response.content_length ≡ length bytes
  pub status_code : response.status_code ≡ s.status_code
  pub header : response.header ≡ s.headers
  pub request : response.request ≡ s.request

-- DATA frames of one stream, the last of them with END_STREAM.
unfoldable pub data_frames : (now i : ℕ) → List (List ℕ) → List ℕ → List (ℕ × ReadResult)
data_frames now i [] last =
    (now, read_frame (record { stream_id = i; payload = body_data last true })) ∷ []
data_frames now i (d ∷ ds) last =
    (now, read_frame (record { stream_id = i; payload = body_data d false }))
    ∷ data_frames now i ds last

unfoldable pub join : List (List ℕ) → List ℕ → List ℕ
join [] last = last
join (d ∷ ds) last = d ++ join ds last
