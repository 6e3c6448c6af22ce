-- ===== src/Http2/Invariant.antt =====
-- What holds of a client between two steps, and that each step of h2client.go keeps it.
pub mod Flows
pub mod Frame
pub mod Sends
use scalpel_cli.Common.{
  ℕ, ◌+◌, ◌-◌, ◌%◌, ◌≤◌, ◌<◌, ◌≡◌, refl, ◌≢◌, ◌⊎◌, Bool, true, false, List, [], ◌∷◌, ◌++◌, map,
  Option, none, some, arith, Option-cases, inl, inr, length, length-append, All, All-map,
  All-map_to, All-append, if◌then◌else◌, ==_iff,
}
use scalpel_cli.Common.Int.{ℤ, pos, ◌≤ℤ◌}
use scalpel_cli.Http2.Types.{
  H2Error, Request, Stream, Client, Result, ok, err, panic, WriteRequest, target_stream_window_size,
  max_response_body_bytes, uint32_mod, write_queue_cap,
}
use scalpel_cli.Http2.Streams.{find, put, remove, deliver, find-All, put-All, remove-All}
use scalpel_cli.Http2.Conn.{
  fresh_client, or_eof, ConnectIo, connect, begin_shutdown, close_done, end_shutdown, shutdown,
  new_stream, initialize_stream, cleanup_stream, finalize_stream,
}

-- A stream in the map: a client's number, no result yet, and bounded window and body.
pub record Live (s : Stream) : Type 0 where
  pub odd : s.id % 2 ≡ 1
  pub undone : s.done ≡ none
  pub target : s.recv_window_max ≡ target_stream_window_size
  pub window : s.recv_window ≤ s.recv_window_max
  pub size : length s.body ≤ max_response_body_bytes

-- A stream out of the map has its result, and a response where the result is no error.
pub record Answered (s : Stream) : Type 0 where
  pub told : s.done ≢ none
  pub complete : s.done ≡ some none → s.response ≢ none

pub record Inv (c : Client) : Type 0 where
  pub odd_next : c.next_stream_id % 2 ≡ 1
  pub live : All Live c.streams
  pub answered : All Answered c.detached
  pub frame_low : 16384 ≤ c.max_frame_size
  pub frame_high : c.max_frame_size ≤ 16777215
  pub initial : c.initial_stream_send_window < 2147483648
  pub conn_send : pos 0 ≤ℤ c.conn_send_window
  pub conn_recv : c.conn_recv_window ≤ c.conn_recv_window_max
  pub queue : length c.write_queue ≤ write_queue_cap
  pub emptied : c.streams_nil ≡ true → c.streams ≡ []
  pub stopped : c.streams_nil ≡ true → c.done_closed ≡ true

pub fresh_client-Inv : (now : ℕ) → Inv (fresh_client now)
unfolding fresh_client
fresh_client-Inv now = ground arith

pub connect-Inv : (io : ConnectIo) (now : ℕ) (c : Client) → Inv c → Inv (connect io now c).0
unfolding connect
connect-Inv io now c v = ground arith

deliver-Answered : (e : H2Error) (s : Stream) → Live s → Answered (deliver (some e) s)
unfolding deliver
deliver-Answered e s l = ground arith

-- The streams that a shutdown leaves behind all have their result.
shutdown-Answered :
    (e : H2Error) (ss ts : List Stream)
    → All Live ss
    → All Answered ts
    → All Answered (map (deliver (some e)) ss ++ ts)
shutdown-Answered e ss ts l a =
    All-append Answered (map (deliver (some e)) ss) ts
      (All-map_to Live Answered (deliver (some e)) (deliver-Answered e) ss l) a

pub begin_shutdown-Inv : (e : Option H2Error) (c : Client) → Inv c → Inv (begin_shutdown e c)
unfolding begin_shutdown
begin_shutdown-Inv e c v = ground arith

pub close_done-Inv : (c : Client) → Inv c → Inv (close_done c)
close_done-Inv c v = ground arith

pub end_shutdown-Inv :
    (e : Option H2Error) (c : Client) → c.done_closed ≡ true → Inv c → Inv (end_shutdown e c)
unfolding end_shutdown
end_shutdown-Inv e c h v =
    ground (arith, shutdown-Answered (or_eof e) c.streams c.detached v.live v.answered)

pub shutdown-Inv : (e : Option H2Error) (c : Client) → Inv c → Inv (shutdown e c)
unfolding shutdown
shutdown-Inv e c v = ground (
  arith,
  end_shutdown-Inv e (close_done (begin_shutdown e c)) refl
      (close_done-Inv _ (begin_shutdown-Inv e c v)),
)

new_stream-Live : (r : Request) (c : Client) → Inv c → Live (new_stream r c)
unfolding new_stream
new_stream-Live r c v = ground arith

-- A drop or an end of a stream moves its object out of the map with its result.
module _ (now i : ℕ) (c : Client) (v : Inv c) where
  drop-Inv :
      (s : Stream) (t : Stream)
      → find i c.streams ≡ some s
      → Answered t
      → Inv (record c { streams = remove i c.streams; detached = t ∷ c.detached; last_used = now })
  unfolding find remove
  drop-Inv s t h a = ground (arith, remove-All Live i c.streams v.live)

  pub cleanup_stream-Inv : (e : H2Error) → Inv (cleanup_stream now i e c)
  unfolding cleanup_stream
  cleanup_stream-Inv e = elim (Option-cases (find i c.streams)) [
    | inl p ↦ rw (p, cleanup_stream) (ground arith)
    | inr (s, p) ↦
        rw (p, cleanup_stream)
          (drop-Inv s (deliver (some e) s) p
            (deliver-Answered e s (find-All Live i c.streams p v.live)))
  ]

  pub finalize_stream-Inv : Inv (finalize_stream now i c)
  unfolding finalize_stream
  finalize_stream-Inv = elim (Option-cases (find i c.streams)) [
    | inl p ↦ rw (p, finalize_stream) v
    | inr (s, p) ↦
        rw (p, finalize_stream)
          (drop-Inv s _ p
            (unfold deliver in ground (arith, find-All Live i c.streams {s = s} p v.live)))
  ]

-- A new stream has a number of its own parity.
pub initialize_stream-Inv :
    (r : Request) (now : ℕ) (c : Client) {c' : Client} {s : Stream}
    → Inv c
    → initialize_stream r now c ≡ ok (c', s)
    → Inv c'
unfolding initialize_stream
initialize_stream-Inv r now c v h =
    ground (arith, remove-All Live c.next_stream_id c.streams v.live)
