-- ===== src/Http2/Invariant/Sends.antt =====
-- The invariant through Writes, Sending and Calls: the write loop, and what callers do.
use scalpel_cli.Common.{
  ℕ, ◌≤◌, ◌<◌, ◌≡◌, refl, inl, inr, Bool, true, false, List, [], ◌∷◌, some, arith, ap, Option-cases,
  length, length-append, All,
}
use scalpel_cli.Common.Int.{ℤ, pos, ◌≤ℤ◌}
use scalpel_cli.Http2.Types.{H2Error, Stream, Client, WriteRequest, OutFrame, write_queue_cap}
use scalpel_cli.Http2.Streams.{find, put, put-All, find-All, find-id}
use scalpel_cli.Http2.Writes.{drain_write_queue, write_next, write_step, make_room, push, enqueue}
use scalpel_cli.Http2.Sending.{stream_object, put_object}
use scalpel_cli.Http2.Invariant.{Live, Answered, Inv, shutdown-Inv}
use scalpel_cli.Http2.Invariant.Flows.{put-Inv, window-Live}

drain_write_queue-Inv : (e : H2Error) (c : Client) → Inv c → Inv (drain_write_queue e c).0
unfolding drain_write_queue
drain_write_queue-Inv e c v = ground arith

queue-Inv :
    (ws : List WriteRequest) (wire : List OutFrame) (c : Client)
    → Inv c
    → length ws ≤ write_queue_cap
    → Inv (record c { write_queue = ws; wire = wire })
queue-Inv ws wire c v h = ground arith

write_next-Inv :
    (ok : Bool) (ws : List WriteRequest) (c : Client)
    → Inv c
    → length ws ≤ write_queue_cap
    → Inv (write_next ok ws c).0
unfolding write_next
write_next-Inv ok [] c v h = v
write_next-Inv true (w ∷ ws) c v h = queue-Inv ws _ c v (omega arith)
write_next-Inv false (w ∷ ws) c v h =
    drain_write_queue-Inv _ _ (shutdown-Inv _ _ (queue-Inv ws c.wire c v (omega arith)))

-- One round of the write loop, whether or not the framer fails.
pub write_step-Inv : (d ok : Bool) (c : Client) → Inv c → Inv (write_step d ok c).0
unfolding write_step
write_step-Inv d ok c v = ground (
  arith,
  write_next-Inv ok c.write_queue c v,
  drain_write_queue-Inv H2Error.connection_closed c v,
)

make_room-Inv :
    (ws : List WriteRequest) (c : Client) → c.write_queue ≡ ws → Inv c → Inv (make_room c)
unfolding make_room
make_room-Inv [] c e v = ground arith
make_room-Inv (w ∷ ws) c e v = ground (arith, ap length e)

push-Inv :
    (w : WriteRequest) (c : Client)
    → Inv c
    → length c.write_queue < write_queue_cap
    → Inv (push w c)
push-Inv w c v h = queue-Inv _ c.wire c v (omega (arith, length-append c.write_queue (w ∷ [])))

room :
    (ws : List WriteRequest) (c : Client)
    → c.write_queue ≡ ws
    → Inv c
    → length (make_room c).write_queue < write_queue_cap
unfolding make_room
room [] c e v = ground arith
room (w ∷ ws) c e v = ground (arith, ap length e)

-- A queued write that has to wait never overfills the queue.
pub enqueue-Inv :
    (d : Bool) (w : WriteRequest) (c : Client) {c' : Client}
    → Inv c
    → enqueue d w c ≡ some c'
    → Inv c'
unfolding enqueue
enqueue-Inv d w c v h = ground (
  arith,
  push-Inv w c v,
  push-Inv w (make_room c) (make_room-Inv c.write_queue c refl v) (room c.write_queue c refl v),
)

Answered-window : (s : Stream) (w : ℤ) → Answered s → Answered (record s { send_window = w })
Answered-window s w a = ground arith

detached-Inv :
    (c : Client) (ts : List Stream) → Inv c → All Answered ts → Inv (record c { detached = ts })
detached-Inv c ts v a = ground arith

-- A caller debits the window of the object that it holds, in the map or out of it.
pub put_window-Inv :
    (i : ℕ) (c : Client) (w : ℤ) {s : Stream}
    → Inv c
    → stream_object i c ≡ some s
    → Inv (put_object (record s { send_window = w }) c)
unfolding stream_object put_object
put_window-Inv i c w {s} v h = elim (Option-cases (find i c.streams)) [
  | inl p ↦ ground (
    arith,
    find-id i c.detached {s = s},
    detached-Inv c (put (record s { send_window = w }) c.detached) v,
    put-All Answered (record s { send_window = w }) c.detached,
    Answered-window s w,
    find-All Answered i c.detached {s = s},
  )
  | inr (t, p) ↦ ground (
    arith,
    find-id i c.streams {s = t},
    put-Inv (record s { send_window = w }) c v,
    window-Live s w,
    find-All Live i c.streams {s = t} p v.live,
  )
]

pub conn_window-Inv :
    (c : Client) (w : ℤ) → Inv c → pos 0 ≤ℤ w → Inv (record c { conn_send_window = w })
conn_window-Inv c w v h = ground arith
