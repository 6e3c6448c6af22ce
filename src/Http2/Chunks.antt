-- ===== src/Http2/Chunks.antt =====
-- What one round of sendData cuts off the body, and what the rounds together put in the queue.
use scalpel_cli.Common.{
  ℕ, ◌+◌, ◌≤◌, ◌<◌, ◌≡◌, ◌≢◌, ◌∙◌, inl, inr, Bool, false, List, ◌++◌, some, arith, Option-cases,
  length, take, drop, length-take, take-append-drop, ◌==◌,
}
use scalpel_cli.Common.Int.{ℤ, pos, ◌-ℤ◌, ◌≤ℤ◌, -ℤ_parts, pos_part, neg_part}
use scalpel_cli.Http2.Types.{Stream, Client, WriteRequest, write_data, uint32_mod}
use scalpel_cli.Http2.Writes.{make_room, enqueue}
use scalpel_cli.Http2.Sending.{
  Padding, padding_for, put_object, sent, frame_limit, full_chunk, chunk_size, debited, queue_data,
  cut_chunk, wait_for_window, send_round,
}

chunk_size_bounds :
    (k pad limit n : ℕ)
    → chunk_size k pad limit ≡ some n
    → (n + pad ≤ limit) × (n ≤ k) × (0 < k → 0 < n)
unfolding chunk_size
chunk_size_bounds k pad limit n h = (ground arith, ground arith, λ p. ground arith)

full_chunk_bounds :
    (n : ℕ) (c : Client)
    → n < uint32_mod
    → (full_chunk n c ≤ n) × (full_chunk n c ≤ c.max_frame_size)
unfolding full_chunk
full_chunk_bounds n c h = ground arith

frame_limit-le :
    (s : Stream) (c : Client)
    → (frame_limit s c ≤ pos_part c.conn_send_window)
      × (frame_limit s c ≤ pos_part s.send_window)
      × (frame_limit s c ≤ c.max_frame_size)
unfolding frame_limit
frame_limit-le s c = ground arith

-- What a successful round consists of.
pub record Cut (d : Bool) (p : Padding) (s : Stream) (bytes : List ℕ) (c : Client)
    (chunk rest : List ℕ) (pad : ℕ) (c' : Client) : Type 0 where
  pub size : ℕ
  pub sized : chunk_size (full_chunk (length bytes) c) pad (frame_limit s c) ≡ some size
  pub padding : pad ≡ padding_for p s.request false (full_chunk (length bytes) c)
  pub front : chunk ≡ take size bytes
  pub back : rest ≡ drop size bytes
  pub queued :
      enqueue d (write_data s.id chunk (length rest == 0) pad) (debited (length chunk + pad) s c)
      ≡ some c'

queue_data-sent :
    (d : Bool) (s : Stream) (x y : List ℕ) (pad : ℕ) (c : Client) {x' y' : List ℕ} {pad' : ℕ}
    {c' : Client}
    → queue_data d s x y pad c ≡ sent x' y' pad' c'
    → (x' ≡ x)
      × (y' ≡ y)
      × (pad' ≡ pad)
      × (enqueue d (write_data s.id x (length y == 0) pad) (debited (length x + pad) s c) ≡ some c')
unfolding queue_data
queue_data-sent d s x y pad c h = ground arith

cut_chunk-Cut :
    (d : Bool) (p : Padding) (s : Stream) (bytes : List ℕ) (c : Client) {chunk rest : List ℕ}
    {pad : ℕ} {c' : Client}
    → cut_chunk d p s bytes c ≡ sent chunk rest pad c'
    → Cut d p s bytes c chunk rest pad c'
unfolding cut_chunk
cut_chunk-Cut d p s bytes c {chunk} {rest} {pad} {c'} h =
    let k = full_chunk (length bytes) c in
    let pad' = padding_for p s.request false k in
    elim (Option-cases (chunk_size k pad' (frame_limit s c))) [
      | inl q ↦ absurd (ground arith)
      | inr (n, q) ↦
          let (e1, e2, e3, e4) =
            queue_data-sent d s (take n bytes) (drop n bytes) pad' c {x' = chunk} {y' = rest}
              {pad' = pad} {c' = c'} (ground arith) in
          record {
            size = n;
            sized = rw e3 q;
            padding = e3;
            front = e1;
            back = e2;
            queued = rw (e1, e2, e3) e4;
          }
    ]

wait_for_window-ne-sent :
    (s : Stream) (c : Client) {chunk rest : List ℕ} {pad : ℕ} {c' : Client}
    → wait_for_window s c ≢ sent chunk rest pad c'
unfolding wait_for_window
wait_for_window-ne-sent s c = ground arith

send_round-cut_chunk :
    (d : Bool) (p : Padding) (s : Stream) (bytes : List ℕ) (c : Client) {chunk rest : List ℕ}
    {pad : ℕ} {c' : Client}
    → send_round d p s bytes c ≡ sent chunk rest pad c'
    → (cut_chunk d p s bytes c ≡ sent chunk rest pad c')
      × (pos 1 ≤ℤ c.conn_send_window)
      × (pos 1 ≤ℤ s.send_window)
unfolding send_round
send_round-cut_chunk d p s bytes c {chunk} {rest} {pad} {c'} h =
    ground (arith, wait_for_window-ne-sent s c {chunk = chunk} {rest = rest} {pad = pad} {c' = c'})

pub send_round-Cut :
    (d : Bool) (p : Padding) (s : Stream) (bytes : List ℕ) (c : Client) {chunk rest : List ℕ}
    {pad : ℕ} {c' : Client}
    → send_round d p s bytes c ≡ sent chunk rest pad c'
    → Cut d p s bytes c chunk rest pad c'
send_round-Cut d p s bytes c h =
    cut_chunk-Cut d p s bytes c (send_round-cut_chunk d p s bytes c h).0

enqueue_window :
    (d : Bool) (w : WriteRequest) (c : Client) {c' : Client}
    → enqueue d w c ≡ some c'
    → c'.conn_send_window ≡ c.conn_send_window
unfolding enqueue make_room
enqueue_window d w c h = ground arith

debited_window :
    (n : ℕ) (s : Stream) (c : Client)
    → (debited n s c).conn_send_window ≡ c.conn_send_window -ℤ pos n
unfolding debited put_object
debited_window n s c = ground arith

full_chunk_pos : (n : ℕ) (c : Client) → 0 < n → 0 < c.max_frame_size → 0 < full_chunk n c
unfolding full_chunk
full_chunk_pos n c h k = ground arith

positive_part : (w : ℤ) → pos 1 ≤ℤ w → neg_part w ≡ 0
positive_part w h = ground arith

pub Cut-length :
    (d : Bool) (p : Padding) (s : Stream) (bytes : List ℕ) (c : Client) {chunk rest : List ℕ}
    {pad : ℕ} {c' : Client}
    → length bytes < uint32_mod
    → (cut : Cut d p s bytes c chunk rest pad c') → length chunk ≡ cut.size
Cut-length d p s bytes c {pad = pad} h cut =
    rw (cut.front, length-take cut.size bytes)
      (omega (
        arith,
        chunk_size_bounds _ pad (frame_limit s c) cut.size cut.sized,
        full_chunk_bounds (length bytes) c h,
      ))

-- The bytes of a frame and the bytes left over are those that were to be sent.
pub send_round_splits :
    (d : Bool) (p : Padding) (s : Stream) (bytes : List ℕ) (c : Client) {chunk rest : List ℕ}
    {pad : ℕ} {c' : Client}
    → send_round d p s bytes c ≡ sent chunk rest pad c'
    → chunk ++ rest ≡ bytes
send_round_splits d p s bytes c e =
    let cut = send_round-Cut d p s bytes c e in
    rw (cut.front, cut.back) (take-append-drop cut.size bytes)

-- Where a round of `sendData` puts a frame in the queue, with less than 2 ^ 32 bytes left to send and
-- a positive frame size: the frame takes a nonempty front of the bytes, its bytes and padding
-- together fit both send windows and the frame size, and the connection window is debited by them
-- and stays above or at 0.
pub send_round_fits :
    (d : Bool) (p : Padding) (s : Stream) (bytes : List ℕ) (c : Client) {chunk rest : List ℕ}
    {pad : ℕ} {c' : Client}
    → 0 < length bytes
    → length bytes < uint32_mod
    → 0 < c.max_frame_size
    → send_round d p s bytes c ≡ sent chunk rest pad c'
    → (chunk ++ rest ≡ bytes)
      × (0 < length chunk)
      × (length chunk + pad ≤ c.max_frame_size)
      × (pos (length chunk + pad) ≤ℤ c.conn_send_window)
      × (pos (length chunk + pad) ≤ℤ s.send_window)
      × (c'.conn_send_window ≡ c.conn_send_window -ℤ pos (length chunk + pad))
      × (pos 0 ≤ℤ c'.conn_send_window)
send_round_fits d p s bytes c {chunk} {rest} {pad} {c'} h1 h2 h3 e =
    let cut = send_round-Cut d p s bytes c e in
    let opened = send_round-cut_chunk d p s bytes c e in
    let len = Cut-length d p s bytes c h2 cut in
    let bounds = chunk_size_bounds _ pad (frame_limit s c) cut.size cut.sized in
    let limits = frame_limit-le s c in
    let window =
      enqueue_window d (write_data s.id chunk (length rest == 0) pad) _ cut.queued
      ∙ debited_window (length chunk + pad) s c in
    let conn = positive_part c.conn_send_window opened.1 in
    let own = positive_part s.send_window opened.2 in
    (
      send_round_splits d p s bytes c e,
      omega (arith, len, bounds, full_chunk_pos (length bytes) c h1 h3),
      omega (arith, len, bounds, limits),
      omega (arith, len, bounds, limits, conn),
      omega (arith, len, bounds, limits, own),
      window,
      rw window (
          omega (
            arith,
            len,
            bounds,
            limits,
            conn,
            -ℤ_parts c.conn_send_window (pos (length chunk + pad)),
          )),
    )
