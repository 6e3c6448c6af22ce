-- ===== src/Http2/SendEnds.antt =====
-- When sendData ends: with room in the windows it finishes; and a wait that nothing ends.
use scalpel_cli.Common.{
  ℕ, ◌+◌, ◌≤◌, ◌<◌, ◌≡◌, ◌≢◌, ◌∙◌, refl, sym, ap, inl, inr, Bool, false, List, [], ◌∷◌, none, some,
  arith, Option-cases, length, length-append, take, drop, ◌==◌, All,
}
use scalpel_cli.Common.Int.{pos, ◌-ℤ◌, ◌≤ℤ◌, -ℤ_parts}
use scalpel_cli.Http2.Types.{Stream, Client, WriteRequest, write_data, uint32_mod}
use scalpel_cli.Http2.Streams.{find-put, find-id}
use scalpel_cli.Http2.Writes.{make_room, enqueue}
use scalpel_cli.Http2.Sending.{
  Padding, padding_for, stream_object, put_object, waiting, sent, frame_limit, full_chunk,
  chunk_size, debited, queue_data, cut_chunk, send_round, Turn, finished, pending, object_round,
  send_data,
}
use scalpel_cli.Http2.Chunks.{send_round-Cut, send_round_fits}

debited_object :
    (i n : ℕ) (c : Client) (s : Stream)
    → stream_object i c ≡ some s
    → stream_object i (debited n s c) ≡ some (record s { send_window = s.send_window -ℤ pos n })
unfolding stream_object debited put_object
debited_object i n c s h =
    let t = record s { send_window = s.send_window -ℤ pos n } in
    ground (
      arith,
      find-put i t c.streams,
      find-put i t c.detached,
      find-id i c.streams {s = s},
      find-id i c.detached {s = s},
    )

debited_keeps :
    (n : ℕ) (s : Stream) (c : Client)
    → ((debited n s c).max_frame_size ≡ c.max_frame_size)
      × ((debited n s c).done_closed ≡ c.done_closed)
unfolding debited put_object
debited_keeps n s c = ground arith

enqueue_keeps :
    (d : Bool) (w : WriteRequest) (i : ℕ) (c : Client) {c' : Client}
    → enqueue d w c ≡ some c'
    → (c'.max_frame_size ≡ c.max_frame_size)
      × (c'.done_closed ≡ c.done_closed)
      × (stream_object i c' ≡ stream_object i c)
unfolding enqueue make_room stream_object
enqueue_keeps d w i c h = ground arith

enqueue-ne-none :
    (d : Bool) (w : WriteRequest) (c : Client) → c.done_closed ≡ false → enqueue d w c ≢ none
unfolding enqueue
enqueue-ne-none d w c h = ground arith

round_open :
    (d : Bool) (p : Padding) (i : ℕ) (bytes : List ℕ) (c : Client) (s : Stream)
    → stream_object i c ≡ some s
    → pos 1 ≤ℤ c.conn_send_window
    → pos 1 ≤ℤ s.send_window
    → object_round d p i bytes c ≡ cut_chunk d p s bytes c
unfolding send_round object_round cut_chunk
round_open d p i bytes c s h w1 w2 = rw (h, object_round) (ground arith)

opened_round :
    (d : Bool) (bytes : List ℕ) (c : Client) (s : Stream)
    → pos 1 ≤ℤ c.conn_send_window
    → pos 1 ≤ℤ s.send_window
    → send_round d none s bytes c ≡ cut_chunk d none s bytes c
unfolding send_round
opened_round d bytes c s w1 w2 = ground arith

chunk_size-none : (k pad limit : ℕ) → 0 < k → limit ≤ pad → chunk_size k pad limit ≡ none
unfolding chunk_size
chunk_size-none k pad limit h l = ground arith

round_waits :
    (d : Bool) (p : Padding) (i : ℕ) (bytes : List ℕ) (c : Client) (s : Stream)
    → stream_object i c ≡ some s
    → pos 1 ≤ℤ c.conn_send_window
    → pos 1 ≤ℤ s.send_window
    → 0 < full_chunk (length bytes) c
    → frame_limit s c ≤ padding_for p s.request false (full_chunk (length bytes) c)
    → object_round d p i bytes c ≡ waiting
unfolding cut_chunk
round_waits d p i bytes c s h w1 w2 k l =
    round_open d p i bytes c s h w1 w2 ∙ rw (chunk_size-none _ _ _ k l, cut_chunk) refl

-- While some bytes are left and both windows are open, but the frame limit is no larger than the
-- padding of the next frame, `sendData` waits for as many rounds as there are, as long as nobody
-- changes the client; this holds of a closed connection and of a dropped stream too, which the wait
-- does not look at.
pub send_data_starves :
    (p : Padding) (i : ℕ) (ts : List Turn) (b : ℕ) (bs : List ℕ) (c : Client) (s : Stream)
    → stream_object i c ≡ some s
    → pos 1 ≤ℤ c.conn_send_window
    → pos 1 ≤ℤ s.send_window
    → 0 < full_chunk (length (b ∷ bs)) c
    → frame_limit s c ≤ padding_for p s.request false (full_chunk (length (b ∷ bs)) c)
    → All (λ (t : Turn). t.others c ≡ c) ts
    → (send_data p i ts (b ∷ bs) c).outcome ≡ pending
unfolding send_data
send_data_starves p i [] b bs c s h w1 w2 k l q = refl
send_data_starves p i (t ∷ ts) b bs c s h w1 w2 k l q =
    rw (round_waits t.choose_done p i (b ∷ bs) c s h w1 w2 k l, send_data)
      (rw (q.0) (send_data_starves p i ts b bs c s h w1 w2 k l q.1))

chunk_size-some : (k limit : ℕ) → 0 < limit → chunk_size k 0 limit ≢ none
unfolding chunk_size
chunk_size-some k limit h = ground arith

cut_chunk_sends :
    (d : Bool) (bytes : List ℕ) (c : Client) (s : Stream)
    → c.done_closed ≡ false
    → 0 < frame_limit s c
    → (x : List ℕ) × (y : List ℕ) × (c' : Client) × (cut_chunk d none s bytes c ≡ sent x y 0 c')
unfolding cut_chunk queue_data
cut_chunk_sends d bytes c s running l =
    elim (Option-cases (chunk_size (full_chunk (length bytes) c) 0 (frame_limit s c))) [
      | inl e ↦ absurd (chunk_size-some _ _ l e)
      | inr (n, e) ↦
          let x = take n bytes in
          let y = drop n bytes in
          let w = write_data s.id x (length y == 0) 0 in
          let c1 = debited (length x + 0) s c in
          elim (Option-cases (enqueue d w c1)) [
            | inl f ↦ absurd (enqueue-ne-none d w c1 ((debited_keeps _ s c).1 ∙ running) f)
            | inr (c', f) ↦ (x, y, c', rw (e, cut_chunk) (rw (f, queue_data) refl))
          ]
    ]

frame_limit_pos :
    (s : Stream) (c : Client)
    → pos 1 ≤ℤ c.conn_send_window
    → pos 1 ≤ℤ s.send_window
    → 0 < c.max_frame_size
    → 0 < frame_limit s c
unfolding frame_limit
frame_limit_pos s c h k l = ground arith

-- Other goroutines that leave the sender's windows alone, and a write that succeeds.
pub record Calm (i : ℕ) (t : Turn) : Type 0 where
  pub written : t.write_error ≡ none
  pub window : (c : Client) → (t.others c).conn_send_window ≡ c.conn_send_window
  pub frame : (c : Client) → (t.others c).max_frame_size ≡ c.max_frame_size
  pub still_open : (c : Client) → (t.others c).done_closed ≡ c.done_closed
  pub object : (c : Client) → stream_object i (t.others c) ≡ stream_object i c

-- What the sender relies on for n bytes.
pub record Ready (i n : ℕ) (c : Client) (s : Stream) : Type 0 where
  pub held : stream_object i c ≡ some s
  pub is_running : c.done_closed ≡ false
  pub frame : 0 < c.max_frame_size
  pub conn : pos n ≤ℤ c.conn_send_window
  pub own : pos n ≤ℤ s.send_window
  pub small : n < uint32_mod

Calm-Ready :
    (i n : ℕ) (t : Turn) (c : Client) (s : Stream)
    → Calm i t
    → Ready i n c s
    → Ready i n (t.others c) s
Calm-Ready i n t c s k r = record {
  held = k.object c ∙ r.held;
  is_running = k.still_open c ∙ r.is_running;
  frame = rw (k.frame c) r.frame;
  conn = rw (k.window c) r.conn;
  own = r.own;
  small = r.small;
}

-- A round with room sends a front of the bytes, and leaves room for the rest.
Ready-round :
    (d : Bool) (i : ℕ) (bytes : List ℕ) (c : Client) (s : Stream)
    → 0 < length bytes
    → Ready i (length bytes) c s
    → (x : List ℕ) × (y : List ℕ) × (c' : Client) × (object_round d none i bytes c ≡ sent x y 0 c')
      × (0 < length x)
      × (length x + length y ≡ length bytes)
      × Ready i (length y) c' (record s { send_window = s.send_window -ℤ pos (length x + 0) })
Ready-round d i bytes c s h r =
    let w1 : pos 1 ≤ℤ c.conn_send_window = omega (arith, r.conn) in
    let w2 : pos 1 ≤ℤ s.send_window = omega (arith, r.own) in
    let (x, y, c', e) =
      cut_chunk_sends d bytes c s r.is_running (frame_limit_pos s c w1 w2 r.frame) in
    let o = round_open d none i bytes c s r.held w1 w2 in
    let round = opened_round d bytes c s w1 w2 ∙ e in
    let fits = send_round_fits d none s bytes c h r.small r.frame round in
    let cut = send_round-Cut d none s bytes c round in
    let sum = sym (length-append x y) ∙ ap length fits.0 in
    let kept = enqueue_keeps d (write_data s.id x (length y == 0) 0) i _ cut.queued in
    let same = debited_keeps (length x + 0) s c in
    (
      x,
      y,
      c',
      o ∙ e,
      fits.1,
      sum,
      record {
        held = kept.2 ∙ debited_object i (length x + 0) c s r.held;
        is_running = kept.1 ∙ same.1 ∙ r.is_running;
        frame = rw (kept.0 ∙ same.0) r.frame;
        conn =
            rw (fits.5)
              (omega (arith, sum, r.conn, -ℤ_parts c.conn_send_window (pos (length x + 0))));
        own = omega (arith, sum, r.own, -ℤ_parts s.send_window (pos (length x + 0)));
        small = omega (arith, sum, r.small);
      },
    )

-- Without padding, on an open connection with a positive frame size and both send windows at least
-- the length of the body (less than 2 ^ 32): if the other goroutines leave the sender's windows alone
-- and no write fails, as many rounds as the body has bytes are enough for `sendData` to finish.
pub send_data_finishes :
    (i : ℕ) (ts : List Turn) (bytes : List ℕ) (c : Client) (s : Stream)
    → All (Calm i) ts
    → length bytes ≤ length ts
    → Ready i (length bytes) c s
    → (send_data none i ts bytes c).outcome ≡ finished
unfolding send_data
send_data_finishes i ts [] c s k l r = refl
send_data_finishes i [] (b ∷ bs) c s k l r = absurd (omega (arith, l))
send_data_finishes i (t ∷ ts) (b ∷ bs) c s k l r =
    let (x, y, c', e, p, q, r') = Ready-round t.choose_done i (b ∷ bs) c s (omega arith) r in
    rw (e, send_data)
      (rw (k.0.written) (
        send_data_finishes i ts y (t.others c') _ k.1 (omega (arith, l, p, q))
          (Calm-Ready i (length y) t c' _ k.0 r')))
