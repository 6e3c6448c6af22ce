-- ===== src/Http2/Responses/Assembled.antt =====
-- A response from the read loop, put together from the frames of its stream.
use scalpel_cli.Common.{
  ℕ, ◌≡◌, ◌∙◌, refl, sym, ap, Bool, true, false, List, [], ◌∷◌, ◌++◌, none, arith, if◌then◌else◌,
  length, length-append,
}
use mathlib.Core.List.{append_assoc, append-nil}
use scalpel_cli.Http2.Types.{Stream, Client, Frame, body_data}
use scalpel_cli.Http2.Streams.{deliver, find-id}
use scalpel_cli.Http2.Conn.{finalize_stream, response_of}
use scalpel_cli.Http2.Flow.{process_data_frame}
use scalpel_cli.Http2.Frames.{
  dispatch_frame, settle, process_frame, ReadResult, read_frame, read_open, read_step, read_loop,
}
use scalpel_cli.Http2.Isolation.{nonzero}
use scalpel_cli.Http2.Responses.{
  Receiving, Extended, Replied, less-Receiving, data_received, data_frames, join, Receiving,
  Extended, less-Receiving, data_received, Replied, data_frames, join,
}

-- One frame of data in the read loop.
data_frame_processed :
    (now i n : ℕ) (bytes : List ℕ) (ended : Bool) (c : Client) (s : Stream) {c' : Client}
    → Receiving i n c s
    → process_data_frame s bytes ended c ≡ (c', ended, none)
    → process_frame now (record { stream_id = i; payload = body_data bytes ended }) c
      ≡ (if ended then finalize_stream now i c' else c', none)
unfolding process_frame dispatch_frame settle
data_frame_processed now i n bytes ended c s r e =
    rw (nonzero i r.numbered) (rw (r.held, process_frame) (rw e))

read_step_open :
    (now : ℕ) (r : ReadResult) (c : Client)
    → c.done_closed ≡ false
    → read_step now r c ≡ read_open now r c
unfolding read_step
read_step_open now r c h = ground arith

read_open_frame :
    (now : ℕ) (f : Frame) (c : Client) {c' : Client}
    → process_frame now f c ≡ (c', none)
    → read_open now (read_frame f) c ≡ (c', true)
unfolding read_open
read_open_frame now f c e = rw e

read_data :
    (now i : ℕ) (bytes : List ℕ) (ended : Bool) (rs : List (ℕ × ReadResult)) (c : Client)
    {c' : Client}
    → c.done_closed ≡ false
    → process_frame now (record { stream_id = i; payload = body_data bytes ended }) c ≡ (c', none)
    → read_loop
        ((now, read_frame (record { stream_id = i; payload = body_data bytes ended })) ∷ rs)
        c
      ≡ read_loop rs c'
unfolding read_loop
read_data now i bytes ended rs c {c'} h e =
    let frame = read_frame (record { stream_id = i; payload = body_data bytes ended }) in
    let step = read_step_open now frame c h ∙ read_open_frame now _ c e in ground (arith, step)

finalized :
    (now i : ℕ) (c : Client) (s : Stream)
    → Receiving i 0 c s
    → Replied i s s.body (finalize_stream now i c)
unfolding finalize_stream deliver response_of
finalized now i c s r =
    rw (r.held, finalize_stream)
      (rw (r.undone, deliver)
        (record {
          object = _;
          others = c.detached;
          response = response_of s;
          detached = refl;
          number = find-id i c.streams r.held;
          done = refl;
          answer = refl;
          body = refl;
          content_length = refl;
          status_code = refl;
          header = refl;
          request = refl;
        }))

same-Replied :
    (i : ℕ) (s t : Stream) (bytes rest more : List ℕ) (c : Client)
    → Extended s bytes t
    → more ≡ s.body ++ (bytes ++ rest)
    → Replied i t (t.body ++ rest) c
    → Replied i s more c
same-Replied i s t bytes rest more c x e p =
    let same : t.body ++ rest ≡ more =
      ap (λ (b : List ℕ). b ++ rest) x.body ∙ append_assoc s.body bytes rest ∙ sym e in
    record {
      object = p.object;
      others = p.others;
      response = p.response;
      detached = p.detached;
      number = p.number;
      done = p.done;
      answer = p.answer;
      body = p.body ∙ same;
      content_length = p.content_length ∙ ap length same;
      status_code = p.status_code ∙ x.status_code;
      header = p.header ∙ x.headers;
      request = p.request ∙ x.request;
    }

-- A stream that is in the map, has its status and no result, on an open connection: when the read
-- loop gets DATA frames for it, the last one with END_STREAM, whose bytes together fit both receive
-- windows and the limit on the body, the loop goes on and the stream ends with no error, and with a
-- response whose body is what the stream had and the bytes of the frames in order, whose length is
-- that of the body, and whose status, header and request are the stream's.
pub response_assembled :
    (now i : ℕ) (ds : List (List ℕ)) (last : List ℕ) (c : Client) (s : Stream)
    → Receiving i (length (join ds last)) c s
    → ((read_loop (data_frames now i ds last) c).1 ≡ true)
      × Replied i s (s.body ++ join ds last) (read_loop (data_frames now i ds last) c).0
unfolding data_frames join
response_assembled now i [] last c s r =
    let (c', t, e, r', x) =
      data_received i 0 last true c s (less-Receiving i _ _ c s (omega arith) r) in
    let step =
      read_data now i last true [] c r.running (data_frame_processed now i _ last true c s r e) in
    rw step (
      unfold read_loop in
      (
        refl,
        same-Replied i s t last [] _ _ x (ap (◌++◌ s.body) (sym (append-nil last)))
            (rw (append-nil t.body) (finalized now i c' t r')),
      ))
response_assembled now i (d ∷ ds) last c s r =
    let (c', t, e, r', x) =
      data_received i (length (join ds last)) d false c s
        (less-Receiving i _ _ c s (omega (arith, length-append d (join ds last))) r) in
    let step =
      read_data now i d false (data_frames now i ds last) c r.running
        (data_frame_processed now i _ d false c s r e) in
    let (more, reply) = response_assembled now i ds last c' t r' in
    rw step (more, same-Replied i s t d (join ds last) _ _ x refl reply)
