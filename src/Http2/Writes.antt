-- ===== src/Http2/Writes.antt =====
-- What the queued writes put on the wire, and writeLoop and drainWriteQueue of
-- pkg/customhttp/h2client.go.
use scalpel_cli.Common.{
  ℕ, ◌%◌, zero, suc, Bool, true, false, ◌&&◌, List, [], ◌∷◌, ◌++◌, map, Option, none, some, leb,
  ltb, if◌then◌else◌, length, take, drop,
}
use scalpel_cli.Http2.Types.{
  H2Error, Stage, Client, WriteRequest, write_settings_ack, write_window_update, write_ping,
  write_rst_stream, write_headers, write_data, OutFrame, out_settings_ack, out_window_update,
  out_ping, out_rst_stream, out_headers, out_continuation, out_data, uint32_mod, write_queue_cap,
}
use scalpel_cli.Http2.Conn.{shutdown}

-- The CONTINUATION frames of a header block, at most `n` of them. A length is read as a uint32.
unfoldable pub continuations : (n : ℕ) → (i : ℕ) → List ℕ → (max : ℕ) → List OutFrame
continuations zero i block max = []
continuations (suc n) i [] max = []
continuations (suc n) i (b ∷ block) max =
    let size = length (b ∷ block) % uint32_mod in
    let chunk = if ltb max size then max else size in
    out_continuation i (leb size max) (take chunk (b ∷ block))
    ∷ continuations n i (drop chunk (b ∷ block)) max

-- `writeHeaders.writeFrame`. The rounds are at most as many as the block has bytes.
unfoldable pub header_frames : ℕ → List ℕ → Bool → ℕ → ℕ → List OutFrame
header_frames i block end_stream max pad =
    if leb (length block % uint32_mod) max
    then out_headers i block end_stream true pad ∷ []
    else out_headers i (take max block) end_stream false pad
      ∷ continuations (length block) i (drop max block) max

-- The `writeFrame` methods.
unfoldable pub write_frame : WriteRequest → List OutFrame
write_frame write_settings_ack = out_settings_ack ∷ []
write_frame (write_window_update i increment) = out_window_update i increment ∷ []
write_frame (write_ping payload ack) = out_ping ack payload ∷ []
write_frame (write_rst_stream i code) = out_rst_stream i code ∷ []
write_frame (write_headers i block end_stream max pad) = header_frames i block end_stream max pad
write_frame (write_data i bytes end_stream pad) = out_data i end_stream bytes pad ∷ []

-- What `handleError` tells the waiting callers.
abbrev pub Notice : Type 0
Notice = WriteRequest × Option H2Error

unfoldable pub drain_write_queue : H2Error → Client → Client × List Notice
drain_write_queue e c = (record c { write_queue = [] }, map (λ w. (w, some e)) c.write_queue)

abbrev pub fail_first : WriteRequest → Client × List Notice → Client × List Notice × Bool
fail_first w (c, notices) = (c, (w, some H2Error.framer_failed) ∷ notices, false)

abbrev pub stop_with : Client × List Notice → Client × List Notice × Bool
stop_with (c, notices) = (c, notices, false)

unfoldable pub write_next : Bool → List WriteRequest → Client → Client × List Notice × Bool
write_next written [] c = (c, [], true)
write_next true (w ∷ ws) c =
    (record c { write_queue = ws; wire = c.wire ++ write_frame w }, (w, none) ∷ [], true)
write_next false (w ∷ ws) c = fail_first w (
    drain_write_queue H2Error.framer_failed (
      shutdown (some (H2Error.wrapped Stage.frame_write H2Error.framer_failed))
        (record c { write_queue = ws })))

-- One round of `writeLoop`: `choose_done` is the choice of the `select` where both cases are ready,
-- and `written` says whether the framer took the frames. An empty queue waits.
unfoldable pub write_step : (choose_done written : Bool) → Client → Client × List Notice × Bool
write_step choose_done written c =
    if c.done_closed && choose_done
    then stop_with (drain_write_queue H2Error.connection_closed c)
    else write_next written c.write_queue c

-- The write loop takes its next item while a caller waits for room with the lock held.
unfoldable pub make_room : Client → Client
make_room c = elim c.write_queue [
  | [] ↦ c
  | w ∷ ws ↦ record c { write_queue = ws; wire = c.wire ++ write_frame w }
]

abbrev pub push : WriteRequest → Client → Client
push w c = record c { write_queue = c.write_queue ++ w ∷ [] }

-- A send on `writeChan` that waits for room, or for the end of the connection: none is the latter.
-- Where both cases of the `select` are ready, `choose_done` says which one is taken.
unfoldable pub enqueue : (choose_done : Bool) → WriteRequest → Client → Option Client
enqueue choose_done w c =
    if ltb (length c.write_queue) write_queue_cap
    then if c.done_closed && choose_done then none else some (push w c)
    else if c.done_closed
    then none
    else some (push w (make_room c))
