-- ===== src/Http2/Padded.antt =====
-- The size of a padded DATA frame on the wire, against the limits that sendData keeps.
use scalpel_cli.Common.{some, ℕ, ◌+◌, ◌<◌, ◌≡◌, Bool, List, arith, length, ltb, if◌then◌else◌}
use scalpel_cli.Http2.Types.{Stream, Client, uint32_mod}
use scalpel_cli.Http2.Sending.{Padding, send_round, sent, full_chunk, frame_limit, chunk_size}
use scalpel_cli.Http2.Chunks.{send_round-Cut, Cut-length}

-- RFC 9113, section 6.1: the payload of a padded DATA frame has the Pad Length octet, the data and
-- the padding; flow control counts all of it.
abbrev pub data_payload : (bytes pad : ℕ) → ℕ
data_payload bytes pad = if ltb 0 pad then 1 + bytes + pad else bytes

clipped :
    (k pad limit n : ℕ)
    → limit < k + pad
    → 0 < pad
    → chunk_size k pad limit ≡ some n
    → n + pad ≡ limit
unfolding chunk_size
clipped k pad limit n h k' e = ground arith

-- Whenever `sendData` pads a frame and has to cut it to the limit (the smaller of the two windows and
-- the frame size), the frame that it queues takes one octet more than the limit on the wire.
pub padded_frame_overruns :
    (d : Bool) (p : Padding) (s : Stream) (bytes : List ℕ) (c : Client) {chunk rest : List ℕ}
    {pad : ℕ} {c' : Client}
    → length bytes < uint32_mod
    → 0 < pad
    → frame_limit s c < full_chunk (length bytes) c + pad
    → send_round d p s bytes c ≡ sent chunk rest pad c'
    → data_payload (length chunk) pad ≡ frame_limit s c + 1
padded_frame_overruns d p s bytes c {pad = pad} h k l e =
    let cut = send_round-Cut d p s bytes c e in
    ground (
      arith,
      Cut-length d p s bytes c h cut,
      clipped (full_chunk (length bytes) c) pad (frame_limit s c) cut.size l k cut.sized,
    )
