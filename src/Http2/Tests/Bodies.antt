-- ===== src/Http2/Tests/Bodies.antt =====
-- Headers and bodies that are sent, cut into frames.
use scalpel_cli.Common.{ℕ, ◌≤◌, ◌<◌, ◌≡◌, refl, true, false, List, [], ◌∷◌, ◌++◌, none, some, arith}
use scalpel_cli.Common.Int.{pos, ◌-ℤ◌, ◌≤ℤ◌}
use scalpel_cli.Http2.Types.{Client}
use scalpel_cli.Http2.Streams.{find}
use scalpel_cli.Http2.Writes.{header_frames, enqueue}
use scalpel_cli.Http2.Sending.{
  cut_chunk, chunk_size, queue_data, debited, put_object, Round, waiting, failed, Padding, finished,
  stream_object, send_round, sent, send_data, frame_limit, full_chunk,
}
use scalpel_cli.Http2.SendLoop.{concat, send_data_conserves}
use scalpel_cli.Http2.SendEnds.{Calm, send_data_finishes}
use scalpel_cli.Http2.Chunks.{send_round_fits}
use scalpel_cli.Http2.HeaderBlocks.{block_of, WellCut, first_payload, header_frames_carry}
use scalpel_cli.Http2.Tests.{stream_number, busy_client, quiet_turn}

send_data_conserves_example :
    (concat (send_data none 3 (quiet_turn ∷ []) (7 ∷ 8 ∷ []) busy_client).chunks
        ++ (send_data none 3 (quiet_turn ∷ []) (7 ∷ 8 ∷ []) busy_client).rest
      ≡ 7 ∷ 8 ∷ [])
    × ((send_data none 3 (quiet_turn ∷ []) (7 ∷ 8 ∷ []) busy_client).outcome ≡ finished
        → concat (send_data none 3 (quiet_turn ∷ []) (7 ∷ 8 ∷ []) busy_client).chunks ≡ 7 ∷ 8 ∷ [])
send_data_conserves_example = send_data_conserves none 3 (quiet_turn ∷ []) (7 ∷ 8 ∷ []) busy_client

quiet_turn-Calm : Calm 3 quiet_turn
quiet_turn-Calm = record {
  written = refl;
  window = λ c. refl;
  frame = λ c. refl;
  still_open = λ c. refl;
  object = λ c. refl;
}

send_data_finishes_example :
    (send_data none 3 (quiet_turn ∷ quiet_turn ∷ []) (7 ∷ 8 ∷ []) busy_client).outcome ≡ finished
unfolding stream_object find
send_data_finishes_example =
    send_data_finishes 3 (quiet_turn ∷ quiet_turn ∷ []) (7 ∷ 8 ∷ []) busy_client (stream_number 3)
      (quiet_turn-Calm, (quiet_turn-Calm, tt)) (ground arith)
      (record {
        held = refl;
        is_running = refl;
        frame = ground arith;
        conn = ground arith;
        own = ground arith;
        small = ground arith;
      })

header_frames_carry_example :
    (block_of (header_frames 1 (1 ∷ 2 ∷ 3 ∷ []) true 2 9) ≡ 1 ∷ 2 ∷ 3 ∷ [])
    × WellCut 1 2 true 9 (header_frames 1 (1 ∷ 2 ∷ 3 ∷ []) true 2 9)
    × (first_payload (header_frames 1 (1 ∷ 2 ∷ 3 ∷ []) true 2 9) ≡ 12)
header_frames_carry_example =
    header_frames_carry 1 (1 ∷ 2 ∷ 3 ∷ []) true 2 9 (ground arith) (ground arith)

-- Two bytes of padding for every frame, and four.
abbrev pad_by : ℕ → Padding
pad_by n = some (λ r is_headers size. n)

-- The client behind a round with two bytes of padding and a limit of four.
abbrev padded_round : Round
padded_round = send_round false (pad_by 2) (stream_number 3) (1 ∷ 2 ∷ 3 ∷ []) busy_client

abbrev client_of : Round → Client
client_of (sent chunk rest pad c) = c
client_of waiting = busy_client
client_of (failed e c) = c

send_round_sends : padded_round ≡ sent (1 ∷ 2 ∷ []) (3 ∷ []) 2 (client_of padded_round)
unfolding send_round cut_chunk chunk_size full_chunk frame_limit queue_data debited put_object find
    enqueue
send_round_sends = refl

abbrev three_bytes : List ℕ
three_bytes = 1 ∷ 2 ∷ 3 ∷ []

send_round_fits_example :
    ((1 ∷ 2 ∷ []) ++ (3 ∷ []) ≡ three_bytes)
    × (0 < 2)
    × (4 ≤ 4)
    × (pos 4 ≤ℤ pos 65535)
    × (pos 4 ≤ℤ pos 10)
    × ((client_of padded_round).conn_send_window ≡ pos 65535 -ℤ pos 4)
    × (pos 0 ≤ℤ (client_of padded_round).conn_send_window)
send_round_fits_example =
    send_round_fits false (pad_by 2) (stream_number 3) (1 ∷ 2 ∷ 3 ∷ []) busy_client (ground arith)
      (ground arith) (ground arith) send_round_sends
