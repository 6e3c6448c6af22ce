-- ===== src/Http2/Calls.antt =====
-- What callers use: sendRequest, Do, PrepareRequest, ReleaseBody, WaitResponse, sendPing and Close of
-- pkg/customhttp/h2client.go. Where a call waits, the caller's turn ends with a step of its own.
use Prim.Native.String.{String}
use scalpel_cli.Common.{
  ℕ, Bool, true, false, not, ◌&&◌, List, [], ◌∷◌, ◌++◌, Option, none, some, ◌==◌, if◌then◌else◌,
  length,
}
use scalpel_cli.Http2.Types.{
  H2Error, Stage, BodySource, no_get_body, get_body_error, reads, cancel, Request, Response, Stream,
  Client, Result, ok, err, panic, write_headers, write_ping, default_max_frame_size,
}
use scalpel_cli.Http2.Streams.{find}
use scalpel_cli.Http2.Conn.{ConnectIo, connect, initialize_stream, cleanup_stream, shutdown}
use scalpel_cli.Http2.Flow.{is_zero}
use scalpel_cli.Http2.Frames.{queue_reset, erase}
use scalpel_cli.Http2.Writes.{enqueue}
use scalpel_cli.Http2.Sending.{
  Codec, request_fields, Padding, padding_for, stream_object, put_object, Turn, SendEnd, finished,
  pending, gave_up, send_data,
}

-- The body that `sendRequest` sends.
unfoldable pub read_body : Bool → BodySource → Result (List ℕ)
read_body false source = ok []
read_body true no_get_body = ok []
read_body true get_body_error = err H2Error.get_body_failed
read_body true (reads bytes true) = err H2Error.read_body_failed
read_body true (reads bytes false) = ok bytes

-- The body that `PrepareRequest` holds back; a read error is passed over.
unfoldable pub prepared_body : Bool → BodySource → Result (List ℕ)
prepared_body false source = ok []
prepared_body true no_get_body = err H2Error.not_replayable
prepared_body true get_body_error = err H2Error.get_body_failed
prepared_body true (reads bytes _) = ok bytes

abbrev or_failed : List ℕ → Client × Option H2Error → Client × Result (List ℕ)
or_failed body (c, none) = (c, ok body)
or_failed body (c, some e) = (c, err e)

abbrev first_error : Option H2Error → Option H2Error → Option H2Error
first_error none e = e
first_error (some e) _ = some e

-- The error of `PrepareRequest` where the HEADERS could not be queued.
abbrev as_closed : Option H2Error → Option H2Error
as_closed none = none
as_closed (some _) = some H2Error.connection_closed

-- `req.Body != nil && req.ContentLength != 0 && req.GetBody == nil`
abbrev pub lacks_get_body : BodySource → Bool
lacks_get_body no_get_body = true
lacks_get_body _ = false

abbrev pub needs_replay : Request → Bool
needs_replay r = r.has_body && (not (is_zero r.content_length) && lacks_get_body r.body_source)

module _ (k : Codec) (scheme host : String) (padding : Padding) where
  -- The header block, and the client whose encoder has seen the fields.
  unfoldable pub encode_headers : Request → List ℕ → Client → Client × List ℕ
  encode_headers r body c =
      let fields = request_fields k scheme host r body in
      (record c { encoded = c.encoded ++ fields }, k.hpack c.encoded c.table_sizes fields)

  -- The HEADERS of a stream are queued, with END_STREAM where there is no body.
  unfoldable pub queue_headers :
      (choose_done : Bool) → Stream → List ℕ → Client → Client × Option H2Error
  unfolding encode_headers
  queue_headers choose_done s body c =
      let (c', block) = encode_headers s.request body c in
      let max = if c.max_frame_size == 0 then default_max_frame_size else c.max_frame_size in
      let pad = padding_for padding s.request true (length block) in
      elim (enqueue choose_done (write_headers s.id block (length body == 0) max pad) c') [
        | none ↦ (c', some H2Error.closed_queuing)
        | some queued ↦ (queued, none)
      ]

  -- `sendRequest` up to the wait for the HEADERS to be written: the body that is left to send.
  unfoldable pub send_headers : (choose_done : Bool) → Stream → Client → Client × Result (List ℕ)
  unfolding queue_headers
  send_headers choose_done s c = elim (read_body s.request.has_body s.request.body_source) [
    | ok body ↦
        if not c.is_connected
        then (c, err H2Error.closed_before_headers)
        else or_failed body (queue_headers choose_done s body c)
    | err e ↦ (c, err e)
    | panic ↦ (c, panic)
  ]

  -- `sendRequest`: the HEADERS, and then the body if there is one. `written` is the result of the
  -- write of the HEADERS, and `others` what the other goroutines do meanwhile.
  unfoldable pub send_request :
      (choose_done : Bool) (written : Option H2Error)
      → (Client → Client)
      → List Turn
      → Stream
      → Client
      → Client × SendEnd
  unfolding send_headers
  send_request choose_done written others turns s c =
      let (c', r) = send_headers choose_done s c in
      elim r [
        | ok body ↦ elim written [
          | none ↦
              let sent = send_data padding s.id turns body (others c') in
              (sent.client, sent.outcome)
          | some e ↦ (c', gave_up (H2Error.wrapped Stage.frame_write e))
        ]
        | err e ↦ (c', gave_up e)
        | panic ↦ (c', pending)
      ]

  prepare_on :
      (now : ℕ) (choose_done : Bool) (written : Option H2Error)
      → List ℕ
      → Client
      → Result (Client × Stream)
      → Client × Result (ℕ × List ℕ)
  unfolding queue_headers
  prepare_on now choose_done written body c (ok (c', s)) =
      let (c'', e) = queue_headers choose_done s body c' in
      elim (first_error (as_closed e) written) [
        | none ↦ (c'', ok (s.id, body))
        | some e' ↦ (cleanup_stream now s.id e' c'', err e')
      ]
  prepare_on now choose_done written body c (err e) = (c, err e)
  prepare_on now choose_done written body c panic = (c, panic)

  -- `PrepareRequest`, whose handle is the stream's number and the body.
  unfoldable pub prepare_request :
      ConnectIo
      → (now : ℕ) → (choose_done : Bool) (written : Option H2Error) → Request
      → Client
      → Client × Result (ℕ × List ℕ)
  unfolding prepare_on
  prepare_request io now choose_done written r c =
      let (c', e) = connect io now c in
      elim e [
        | some e' ↦ (c', err e')
        | none ↦ elim (prepared_body r.has_body r.body_source) [
          | ok body ↦ prepare_on now choose_done written body c' (initialize_stream r now c')
          | err e' ↦ (c', err e')
          | panic ↦ (c', panic)
        ]
      ]

  -- `ReleaseBody` for a handle.
  unfoldable pub release_body : List Turn → ℕ × List ℕ → Client → Client × SendEnd
  release_body turns (i, []) c = (c, finished)
  release_body turns (i, b ∷ bs) c = elim (find i c.streams) [
    | none ↦ (c, gave_up (H2Error.closed_prematurely i))
    | some s ↦ let sent = send_data padding s.id turns (b ∷ bs) c in (sent.client, sent.outcome)
  ]

-- `Do` up to the start of the sending goroutine.
unfoldable pub start_request : ConnectIo → ℕ → Request → Client → Client × Result Stream
start_request io now r c =
    let (c', e) = connect io now c in
    elim e [
      | some e' ↦ (c', err e')
      | none ↦
          if needs_replay r
          then (c', err H2Error.not_replayable)
          else elim (initialize_stream r now c') [
            | ok (opened, s) ↦ (opened, ok s)
            | err e' ↦ (c', err e')
            | panic ↦ (c', panic)
          ]
    ]

-- What a wait of `Do` ends by.
pub data Woken : Type 0 where
  send_returned : Option H2Error → Woken
  stream_done context_ended : Woken

-- Where a call stands: it waits on, or it has its result.
pub data Progress : Type 0 where
  blocked : Progress
  replied : Response → Progress
  nil_reply : Progress
  refused : H2Error → Progress

abbrev pub reply_with : (Response → Response) → Option Response → Progress
reply_with f none = nil_reply
reply_with f (some r) = replied (f r)

-- A receive from the stream's `DoneChan`, and the answer that follows it.
unfoldable pub receive : (Response → Response) → ℕ → Client → Client × Progress
receive f i c = elim (stream_object i c) [
  | none ↦ (c, blocked)
  | some s ↦ elim s.done [
    | none ↦ (c, blocked)
    | some (some e) ↦ (put_object (record s { done = none }) c, refused e)
    | some none ↦ (put_object (record s { done = none }) c, reply_with f s.response)
  ]
]

-- The first `select` of `Do`; the flag says that the second one is next.
unfoldable pub first_select : ℕ → ℕ → Woken → Client → Client × Progress × Bool
first_select now i (send_returned none) c = (c, blocked, true)
first_select now i (send_returned (some e)) c =
    (cleanup_stream now i e c, refused (H2Error.wrapped Stage.sending_request e), false)
first_select now i stream_done c = let (c', p) = receive (λ r. r) i c in (c', p, false)
first_select now i context_ended c =
    (cleanup_stream now i H2Error.context_done c, refused H2Error.context_done, false)

-- The second `select`: a response is decompressed, and a cancellation sends RST_STREAM.
unfoldable pub second_select : (Response → Response) → ℕ → ℕ → Bool → Client → Client × Progress
second_select decompress now i false c = receive decompress i c
second_select decompress now i true c = (
  cleanup_stream now i H2Error.context_done (queue_reset i cancel c),
  refused H2Error.context_done,
)

-- `WaitResponse`; the flag says that the context ends first.
unfoldable pub wait_response : ℕ → ℕ → Bool → Client → Client × Progress
wait_response now i cancelled c = elim (find i c.streams) [
  | none ↦ (c, refused (H2Error.result_lost i))
  | some _ ↦
      if cancelled
      then (cleanup_stream now i H2Error.context_done c, refused H2Error.context_done)
      else receive (λ r. r) i c
]

unfoldable pub with_ping : ℕ → Client → Client
with_ping payload c = record c { ping_acks = payload ∷ erase payload c.ping_acks }

-- `sendPing` with its random payload.
unfoldable pub send_ping : (choose_done : Bool) → ℕ → Client → Client × Option H2Error
send_ping choose_done payload c =
    if not c.is_connected
    then (c, some H2Error.connection_closed)
    else elim (enqueue choose_done (write_ping payload false) (with_ping payload c)) [
      | none ↦ (record c { ping_acks = erase payload c.ping_acks }, some H2Error.closed_queuing)
      | some c' ↦ (c', none)
    ]

-- `Close`, without the error of the socket.
unfoldable pub close : Client → Client
close c = shutdown none c
