-- ===== src/Http2/Lifecycle.antt =====
-- A connection from its start to its end, and what callers see of it.
use scalpel_cli.Common.{ℕ, ◌≡◌, Bool, true, false, none, some, arith}
use scalpel_cli.Http2.Types.{H2Error, Stage, Request, Response, Stream, Client, err, panic}
use scalpel_cli.Http2.Streams.{find, remove}
use scalpel_cli.Http2.Conn.{ConnectIo, connect, shutdown, initialize_stream, finalize_stream}
use scalpel_cli.Http2.Calls.{
  close, wait_response, refused, receive, first_select, second_select, stream_done, replied,
}
use scalpel_cli.Http2.Sending.{stream_object}

-- `Close` on a connection that has not failed, and then a call on it: the dial succeeds, the client
-- is connected again, and the assignment of the new stream to the nil map panics. This holds for
-- every connected client without a fatal error and every request.
pub reopened_panics :
    (io : ConnectIo) (now later : ℕ) (r : Request) (c : Client)
    → c.is_connected ≡ true
    → c.fatal_error ≡ none
    → (connect io now (close c)).1 ≡ none
    → ((connect io now (close c)).0.is_connected ≡ true)
      × (initialize_stream r later (connect io now (close c)).0 ≡ panic)
unfolding connect initialize_stream close shutdown
reopened_panics io now later r c h f k = (ground arith, ground arith)

-- A shut connection with an error never comes back: `Connect` reports the first error, and no
-- stream is opened.
pub shutdown_final :
    (io : ConnectIo) (now later : ℕ) (r : Request) (e : H2Error) (c : Client)
    → c.is_connected ≡ true
    → c.fatal_error ≡ none
    → (connect io now (shutdown (some e) c)
        ≡ (shutdown (some e) c, some (H2Error.wrapped Stage.previously_failed e)))
      × (initialize_stream r later (shutdown (some e) c)
          ≡ err (H2Error.wrapped Stage.connection_closed_by e))
unfolding connect initialize_stream shutdown
shutdown_final io now later r e c h f = (ground arith, ground arith)

-- A response that is complete before `WaitResponse` looks is lost to it: once the stream is
-- finalized, and no other object has its number, `WaitResponse` answers that the result is lost.
pub early_response_lost :
    (now later i : ℕ) (cancelled : Bool) (c : Client) (s : Stream)
    → find i c.streams ≡ some s
    → find i (remove i c.streams) ≡ none
    → (wait_response later i cancelled (finalize_stream now i c)).1
      ≡ refused (H2Error.result_lost i)
unfolding wait_response finalize_stream
early_response_lost now later i cancelled c s h k = ground arith

-- What `Do` returns for one finished stream: where its first `select` sees the stream's result, the
-- response as it came; where the sending goroutine's return was seen first, the same response
-- decompressed.
pub first_select_raw :
    (decompress : Response → Response) (now i : ℕ) (c : Client) (s : Stream) (r : Response)
    → stream_object i c ≡ some s
    → s.done ≡ some none
    → s.response ≡ some r
    → ((first_select now i stream_done c).1 ≡ replied r)
      × ((second_select decompress now i false c).1 ≡ replied (decompress r))
unfolding first_select second_select receive
first_select_raw decompress now i c s r h d a = (ground arith, ground arith)
