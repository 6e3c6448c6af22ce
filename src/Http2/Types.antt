-- ===== src/Http2/Types.antt =====
-- The data of pkg/customhttp/h2client.go: errors, requests, streams, queued writes and the client.
-- Numbers of a width are naturals (or ℤ where the source lets them fall below 0).
use Prim.Native.String.{String}
use scalpel_cli.Common.{ℕ, Bool, List, Option}
use scalpel_cli.Common.Int.{ℤ}

-- `http2.ErrCode`, with the codes that the client itself names.
pub data ErrCode : Type 0 where
  no_error protocol internal flow_control cancel : ErrCode
  other_code : ℕ → ErrCode

-- The place at which an error text is put round another error.
pub data Stage : Type 0 where
  previously_failed connection_closed_by sending_request frame_write frame_read : Stage

-- `error` values: those of the http2 package, the client's own, and one for each error text.
pub data H2Error : Type 0 where
  connection_error : ErrCode → H2Error
  stream_error : ℕ → ErrCode → H2Error
  stream_reset : ErrCode → H2Error
  goaway_received : ErrCode → H2Error
  end_of_file context_done connection_closed ping_timeout read_timeout unexpected_exit : H2Error
  dial_failed preface_failed settings_failed window_update_failed not_replayable : H2Error
  get_body_failed read_body_failed closed_in_flow_control closed_while_sending : H2Error
  closed_before_headers closed_queuing unsupported_scheme framer_failed : H2Error
  closed_prematurely result_lost : ℕ → H2Error
  wrapped : Stage → H2Error → H2Error

abbrev pub Field : Type 0
Field = String × String

-- What `GetBody` and reading its result give: nil, an error, or bytes with a read error or none.
pub data BodySource : Type 0 where
  no_get_body get_body_error : BodySource
  reads : List ℕ → Bool → BodySource

pub record Request : Type 0 where
  pub method : String
  pub host : String
  pub uri : String
  pub content_length : ℤ
  pub header : List (String × List String)
  pub has_body : Bool
  pub body_source : BodySource

pub record Response : Type 0 where
  pub status_code : ℤ
  pub header : List Field
  pub body : List ℕ
  pub content_length : ℕ
  pub request : Request

-- `h2StreamState`. `done` is the buffer of one of `DoneChan`; `headers` lists the calls of `Add`.
pub record Stream : Type 0 where
  pub id : ℕ
  pub request : Request
  pub response : Option Response
  pub body : List ℕ
  pub headers : List Field
  pub status_code : ℤ
  pub done : Option (Option H2Error)
  pub send_window : ℤ
  pub recv_window : ℕ
  pub recv_window_max : ℕ

-- The items that implement `h2WriteRequest`; the client queues no SETTINGS but acknowledgements.
pub data WriteRequest : Type 0 where
  write_settings_ack : WriteRequest
  write_window_update : ℕ → ℕ → WriteRequest
  write_ping : ℕ → Bool → WriteRequest
  write_rst_stream : ℕ → ErrCode → WriteRequest
  write_headers : ℕ → List ℕ → Bool → ℕ → ℕ → WriteRequest
  write_data : ℕ → List ℕ → Bool → ℕ → WriteRequest

-- `http2.Setting`, with the identifiers that the client names.
pub data Setting : Type 0 where
  enable_push initial_window_size max_frame_size_setting header_table_size : ℕ → Setting
  other_setting : ℕ → ℕ → Setting

-- The calls of `http2.Framer` that put a frame on the wire.
pub data OutFrame : Type 0 where
  out_settings_ack : OutFrame
  out_settings : List Setting → OutFrame
  out_window_update : ℕ → ℕ → OutFrame
  out_ping : Bool → ℕ → OutFrame
  out_rst_stream : ℕ → ErrCode → OutFrame
  out_headers : ℕ → List ℕ → (end_stream end_headers : Bool) → (pad : ℕ) → OutFrame
  out_continuation : ℕ → (end_headers : Bool) → List ℕ → OutFrame
  out_data : ℕ → (end_stream : Bool) → List ℕ → (pad : ℕ) → OutFrame
  out_preface : OutFrame

-- `H2Client`. A nil map of streams reads as an empty one and panics at a write. `detached` holds
-- the stream objects that left the map and that callers still refer to. `wire` lists the calls of
-- the framer, `table_sizes` and `encoded` what the encoder was given, and `acked_pings` the pings whose
-- channel is closed.
pub record Client : Type 0 where
  pub is_connected : Bool
  pub next_stream_id : ℕ
  pub streams : List Stream
  pub streams_nil : Bool
  pub detached : List Stream
  pub last_used : ℕ
  pub conn_send_window : ℤ
  pub max_frame_size : ℕ
  pub initial_stream_send_window : ℕ
  pub conn_recv_window : ℕ
  pub conn_recv_window_max : ℕ
  pub ping_acks : List ℕ
  pub acked_pings : List ℕ
  pub write_queue : List WriteRequest
  pub done_closed : Bool
  pub fatal_error : Option H2Error
  pub wire : List OutFrame
  pub table_sizes : List ℕ
  pub encoded : List Field

-- A call that may fail, or panic.
pub data Result {ℓ} (A : Type ℓ) : Type ℓ where
  ok : A → Result A
  err : H2Error → Result A
  panic : Result A

-- What the framer reads: the stream's number and the frame's content.
pub data Payload : Type 0 where
  meta_headers : List Field → (end_stream : Bool) → Payload
  body_data : List ℕ → (end_stream : Bool) → Payload
  rst_stream : ErrCode → Payload
  window_update : ℕ → Payload
  settings : (ack : Bool) → List Setting → Payload
  ping : (ack : Bool) → ℕ → Payload
  goaway : ErrCode → Payload
  priority push_promise continuation unknown : Payload

pub record Frame : Type 0 where
  pub stream_id : ℕ
  pub payload : Payload

abbrev pub max_response_body_bytes : ℕ
max_response_body_bytes = 33554432

abbrev pub default_initial_window_size : ℕ
default_initial_window_size = 65535

abbrev pub default_max_frame_size : ℕ
default_max_frame_size = 16384

abbrev pub target_conn_window_size : ℕ
target_conn_window_size = 8388608

abbrev pub target_stream_window_size : ℕ
target_stream_window_size = 4194304

-- The capacity of `writeChan`.
abbrev pub write_queue_cap : ℕ
write_queue_cap = 64

abbrev pub max_int64 : ℕ
max_int64 = 9223372036854775807

abbrev pub uint32_mod : ℕ
uint32_mod = 4294967296
