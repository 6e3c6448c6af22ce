-- ===== src/Http2/Sending.antt =====
-- How a request goes out: encodeHeaders, sendRequest and sendData of pkg/customhttp/h2client.go.
use Prim.Native.String.{String}
use text.Mathlib.Text.{◌==◌ as str_eq}
use scalpel_cli.Common.{
  ℕ, ◌+◌, ◌-◌, ◌%◌, Bool, false, not, ◌&&◌, ◌||◌, List, [], ◌∷◌, ◌++◌, Option, none, some, ltb, leb,
  ◌==◌, if◌then◌else◌, length, take, drop,
}
use scalpel_cli.Common.Int.{ℤ, pos, pos_part, ◌-ℤ◌, ltb_ℤ}
use scalpel_cli.Http2.Types.{H2Error, Stage, Field, Request, Stream, Client, write_data, uint32_mod}
use scalpel_cli.Http2.Streams.{find, put}
use scalpel_cli.Http2.Conn.{is_some}
use scalpel_cli.Http2.Writes.{enqueue}

-- The methods of text that the encoder relies on, and the encoder itself: HPACK's output for a list
-- of fields, after the fields and table sizes that it was given before.
pub record Codec : Type 0 where
  pub canonical_key : String → String
  pub to_lower : String → String
  pub split_cookies : String → List String
  pub format_int : ℤ → String
  pub hpack : List Field → List ℕ → List Field → List ℕ

abbrev pub is_hop_header : String → Bool
is_hop_header k =
    str_eq k "Host"
    || (str_eq k "Content-Length"
        || (str_eq k "Connection"
            || (str_eq k "Keep-Alive"
                || (str_eq k "Proxy-Connection"
                    || (str_eq k "Transfer-Encoding" || str_eq k "Upgrade")))))

unfoldable pub cookie_fields : String → List String → List Field
cookie_fields name [] = []
cookie_fields name (v ∷ vs) =
    if str_eq v "" then cookie_fields name vs else (name, v) ∷ cookie_fields name vs

abbrev pub or_default : String → String → String
or_default s d = if str_eq s "" then d else s

-- The content length goes by the body where there is one.
abbrev pub length_field : Codec → Request → List ℕ → List Field
length_field k r body =
    if ltb 0 (length body)
    then ("content-length", k.format_int (pos (length body))) ∷ []
    else if ltb_ℤ (pos 0) r.content_length
    then ("content-length", k.format_int r.content_length) ∷ []
    else []

module _ (k : Codec) where
  unfoldable pub value_fields : String → List String → List Field
  value_fields name [] = []
  value_fields name (v ∷ vs) =
      (if str_eq name "cookie" then cookie_fields name (k.split_cookies v) else (name, v) ∷ [])
      ++ value_fields name vs

  unfoldable pub header_fields : List (String × List String) → List Field
  header_fields [] = []
  header_fields ((name, vs) ∷ hs) =
      (if is_hop_header (k.canonical_key name) then [] else value_fields (k.to_lower name) vs)
      ++ header_fields hs

  -- The fields that `encodeHeaders` writes, in order; scheme and host are those of the target URL.
  unfoldable pub request_fields : (scheme host : String) → Request → List ℕ → List Field
  request_fields scheme host r body =
      (":method", r.method)
      ∷ (":scheme", scheme)
      ∷ (":authority", or_default r.host host)
      ∷ (":path", or_default r.uri "/")
      ∷ (length_field k r body ++ header_fields r.header)

-- `PaddingStrategy`: the flag says HEADERS or DATA. The result is a uint8.
abbrev pub Padding : Type 0
Padding = Option (Request → Bool → ℕ → ℕ)

abbrev pub padding_for : Padding → Request → Bool → ℕ → ℕ
padding_for none r is_headers n = 0
padding_for (some p) r is_headers n = p r is_headers n % 256

-- The object that a caller holds, in the map or out of it.
unfoldable pub stream_object : ℕ → Client → Option Stream
stream_object i c = elim (find i c.streams) [ some s ↦ some s | none ↦ find i c.detached ]

unfoldable pub put_object : Stream → Client → Client
put_object s c = elim (find s.id c.streams) [
  | some _ ↦ record c { streams = put s c.streams }
  | none ↦ record c { detached = put s c.detached }
]

-- What one round of the loop of `sendData` comes to.
pub data Round : Type 0 where
  waiting : Round
  failed : H2Error → Client → Round
  sent : (chunk rest : List ℕ) → (pad : ℕ) → Client → Round

abbrev min3 : ℕ → ℕ → ℕ → ℕ
min3 a b d = let ab = if ltb b a then b else a in if ltb d ab then d else ab

-- What a frame may carry, padding included: the two windows (above 0 here) and the frame size.
unfoldable pub frame_limit : Stream → Client → ℕ
frame_limit s c = min3 (pos_part c.conn_send_window) (pos_part s.send_window) c.max_frame_size

-- The bytes of a frame before padding is looked at.
unfoldable pub full_chunk : ℕ → Client → ℕ
full_chunk n c = if ltb c.max_frame_size (n % uint32_mod) then c.max_frame_size else n

-- The bytes of the frame, or none where not even one byte fits beside the padding.
unfoldable pub chunk_size : (chunk pad limit : ℕ) → Option ℕ
chunk_size chunk pad limit =
    if ltb limit (chunk + pad)
    then if leb limit pad then none else some (limit - pad)
    else some chunk

unfoldable pub debited : ℕ → Stream → Client → Client
debited n s c =
    put_object (record s { send_window = s.send_window -ℤ pos n })
      (record c { conn_send_window = c.conn_send_window -ℤ pos n })

-- The windows are debited and the frame is queued. After the end of the connection the queuing may
-- fail, and the windows stay debited.
unfoldable pub queue_data :
    (choose_done : Bool) → Stream → (chunk rest : List ℕ) → (pad : ℕ) → Client → Round
queue_data choose_done s chunk rest pad c =
    let c' = debited (length chunk + pad) s c in
    elim (enqueue choose_done (write_data s.id chunk (length rest == 0) pad) c') [
      | none ↦ failed H2Error.closed_queuing c'
      | some c'' ↦ sent chunk rest pad c''
    ]

-- The part of the round behind the wait for windows.
unfoldable pub cut_chunk : Bool → Padding → Stream → List ℕ → Client → Round
cut_chunk choose_done p s bytes c =
    let pad = padding_for p s.request false (full_chunk (length bytes) c) in
    elim (chunk_size (full_chunk (length bytes) c) pad (frame_limit s c)) [
      | none ↦ waiting
      | some n ↦ queue_data choose_done s (take n bytes) (drop n bytes) pad c
    ]

abbrev pub is_open : ℤ → Bool
is_open w = ltb_ℤ (pos 0) w

-- The inner loop: where a window is shut, a closed connection and a dropped stream are noticed.
unfoldable pub wait_for_window : Stream → Client → Round
wait_for_window s c =
    if not c.is_connected
    then failed H2Error.closed_in_flow_control c
    else if is_some (find s.id c.streams)
    then waiting
    else failed H2Error.closed_while_sending c

unfoldable pub send_round : Bool → Padding → Stream → List ℕ → Client → Round
send_round choose_done p s bytes c =
    if is_open c.conn_send_window && is_open s.send_window
    then cut_chunk choose_done p s bytes c
    else wait_for_window s c

-- `sendData`. Between two rounds the other goroutines run; a turn is what they do to the client, with
-- the result that the write loop gives for a frame of this round, and the choice of the `select`.
pub record Turn : Type 0 where
  pub others : Client → Client
  pub write_error : Option H2Error
  pub choose_done : Bool

pub data SendEnd : Type 0 where
  finished pending : SendEnd
  gave_up : H2Error → SendEnd

-- The client, the frames that were queued, the bytes that were not, and how it ended.
pub record Sent : Type 0 where
  pub client : Client
  pub chunks : List (List ℕ)
  pub rest : List ℕ
  pub outcome : SendEnd

abbrev pub with_chunk : List ℕ → Sent → Sent
with_chunk chunk r = record r { chunks = chunk ∷ r.chunks }

abbrev pub stop : Client → List ℕ → SendEnd → Sent
stop c rest e = record { client = c; chunks = []; rest = rest; outcome = e }

abbrev pub after_write : Option H2Error → (chunk rest : List ℕ) → Client → Sent → Sent
after_write none chunk rest c later = with_chunk chunk later
after_write (some e) chunk rest c later =
    with_chunk chunk (stop c rest (gave_up (H2Error.wrapped Stage.frame_write e)))

-- The round on the object that the caller holds, which never vanishes.
unfoldable pub object_round : Bool → Padding → ℕ → List ℕ → Client → Round
object_round choose_done p i bytes c = elim (stream_object i c) [
  | none ↦ failed (H2Error.closed_prematurely i) c
  | some s ↦ send_round choose_done p s bytes c
]

unfoldable pub send_data : Padding → ℕ → List Turn → List ℕ → Client → Sent
send_data p i ts [] c = stop c [] finished
send_data p i [] (b ∷ bs) c = stop c (b ∷ bs) pending
send_data p i (t ∷ ts) (b ∷ bs) c = elim (object_round t.choose_done p i (b ∷ bs) c) [
  | waiting ↦ send_data p i ts (b ∷ bs) (t.others c)
  | failed e c' ↦ stop c' (b ∷ bs) (gave_up e)
  | sent chunk rest pad c' ↦
      let later = send_data p i ts rest (t.others c') in
      after_write t.write_error chunk rest c' later
]
