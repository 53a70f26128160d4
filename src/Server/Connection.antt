-- ===== src/Server/Connection.antt =====
-- engine/src/lib.rs: `handle_h1_connection` as steps over what the socket gives, with the bytes
-- that are written. The reader of a streamed body and the handler of the request run side by side.
-- A handler that reads on until its channel is closed answers when the reader is done. One that ends
-- before answers on the chunks that it was given by then, which is an event of its own; it drops
-- the channel, so the reader, which waits for the socket, stops behind what that wait gives.
pub mod Body
pub mod Tests
use Prim.Native.Nat.{min}
use rpress.Common.{
  ℕ, zero, suc, ◌+◌, ◌-◌, Bool, true, false, not, ◌&&◌, Option, none, some, List, [], ◌∷◌, ◌++◌,
  Str, codes, HashMap, lookup, take, drop, length, ltb, is_empty, if◌then◌else◌, crlf, contains,
  list_eq, nat_eq,
}
use rpress.Types.Status
use rpress.Types.Status.{StatusCode}
use rpress.Payload.{ResponsePayload, text, with_status}
use rpress.Response.{Compressors, send_response}
use rpress.Request.Outcome.{
  ParseError, error_text, Outcome, complete, RequestPayload, RequestMetadata, HeadersParseResult,
}
use rpress.Request.Head.{parse_headers_only}
use rpress.Server.Headers.{apply_cors_headers}
use rpress.Server.Static.{FileSystem}
use rpress.Server.App.{Rpress}
use rpress.Server.Dispatch.{req_origin_of}
use rpress.Server.Send.{
  SioDispatch, not_sio, response, websocket_upgrade, send_payload, send_error_status,
  dispatch_route, try_handle_socketio,
}
use rpress.Server.Requests.{LoopEnd, waiting, rejected, panicked, exhausted, Parsed, take_requests}

-- What the socket gives, the server's shutdown, or the end of a handler that is done with a body
-- that still streams in.
pub data Event : Type 0 where
  received : Str → Event
  closed : Event
  read_error : Event
  timed_out : Event
  cancelled : Event
  handler_done : Event

-- A body that streams in: its request, and how many bytes are still to come.
pub record Streaming : Type 0 where
  pub request : RequestPayload
  pub chunks : List Str
  pub remaining : ℕ

pub data Connection : Type 0 where
  collecting : Str → Bool → Connection
  streaming : Streaming → Connection
  draining : Connection
  upgraded : Str → Connection
  ended : Connection
  crashed : Connection
  spinning : Connection

-- What lies outside of the program: the functions of libraries that it calls, the file system, the
-- date, and the fresh identifiers of the requests of one step.
pub record Platform (P : Type 0) : Type 0 where
  pub lower : Str → Str
  pub captures : Str → List Str
  pub compressors : Compressors
  pub files : FileSystem P
  pub now : Str
  pub request_ids : ℕ → Str
  pub sha1 : Str → Str
  pub base64 : Str → Str

abbrev pub ws_guid : Str
ws_guid = codes "258EAFA5-E914-47DA-95CA-C5AB0DC85B11"

unfoldable pub compute_ws_accept : (Str → Str) → (Str → Str) → Str → Str
compute_ws_accept sha1 base64 key = base64 (sha1 (key ++ ws_guid))

accept_value : (Str → Str) → (Str → Str) → Option Str → Str
unfolding compute_ws_accept
accept_value sha1 base64 none = []
accept_value sha1 base64 (some key) = compute_ws_accept sha1 base64 key

unfoldable pub upgrade_response : Str → Str
upgrade_response accept =
    codes
      "HTTP/1.1 101 Switching Protocols\r\nUpgrade: websocket\r\nConnection: Upgrade\r\nSec-WebSocket-Accept: "
    ++ (accept ++ (crlf ++ crlf))

-- `err.contains("exceeds maximum")`
unfoldable pub error_status : ParseError → StatusCode
error_status e =
    if contains (codes "exceeds maximum") (codes (error_text e))
    then Status.payload_too_large
    else Status.bad_request

unfoldable pub start_streaming : Str → HeadersParseResult → Streaming
start_streaming buffer h = record {
  request = record {
    request_metadata = some h.metadata;
    payload = [];
    params = [];
    query = h.query;
    extensions = [];
    body_receiver = none;
  };
  chunks = if ltb 0 (length buffer - h.body_start) then drop h.body_start buffer ∷ [] else [];
  remaining = h.content_length - (length buffer - h.body_start);
}

-- Bytes of a streamed body; what goes beyond the body is dropped.
unfoldable pub on_chunk : Streaming → Str → Streaming
on_chunk s bytes =
    let taken = min (length bytes) s.remaining in
    record s { chunks = s.chunks ++ take taken bytes ∷ []; remaining = s.remaining - taken }

module _ {W P : Type 0} (platform : Platform P) (app : Rpress W) where
  -- The answer to bytes that are refused, without the security headers.
  unfoldable pub error_response : ParseError → Str → Str
  unfolding error_status
  error_response e rid =
      let p =
        apply_cors_headers app.cors none
          (with_status (error_status e) (text (codes (error_text e)))) in
      (send_response platform.compressors platform.now p.status p.body p.content_type
        (p.headers ++ (codes "X-Request-ID", rid) ∷ []) none (record { headers = [] })).1

  -- What one request writes, and the upgrade that it asks for.
  unfoldable pub handle_request :
      Str → RequestPayload → SioDispatch → W → (Str × Option (Str × Option Str)) × W
  handle_request request_id req not_sio w =
      let (bytes, w') =
        dispatch_route platform.files platform.compressors platform.now app request_id req w in
      ((bytes, none), w')
  handle_request request_id req (response payload) w = (
    (
      send_payload platform.compressors platform.now app payload (req_origin_of req) false
          request_id none,
      none,
    ),
    w,
  )
  handle_request request_id req (websocket_upgrade sid ws_key) w = (([], some (sid, ws_key)), w)

  unfoldable pub and_then :
      Str × Option (Str × Option Str)
      → W
      → (W → (Str × Option (Str × Option Str)) × W)
      → (Str × Option (Str × Option Str)) × W
  and_then (bytes, some upgrade) w next = ((bytes, some upgrade), w)
  and_then (bytes, none) w next =
      let ((later, upgrade), w') = next w in ((bytes ++ later, upgrade), w')

  -- The requests one after the other, until one of them asks for an upgrade.
  unfoldable pub handle_requests :
      (ℕ → Str) → List RequestPayload → W → (Str × Option (Str × Option Str)) × W
  unfolding handle_request and_then
  handle_requests ids [] w = (([], none), w)
  handle_requests ids (req ∷ reqs) w =
      let (dispatch, w') = try_handle_socketio app req w in
      let (done, w'') = handle_request (ids 0) req dispatch w' in
      and_then done w'' (handle_requests (λ n. ids (suc n)) reqs)

  -- The connection after the requests of a step.
  unfoldable pub after_requests :
      Str → (Str × Option (Str × Option Str)) × W → Connection × (Str × W)
  unfolding accept_value
  after_requests buffer ((bytes, none), w) = (collecting buffer (is_empty buffer), (bytes, w))
  after_requests buffer ((bytes, some (sid, ws_key)), w) = (
    upgraded sid,
    (bytes ++ upgrade_response (accept_value platform.sha1 platform.base64 ws_key), w),
  )

  -- The end of the loop over the buffer, and the requests that it gave. The error is written
  -- first.
  unfoldable pub handle_parsed : Parsed → LoopEnd → W → Connection × (Str × W)
  unfolding after_requests
  handle_parsed p waiting w =
      after_requests p.buffer (handle_requests platform.request_ids p.current_requests w)
  handle_parsed p (rejected e) w =
      let (connection, (bytes, w')) =
        after_requests p.buffer
          (handle_requests (λ n. platform.request_ids (suc n)) p.current_requests w) in
      (connection, (error_response e (platform.request_ids 0) ++ bytes, w'))
  handle_parsed p panicked w = (crashed, ([], w))
  handle_parsed p exhausted w = (spinning, ([], w))

  -- Whether the body is to be streamed.
  unfoldable pub should_stream : Outcome HeadersParseResult → Option HeadersParseResult
  should_stream (complete h) =
      if ltb 0 app.stream_threshold
        && (not h.is_chunked && ltb app.stream_threshold h.content_length)
      then some h
      else none
  should_stream _ = none

  -- The request is dispatched with the chunks that its handler is given.
  unfoldable pub dispatch_streaming : Streaming → Connection → W → Connection × (Str × W)
  dispatch_streaming s connection w =
      let request : RequestPayload = record s.request { body_receiver = some s.chunks } in
      let (bytes, w') =
        dispatch_route platform.files platform.compressors platform.now app (platform.request_ids 0)
          request w in
      (connection, (bytes, w'))

  -- The reader is done.
  unfoldable pub finish_streaming : Streaming → W → Connection × (Str × W)
  unfolding dispatch_streaming
  finish_streaming s w = dispatch_streaming s (collecting [] true) w

  unfoldable pub continue_streaming : Streaming → W → Connection × (Str × W)
  unfolding finish_streaming
  continue_streaming s w =
      if ltb 0 s.remaining then (streaming s, ([], w)) else finish_streaming s w

  unfoldable pub handle_buffer : Str → Option HeadersParseResult → W → Connection × (Str × W)
  unfolding handle_parsed start_streaming continue_streaming
  handle_buffer buffer (some h) w = continue_streaming (start_streaming buffer h) w
  handle_buffer buffer none w =
      let p = take_requests platform.lower platform.captures app.max_parser_body_size buffer in
      handle_parsed p p.end w

  unfoldable pub on_bytes : Str → W → Connection × (Str × W)
  unfolding handle_buffer should_stream
  on_bytes buffer w =
      if ltb app.max_buffer_capacity (length buffer)
      then (
        ended,
        (
          send_error_status platform.compressors platform.now app Status.payload_too_large none
              (platform.request_ids 0),
          w,
        ),
      )
      else handle_buffer buffer
          (should_stream
            (parse_headers_only platform.lower platform.captures buffer app.max_parser_body_size))
          w

  unfoldable pub step : Event → Connection → W → Connection × (Str × W)
  unfolding on_bytes on_chunk continue_streaming finish_streaming dispatch_streaming
  step (received bytes) (collecting buffer idle) w = on_bytes (buffer ++ bytes) w
  step timed_out (collecting buffer idle) w = (
    ended,
    (
      send_error_status platform.compressors platform.now app Status.request_timeout none
          (platform.request_ids 0),
      w,
    ),
  )
  step closed (collecting buffer idle) w = (ended, ([], w))
  step read_error (collecting buffer idle) w = (ended, ([], w))
  step cancelled (collecting buffer idle) w = (ended, ([], w))
  step (received bytes) (streaming s) w = continue_streaming (on_chunk s bytes) w
  step cancelled (streaming s) w = (streaming s, ([], w))
  step closed (streaming s) w = finish_streaming s w
  step read_error (streaming s) w = finish_streaming s w
  step timed_out (streaming s) w = finish_streaming s w
  step handler_done (streaming s) w = dispatch_streaming s draining w
  step (received bytes) draining w = (collecting [] true, ([], w))
  step closed draining w = (collecting [] true, ([], w))
  step read_error draining w = (collecting [] true, ([], w))
  step timed_out draining w = (collecting [] true, ([], w))
  step event connection w = (connection, ([], w))

  unfoldable pub run : List Event → Connection → W → Connection × (Str × W)
  unfolding step
  run [] connection w = (connection, ([], w))
  run (event ∷ events) connection w =
      let (connection', (bytes, w')) = step event connection w in
      let (connection'', (later, w'')) = run events connection' w' in
      (connection'', (bytes ++ later, w''))
