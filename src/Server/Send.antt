-- ===== src/Server/Send.antt =====
-- engine/src/lib.rs: `send_payload`, `send_error_status`, `dispatch_route` and
-- `try_handle_socketio`, with the bytes that they write.
use rpress.Common.{
  Bool, false, not, ◌&&◌, Option, none, some, [], ◌∷◌, ◌++◌, Str, codes, lookup, starts_with,
  eq_ignore_ascii_case, if◌then◌else◌, list_eq, nat_eq,
}
use rpress.Types.Status.{StatusCode}
use rpress.Payload.{ResponsePayload, empty, with_status}
use rpress.Response.{Compressors, send_response}
use rpress.Request.Outcome.{RequestPayload, RequestMetadata}
use rpress.Server.Headers.{apply_cors_headers, apply_security_headers}
use rpress.Server.Static.{FileSystem}
use rpress.Server.App
use rpress.Server.App.{Rpress, SocketServer, SioHttpResult, trim_end_slashes}
use rpress.Server.Dispatch.{resolve_route}

pub data SioDispatch : Type 0 where
  not_sio : SioDispatch
  response : ResponsePayload → SioDispatch
  websocket_upgrade : Str → Option Str → SioDispatch

has_upgrade : Option Str → Bool
has_upgrade none = false
has_upgrade (some v) = eq_ignore_ascii_case v (codes "websocket")

sio_dispatch : RequestMetadata → SioHttpResult → SioDispatch
sio_dispatch meta (App.response payload) = response payload
sio_dispatch meta (App.websocket_upgrade sid) =
    websocket_upgrade sid (lookup (codes "sec-websocket-key") meta.headers)

module _ {W : Type 0} where
  -- The payload with the server's headers and the request's identifier.
  unfoldable pub finished : Rpress W → ResponsePayload → Option Str → Str → ResponsePayload
  finished app payload req_origin request_id =
      let secured =
        apply_security_headers app.security_headers
          (apply_cors_headers app.cors req_origin payload) in
      record secured { headers = secured.headers ++ (codes "X-Request-ID", request_id) ∷ [] }

  -- `c` holds the compressors and `now` is the date that is printed.
  unfoldable pub send_payload :
      Compressors → Str → Rpress W → ResponsePayload → Option Str → Bool → Str → Option Str → Str
  unfolding finished
  send_payload c now app payload req_origin is_head request_id accept_encoding =
      let p = finished app payload req_origin request_id in
      (send_response c now p.status (if is_head then [] else p.body) p.content_type p.headers
        accept_encoding (record { headers = [] })).1

  unfoldable pub send_error_status :
      Compressors → Str → Rpress W → StatusCode → Option Str → Str → Str
  unfolding finished
  send_error_status c now app status req_origin request_id =
      let p = finished app (with_status status empty) req_origin request_id in
      (send_response c now p.status p.body p.content_type p.headers none
        (record { headers = [] })).1

  unfoldable pub dispatch_route :
      {P : Type 0}
      → FileSystem P
      → Compressors
      → Str
      → Rpress W
      → Str
      → RequestPayload
      → W
      → Str × W
  dispatch_route fs c now app request_id req w =
      let (resolved, w') = resolve_route fs app request_id req w in
      (
        send_payload c now app resolved.payload resolved.req_origin resolved.is_head
            resolved.request_id resolved.accept_encoding,
        w',
      )

  -- A request on the path of the Socket.IO server.
  unfoldable pub handle_socketio :
      SocketServer W → RequestPayload → RequestMetadata → W → SioDispatch × W
  unfolding has_upgrade sio_dispatch
  handle_socketio sio req meta w =
      if not (starts_with sio.path meta.uri)
        && not (starts_with (trim_end_slashes sio.path) meta.uri)
      then (not_sio, w)
      else (let (result, w') =
            sio.handle_sio_request meta.method meta.uri meta.query_path req.payload
              (has_upgrade (lookup (codes "upgrade") meta.headers)) w in
          (sio_dispatch meta result, w'))

  unfoldable pub try_handle :
      Option (SocketServer W) → RequestPayload → Option RequestMetadata → W → SioDispatch × W
  unfolding handle_socketio
  try_handle none req meta w = (not_sio, w)
  try_handle (some sio) req none w = (not_sio, w)
  try_handle (some sio) req (some meta) w = handle_socketio sio req meta w

  unfoldable pub try_handle_socketio : Rpress W → RequestPayload → W → SioDispatch × W
  unfolding try_handle
  try_handle_socketio app req w = try_handle app.socketio req req.request_metadata w
