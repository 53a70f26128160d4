-- ===== src/Server/H2.antt =====
-- engine/src/core/h2_handler.rs: the streams of an HTTP/2 connection. The `h2` and `http` crates
-- give the parts of a request and its frames, and take the answer; the streams of a connection run
-- one after the other here.
pub mod Bodies
pub mod Maps
pub mod Query
pub mod Routes
pub mod Tests
use rpress.Common.{
  ℕ, suc, Bool, Option, none, some, List, [], ◌∷◌, ◌++◌, map, Str, codes, HashMap, lookup, insert,
  length, ltb, all, is_empty, split, split_once, unwrap_or, if◌then◌else◌, ◌==◌, nat_eq, list_eq,
}
use rpress.Common.Decimal.{decimal}
use rpress.Types.Status.{status_u16}
use rpress.Payload.{ResponsePayload}
use rpress.Request.Outcome.{RequestMetadata, RequestPayload}
use rpress.Server.Headers.{apply_cors_headers, apply_security_headers}
use rpress.Server.Static.{FileSystem}
use rpress.Server.App.{Rpress}
use rpress.Server.Dispatch.{ResolvedResponse, resolve_route}

-- What the `http` crate makes of a text, a number and a header: `to_lowercase`,
-- `StatusCode::from_u16`, and whether the builder takes a name with its value.
pub record Http : Type 0 where
  pub lower : Str → Str
  pub from_u16 : ℕ → Option ℕ
  pub takes_header : Str × Str → Bool

-- A request without its body: what its URI prints as, and its headers in the order in which the
-- map gives them, each with its text where it is one.
pub record Parts : Type 0 where
  pub method : Str
  pub uri : Str
  pub headers : List (Str × Option Str)

-- What a wait for the body gives.
pub data Frame : Type 0 where
  data_frame : Str → Frame
  failed_frame : Frame

pub data BodyRead : Type 0 where
  whole : Str → BodyRead
  too_large : BodyRead
  failed : BodyRead

pub record H2Response : Type 0 where
  pub status : ℕ
  pub headers : List (Str × Str)
  pub body : Str

-- What the client gets on a stream: an answer, or nothing.
pub data StreamEnd : Type 0 where
  answered : H2Response → StreamEnd
  dropped : StreamEnd

-- What the connection gives: a stream, or its failure.
pub data Accepted : Type 0 where
  stream : Parts → List Frame → Accepted
  accept_error : Accepted

unfoldable pub add_pairs : HashMap Str Str → List Str → HashMap Str Str
add_pairs result [] = result
add_pairs result (pair ∷ pairs) = elim (split_once (codes "=") pair) [
  | none ↦ add_pairs result pairs
  | some (key, value) ↦
      if is_empty key
      then add_pairs result pairs
      else add_pairs (insert key (map (λ c. if c == b'+' then b' ' else c) value) result) pairs
]

unfoldable pub parse_query_string : Str → HashMap Str Str
unfolding add_pairs
parse_query_string query_path =
    if is_empty query_path then [] else add_pairs [] (split b'&' query_path)

-- `and_modify` and `or_insert`
unfoldable pub joined : Option Str → Str → Str
joined none val_str = val_str
joined (some existing) val_str = existing ++ (codes ", " ++ val_str)

unfoldable pub header_map :
    (Str → Str) → HashMap Str Str → List (Str × Option Str) → HashMap Str Str
unfolding joined
header_map lower m [] = m
header_map lower m ((key, value) ∷ headers) =
    let at = lower key in
    header_map lower (insert at (joined (lookup at m) (unwrap_or value [])) m) headers

unfoldable pub split_uri : Str → Str × Str
split_uri uri = elim (split_once (codes "?") uri) [ none ↦ (uri, []) | some parts ↦ parts ]

unfoldable pub metadata_of : (Str → Str) → Parts → RequestMetadata
unfolding header_map split_uri
metadata_of lower parts =
    let (raw_path, query_path) = split_uri parts.uri in
    record {
      method = parts.method;
      uri = raw_path;
      query_path = query_path;
      http_method = codes "HTTP/2";
      headers = header_map lower [] parts.headers;
    }

unfoldable pub h2_parts_to_payload : (Str → Str) → Parts → Str → RequestPayload
unfolding metadata_of parse_query_string
h2_parts_to_payload lower parts body =
    let metadata = metadata_of lower parts in
    record {
      request_metadata = some metadata;
      payload = body;
      params = [];
      query = parse_query_string metadata.query_path;
      extensions = [];
      body_receiver = none;
    }

unfoldable pub read_body : ℕ → Str → List Frame → BodyRead
read_body max_body_size body_bytes [] = whole body_bytes
read_body max_body_size body_bytes (failed_frame ∷ frames) = failed
read_body max_body_size body_bytes (data_frame bytes ∷ frames) =
    let later = read_body max_body_size (body_bytes ++ bytes) frames in
    if ltb max_body_size (length (body_bytes ++ bytes)) then too_large else later

-- The answer to a body that is too large.
abbrev pub payload_too_large : H2Response
payload_too_large = record { status = 413; headers = []; body = [] }

module _ {W : Type 0} where
  -- The payload with the server's headers and the request's identifier.
  unfoldable pub finished : Rpress W → ResolvedResponse → ResponsePayload
  finished app resolved =
      let secured =
        apply_security_headers app.security_headers
          (apply_cors_headers app.cors resolved.req_origin resolved.payload) in
      record secured {
        headers = secured.headers ++ (codes "x-request-id", resolved.request_id) ∷ [];
      }

unfoldable pub response_headers : ResponsePayload → Str → List (Str × Str)
response_headers p final_body =
    (codes "content-type", p.content_type)
    ∷ (codes "content-length", decimal (length final_body))
    ∷ p.headers

unfoldable pub build_response : Http → ResponsePayload → Str → StreamEnd
unfolding response_headers
build_response http p final_body =
    if all http.takes_header (response_headers p final_body)
    then answered (record {
      status = unwrap_or (http.from_u16 (status_u16 p.status)) 500;
      headers = response_headers p final_body;
      body = final_body;
    })
    else dropped

module _ {W P : Type 0} (http : Http) (fs : FileSystem P) (app : Rpress W) where
  unfoldable pub answer_stream : Str → RequestPayload → W → StreamEnd × W
  unfolding finished build_response
  answer_stream request_id req_payload w =
      let (resolved, w') = resolve_route fs app request_id req_payload w in
      let p = finished app resolved in
      (build_response http p (if resolved.is_head then [] else p.body), w')

  unfoldable pub with_body : Str → Parts → BodyRead → W → StreamEnd × W
  unfolding answer_stream h2_parts_to_payload
  with_body request_id parts (whole body) w =
      answer_stream request_id (h2_parts_to_payload http.lower parts body) w
  with_body request_id parts too_large w = (answered payload_too_large, w)
  with_body request_id parts failed w = (dropped, w)

  unfoldable pub handle_h2_stream : ℕ → Str → Parts → List Frame → W → StreamEnd × W
  unfolding read_body with_body
  handle_h2_stream max_body_size request_id parts frames w =
      with_body request_id parts (read_body max_body_size [] frames) w

  -- The streams of a connection, up to the first failure.
  unfoldable pub accept_streams : ℕ → (ℕ → Str) → List Accepted → W → List StreamEnd × W
  unfolding handle_h2_stream
  accept_streams max_body_size ids [] w = ([], w)
  accept_streams max_body_size ids (accept_error ∷ rest) w = ([], w)
  accept_streams max_body_size ids (stream parts frames ∷ rest) w =
      let (end, w') = handle_h2_stream max_body_size (ids 0) parts frames w in
      let (ends, w'') = accept_streams max_body_size (λ n. ids (suc n)) rest w' in (end ∷ ends, w'')

  -- Nothing comes of a handshake that fails.
  unfoldable pub handle_h2_connection :
      ℕ → (ℕ → Str) → Option (List Accepted) → W → List StreamEnd × W
  unfolding accept_streams
  handle_h2_connection max_body_size ids none w = ([], w)
  handle_h2_connection max_body_size ids (some accepts) w =
      accept_streams max_body_size ids accepts w
