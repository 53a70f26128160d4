-- ===== src/Server/H2/Routes.antt =====
-- engine/src/core/h2_handler.rs: what the client of a stream gets from a registered route.
use rpress.Common.{
  ℕ, ◌≤◌, Bool, false, ◌&&◌, Option, none, some, List, [], ◌∷◌, ◌++◌, map, Str, codes, Lacks,
  split_once-append, split_once-lacking, length, ltb, all, is_some, unwrap_or, if◌then◌else◌, ◌==◌,
  nat_eq, list_eq, ◌≡◌, refl, ap, ◌∙◌, arith,
}
use rpress.Common.Decimal.{decimal}
use rpress.Types.Status.{status_u16}
use rpress.Cors.{RpressCors}
use rpress.Security.{RpressSecurityHeaders}
use rpress.Payload.{ResponsePayload}
use rpress.Request.Outcome.{RequestPayload}
use rpress.Request.Access.{collected, set_params}
use rpress.Routes.{Route, insert_route, segments_of}
use rpress.Routes.Pattern.{pattern_of, literal}
use rpress.Server.Headers.{apply_cors_headers, apply_security_headers}
use rpress.Server.Static.{FileSystem}
use rpress.Server.App.{Handler, Rpress}
use rpress.Server.Dispatch.{
  ResolvedResponse, payload_of, req_origin_of, lookup_method_of, resolve_route,
}
use rpress.Server.Chain.{nested, IsServed, resolve_route-insert_route}
use rpress.Server.H2.{
  Http, Parts, data_frame, whole, StreamEnd, answered, dropped, split_uri, metadata_of,
  h2_parts_to_payload, finished, response_headers, build_response, read_body, answer_stream,
  with_body, handle_h2_stream,
}
use rpress.Server.H2.Bodies.{read_body-frames}

headers_only :
    (sec : Option RpressSecurityHeaders) (cors : Option RpressCors) (origin : Option Str)
    (p : ResponsePayload)
    → apply_security_headers sec (apply_cors_headers cors origin p) ≡ record p {
      headers = (apply_security_headers sec (apply_cors_headers cors origin p)).headers;
    }
unfolding apply_security_headers apply_cors_headers
headers_only none none origin p = refl
headers_only none (some c) origin p = refl
headers_only (some s) none origin p = refl
headers_only (some s) (some c) origin p = refl

module _ {W : Type 0} where
  -- The headers that a payload has when the server has added its own.
  abbrev pub final_headers : Rpress W → Option Str → Str → ResponsePayload → List (Str × Str)
  final_headers app origin request_id p =
      (apply_security_headers app.security_headers (apply_cors_headers app.cors origin p)).headers
      ++ (codes "x-request-id", request_id) ∷ []

  -- What a stream ends with: the payload's status, content type and body, the server's headers, and
  -- the length of what is sent; nothing, if the builder refuses a header.
  abbrev pub stream_end : Http → Rpress W → Option Str → Str → Bool → ResponsePayload → StreamEnd
  stream_end http app origin request_id is_head p =
      let body = if is_head then [] else p.body in
      let headers =
        (codes "content-type", p.content_type)
        ∷ (codes "content-length", decimal (length body))
        ∷ final_headers app origin request_id p in
      if all http.takes_header headers
      then answered (record {
        status = unwrap_or (http.from_u16 (status_u16 p.status)) 500;
        headers = headers;
        body = body;
      })
      else dropped

  finished-eq-record :
      (app : Rpress W) (r : ResolvedResponse)
      → finished app r
        ≡ record r.payload { headers = final_headers app r.req_origin r.request_id r.payload }
  unfolding finished
  finished-eq-record app r =
      ap
        (λ (p : ResponsePayload). record p {
          headers = final_headers app r.req_origin r.request_id r.payload;
        })
        (headers_only app.security_headers app.cors r.req_origin r.payload)

module _ {W P : Type 0} (http : Http) (fs : FileSystem P) (app : Rpress W) where
  answer_stream-eq-stream_end :
      (request_id : Str) (req : RequestPayload) (w : W)
      → (let (r, w') = resolve_route fs app request_id req w in
          answer_stream http fs app request_id req w
          ≡ (stream_end http app (req_origin_of req) request_id r.is_head r.payload, w'))
  unfolding answer_stream build_response response_headers resolve_route
  answer_stream-eq-stream_end request_id req w =
      let (r, w') = resolve_route fs app request_id req w in
      ap (λ (p : ResponsePayload). (build_response http p (if r.is_head then [] else p.body), w'))
        (finished-eq-record app r)

-- A URI that prints as a path, alone or with a query behind it, so without an authority.
pub data IsUri (path : Str) : Str → Type 0 where
  plain_uri : IsUri path path
  query_uri : (query : Str) → IsUri path (path ++ (codes "?" ++ query))

-- A stream asks for a path by such a URI, its body is within the limits of the connection and of
-- the route, and it is no preflight of a cross-origin request.
pub record AsksFor {W : Type 0} (app : Rpress W) (path method : Str) (limit : Option ℕ)
    (max_body_size : ℕ) (parts : Parts) (body : Str) : Type 0 where
  pub for_path : IsUri path parts.uri
  pub lacks_query : Lacks b'?' path
  pub for_method : lookup_method_of parts.method ≡ method
  pub no_preflight : parts.method == codes "OPTIONS" && is_some app.cors ≡ false
  pub is_read : length body ≤ max_body_size
  pub fits : length body ≤ unwrap_or limit app.max_body_size

split_uri-IsUri : (path uri : Str) → Lacks b'?' path → IsUri path uri → (split_uri uri).0 ≡ path
unfolding split_uri
split_uri-IsUri path _ lacks plain_uri = rw (split_once-lacking b'?' [] path lacks, split_uri) refl
split_uri-IsUri path _ lacks (query_uri query) =
    rw (split_once-append b'?' [] path query lacks, split_uri) refl

module _ {W P : Type 0} (http : Http) (fs : FileSystem P) (app : Rpress W) where
  asks-IsServed :
      (path method : Str) (limit : Option ℕ) (max_body_size : ℕ) (parts : Parts) (body : Str)
      → AsksFor app path method limit max_body_size parts body
      → IsServed app path method limit
          (h2_parts_to_payload http.lower parts body)
          (metadata_of http.lower parts)
  unfolding h2_parts_to_payload metadata_of split_uri
  asks-IsServed path method limit max_body_size parts body asks = record {
    has_metadata = refl;
    for_path = split_uri-IsUri path parts.uri asks.lacks_query asks.for_path;
    for_method = asks.for_method;
    no_preflight = asks.no_preflight;
    fits = asks.fits;
  }

  -- Once a route of plain segments is registered, a stream that asks for its path and method, or
  -- for HEAD where the method is GET, by a URI without an authority, with a query or without, ends with what its handler answers to the request, with the
  -- middleware around it, whatever other routes there are and however the body is cut into frames:
  -- the payload's status, the payload's content type, the length of what is sent, the headers with
  -- those that the server adds, the identifier of the request, and the payload's body, which a
  -- HEAD request does not get. If the builder refuses one of the headers, nothing is sent.
  pub handle_h2_stream-insert_route :
      (path method request_id : Str) (handler : Handler W) (limit : Option ℕ)
      (tree : Route (Handler W)) (max_body_size : ℕ) (parts : Parts) (chunks : List Str) (w : W)
      → pattern_of path ≡ map literal (segments_of path)
      → insert_route path method handler limit tree ≡ some app.routes_tree
      → AsksFor app path method limit max_body_size parts (collected chunks)
      → (let req = h2_parts_to_payload http.lower parts (collected chunks) in
          let (result, w') = nested app.middlewares handler (set_params [] req) w in
          handle_h2_stream http fs app max_body_size request_id parts (map data_frame chunks) w ≡ (
            stream_end http app
                (req_origin_of req)
                request_id
                (parts.method == codes "HEAD")
                (payload_of result),
            w',
          ))
  unfolding handle_h2_stream with_body metadata_of
  handle_h2_stream-insert_route path method request_id handler limit tree max_body_size parts chunks
        w plain added asks =
      let req = h2_parts_to_payload http.lower parts (collected chunks) in
      let small : ltb max_body_size (length (collected chunks)) ≡ false =
        ground (arith, asks.is_read) in
      let read : read_body max_body_size [] (map data_frame chunks) ≡ whole (collected chunks) =
        read_body-frames max_body_size chunks ∙ rw small refl in
      let (payload_eq, world_eq, head_eq) =
        resolve_route-insert_route fs app path method request_id handler limit tree req
          (metadata_of http.lower parts) w plain added
          (asks-IsServed path method limit max_body_size parts (collected chunks) asks) in
      let r = (resolve_route fs app request_id req w).0 in
      let rest : (
        stream_end http app (req_origin_of req) request_id r.is_head r.payload,
        (resolve_route fs app request_id req w).1,
      )
          ≡ (let (result, w') = nested app.middlewares handler (set_params [] req) w in
              (
                stream_end http app (req_origin_of req) request_id (parts.method == codes "HEAD")
                    (payload_of result),
                w',
              )) =
        rw (payload_eq, world_eq, head_eq) refl in
      ap (λ r. with_body http fs app request_id parts r w) read
      ∙ (answer_stream-eq-stream_end http fs app request_id req w ∙ rest)
