-- ===== src/Server/H2/Tests.antt =====
-- Streams of the small server.
use rpress.Common.{
  ℕ, true, none, some, [], ◌∷◌, map, codes, lower_byte, lookup, length, ltb, split_str, runs,
  if◌then◌else◌, ◌==◌, nat_eq, list_eq, ◌≡◌, refl, arith,
}
use rpress.Common.Utf8.{from_utf8_lossy}
use rpress.Common.Hex.{parse_hex}
use rpress.Types.Status.{status_u16}
use rpress.Payload.{text, empty, with_status}
use rpress.Server.Headers.{apply_cors_headers, apply_security_headers}
use rpress.Server.Static.{try_serve_static}
use rpress.Routes.{new, find, insert_route}
use rpress.Request.Access.{collected, set_params}
use rpress.Request.Uri
use rpress.Server.Dispatch.{lookup_method_of, payload_of, req_origin_of, resolve_route}
use rpress.Server.Chain.{nested}
use rpress.Server.Tests.{app, files, hello, hello_pattern, hello_added}
use rpress.Server.H2.{
  Http, Parts, data_frame, whole, too_large, answered, StreamEnd, h2_parts_to_payload, header_map,
  parse_query_string, read_body, handle_h2_stream,
}
use rpress.Server.H2.Bodies.{read_body-frames}
use rpress.Server.H2.Query.{parse_query_string-eq}
use rpress.Server.H2.Routes.{stream_end, query_uri, AsksFor, handle_h2_stream-insert_route}

-- A builder that takes every header.
abbrev pub http : Http
http = record { lower = map lower_byte; from_u16 = λ n. some n; takes_header = λ h. true }

abbrev parts : Parts
parts = record {
  method = codes "HEAD";
  uri = codes "/hello?a=b";
  headers = (codes "cookie", some (codes "a=1")) ∷ (codes "Cookie", some (codes "b=2")) ∷ [];
}

-- Two frames fill the limit, and one byte more is too much.
read_body-frames_example :
    read_body 4 [] (map data_frame (codes "ab" ∷ codes "cd" ∷ codes "e" ∷ [])) ≡ (
      if ltb 4 (length (collected (codes "ab" ∷ codes "cd" ∷ codes "e" ∷ [])))
      then too_large
      else whole (collected (codes "ab" ∷ codes "cd" ∷ codes "e" ∷ [])))
read_body-frames_example = read_body-frames 4 (codes "ab" ∷ codes "cd" ∷ codes "e" ∷ [])

-- Two cookies become one, which a list of cookies does not separate.
one_cookie :
    lookup (codes "cookie") (header_map (map lower_byte) [] parts.headers) ≡ some (codes "a=1, b=2")
unfolding runs header_map
one_cookie = refl

parse_query_string-eq_example :
    Uri.parse_query_string (λ s. []) (codes "a=b+c&d") ≡ parse_query_string (codes "a=b+c&d")
parse_query_string-eq_example = parse_query_string-eq (λ s. []) (codes "a=b+c&d") refl

-- Behind an escape the two differ.
escapes_stay :
    (lookup (codes "a") (parse_query_string (codes "a=%41")) ≡ some (codes "%41"))
    × (lookup (codes "a") (Uri.parse_query_string (λ s. codes "%41" ∷ []) (codes "a=%41"))
        ≡ some (codes "A"))
unfolding runs parse_query_string Uri.parse_query_string from_utf8_lossy parse_hex split_str
escapes_stay = (refl, refl)

parts-AsksFor : AsksFor app (codes "/hello") (codes "GET") none 8 parts []
unfolding runs lookup_method_of
parts-AsksFor = record {
  for_path = query_uri (codes "a=b");
  lacks_query = ground arith;
  for_method = refl;
  no_preflight = refl;
  is_read = omega arith;
  fits = omega arith;
}

handle_h2_stream-insert_route_example :
    (let req = h2_parts_to_payload http.lower parts (collected []) in
      let (result, w') = nested app.middlewares hello (set_params [] req) [] in
      handle_h2_stream http files app 8 (codes "id") parts (map data_frame []) [] ≡ (
        stream_end http app
            (req_origin_of req)
            (codes "id")
            (parts.method == codes "HEAD")
            (payload_of result),
        w',
      ))
unfolding collected
handle_h2_stream-insert_route_example =
    handle_h2_stream-insert_route http files app (codes "/hello") (codes "GET") (codes "id") hello
      none new 8 parts [] [] hello_pattern hello_added parts-AsksFor

status_of : StreamEnd → ℕ
status_of (answered r) = r.status
status_of _ = 0

-- A URI with an authority is looked up as it prints, and the route is not found.
whole_uri :
    (status_of (handle_h2_stream http files app 8 (codes "id") parts [] []).0 ≡ 200)
    × (status_of
          (handle_h2_stream http files app 8
            (codes "id")
            (record parts { uri = codes "https://a/hello" })
            []
            []).0
        ≡ 404)
unfolding runs status_of handle_h2_stream apply_security_headers apply_cors_headers resolve_route
    find insert_route text status_u16 try_serve_static with_status empty
whole_uri = (refl, refl)
