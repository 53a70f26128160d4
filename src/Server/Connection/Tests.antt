-- ===== src/Server/Connection/Tests.antt =====
-- Bytes that come in on a connection of the small server.
use Prim.Native.Nat.{max}
use rpress.Common.{
  suc, length, ◌+◌, true, false, none, some, [], ◌∷◌, ◌++◌, map, Str, codes, take, drop, runs,
  lower_byte, ◌≡◌, ◌≢◌, refl, arith,
}
use rpress.Response.{Compressors}
use rpress.Request.Outcome.{RequestPayload, HeadersParseResult}
use rpress.Request.Access.{collected, collect_body}
use rpress.Server.Tests.{app, files, head_metadata}
use rpress.Server.Send.{dispatch_route}
use rpress.Payload.{text}
use rpress.Response.Head.{read_head, printed, sent_headers, status_text}
use rpress.Server.Send.{finished, send_payload}
use rpress.Server.Answers.{read_head-send_payload}
use rpress.Server.Requests.{exhausted, take_requests}
use rpress.Server.Requests.Ends.{take_requests-ends}
use rpress.Server.Connection.{
  Platform, received, handler_done, streaming, draining, collecting, start_streaming, handle_buffer,
  run,
}
use rpress.Server.Connection.Body.{Cuts, goes_on, run-streaming}

abbrev no_compressors : Compressors
no_compressors = record { brotli = λ s. []; gzip = λ s. none; joined = λ s. true }

abbrev pub platform : Platform Str
platform = record {
  lower = map lower_byte;
  captures = λ s. [];
  compressors = no_compressors;
  files = files;
  now = codes "now";
  request_ids = λ n. (b'0' + n) ∷ [];
  sha1 = λ s. s;
  base64 = λ s. s;
}

-- The head of a request of which six bytes have come, two of them behind the head.
abbrev head : HeadersParseResult
head = record {
  metadata = head_metadata;
  query = [];
  content_length = 5;
  is_chunked = false;
  body_start = 4;
}

run-streaming_example :
    (request : RequestPayload) × (goes_on platform app
        (map received (codes "c" ∷ codes "def" ∷ []))
        (handle_buffer platform app (codes "HEADab") (some head) [])
      ≡ (let (bytes, w') =
            dispatch_route files no_compressors (codes "now") app (codes "0") request [] in
          (collecting [] true, (bytes, w'))))
    × (request.request_metadata ≡ some head_metadata)
    × ((collect_body request).0
        ≡ take (max 5 2) (drop 4 (codes "HEADab") ++ collected (codes "c" ∷ codes "def" ∷ [])))
unfolding collected Cuts
run-streaming_example =
    run-streaming platform app (codes "HEADab") head (codes "c" ∷ codes "def" ∷ []) []
      (omega arith, (omega arith, omega arith))

-- A handler that ends before the body is whole: the next read puts an end to the reader.
given_up :
    ((run platform app (handler_done ∷ []) (streaming (start_streaming (codes "HEADab") head)) []).0
      ≡ draining)
    × ((run platform app
          (handler_done ∷ received (codes "cd") ∷ [])
          (streaming (start_streaming (codes "HEADab") head))
          []).0
        ≡ collecting [] true)
unfolding run
given_up = (refl, refl)

-- Two requests without bodies in one read.
abbrev pipelined : Str
pipelined = codes "GET /hello HTTP/1.1\r\nHost: a\r\n\r\nGET /hello HTTP/1.1\r\nHost: a\r\n\r\n"

take_requests-ends_example :
    (take_requests (map lower_byte) (λ s. []) 1024 pipelined).end ≢ exhausted
unfolding runs
take_requests-ends_example = take_requests-ends (map lower_byte) (λ s. []) 1024 pipelined refl

read_head-send_payload_example :
    (let p = finished app (text (codes "hello")) none (codes "id") in
      let headers = sent_headers (codes "now") p.content_type p.headers ([], none) in
      read_head (suc (suc (length headers))) (
        send_payload no_compressors
          (codes "now")
          app
          (text (codes "hello"))
          none
          true
          (codes "id")
          none)
      ≡ some (status_text p.status ∷ map printed headers, []))
read_head-send_payload_example =
    read_head-send_payload no_compressors (codes "now") app (text (codes "hello")) none (codes "id")
      none
