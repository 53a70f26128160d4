-- ===== src/Request/Tests.antt =====
-- Requests as clients write them.
use rpress.Common.{
  suc, All, ℕ, ◌+◌, ◌<◌, ◌≢◌, Bool, true, false, ◌&&◌, ◌||◌, Option, none, some, List, [], ◌∷◌,
  ◌++◌, map, Str, codes, runs, ◌≡◌, ◌≢◌, refl, arith, leb, lower_byte, length, split_str, crlf,
}
use rpress.Request.Outcome.{
  panicked, Outcome, complete, failed, both_lengths, RequestPayload, HeadersParseResult,
}
use rpress.Common.Utf8.{from_utf8_lossy}
use rpress.Common.Decimal.{parse_unsigned}
use rpress.Common.Hex.{parse_hex}
use rpress.Common.Trim.{trim}
use rpress.Request.Uri.{decode_bytes, query_value, percent_decode, parse_query_string}
use rpress.Request.Head.{no_headers, scan_headers, parse_head}
use rpress.Request.Fuel.{parse_chunked_body-fuel}
use rpress.Request.Chunked.{chunk_loop, parse_chunked_body, chunk_size}
use rpress.Request.Protocol.{parse_http_protocol}
use rpress.Request.Percent.{percent_encode, percent_decode-percent_encode}
use rpress.Request.Bounds.{IsHead, parse_head-IsHead}
use rpress.Request.Consumed.{IsConsumed, parse_http_protocol-IsConsumed}
use rpress.Request.Chunks.{Chunk, IsChunk, chunk_texts, body_of, parse_chunked_body-chunk_texts}

-- Opens what the parsers compute through.
unfoldable parses : Unit {0}
unfolding runs from_utf8_lossy split_str parse_unsigned parse_hex trim decode_bytes percent_decode
    query_value parse_query_string no_headers scan_headers parse_head chunk_size parse_chunked_body
    parse_http_protocol
parses = tt

-- ASCII letters are the only ones in these texts.
abbrev lower : Str → Str
lower = map lower_byte

-- Nor is there an escape in their queries.
abbrev captures : Str → List Str
captures s = []

abbrev post : Str
post = codes "POST /a%20b?x=1&y=2 HTTP/1.1\r\nHost: h\r\nContent-Length: 2\r\n\r\nhiGET"

abbrev request_of : Outcome (RequestPayload × ℕ) → Option (RequestPayload × ℕ)
request_of (complete r) = some r
request_of o = none

parsed_post :
    (r : RequestPayload × ℕ) × (parse_http_protocol lower captures post false 1024 ≡ complete r)
unfolding parses parse_http_protocol
parsed_post = (_, refl)

parsed_head : (h : HeadersParseResult) × (parse_head lower captures post 1024 ≡ complete h)
unfolding parses parse_head
parsed_head = (_, refl)

parsed_payload :
    (parsed_post.0.0.payload ≡ codes "hi")
    × (parsed_post.0.0.query ≡ (codes "x", codes "1") ∷ (codes "y", codes "2") ∷ [])
unfolding parses parsed_post parse_query_string
parsed_payload = (refl, refl)

smuggled :
    parse_head lower captures
      (codes "POST / HTTP/1.1\r\nContent-Length: 2\r\nTransfer-Encoding: chunked\r\n\r\n")
      1024
    ≡ failed both_lengths
unfolding parses parse_head
smuggled = refl

-- The slice behind `%` ends inside the three bytes of a character.
sliced_character : percent_decode (codes "/%" ++ (0xe2 ∷ 0x82 ∷ 0xac ∷ [])) ≡ none
unfolding parses percent_decode
sliced_character = refl

-- The blank line of the last chunk has not come, and the cursor lies behind the buffer.
cursor_behind_buffer : parse_chunked_body (codes "0\r\n") ≡ complete ([], 5)
unfolding parses parse_chunked_body
cursor_behind_buffer = refl

parse_head-IsHead_example : IsHead post 1024 parsed_head.0
parse_head-IsHead_example = parse_head-IsHead lower captures post 1024 parsed_head.0 parsed_head.1

parse_http_protocol-IsConsumed_example : IsConsumed post 1024 parsed_post.0
parse_http_protocol-IsConsumed_example =
    parse_http_protocol-IsConsumed lower captures post 1024 parsed_post.0 parsed_post.1

abbrev unreserved : ℕ → Bool
unreserved c = leb b'a' c && leb c b'z' || leb b'0' c && leb c b'9'

unreserved-plain : (c : ℕ) → unreserved c ≡ true → (c < 128) × (c ≢ b'%')
unreserved-plain c h = ground arith

percent_decode-percent_encode_example :
    percent_decode (percent_encode unreserved (codes "a b%"))
    ≡ some (from_utf8_lossy (codes "a b%"))
percent_decode-percent_encode_example =
    percent_decode-percent_encode unreserved unreserved-plain (codes "a b%") (omega arith)

abbrev chunks : List Chunk
chunks =
    record { size_line = codes "2;name=value"; body = codes "ab" }
    ∷ record { size_line = codes "0a"; body = codes "0123456789" }
    ∷ []

sizes :
    (chunk_size (codes "2;name=value") ≡ some 2)
    × (chunk_size (codes "0a") ≡ some 10)
    × (chunk_size (codes "0") ≡ some 0)
unfolding parses chunk_size
sizes = (refl, refl, refl)

chunks-IsChunk : All IsChunk chunks
chunks-IsChunk = (
  (omega arith, sizes.0, omega arith, omega arith),
  ((omega arith, sizes.1, omega arith, omega arith), tt),
)

parse_chunked_body-chunk_texts_example :
    parse_chunked_body (chunk_texts chunks ++ (codes "0" ++ (crlf ++ (crlf ++ codes "GET"))))
    ≡ complete (body_of chunks, length (chunk_texts chunks) + length (codes "0") + 4)
unfolding parses chunk_texts
parse_chunked_body-chunk_texts_example =
    parse_chunked_body-chunk_texts chunks (codes "0") (codes "GET") chunks-IsChunk (omega arith)
      sizes.2 (omega arith)

parse_chunked_body-fuel_example :
    (chunk_loop
        (suc (length (codes "2\r\nab\r\n0\r\n\r\n")) + 7)
        (codes "2\r\nab\r\n0\r\n\r\n")
        0
        []
      ≡ parse_chunked_body (codes "2\r\nab\r\n0\r\n\r\n"))
    × (parse_chunked_body (codes "2\r\nab\r\n0\r\n\r\n") ≢ panicked)
parse_chunked_body-fuel_example = parse_chunked_body-fuel 7 (codes "2\r\nab\r\n0\r\n\r\n")
