-- ===== src/Request/Head.antt =====
-- engine/src/core/request.rs: `parse_head`, over the functions that are not the program's own:
-- `lower` is `str::to_lowercase` and `captures` gives the matches of `PERCENT_ENCODING`.
use rpress.Common.{
  ℕ, ◌+◌, ◌-◌, Bool, true, false, ◌&&◌, Option, none, some, List, [], ◌∷◌, ◌++◌, map, Str, HashMap,
  lookup, insert, ltb, leb, if◌then◌else◌, ◌==◌, nat_eq, list_eq, split, split_once, split_str,
  contains, position, take, drop, codes, crlf, unwrap_or,
}
use rpress.Common.Decimal.{parse_unsigned}
use rpress.Common.Utf8.{from_utf8_lossy}
use rpress.Request.Outcome.{
  Outcome, incomplete, complete, failed, panicked, request_line_too_long, request_line_malformed,
  malformed_header_section, headers_too_large, invalid_request_line_size, too_many_headers,
  both_lengths, content_length_exceeds, usize_limit, HeadersParseResult,
}
use rpress.Request.Uri.{percent_decode, parse_query_string}

abbrev pub max_request_line_size : ℕ
max_request_line_size = 8192

abbrev pub max_header_size : ℕ
max_header_size = 8192

abbrev pub max_headers_count : ℕ
max_headers_count = 100

abbrev pub content_length_name : Str
content_length_name = codes "content-length"

abbrev pub transfer_encoding_name : Str
transfer_encoding_name = codes "transfer-encoding"

-- The variables of the loop over the header lines.
pub record HeaderScan : Type 0 where
  pub header_map : HashMap Str Str
  pub header_count : ℕ
  pub content_length : ℕ
  pub has_content_length : Bool
  pub has_transfer_encoding : Bool
  pub is_chunked : Bool

unfoldable pub no_headers : HeaderScan
no_headers = record {
  header_map = [];
  header_count = 0;
  content_length = 0;
  has_content_length = false;
  has_transfer_encoding = false;
  is_chunked = false;
}

-- `entry(key).and_modify(…).or_insert(value)`
unfoldable pub add_header : Str → Str → HashMap Str Str → HashMap Str Str
add_header key value m = elim (lookup key m) [
  | none ↦ insert key value m
  | some existing ↦ insert key (existing ++ (codes ", " ++ value)) m
]

module _ (lower : Str → Str) where
  unfoldable pub scan_header : Str → Str → HeaderScan → HeaderScan
  unfolding add_header
  scan_header key value s =
      let is_length = key == content_length_name in
      let is_encoding = key == transfer_encoding_name in
      record {
        header_map = add_header key value s.header_map;
        header_count = s.header_count + 1;
        content_length =
            if is_length then unwrap_or (parse_unsigned usize_limit value) 0 else s.content_length;
        has_content_length = if is_length then true else s.has_content_length;
        has_transfer_encoding = if is_encoding then true else s.has_transfer_encoding;
        is_chunked = if is_encoding then contains (codes "chunked") (lower value) else s.is_chunked;
      }

  -- The loop over the header lines, which ends with too many headers in an error.
  unfoldable pub scan_headers : List Str → HeaderScan → Option HeaderScan
  unfolding scan_header
  scan_headers [] s = some s
  scan_headers (header ∷ rest) s = elim (split_once (codes ": ") header) [
    | none ↦ scan_headers rest s
    | some (k, value) ↦
        if ltb max_headers_count (s.header_count + 1)
        then none
        else scan_headers rest (scan_header (lower k) value s)
  ]

unfoldable pub split_uri : Str → Str × Str
split_uri raw_uri = elim (split_once (codes "?") raw_uri) [
  | none ↦ (raw_uri, [])
  | some parts ↦ parts
]

module _ (captures : Str → List Str) where
  -- The result for the path that was decoded.
  unfoldable pub made_head : Str → Str → Str → Str → ℕ → HeaderScan → HeadersParseResult
  made_head method uri query_path http_method h_bytes s = record {
    metadata = record {
      uri = uri;
      query_path = query_path;
      method = method;
      http_method = http_method;
      headers = s.header_map;
    };
    query = parse_query_string captures query_path;
    content_length = s.content_length;
    is_chunked = s.is_chunked;
    body_start = h_bytes + 4;
  }

  -- The result for the parts of the request line, the headers read.
  unfoldable pub head_result : Str → Str → Str → ℕ → HeaderScan → Outcome HeadersParseResult
  unfolding made_head split_uri
  head_result method raw_uri http_method h_bytes s =
      let (raw_path, query_path) = split_uri raw_uri in
      elim (percent_decode raw_path) [
        | none ↦ panicked
        | some uri ↦ complete (made_head method uri query_path http_method h_bytes s)
      ]

  -- The checks behind the loop.
  unfoldable pub check_scan :
      ℕ → Str → Str → Str → ℕ → Option HeaderScan → Outcome HeadersParseResult
  unfolding head_result
  check_scan max_body_size method raw_uri http_method h_bytes none = failed too_many_headers
  check_scan max_body_size method raw_uri http_method h_bytes (some s) =
      if s.has_content_length && s.has_transfer_encoding
      then failed both_lengths
      else if ltb max_body_size s.content_length
      then failed content_length_exceeds
      else head_result method raw_uri http_method h_bytes s

module _ (lower : Str → Str) (captures : Str → List Str) where
  -- The request line's parts and the headers, where both end at a known byte.
  unfoldable pub parse_parts : Str → ℕ → ℕ → ℕ → List Str → Outcome HeadersParseResult
  unfolding check_scan
  parse_parts buffer max_body_size rq_bytes h_bytes (method ∷ raw_uri ∷ http_method ∷ more) =
      check_scan captures max_body_size method raw_uri http_method h_bytes (
        scan_headers lower
          (split_str crlf
            (from_utf8_lossy (take (h_bytes - (rq_bytes + 2)) (drop (rq_bytes + 2) buffer))))
          no_headers)
  parse_parts buffer max_body_size rq_bytes h_bytes _ = failed invalid_request_line_size

  unfoldable pub parse_sections : Str → ℕ → ℕ → Outcome HeadersParseResult
  unfolding parse_parts
  parse_sections buffer max_body_size rq_bytes = elim (position (codes "\r\n\r\n") buffer) [
    | none ↦ incomplete
    | some h_bytes ↦
        if ltb h_bytes (rq_bytes + 2)
        then failed malformed_header_section
        else if ltb max_header_size (h_bytes - (rq_bytes + 2))
        then failed headers_too_large
        else parse_parts buffer max_body_size rq_bytes h_bytes
            (map from_utf8_lossy (split b' ' (take rq_bytes buffer)))
  ]

  unfoldable pub parse_head : Str → ℕ → Outcome HeadersParseResult
  unfolding parse_sections
  parse_head buffer max_body_size = elim (position crlf buffer) [
    | none ↦ incomplete
    | some pos ↦
        if leb 3 pos
        then if ltb max_request_line_size pos
          then failed request_line_too_long
          else if contains (codes "HTTP/1.1") (from_utf8_lossy (take pos buffer))
          then parse_sections buffer max_body_size pos
          else failed request_line_malformed
        else failed request_line_malformed
  ]

  unfoldable pub parse_headers_only : Str → ℕ → Outcome HeadersParseResult
  unfolding parse_head
  parse_headers_only buffer max_body_size = parse_head buffer max_body_size
