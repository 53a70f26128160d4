-- ===== src/Request/Protocol.antt =====
-- engine/src/core/request.rs: `parse_http_protocol`.
use rpress.Common.{
  ℕ, ◌-◌, Bool, false, not, ◌&&◌, Option, none, some, List, [], Str, ltb, leb, if◌then◌else◌,
  contains, position, length, take, drop, codes, crlf,
}
use rpress.Common.Utf8.{from_utf8_lossy}
use rpress.Request.Outcome.{
  Outcome, incomplete, complete, failed, panicked, request_line_too_long, request_line_malformed,
  content_length_overflow, checked_add, RequestPayload, HeadersParseResult,
}
use rpress.Request.Head.{max_request_line_size, parse_head}
use rpress.Request.Chunked.{parse_chunked_body}

-- Whether the buffer begins with a request line; no answer when that line is too long.
unfoldable pub valid_request_line : Str → Option ℕ → Option Bool
valid_request_line buffer none = some false
valid_request_line buffer (some pos) =
    if leb 3 pos
    then if ltb max_request_line_size pos
      then none
      else some (contains (codes "HTTP/1.1") (from_utf8_lossy (take pos buffer)))
    else some false

-- A frame of chunks, without a head.
unfoldable pub chunked_request : Outcome (Str × ℕ) → Outcome (RequestPayload × ℕ)
chunked_request incomplete = incomplete
chunked_request (complete (payload, consumed)) = complete (
  record {
    request_metadata = none;
    payload = payload;
    params = [];
    query = [];
    extensions = [];
    body_receiver = none;
  },
  consumed,
)
chunked_request (failed e) = failed e
chunked_request panicked = panicked

-- A head with its body, once the whole body has come.
unfoldable pub with_body : Str → Outcome HeadersParseResult → Outcome (RequestPayload × ℕ)
with_body buffer incomplete = incomplete
with_body buffer (complete head) =
    checked_add content_length_overflow head.body_start head.content_length (λ body_end.
      if ltb (length buffer) body_end
      then incomplete
      else complete (
        record {
          request_metadata = some head.metadata;
          payload = take (body_end - head.body_start) (drop head.body_start buffer);
          params = [];
          query = head.query;
          extensions = [];
          body_receiver = none;
        },
        body_end,
      ))
with_body buffer (failed e) = failed e
with_body buffer panicked = panicked

module _ (lower : Str → Str) (captures : Str → List Str) where
  unfoldable pub parse_http_protocol : Str → Bool → ℕ → Outcome (RequestPayload × ℕ)
  unfolding valid_request_line chunked_request with_body
  parse_http_protocol buffer is_chunk max_body_size =
      elim (valid_request_line buffer (position crlf buffer)) [
        | none ↦ failed request_line_too_long
        | some has_valid_request_line ↦
            if not has_valid_request_line && not is_chunk
            then failed request_line_malformed
            else if not has_valid_request_line
            then chunked_request (parse_chunked_body buffer)
            else with_body buffer (parse_head lower captures buffer max_body_size)
      ]
