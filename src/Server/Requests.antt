-- ===== src/Server/Requests.antt =====
-- engine/src/lib.rs: the loop of `handle_h1_connection` that takes requests off the buffer.
pub mod Ends
use rpress.Common.{
  ℕ, zero, suc, ◌+◌, Bool, true, false, ◌||◌, Option, none, some, List, [], ◌∷◌, ◌++◌, Str, codes,
  contains, drop, length, ltb, is_empty, is_some, if◌then◌else◌,
}
use rpress.Request.Outcome.{ParseError, Outcome, incomplete, complete, failed, RequestPayload}
use rpress.Request.Outcome
use rpress.Request.Protocol.{parse_http_protocol}

abbrev pub chunk_header : Str
chunk_header = codes "Transfer-Encoding: chunked"

-- How the loop ends: it waits for more bytes, the bytes are refused, a slice is out of bounds, or
-- the rounds that it was given are used up.
pub data LoopEnd : Type 0 where
  waiting : LoopEnd
  rejected : ParseError → LoopEnd
  panicked : LoopEnd
  exhausted : LoopEnd

-- The requests, what is left of the buffer, and the end.
pub record Parsed : Type 0 where
  pub current_requests : List RequestPayload
  pub buffer : Str
  pub end : LoopEnd

-- `current_requests.last_mut()`, with the bytes appended to its body.
unfoldable pub extend_last : Str → List RequestPayload → List RequestPayload
extend_last bytes [] = []
extend_last bytes (r ∷ []) = record r { payload = r.payload ++ bytes } ∷ []
extend_last bytes (r ∷ q ∷ rs) = r ∷ extend_last bytes (q ∷ rs)

-- A request with a head is a new one; bytes without a head belong to the one before.
unfoldable pub add_parsed : RequestPayload → List RequestPayload → List RequestPayload
unfolding extend_last
add_parsed parsed requests =
    if is_some parsed.request_metadata
    then requests ++ parsed ∷ []
    else if is_empty parsed.payload
    then requests
    else extend_last parsed.payload requests

-- The body of the loop, with what the loop does next.
unfoldable pub parse_round :
    Str
    → List RequestPayload
    → Outcome (RequestPayload × ℕ)
    → (Str → List RequestPayload → Parsed)
    → Parsed
unfolding add_parsed
parse_round buffer requests incomplete next = record {
  current_requests = requests;
  buffer = buffer;
  end = waiting;
}
parse_round buffer requests (failed e) next = record {
  current_requests = requests;
  buffer = [];
  end = rejected e;
}
parse_round buffer requests Outcome.panicked next = record {
  current_requests = requests;
  buffer = buffer;
  end = panicked;
}
parse_round buffer requests (complete (parsed, consumed)) next =
    if ltb (length buffer) consumed
    then record { current_requests = requests; buffer = buffer; end = panicked }
    else next (drop consumed buffer) (add_parsed parsed requests)

module _ (lower : Str → Str) (captures : Str → List Str) (max_body_size : ℕ) where
  unfoldable pub parse_requests : ℕ → Bool → Str → List RequestPayload → Parsed
  unfolding parse_round
  parse_requests zero is_chunked buffer requests = record {
    current_requests = requests;
    buffer = buffer;
    end = exhausted;
  }
  parse_requests (suc fuel) is_chunked buffer requests =
      let chunked = is_chunked || contains chunk_header buffer in
      let round =
        parse_round buffer requests
          (parse_http_protocol lower captures buffer chunked max_body_size)
          (parse_requests fuel chunked) in
      if is_empty buffer
      then record { current_requests = requests; buffer = buffer; end = waiting }
      else round

  -- The loop on the bytes that have come in, with a round for each byte and one.
  unfoldable pub take_requests : Str → Parsed
  unfolding parse_requests
  take_requests buffer =
      parse_requests (suc (length buffer)) (contains chunk_header buffer) buffer []
