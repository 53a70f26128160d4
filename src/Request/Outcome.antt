-- ===== src/Request/Outcome.antt =====
-- engine/src/core/request.rs: the results of a parse, `Result<Option<A>, &'static str>`, with the
-- outcome of a slice out of bounds beside them, and the types of the parts of a request in
-- engine/src/types/definitions.rs.
use rpress.Common.{ℕ, ◌+◌, ◌^◌, Bool, Option, List, Str, HashMap, ltb, if◌then◌else◌, String}

pub data ParseError : Type 0 where
  request_line_too_long : ParseError
  request_line_malformed : ParseError
  malformed_header_section : ParseError
  headers_too_large : ParseError
  invalid_request_line_size : ParseError
  too_many_headers : ParseError
  both_lengths : ParseError
  content_length_exceeds : ParseError
  chunk_size_exceeds : ParseError
  chunk_cursor_overflow : ParseError
  chunk_offset_overflow : ParseError
  chunk_data_end_overflow : ParseError
  chunk_length_overflow : ParseError
  content_length_overflow : ParseError

-- The text that the source gives with the error.
abbrev pub error_text : ParseError → String
error_text request_line_too_long = "Request line too long"
error_text request_line_malformed = "Request line possibly malformed"
error_text malformed_header_section = "Malformed header section"
error_text headers_too_large = "Headers too large"
error_text invalid_request_line_size = "Invalid request line size"
error_text too_many_headers = "Too many headers"
error_text both_lengths = "Request contains both Content-Length and Transfer-Encoding"
error_text content_length_exceeds = "Content-Length exceeds maximum allowed size"
error_text chunk_size_exceeds = "Chunk size exceeds maximum"
error_text chunk_cursor_overflow = "Chunk cursor overflow"
error_text chunk_offset_overflow = "Chunk offset overflow"
error_text chunk_data_end_overflow = "Chunk data_end overflow"
error_text chunk_length_overflow = "Chunk length overflow"
error_text content_length_overflow = "Content-Length overflow"

-- `Ok(None)`, `Ok(Some(a))`, `Err(e)`, and a panic.
pub data Outcome {ℓ} (A : Type ℓ) : Type ℓ where
  incomplete : Outcome A
  complete : A → Outcome A
  failed : ParseError → Outcome A
  panicked : Outcome A

abbrev pub usize_limit : ℕ
usize_limit = 2 ^ 64

-- `checked_add` of `usize`, with the rest of the computation and its error.
abbrev pub checked_add {ℓ} : {A : Type ℓ} → ParseError → ℕ → ℕ → (ℕ → Outcome A) → Outcome A
checked_add e a b next = if ltb (a + b) usize_limit then next (a + b) else failed e

pub record RequestMetadata : Type 0 where
  pub method : Str
  pub uri : Str
  pub query_path : Str
  pub http_method : Str
  pub headers : HashMap Str Str

-- A body that streams in is the list of the chunks that its channel still gives until it closes.
pub record RequestPayload : Type 0 where
  pub request_metadata : Option RequestMetadata
  pub payload : Str
  pub params : HashMap Str Str
  pub query : HashMap Str Str
  pub extensions : HashMap Str Str
  pub body_receiver : Option (List Str)

pub record HeadersParseResult : Type 0 where
  pub metadata : RequestMetadata
  pub query : HashMap Str Str
  pub content_length : ℕ
  pub is_chunked : Bool
  pub body_start : ℕ
