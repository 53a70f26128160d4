-- ===== src/Response.antt =====
-- engine/src/core/response.rs: how a response is compressed, laid out and written. The two
-- compressors and the clock stand outside of the repository's sources and are parameters.
pub mod Head
mod Tests
use rpress.Common.{
  ℕ, Bool, true, false, not, ◌&&◌, ◌||◌, ◌+◌, ◌++◌, Option, none, some, List, [], ◌∷◌, map, String,
  Str, codes, starts_with, contains, any, length, leb, ltb, is_empty, is_some, retain, unwrap_or,
  crlf, ◌==◌, nat_eq, list_eq, if◌then◌else◌,
}
use rpress.Common.Decimal.{decimal}
use rpress.Types.Status.{StatusCode, status_u16, reason}
use rpress.Types.Names.{
  HeadersResponse, header_name, date, server, content_type, content_length, content_encoding,
  connection, x_content_type_options,
}

pub record Response : Type 0 where
  pub headers : List (Str × Str)

-- The compressors: brotli's writer leaves its output, and gzip's encoder may fail to finish.
-- `joined` says that the blocking task in which they run did not panic.
pub record Compressors : Type 0 where
  pub brotli : Str → Str
  pub gzip : Str → Option Str
  pub joined : Str → Bool

abbrev pub min_compress_size : ℕ
min_compress_size = 256

abbrev pub skip_compress_prefixes : List Str
skip_compress_prefixes =
    codes "image/"
    ∷ codes "video/"
    ∷ codes "audio/"
    ∷ codes "application/zip"
    ∷ codes "application/gzip"
    ∷ codes "application/br"
    ∷ codes "application/zstd"
    ∷ []

unfoldable pub sanitize_header : Str → Str
sanitize_header value = retain (λ c. not (c == 13) && not (c == 10)) value

unfoldable pub write_headers : HeadersResponse → Str → Response → Response
write_headers index value r = record { headers = r.headers ++ (header_name index, value) ∷ [] }

unfoldable pub should_compress : Str → Bool
should_compress ct =
    if starts_with (codes "image/svg") ct
    then true
    else not (any (λ prefix. starts_with prefix ct) skip_compress_prefixes)

-- What is left to try when brotli is not accepted, or left nothing.
unfoldable pub compress_gzip : Compressors → Str → Str → Str × Option Str
compress_gzip c body accept =
    if contains (codes "gzip") accept
    then (elim (c.gzip body) [
      | some compressed ↦ (compressed, some (codes "gzip"))
      | none ↦ (body, none)
    ])
    else (body, none)

unfoldable pub compress_accepted : Compressors → Str → Str → Str × Option Str
unfolding compress_gzip
compress_accepted c body accept =
    if contains (codes "br") accept && not (is_empty (c.brotli body))
    then (c.brotli body, some (codes "br"))
    else compress_gzip c body accept

unfoldable pub compress_body : Compressors → Str → Option Str → Str → Str × Option Str
unfolding compress_accepted should_compress
compress_body c body none ct = (body, none)
compress_body c body (some accept) ct =
    if leb min_compress_size (length body) && should_compress ct
    then compress_accepted c body accept
    else (body, none)

unfoldable pub header_line : Str × Str → Str
header_line (key, value) = sanitize_header key ++ (codes ": " ++ (sanitize_header value ++ crlf))

unfoldable pub header_lines : List (Str × Str) → Str
unfolding header_line
header_lines [] = []
header_lines (h ∷ hs) = header_line h ++ header_lines hs

unfoldable pub build_response : Str → Str → Response → Response × Str
unfolding header_lines write_headers
build_response protocol body r =
    let r' = write_headers content_length (decimal (length body)) r in
    (r', protocol ++ (header_lines r'.headers ++ (crlf ++ body)))

unfoldable pub status_code_line : StatusCode → Str
status_code_line status =
    codes "HTTP/1.1 " ++ (decimal (status_u16 status) ++ (codes " " ++ (reason status ++ crlf)))

unfoldable pub default_headers : Str → Str → Response → Response
unfolding write_headers
default_headers now ct r = write_headers x_content_type_options (codes "nosniff") (
    write_headers connection (codes "keep-alive") (
      write_headers content_type ct
        (write_headers server (codes "Rpress/1.0") (write_headers date now r))))

-- The body that is sent, and its encoding.
unfoldable pub final_body : Compressors → Str → Option Str → Str → Str × Option Str
unfolding compress_body
final_body c body none ct = (body, none)
final_body c body (some accept) ct =
    if c.joined body then compress_body c body (some accept) ct else ([], none)

unfoldable pub encoding_headers : Option Str → Response → Response
unfolding write_headers
encoding_headers none r = r
encoding_headers (some enc) r =
    let r' = write_headers content_encoding enc r in
    record { headers = r'.headers ++ (codes "Vary", codes "Accept-Encoding") ∷ [] }

-- The bytes that `send_response` writes when no write fails.
unfoldable pub send_response :
    Compressors
    → Str
    → StatusCode
    → Str
    → Str
    → List (Str × Str)
    → Option Str
    → Response
    → Response × Str
unfolding default_headers final_body encoding_headers build_response status_code_line
send_response c now status body ct extra accept r =
    let started = default_headers now ct r in
    let extended : Response = record { headers = started.headers ++ extra } in
    let (sent, encoding) = final_body c body accept ct in
    let encoded = encoding_headers encoding extended in
    let (_, bytes) = build_response (status_code_line status) sent encoded in
    (record { headers = [] }, bytes)
