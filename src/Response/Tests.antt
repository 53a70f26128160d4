-- ===== src/Response/Tests.antt =====
-- A response that is written and read again.
use rpress.Common.{suc, true, none, some, List, [], ◌∷◌, map, Str, codes, runs, ◌≡◌, refl, length}
use rpress.Types.Status.{ok}
use rpress.Response.{Compressors, final_body, send_response, sanitize_header}
use rpress.Response.Head.{read_head, sent_headers, status_text, printed, read_head-send_response}

-- A compressor that leaves nothing, and one that fails.
abbrev no_compressors : Compressors
no_compressors = record { brotli = λ s. []; gzip = λ s. none; joined = λ s. true }

-- A value that tries to add a header.
abbrev extra : List (Str × Str)
extra = (codes "X-User", codes "a\r\nSet-Cookie: b") ∷ []

sanitized_value : sanitize_header (codes "a\r\nSet-Cookie: b") ≡ codes "aSet-Cookie: b"
unfolding runs sanitize_header
sanitized_value = refl

read_head-send_response_example :
    read_head
      (suc (
        suc (
          length (
            sent_headers (codes "now") (codes "text/plain") extra (
              final_body no_compressors
                (codes "hi")
                (some (codes "br, gzip"))
                (codes "text/plain"))))))
      (send_response no_compressors
        (codes "now")
        ok
        (codes "hi")
        (codes "text/plain")
        extra
        (some (codes "br, gzip"))
        (record { headers = [] })).1
    ≡ some (
      status_text ok
          ∷ map printed (
              sent_headers (codes "now") (codes "text/plain") extra (
                final_body no_compressors
                  (codes "hi")
                  (some (codes "br, gzip"))
                  (codes "text/plain"))),
      (final_body no_compressors (codes "hi") (some (codes "br, gzip")) (codes "text/plain")).0,
    )
read_head-send_response_example =
    read_head-send_response no_compressors (codes "now") ok (codes "hi") (codes "text/plain") extra
      (some (codes "br, gzip"))
