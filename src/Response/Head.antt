-- ===== src/Response/Head.antt =====
-- What a receiver reads back from a response: one line for each header, and the body, whatever
-- bytes the headers hold.
use mathlib.Core.Path.{subst}
use rpress.Common.{
  ℕ, zero, suc, ◌∙◌, ap, true, false, Option, none, some, List, [], ◌∷◌, ◌++◌, map, Str, codes,
  length, is_empty, All-append, All-imp, Lacks, crlf, split_once, split_once-append, nat_eq,
  list_eq, if◌then◌else◌, ◌≡◌, ◌≢◌, refl, arith, append_assoc,
}
use rpress.Common.Decimal.{decimal, All-decimal, is_digit}
use rpress.Types.Status.{StatusCode, status_u16, reason, reason-Lacks}
use rpress.Types.Names.{header_name}
use rpress.Response.{
  Response, Compressors, sanitize_header, write_headers, header_line, header_lines, build_response,
  status_code_line, default_headers, final_body, encoding_headers, send_response,
}

cons_line : Str → Option (List Str × Str) → Option (List Str × Str)
cons_line line none = none
cons_line line (some (lines, body)) = some (line ∷ lines, body)

-- A receiver: lines up to an empty one, and what follows that. The number bounds the lines.
pub read_head : ℕ → Str → Option (List Str × Str)
unfolding cons_line
read_head zero s = none
read_head (suc n) s = elim (split_once crlf s) [
  | none ↦ none
  | some (line, rest) ↦ if is_empty line then some ([], rest) else cons_line line (read_head n rest)
]

-- A header as its receiver should see it.
pub printed : Str × Str → Str
printed (key, value) = sanitize_header key ++ (codes ": " ++ sanitize_header value)

sanitize_header-Lacks : (s : Str) → Lacks 13 (sanitize_header s)
unfolding sanitize_header
sanitize_header-Lacks [] = tt
sanitize_header-Lacks (c ∷ s) = ground (arith, sanitize_header-Lacks s)

printed-Lacks : (h : Str × Str) → Lacks 13 (printed h)
unfolding printed
printed-Lacks (key, value) =
    All-append (λ d. d ≢ 13) (sanitize_header key) (codes ": " ++ sanitize_header value)
      (sanitize_header-Lacks key) (omega arith, (omega arith, sanitize_header-Lacks value))

printed_nonempty : (h : Str × Str) → is_empty (printed h) ≡ false
unfolding printed
printed_nonempty (key, value) = nonempty (sanitize_header key)
  where
    nonempty : (s : Str) → is_empty (s ++ (codes ": " ++ sanitize_header value)) ≡ false
    nonempty [] = refl
    nonempty (c ∷ s) = refl

header_line_lem : (h : Str × Str) → header_line h ≡ printed h ++ crlf
unfolding header_line printed
header_line_lem (key, value) = rw (
  append_assoc (sanitize_header key) (codes ": " ++ sanitize_header value) crlf,
  append_assoc (codes ": ") (sanitize_header value) crlf,
)

-- One line at a time.
read_head-line :
    (n : ℕ) (line rest : Str)
    → Lacks 13 line
    → is_empty line ≡ false
    → read_head (suc n) (line ++ (crlf ++ rest)) ≡ cons_line line (read_head n rest)
unfolding read_head
read_head-line n line rest lacks nonempty =
    rw (split_once-append 13 (10 ∷ []) line rest lacks, read_head) (rw nonempty)

read_head-header_lines :
    (hs : List (Str × Str)) (body : Str)
    → read_head (suc (length hs)) (header_lines hs ++ (crlf ++ body)) ≡ some (map printed hs, body)
unfolding header_lines read_head
read_head-header_lines [] body = rw (split_once-append 13 (10 ∷ []) [] body tt, read_head) refl
read_head-header_lines (h ∷ hs) body =
    let rest = header_lines hs ++ (crlf ++ body) in
    rw
      (
        append_assoc (header_line h) (header_lines hs) (crlf ++ body),
        header_line_lem h,
        append_assoc (printed h) crlf rest,
      )
      (read_head-line (suc (length hs)) (printed h) rest (printed-Lacks h) (printed_nonempty h)
        ∙ ap (cons_line (printed h)) (read_head-header_lines hs body))

-- The status line without its end.
pub status_text : StatusCode → Str
status_text status =
    codes "HTTP/1.1 " ++ (decimal (status_u16 status) ++ (codes " " ++ reason status))

decimal-Lacks : (n : ℕ) → Lacks 13 (decimal n)
decimal-Lacks n =
    All-imp (λ c. is_digit c ≡ true) (λ c. c ≢ 13) (decimal n) (λ c h. ground arith) (All-decimal n)

status_text-Lacks : (status : StatusCode) → Lacks 13 (status_text status)
unfolding status_text
status_text-Lacks status =
    All-append (λ d. d ≢ 13) (codes "HTTP/1.1 ") _ (omega arith)
      (All-append (λ d. d ≢ 13) (decimal (status_u16 status)) _ (decimal-Lacks (status_u16 status))
        (omega arith, reason-Lacks status))

status_code_line_lem : (status : StatusCode) → status_code_line status ≡ status_text status ++ crlf
unfolding status_code_line status_text
status_code_line_lem status =
    rw (append_assoc (decimal (status_u16 status)) (codes " " ++ reason status) crlf) refl

-- The headers that a response carries, in order.
abbrev pub encoding_pairs : Option Str → List (Str × Str)
encoding_pairs none = []
encoding_pairs (some enc) =
    (codes "Content-Encoding", enc) ∷ (codes "Vary", codes "Accept-Encoding") ∷ []

abbrev pub sent_headers : Str → Str → List (Str × Str) → Str × Option Str → List (Str × Str)
sent_headers now ct extra (body, encoding) =
    (codes "Date", now)
    ∷ (codes "Server", codes "Rpress/1.0")
    ∷ (codes "Content-Type", ct)
    ∷ (codes "Connection", codes "keep-alive")
    ∷ (codes "X-Content-Type-Options", codes "nosniff")
    ∷ (extra ++ (encoding_pairs encoding ++ ((codes "Content-Length", decimal (length body)) ∷ [])))

abbrev built : StatusCode → Str → Response → Response × Str
built status body r = build_response (status_code_line status) body r

read_head-build_response :
    (status : StatusCode) (body : Str) (r : Response)
    → read_head (suc (suc (length (built status body r).0.headers))) (built status body r).1
      ≡ some (status_text status ∷ map printed (built status body r).0.headers, body)
unfolding build_response status_text cons_line
read_head-build_response status body r =
    let hs = (built status body r).0.headers in
    let rest = header_lines hs ++ (crlf ++ body) in
    ap (λ t. read_head (suc (suc (length hs))) (t ++ rest)) (status_code_line_lem status)
    ∙ (ap (read_head (suc (suc (length hs)))) (append_assoc (status_text status) crlf rest)
        ∙ (read_head-line (suc (length hs)) (status_text status) rest (status_text-Lacks status)
              refl
            ∙ ap (cons_line (status_text status)) (read_head-header_lines hs body)))

-- The response that is built, from what the compression left.
encoded : Str → Str → List (Str × Str) → Option Str → Response
unfolding default_headers encoding_headers
encoded now ct extra encoding =
    encoding_headers encoding
      (record { headers = (default_headers now ct (record { headers = [] })).headers ++ extra })

headers-built :
    (now ct : Str) (extra : List (Str × Str)) (status : StatusCode) (body : Str)
    (encoding : Option Str)
    → (built status body (encoded now ct extra encoding)).0.headers
      ≡ sent_headers now ct extra (body, encoding)
unfolding encoded build_response write_headers header_name
headers-built now ct extra status body none = refl
headers-built now ct extra status body (some enc) = simp append_assoc

-- A receiver of a response reads the status line, one line for each header in the order in which
-- they were set, whatever bytes their names and values hold, then an empty line and the body.
pub read_head-send_response :
    (c : Compressors) (now : Str) (status : StatusCode) (body ct : Str) (extra : List (Str × Str))
    (accept : Option Str)
    → read_head
        (suc (suc (length (sent_headers now ct extra (final_body c body accept ct)))))
        (send_response c now status body ct extra accept (record { headers = [] })).1
      ≡ some (
        status_text status ∷ map printed (sent_headers now ct extra (final_body c body accept ct)),
        (final_body c body accept ct).0,
      )
unfolding send_response encoded
read_head-send_response c now status body ct extra accept =
    let (sent, encoding) = final_body c body accept ct in
    subst
      (λ hs.
        read_head (suc (suc (length hs))) (built status sent (encoded now ct extra encoding)).1
        ≡ some (status_text status ∷ map printed hs, sent))
      (headers-built now ct extra status sent encoding)
      (read_head-build_response status sent (encoded now ct extra encoding))
