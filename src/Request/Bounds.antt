-- ===== src/Request/Bounds.antt =====
-- What a parsed head promises: where the body starts, how long it may be and how its length is
-- given.
use rpress.Common.Utf8.{from_utf8_lossy}
use rpress.Common.{
  map, split, ℕ, ◌+◌, ◌≤◌, ◌<◌, true, false, not, ◌&&◌, ◌||◌, Option, none, some, List, [], ◌∷◌,
  ◌++◌, Str, ltb, ◌==◌, nat_eq, list_eq, ◌≡◌, refl, sym, ◌∙◌, inl, inr, Bool-cases, Option-cases,
  arith, eq_iff, length, take, crlf, codes, position, strip_prefix, split_once, HashMap, lookup,
  insert, contains_key, lookup-insert,
}
use rpress.Request.Outcome.{complete, panicked, HeadersParseResult}
use rpress.Request.Uri.{percent_decode}
use rpress.Request.Head.{
  content_length_name, transfer_encoding_name, made_head, split_uri, max_headers_count, HeaderScan,
  add_header, scan_header, scan_headers, no_headers, head_result, check_scan, parse_parts,
  parse_sections, parse_head,
}

strip_prefix-length :
    (p s rest : Str) → strip_prefix p s ≡ some rest → length s ≡ length p + length rest
unfolding strip_prefix
strip_prefix-length [] s rest h = ground (arith, h)
strip_prefix-length (c ∷ p) [] rest h = cc
strip_prefix-length (c ∷ p) (d ∷ s) rest h = ground (arith, strip_prefix-length p s rest, h)

-- A pattern stands within the text.
pub position-bound : (p s : Str) (i : ℕ) → position p s ≡ some i → i + length p ≤ length s
unfolding position
position-bound p [] i h = cc
position-bound p (c ∷ s) i h = elim (Option-cases (strip_prefix p (c ∷ s))) [
  | inl absent ↦ elim (Option-cases (position p s)) [
    | inl nowhere ↦ ground (arith, absent, nowhere, h)
    | inr (j, later) ↦ ground (arith, absent, later, h, position-bound p s j later)
  ]
  | inr (rest, found) ↦ ground (arith, found, h, strip_prefix-length p (c ∷ s) rest found)
]

contains_key-add_header :
    (key j value : Str) (m : HashMap Str Str)
    → contains_key j (add_header key value m) ≡ (key == j || contains_key j m)
unfolding add_header
contains_key-add_header key j value m = elim (Option-cases (lookup key m)) [
  | inl absent ↦ rw (absent, add_header) (ground (arith, lookup-insert key j value m))
  | inr (existing, found) ↦
      rw (found, add_header)
        (ground
          (arith, found, eq_iff key j, lookup-insert key j (existing ++ (codes ", " ++ value)) m))
]

length-insert : (k v : Str) (m : HashMap Str Str) → length (insert k v m) ≤ length m + 1
unfolding insert
length-insert k v [] = omega arith
length-insert k v ((j, w) ∷ m) = ground (arith, length-insert k v m)

-- What the loop over the header lines keeps.
record IsScan (s : HeaderScan) : Type 0 where
  length_key : s.has_content_length ≡ contains_key content_length_name s.header_map
  encoding_key : s.has_transfer_encoding ≡ contains_key transfer_encoding_name s.header_map
  chunked : s.is_chunked ≡ true → s.has_transfer_encoding ≡ true
  counted : length s.header_map ≤ s.header_count
  few : s.header_count ≤ 100

no_headers-IsScan : IsScan no_headers
unfolding no_headers lookup
no_headers-IsScan = record {
  length_key = refl;
  encoding_key = refl;
  chunked = λ h. cc;
  counted = omega arith;
  few = omega arith;
}

length-add_header : (k v : Str) (m : HashMap Str Str) → length (add_header k v m) ≤ length m + 1
unfolding add_header
length-add_header k v m = elim (Option-cases (lookup k m)) [
  | inl absent ↦ rw (absent, add_header) (length-insert k v m)
  | inr (existing, found) ↦
      rw (found, add_header) (length-insert k (existing ++ (codes ", " ++ v)) m)
]

scan_header-IsScan :
    (lower : Str → Str) (key value : Str) (s : HeaderScan)
    → s.header_count < 100
    → IsScan s
    → IsScan (scan_header lower key value s)
unfolding scan_header
scan_header-IsScan lower key value s room h = record {
  length_key =
      ground
        (arith, h.length_key, contains_key-add_header key content_length_name value s.header_map);
  encoding_key = ground (
    arith,
    h.encoding_key,
    contains_key-add_header key transfer_encoding_name value s.header_map,
  );
  chunked = ground (arith, h.chunked);
  counted = omega (arith, h.counted, length-add_header key value s.header_map);
  few = omega (arith, room);
}

scan_headers-IsScan :
    (lower : Str → Str) (lines : List Str) (s t : HeaderScan)
    → scan_headers lower lines s ≡ some t
    → IsScan s
    → IsScan t
unfolding scan_headers
scan_headers-IsScan lower [] s t done h = let same : s ≡ t = cc in rw (← same) h
scan_headers-IsScan lower (line ∷ lines) s t done h =
    elim (Option-cases (split_once (codes ": ") line)) [
      | inl absent ↦
          let skipped : scan_headers lower (line ∷ lines) s ≡ scan_headers lower lines s =
            rw (absent, scan_headers) refl in
          scan_headers-IsScan lower lines s t (sym skipped ∙ done) h
      | inr ((k, value), found) ↦ elim (Bool-cases (ltb 100 (s.header_count + 1))) [
        | inl full ↦
            let stopped : scan_headers lower (line ∷ lines) s ≡ none =
              rw (found, scan_headers, full) refl in
            absurd (ground (arith, sym stopped ∙ done))
        | inr room ↦
            let scanned : scan_headers lower (line ∷ lines) s
                ≡ scan_headers lower lines (scan_header lower (lower k) value s) =
              rw (found, scan_headers, room) refl in
            scan_headers-IsScan lower lines (scan_header lower (lower k) value s) t
              (sym scanned ∙ done) (scan_header-IsScan lower (lower k) value s (ground arith) h)
      ]
    ]

-- What a head promises that was read from a buffer.
pub record IsHead (buffer : Str) (max_body_size : ℕ) (head : HeadersParseResult) : Type 0 where
  pub starts_inside : (4 ≤ head.body_start) × (head.body_start ≤ length buffer)
  pub within_limit : head.content_length ≤ max_body_size
  pub one_length :
      contains_key content_length_name head.metadata.headers
        && contains_key transfer_encoding_name head.metadata.headers
      ≡ false
  pub chunked_by_header :
      not head.is_chunked || contains_key transfer_encoding_name head.metadata.headers ≡ true
  pub few_headers : length head.metadata.headers ≤ max_headers_count

module _ (captures : Str → List Str) where
  head_result-IsHead :
      (buffer : Str) (max_body_size : ℕ) (method raw_uri http_method : Str) (h_bytes : ℕ)
      (s : HeaderScan) (head : HeadersParseResult)
      → head_result captures method raw_uri http_method h_bytes s ≡ complete head
      → IsScan s
      → s.has_content_length && s.has_transfer_encoding ≡ false
      → s.content_length ≤ max_body_size
      → h_bytes + 4 ≤ length buffer
      → IsHead buffer max_body_size head
  unfolding head_result
  head_result-IsHead buffer max_body_size method raw_uri http_method h_bytes s head done h one limit
        inside =
      elim (Option-cases (percent_decode (split_uri raw_uri).0)) [
        | inl panics ↦
            let stopped : head_result captures method raw_uri http_method h_bytes s ≡ panicked =
              rw (panics, head_result) refl in
            absurd (ground (arith, sym stopped ∙ done))
        | inr (uri, decoded) ↦
            let made : head_result captures method raw_uri http_method h_bytes s
                ≡ complete
                    (made_head captures method uri (split_uri raw_uri).1 http_method h_bytes s) =
              rw (decoded, head_result) refl in
            let same : made_head captures method uri (split_uri raw_uri).1 http_method h_bytes s
                ≡ head =
              cc (sym made ∙ done) in
            rw (← same) record {
              starts_inside = (omega arith, inside);
              within_limit = limit;
              one_length = ground (arith, h.length_key, h.encoding_key);
              chunked_by_header = ground (arith, h.chunked, h.encoding_key);
              few_headers = omega (arith, h.counted, h.few);
            }
      ]

  check_scan-IsHead :
      (buffer : Str) (max_body_size : ℕ) (method raw_uri http_method : Str) (h_bytes : ℕ)
      (found : Option HeaderScan) (head : HeadersParseResult)
      → check_scan captures max_body_size method raw_uri http_method h_bytes found ≡ complete head
      → ((s : HeaderScan) → found ≡ some s → IsScan s)
      → h_bytes + 4 ≤ length buffer
      → IsHead buffer max_body_size head
  unfolding check_scan
  check_scan-IsHead buffer max_body_size method raw_uri http_method h_bytes none head done h
        inside =
      cc
  check_scan-IsHead buffer max_body_size method raw_uri http_method h_bytes (some s) head done h
        inside =
      elim (Bool-cases (s.has_content_length && s.has_transfer_encoding)) [
        | inl both ↦ absurd (ground (arith, both, done))
        | inr one ↦ elim (Bool-cases (ltb max_body_size s.content_length)) [
          | inl much ↦ absurd (ground (arith, one, much, done))
          | inr limit ↦
              head_result-IsHead buffer max_body_size method raw_uri http_method h_bytes s head
                (ground (arith, one, limit, done)) (h s refl) one (ground arith) inside
        ]
      ]

module _ (lower : Str → Str) (captures : Str → List Str) (buffer : Str) (max_body_size : ℕ) where
  parse_parts-IsHead :
      (rq_bytes h_bytes : ℕ) (parts : List Str) (head : HeadersParseResult)
      → parse_parts lower captures buffer max_body_size rq_bytes h_bytes parts ≡ complete head
      → h_bytes + 4 ≤ length buffer
      → IsHead buffer max_body_size head
  unfolding parse_parts
  parse_parts-IsHead rq_bytes h_bytes [] head done inside = cc
  parse_parts-IsHead rq_bytes h_bytes (m ∷ []) head done inside = cc
  parse_parts-IsHead rq_bytes h_bytes (m ∷ u ∷ []) head done inside = cc
  parse_parts-IsHead rq_bytes h_bytes (m ∷ u ∷ v ∷ more) head done inside =
      check_scan-IsHead captures buffer max_body_size m u v h_bytes _ head done
        (λ s found. scan_headers-IsScan lower _ no_headers s found no_headers-IsScan) inside

  parse_sections-IsHead :
      (rq_bytes : ℕ) (head : HeadersParseResult)
      → parse_sections lower captures buffer max_body_size rq_bytes ≡ complete head
      → IsHead buffer max_body_size head
  unfolding parse_sections
  parse_sections-IsHead rq_bytes head done =
      elim (Option-cases (position (codes "\r\n\r\n") buffer)) [
        | inl absent ↦ absurd (ground (arith, absent, done))
        | inr (h_bytes, found) ↦
            parse_parts-IsHead rq_bytes h_bytes
              (map from_utf8_lossy (split b' ' (take rq_bytes buffer))) head
              (ground (arith, found, done)) (position-bound (codes "\r\n\r\n") buffer h_bytes found)
      ]

  -- A head that was read leaves its body's start in the buffer, a body within the limit, no more
  -- headers than allowed, and not both ways to give the body's length; it is chunked only where
  -- the header says so.
  pub parse_head-IsHead :
      (head : HeadersParseResult)
      → parse_head lower captures buffer max_body_size ≡ complete head
      → IsHead buffer max_body_size head
  unfolding parse_head
  parse_head-IsHead head done = elim (Option-cases (position crlf buffer)) [
    | inl absent ↦ absurd (ground (arith, absent, done))
    | inr (pos, found) ↦ parse_sections-IsHead pos head (ground (arith, found, done))
  ]
