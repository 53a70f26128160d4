-- ===== src/Request/Uri.antt =====
-- engine/src/core/request.rs: `percent_decode` of a path and `parse_query_string`.
use rpress.Common.{
  ℕ, Bool, true, false, ◌&&◌, Option, none, some, List, [], ◌∷◌, ◌++◌, map, Str, HashMap, insert,
  ltb, leb, if◌then◌else◌, ◌==◌, nat_eq, list_eq, split, split_once, split_str, join, contains, any,
  is_empty,
}
use rpress.Common.{codes}
use rpress.Common.Hex.{parse_hex}
use rpress.Common.Utf8.{from_utf8_lossy}

-- Whether a slice may end in front of this text: it is at its end, or a character begins there.
unfoldable pub is_char_boundary : Str → Bool
is_char_boundary [] = true
is_char_boundary (c ∷ s) = if leb 0x80 c && ltb c 0xc0 then false else true

prepend : ℕ → Option Str → Option Str
prepend c none = none
prepend c (some s) = some (c ∷ s)

-- An escape gives its byte and goes on after it; else the byte stays and the next one is read.
escape : ℕ → Option ℕ → Option Str → Option Str → Option Str
unfolding prepend
escape c (some byte) after next = prepend byte after
escape c none after next = prepend c next

-- The loop over the bytes. A `%` with two more bytes slices the text behind them, which panics
-- inside a character: there is no result then.
unfoldable pub decode_bytes : Str → Option Str
unfolding escape prepend is_char_boundary
decode_bytes [] = some []
decode_bytes (c ∷ []) = some (c ∷ [])
decode_bytes (c ∷ a ∷ []) = some (c ∷ a ∷ [])
decode_bytes (c ∷ a ∷ b ∷ s) =
    let after = decode_bytes s in
    let next = decode_bytes (a ∷ b ∷ s) in
    if c == b'%'
    then if is_char_boundary s then escape c (parse_hex 256 (a ∷ b ∷ [])) after next else none
    else prepend c next

unfoldable pub percent_decode : Str → Option Str
percent_decode input = elim (decode_bytes input) [
  | none ↦ none
  | some decoded_bytes ↦ some (from_utf8_lossy decoded_bytes)
]

-- `str::replace`
unfoldable pub replace : Str → Str → Str → Str
replace from to s = join to (split_str from s)

-- `str::from_utf8`: a text is well formed when nothing of it is replaced.
unfoldable pub from_utf8 : Str → Option Str
from_utf8 bytes = if from_utf8_lossy bytes == bytes then some bytes else none

hex_bytes : List Str → Str
hex_bytes [] = []
hex_bytes (p ∷ ps) =
    if is_empty p
    then hex_bytes ps
    else elim (parse_hex 256 p) [ none ↦ hex_bytes ps | some byte ↦ byte ∷ hex_bytes ps ]

-- The escapes in the order of their first occurrence.
unique : List Str → List Str → List Str
unique seen [] = seen
unique seen (e ∷ es) = if any (λ d. d == e) seen then unique seen es else unique (seen ++ e ∷ []) es

replace_encodes : List Str → Str → Str
unfolding replace from_utf8 hex_bytes
replace_encodes [] value = value
replace_encodes (encode ∷ encodes) value = elim (from_utf8 (hex_bytes (split b'%' encode))) [
  | none ↦ replace_encodes encodes value
  | some hex_string ↦ replace_encodes encodes (replace encode hex_string value)
]

-- `captures` gives the matches of the pattern `PERCENT_ENCODING`, in their order.
module _ (captures : Str → List Str) where
  unfoldable pub query_value : Str → Str
  unfolding unique replace_encodes
  query_value raw =
      let raw_value = map (λ c. if c == b'+' then b' ' else c) raw in
      if contains (codes "%") raw_value
      then replace_encodes (unique [] (captures raw_value)) raw_value
      else raw_value

  unfoldable pub query_pairs : HashMap Str Str → List Str → HashMap Str Str
  unfolding query_value
  query_pairs result [] = result
  query_pairs result (q ∷ qs) = elim (split_once (codes "=") q) [
    | none ↦ query_pairs result qs
    | some (key, raw_value) ↦
        if is_empty key
        then query_pairs result qs
        else query_pairs (insert key (query_value raw_value) result) qs
  ]

  unfoldable pub parse_query_string : Str → HashMap Str Str
  unfolding query_pairs
  parse_query_string query_path =
      if is_empty query_path then [] else query_pairs [] (split b'&' query_path)
