-- ===== src/Request/Chunked.antt =====
-- engine/src/core/request.rs: `parse_chunked_body`, the chunks of a body that has come in so far.
use rpress.Common.{
  ℕ, zero, suc, ◌+◌, ◌*◌, Option, none, some, [], ◌++◌, Str, ltb, if◌then◌else◌, ◌==◌, nat_eq,
  position, length, take, drop, crlf, codes, unwrap_or,
}
use rpress.Common.Hex.{parse_hex}
use rpress.Common.Trim.{trim}
use rpress.Common.Utf8.{from_utf8_lossy}
use rpress.Request.Outcome.{
  Outcome, complete, failed, panicked, chunk_size_exceeds, chunk_cursor_overflow,
  chunk_offset_overflow, chunk_data_end_overflow, chunk_length_overflow, usize_limit, checked_add,
}

abbrev pub max_chunk_size : ℕ
max_chunk_size = 1024 * 1024

-- The number in a size line, the extension behind `;` left aside.
unfoldable pub chunk_size : Str → Option ℕ
chunk_size line =
    parse_hex usize_limit
      (trim (from_utf8_lossy (take (unwrap_or (position (codes ";") line) (length line)) line)))

-- The body of the loop, for a size line that ends at `hex_line_end`, with what the loop does next.
unfoldable pub chunk_round :
    Str → ℕ → Str → ℕ → Option ℕ → (ℕ → Str → Outcome (Str × ℕ)) → Outcome (Str × ℕ)
chunk_round buffer cursor accumulator hex_line_end none next = complete (accumulator, cursor)
chunk_round buffer cursor accumulator hex_line_end (some size) next =
    if ltb max_chunk_size size
    then failed chunk_size_exceeds
    else if size == 0
    then checked_add chunk_cursor_overflow hex_line_end 4 (λ end. complete (accumulator, end))
    else checked_add chunk_offset_overflow hex_line_end 2 (λ data_start.
      checked_add chunk_data_end_overflow data_start size (λ data_end.
        checked_add chunk_length_overflow data_end 2 (λ required_len.
          if ltb (length buffer) required_len
          then complete (accumulator, cursor)
          else next (data_end + 2) (accumulator ++ take size (drop data_start buffer)))))

-- Without fuel the value is that of a panic, which this function has nowhere else.
unfoldable pub chunk_loop : ℕ → Str → ℕ → Str → Outcome (Str × ℕ)
unfolding chunk_round chunk_size
chunk_loop zero buffer cursor accumulator = panicked
chunk_loop (suc fuel) buffer cursor accumulator = elim (position crlf (drop cursor buffer)) [
  | none ↦ complete (accumulator, cursor)
  | some relative_hex_end ↦
      chunk_round buffer cursor accumulator (cursor + relative_hex_end)
        (chunk_size (take relative_hex_end (drop cursor buffer))) (chunk_loop fuel buffer)
]

unfoldable pub parse_chunked_body : Str → Outcome (Str × ℕ)
unfolding chunk_loop
parse_chunked_body buffer = chunk_loop (suc (length buffer)) buffer 0 []
