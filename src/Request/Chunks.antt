-- ===== src/Request/Chunks.antt =====
-- Chunked bodies as a client writes them, read by the server.
use rpress.Common.{
  ℕ, zero, suc, ◌+◌, ◌-◌, append-nil, ◌<◌, ◌≤◌, none, some, List, [], ◌∷◌, ◌++◌, Str, nat_eq, All,
  ◌≡◌, refl, sym, ap, ◌∙◌, arith, length, take, drop, take-length, drop-length, length-append,
  append_assoc, Lacks, crlf, position, position-append,
}
use rpress.Request.Outcome.{Outcome, complete, usize_limit}
use rpress.Request.Chunked.{max_chunk_size, chunk_size, chunk_round, chunk_loop, parse_chunked_body}

-- A chunk: its size line, extensions with it, and its data.
pub record Chunk : Type 0 where
  pub size_line : Str
  pub body : Str

-- The line holds no CR and gives the number of the data's bytes, which is within the limits.
abbrev pub IsChunk : Chunk → Type 0
IsChunk k =
    Lacks 13 k.size_line
    × (chunk_size k.size_line ≡ some (length k.body))
    × (0 < length k.body)
    × (length k.body ≤ max_chunk_size)

unfoldable pub chunk_text : Chunk → Str
chunk_text k = k.size_line ++ (crlf ++ (k.body ++ crlf))

unfoldable pub chunk_texts : List Chunk → Str
unfolding chunk_text
chunk_texts [] = []
chunk_texts (k ∷ ks) = chunk_text k ++ chunk_texts ks

unfoldable pub body_of : List Chunk → Str
body_of [] = []
body_of (k ∷ ks) = k.body ++ body_of ks

-- What of the buffer is left at the cursor.
abbrev At : Str → ℕ → Str → Type 0
At buffer cursor s = (drop cursor buffer ≡ s) × (length buffer ≡ cursor + length s)

drop_nil : (n : ℕ) → drop {A = ℕ} n [] ≡ []
drop_nil zero = refl
drop_nil (suc n) = refl

drop_add : (m n : ℕ) (s : Str) → drop (m + n) s ≡ drop n (drop m s)
drop_add zero n s = ap (λ k. drop k s) (omega arith)
drop_add (suc m) n [] = drop_nil (suc m + n) ∙ sym (drop_nil n)
drop_add (suc m) n (c ∷ s) = ap (λ k. drop k (c ∷ s)) suc_first ∙ drop_add m n s
  where
    suc_first : suc m + n ≡ suc (m + n)
    suc_first = omega arith

At-append :
    (buffer : Str) (cursor : ℕ) (s t : Str)
    → At buffer cursor (s ++ t)
    → At buffer (cursor + length s) t
At-append buffer cursor s t (left, size) = (
  drop_add cursor (length s) buffer ∙ (ap (drop (length s)) left ∙ drop-length s t),
  omega (arith, length-append s t),
)

-- A size whose chunk is in the buffer.
chunk_round-some :
    (buffer : Str) (cursor : ℕ) (accumulator : Str) (end size : ℕ)
    (next : ℕ → Str → Outcome (Str × ℕ))
    → 0 < size
    → size ≤ max_chunk_size
    → end + 2 + size + 2 ≤ length buffer
    → length buffer < usize_limit
    → chunk_round buffer cursor accumulator end (some size) next
      ≡ next (end + 2 + size + 2) (accumulator ++ take size (drop (end + 2) buffer))
unfolding chunk_round
chunk_round-some buffer cursor accumulator end size next pos max there fits = ground arith

-- A chunk is taken whole.
chunk_loop-chunk :
    (fuel : ℕ) (buffer : Str) (cursor : ℕ) (accumulator : Str) (k : Chunk) (rest : Str)
    → IsChunk k
    → At buffer cursor (k.size_line ++ (crlf ++ (k.body ++ (crlf ++ rest))))
    → length buffer < usize_limit
    → chunk_loop (suc fuel) buffer cursor accumulator
      ≡ chunk_loop fuel buffer
          (cursor + length k.size_line + 2 + length k.body + 2)
          (accumulator ++ k.body)
unfolding chunk_loop
chunk_loop-chunk fuel buffer cursor accumulator k rest (line, size, pos, max) at fits =
    let (left, total) = at in
    let (behind, _) =
      At-append buffer (cursor + length k.size_line) crlf _
        (At-append buffer cursor k.size_line _ at) in
    let lengths = length-append k.size_line (crlf ++ (k.body ++ (crlf ++ rest))) in
    let more = length-append k.body (crlf ++ rest) in
    let taken : take (length k.body) (drop (cursor + length k.size_line + 2) buffer) ≡ k.body =
      ap (take (length k.body)) behind ∙ take-length k.body (crlf ++ rest) in
    rw
      (
        left,
        chunk_loop,
        position-append 13 (10 ∷ []) k.size_line (k.body ++ (crlf ++ rest)) line,
        left,
        take-length k.size_line (crlf ++ (k.body ++ (crlf ++ rest))),
        size,
      )
      (chunk_round-some buffer cursor accumulator _ _ (chunk_loop fuel buffer) pos max (omega arith)
          fits
        ∙ ap
            (λ d.
              chunk_loop fuel buffer (cursor + length k.size_line + 2 + length k.body + 2)
                (accumulator ++ d))
            taken)

chunk_text_assoc :
    (k : Chunk) (rest : Str)
    → chunk_text k ++ rest ≡ k.size_line ++ (crlf ++ (k.body ++ (crlf ++ rest)))
unfolding chunk_text
chunk_text_assoc k rest =
    append_assoc k.size_line (crlf ++ (k.body ++ crlf)) rest
    ∙ ap (λ t. k.size_line ++ (crlf ++ t)) (append_assoc k.body crlf rest)

length-chunk_text : (k : Chunk) → length (chunk_text k) ≡ length k.size_line + 2 + length k.body + 2
unfolding chunk_text
length-chunk_text k =
    omega (arith, length-append k.size_line (crlf ++ (k.body ++ crlf)), length-append k.body crlf)

chunk_loop-eq :
    {fuel fuel' : ℕ} (buffer : Str) {cursor cursor' : ℕ} {accumulator accumulator' : Str}
    → fuel ≡ fuel'
    → cursor ≡ cursor'
    → accumulator ≡ accumulator'
    → chunk_loop fuel buffer cursor accumulator ≡ chunk_loop fuel' buffer cursor' accumulator'
chunk_loop-eq buffer f c a = cc

At-eq : (buffer : Str) (cursor : ℕ) {s t : Str} → s ≡ t → At buffer cursor s → At buffer cursor t
At-eq buffer cursor e (left, size) = (left ∙ e, size ∙ ap (λ t. cursor + length t) e)

-- So are all the chunks that the buffer holds.
chunk_loop-chunk_texts :
    (fuel : ℕ) (buffer : Str) (cursor : ℕ) (accumulator : Str) (ks : List Chunk) (rest : Str)
    → All IsChunk ks
    → At buffer cursor (chunk_texts ks ++ rest)
    → length buffer < usize_limit
    → chunk_loop (length ks + fuel) buffer cursor accumulator
      ≡ chunk_loop fuel buffer (cursor + length (chunk_texts ks)) (accumulator ++ body_of ks)
unfolding chunk_texts body_of
chunk_loop-chunk_texts fuel buffer cursor accumulator [] rest h at fits =
    chunk_loop-eq buffer (omega arith) (omega arith) (sym (append-nil accumulator))
chunk_loop-chunk_texts fuel buffer cursor accumulator (k ∷ ks) rest (h, hs) at fits =
    let grouped = At-eq buffer cursor (append_assoc (chunk_text k) (chunk_texts ks) rest) at in
    let spread = At-eq buffer cursor (chunk_text_assoc k (chunk_texts ks ++ rest)) grouped in
    let behind = At-append buffer cursor (chunk_text k) (chunk_texts ks ++ rest) grouped in
    let size = length-chunk_text k in
    let sizes = length-append (chunk_text k) (chunk_texts ks) in
    chunk_loop-eq buffer (omega arith) refl refl
    ∙ (chunk_loop-chunk (length ks + fuel) buffer cursor accumulator k (chunk_texts ks ++ rest) h
          spread fits
        ∙ (chunk_loop-eq buffer refl (omega arith) refl
            ∙ (chunk_loop-chunk_texts fuel buffer (cursor + length (chunk_text k))
                  (accumulator ++ k.body) ks rest hs behind fits
                ∙ chunk_loop-eq buffer refl (omega arith)
                    (append_assoc accumulator k.body (body_of ks)))))

length-chunk_texts : (ks : List Chunk) → length ks ≤ length (chunk_texts ks)
unfolding chunk_texts
length-chunk_texts [] = omega arith
length-chunk_texts (k ∷ ks) = omega (
  arith,
  length-append (chunk_text k) (chunk_texts ks),
  length-chunk_text k,
  length-chunk_texts ks,
)

parse_chunks :
    (ks : List Chunk) (rest : Str)
    → All IsChunk ks
    → length (chunk_texts ks ++ rest) < usize_limit
    → (fuel : ℕ) × (parse_chunked_body (chunk_texts ks ++ rest)
        ≡ chunk_loop (suc fuel) (chunk_texts ks ++ rest) (length (chunk_texts ks)) (body_of ks))
unfolding parse_chunked_body
parse_chunks ks rest h fits =
    let buffer = chunk_texts ks ++ rest in
    let fuel = length buffer - length ks in
    let start : 0 + length (chunk_texts ks) ≡ length (chunk_texts ks) = omega arith in
    let at : At buffer 0 buffer = (refl, omega arith) in
    let split_fuel : suc (length buffer) ≡ length ks + suc fuel =
      omega (arith, length-chunk_texts ks, length-append (chunk_texts ks) rest) in
    (
      fuel,
      chunk_loop-eq buffer split_fuel refl refl
          ∙ (chunk_loop-chunk_texts (suc fuel) buffer 0 [] ks rest h at fits
              ∙ ap (λ c. chunk_loop (suc fuel) buffer c (body_of ks)) start),
    )

-- Of whole chunks with a part behind them that holds no line end, the chunks are read, with the
-- number of their bytes, and the part is left.
pub parse_chunked_body-partial :
    (ks : List Chunk) (part : Str)
    → All IsChunk ks
    → position crlf part ≡ none
    → length (chunk_texts ks ++ part) < usize_limit
    → parse_chunked_body (chunk_texts ks ++ part) ≡ complete (body_of ks, length (chunk_texts ks))
unfolding chunk_loop chunk_round
parse_chunked_body-partial ks part h open_line fits =
    let (fuel, eq) = parse_chunks ks part h fits in
    eq ∙ rw (drop-length (chunk_texts ks) part, chunk_loop, open_line) refl

-- A body of chunks that ends with the empty one is read whole: its data in their order, and the
-- number of bytes up to and with the blank line, whatever comes behind it.
pub parse_chunked_body-chunk_texts :
    (ks : List Chunk) (last rest : Str)
    → All IsChunk ks
    → Lacks 13 last
    → chunk_size last ≡ some 0
    → length (chunk_texts ks ++ (last ++ (crlf ++ (crlf ++ rest)))) < usize_limit
    → parse_chunked_body (chunk_texts ks ++ (last ++ (crlf ++ (crlf ++ rest))))
      ≡ complete (body_of ks, length (chunk_texts ks) + length last + 4)
unfolding chunk_loop chunk_round
parse_chunked_body-chunk_texts ks last rest h line zero_size fits =
    let (fuel, eq) = parse_chunks ks (last ++ (crlf ++ (crlf ++ rest))) h fits in
    eq
    ∙ rw
        (
          drop-length (chunk_texts ks) (last ++ (crlf ++ (crlf ++ rest))),
          chunk_loop,
          position-append 13 (10 ∷ []) last (crlf ++ rest) line,
          drop-length (chunk_texts ks) (last ++ (crlf ++ (crlf ++ rest))),
          take-length last (crlf ++ (crlf ++ rest)),
          zero_size,
        )
        (ground (
          arith,
          length-append (chunk_texts ks) (last ++ (crlf ++ (crlf ++ rest))),
          length-append last (crlf ++ (crlf ++ rest)),
        ))
