-- ===== src/Request/Fuel.antt =====
-- The loop over chunks ends.
use rpress.Common.{
  ℕ, zero, suc, ◌+◌, ◌≤◌, ◌<◌, Option, none, some, [], ◌++◌, Str, ◌≡◌, ◌≢◌, refl, ap, ◌∙◌, inl, inr,
  Option-cases, arith, length, take, drop, position, crlf,
}
use rpress.Request.Outcome.{Outcome, panicked}
use rpress.Request.Chunked.{chunk_size, chunk_round, chunk_loop, parse_chunked_body}

-- A round goes on behind the cursor only, and inside the buffer.
chunk_round-next :
    (buffer : Str) (cursor : ℕ) (accumulator : Str) (end : ℕ) (size : Option ℕ)
    (next next' : ℕ → Str → Outcome (Str × ℕ))
    → cursor ≤ end
    → ((c : ℕ) (a : Str) → cursor < c → c ≤ length buffer → next c a ≡ next' c a)
    → chunk_round buffer cursor accumulator end size next
      ≡ chunk_round buffer cursor accumulator end size next'
unfolding chunk_round
chunk_round-next buffer cursor accumulator end none next next' behind h = refl
chunk_round-next buffer cursor accumulator end (some size) next next' behind h =
    let same =
      h (end + 2 + size + 2) (accumulator ++ take size (drop (end + 2) buffer)) (omega arith) in
    ground (arith, same)

chunk_round-ends :
    (buffer : Str) (cursor : ℕ) (accumulator : Str) (end : ℕ) (size : Option ℕ)
    (next : ℕ → Str → Outcome (Str × ℕ))
    → cursor ≤ end
    → ((c : ℕ) (a : Str) → cursor < c → c ≤ length buffer → next c a ≢ panicked)
    → chunk_round buffer cursor accumulator end size next ≢ panicked
unfolding chunk_round
chunk_round-ends buffer cursor accumulator end none next behind h = λ e. cc
chunk_round-ends buffer cursor accumulator end (some size) next behind h =
    let goes =
      h (end + 2 + size + 2) (accumulator ++ take size (drop (end + 2) buffer)) (omega arith) in
    λ e. ground (arith, goes)

-- From a cursor inside the buffer the fuel lasts, and more of it changes nothing.
chunk_loop-add :
    (fuel extra : ℕ) (buffer : Str) (cursor : ℕ) (accumulator : Str)
    → cursor ≤ length buffer
    → length buffer < fuel + cursor
    → (chunk_loop (fuel + extra) buffer cursor accumulator
        ≡ chunk_loop fuel buffer cursor accumulator)
      × (chunk_loop fuel buffer cursor accumulator ≢ panicked)
unfolding chunk_loop
chunk_loop-add zero extra buffer cursor accumulator inside h = absurd (omega arith)
chunk_loop-add (suc fuel) extra buffer cursor accumulator inside h =
    let later : suc fuel + extra ≡ suc (fuel + extra) = omega arith in
    let size : ℕ → Option ℕ = λ i. chunk_size (take i (drop cursor buffer)) in
    elim (Option-cases (position crlf (drop cursor buffer))) [
      | inl last ↦ (
        ap (λ f. chunk_loop f buffer cursor accumulator) later ∙ rw (last, chunk_loop) refl,
        rw (last, chunk_loop) (λ e. cc),
      )
      | inr (i, line) ↦ (
        ap (λ f. chunk_loop f buffer cursor accumulator) later
            ∙ rw (line, chunk_loop)
                (chunk_round-next buffer cursor accumulator (cursor + i) (size i)
                  (chunk_loop (fuel + extra) buffer) (chunk_loop fuel buffer) (omega arith)
                  (λ c a behind there.
                    (chunk_loop-add fuel extra buffer c a there (omega arith)).0)),
        rw (line, chunk_loop)
            (chunk_round-ends buffer cursor accumulator (cursor + i) (size i)
              (chunk_loop fuel buffer) (omega arith)
              (λ c a behind there. (chunk_loop-add fuel extra buffer c a there (omega arith)).1)),
      )
    ]

-- The loop over chunks ends by itself on every buffer: it does not run out of its fuel, which has a
-- value of its own, and more fuel changes nothing.
pub parse_chunked_body-fuel :
    (extra : ℕ) (buffer : Str)
    → (chunk_loop (suc (length buffer) + extra) buffer 0 [] ≡ parse_chunked_body buffer)
      × (parse_chunked_body buffer ≢ panicked)
unfolding parse_chunked_body
parse_chunked_body-fuel extra buffer =
    chunk_loop-add (suc (length buffer)) extra buffer 0 [] (omega arith) (omega arith)
