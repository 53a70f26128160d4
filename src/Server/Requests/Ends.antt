-- ===== src/Server/Requests/Ends.antt =====
-- When the loop over the buffer ends.
use mathlib.Core.Path.{subst}
use rpress.Request.Chunked.{parse_chunked_body, chunk_loop}
use rpress.Common.{
  eq-none_of_is_some, ℕ, zero, suc, ◌+◌, ◌≤◌, ◌<◌, true, false, none, List, [], ◌∷◌, Str, contains,
  drop, length, ltb, is_empty, position, crlf, ◌≡◌, ◌≢◌, refl, sym, inl, inr, Bool-cases,
  Option-cases, arith,
}
use rpress.Request.Outcome.{Outcome, incomplete, complete, failed, RequestPayload}
use rpress.Request.Protocol.{parse_http_protocol}
use rpress.Request.Consumed.{IsConsumed, parse_http_protocol-IsConsumed}
use rpress.Server.Requests.{
  exhausted, Parsed, chunk_header, add_parsed, parse_round, parse_requests, take_requests,
}

position-drop : (p : Str) (n : ℕ) (s : Str) → position p s ≡ none → position p (drop n s) ≡ none
unfolding position
position-drop p zero s h = h
position-drop p (suc n) [] h = refl
position-drop p (suc n) (c ∷ s) h = elim (Option-cases (position p s)) [
  | inl absent ↦ position-drop p n s absent
  | inr (i, found) ↦ absurd (ground (arith, h, found))
]

drop-length_le : (n : ℕ) (s : Str) → n ≤ length s → length (drop n s) + n ≡ length s
drop-length_le zero s h = omega arith
drop-length_le (suc n) [] h = absurd (omega arith)
drop-length_le (suc n) (c ∷ s) h = omega (arith, drop-length_le n s)

parse_round-ends :
    (buffer : Str) (requests : List RequestPayload) (outcome : Outcome (RequestPayload × ℕ))
    (next : Str → List RequestPayload → Parsed)
    → ((r : RequestPayload) (n : ℕ)
        → outcome ≡ complete (r, n)
        → n ≤ length buffer
        → (next (drop n buffer) (add_parsed r requests)).end ≢ exhausted)
    → (parse_round buffer requests outcome next).end ≢ exhausted
unfolding parse_round
parse_round-ends buffer requests incomplete next h = λ e. cc
parse_round-ends buffer requests (failed error) next h = λ e. cc
parse_round-ends buffer requests Outcome.panicked next h = λ e. cc
parse_round-ends buffer requests (complete (r, n)) next h =
    elim (Bool-cases (ltb (length buffer) n)) [
      | inl beyond ↦ rw beyond (λ e. cc)
      | inr inside ↦ rw inside (h r n refl (ground arith))
    ]

no_chunk :
    (buffer : Str) → position crlf buffer ≡ none → parse_chunked_body buffer ≡ complete ([], 0)
unfolding parse_chunked_body chunk_loop
no_chunk buffer open_line = rw (open_line, parse_chunked_body, chunk_loop) refl

module _ (lower : Str → Str) (captures : Str → List Str) (max_body_size : ℕ) where
  parse_requests-ends :
      (fuel : ℕ) (buffer : Str) (requests : List RequestPayload)
      → position chunk_header buffer ≡ none
      → length buffer < fuel
      → (parse_requests lower captures max_body_size fuel false buffer requests).end ≢ exhausted
  unfolding parse_requests IsConsumed
  parse_requests-ends zero buffer requests no_header enough = absurd (omega arith)
  parse_requests-ends (suc fuel) buffer requests no_header enough =
      elim (Bool-cases (is_empty buffer)) [
        | inl nothing ↦ rw nothing (λ e. cc)
        | inr more ↦
            rw (more, no_header)
              (parse_round-ends buffer requests
                (parse_http_protocol lower captures buffer false max_body_size)
                (parse_requests lower captures max_body_size fuel false)
                (λ r n taken inside.
                  let (least, most, _) =
                    parse_http_protocol-IsConsumed lower captures buffer max_body_size (r, n)
                      taken in
                  parse_requests-ends fuel (drop n buffer) (add_parsed r requests)
                    (position-drop chunk_header n buffer no_header)
                    (omega (arith, drop-length_le n buffer inside))))
      ]

  -- On bytes without the header of a chunked body the loop over the buffer ends by itself, however
  -- many requests they hold, and whatever else they are.
  pub take_requests-ends :
      (buffer : Str)
      → contains chunk_header buffer ≡ false
      → (take_requests lower captures max_body_size buffer).end ≢ exhausted
  unfolding take_requests
  take_requests-ends buffer no_header =
      subst
        (λ chunked.
          (parse_requests lower captures max_body_size (suc (length buffer)) chunked buffer []).end
          ≢ exhausted)
        (sym no_header)
        (parse_requests-ends (suc (length buffer)) buffer []
          (eq-none_of_is_some (position chunk_header buffer) no_header) (omega arith))

  parse_requests-stuck :
      (fuel : ℕ) (buffer : Str) (requests : List RequestPayload) (r : RequestPayload)
      → is_empty buffer ≡ false
      → parse_http_protocol lower captures buffer true max_body_size ≡ complete (r, 0)
      → r.request_metadata ≡ none
      → r.payload ≡ []
      → (parse_requests lower captures max_body_size fuel true buffer requests).end ≡ exhausted
  unfolding parse_requests parse_round add_parsed
  parse_requests-stuck zero buffer requests r some_bytes parsed no_head no_bytes = refl
  parse_requests-stuck (suc fuel) buffer requests r some_bytes parsed no_head no_bytes =
      let same : add_parsed r requests ≡ requests = ground (arith, no_head, no_bytes) in
      let inside : ltb (length buffer) 0 ≡ false = ground arith in
      rw (some_bytes, parsed, inside, same)
        (parse_requests-stuck fuel buffer requests r some_bytes parsed no_head no_bytes)

  -- Bytes of a chunked body that hold no line end yet keep the loop busy for as many rounds as it
  -- is given: no round takes anything, and none ends the loop.
  pub parse_requests-spins :
      (fuel : ℕ) (buffer : Str) (requests : List RequestPayload)
      → is_empty buffer ≡ false
      → position crlf buffer ≡ none
      → (parse_requests lower captures max_body_size fuel true buffer requests).end ≡ exhausted
  unfolding parse_http_protocol
  parse_requests-spins fuel buffer requests some_bytes open_line =
      let nothing : RequestPayload = record {
        request_metadata = none;
        payload = [];
        params = [];
        query = [];
        extensions = [];
        body_receiver = none;
      } in
      parse_requests-stuck fuel buffer requests nothing some_bytes
        (rw (open_line, parse_http_protocol, no_chunk buffer open_line) refl) refl refl
