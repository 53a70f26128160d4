-- ===== src/Request/Consumed.antt =====
-- How many bytes `parse_http_protocol` takes from the buffer, and how many it gives as the body.
use rpress.Common.{
  ℕ, zero, suc, ◌+◌, ◌-◌, ◌≤◌, false, [], ◌∷◌, Str, List, ◌≡◌, refl, inl, inr, Bool-cases,
  Option-cases, arith, length, take, drop, position, crlf,
}
use rpress.Request.Outcome.{
  Outcome, incomplete, complete, failed, panicked, RequestPayload, HeadersParseResult,
}
use rpress.Request.Head.{parse_head}
use rpress.Request.Protocol.{valid_request_line, with_body, parse_http_protocol}
use rpress.Request.Bounds.{IsHead, parse_head-IsHead}

length-take_le : (n : ℕ) (s : Str) → length (take n s) ≤ n
length-take_le zero s = omega arith
length-take_le (suc n) [] = omega arith
length-take_le (suc n) (c ∷ s) = omega (arith, length-take_le n s)

-- The bytes taken, and the body.
unfoldable pub IsConsumed : Str → ℕ → RequestPayload × ℕ → Type 0
IsConsumed buffer max_body_size (r, consumed) =
    (4 ≤ consumed) × (consumed ≤ length buffer) × (length r.payload ≤ max_body_size)

with_body-IsConsumed :
    (buffer : Str) (max_body_size : ℕ) (head : Outcome HeadersParseResult)
    (result : RequestPayload × ℕ)
    → with_body buffer head ≡ complete result
    → ((h : HeadersParseResult) → head ≡ complete h → IsHead buffer max_body_size h)
    → IsConsumed buffer max_body_size result
unfolding with_body IsConsumed
with_body-IsConsumed buffer max_body_size incomplete result done h = cc
with_body-IsConsumed buffer max_body_size (failed e) result done h = cc
with_body-IsConsumed buffer max_body_size panicked result done h = cc
with_body-IsConsumed buffer max_body_size (complete head) (r, consumed) done h =
    let is = h head refl in
    let (start, inside) = is.starts_inside in
    let body =
      length-take_le (head.body_start + head.content_length - head.body_start)
        (drop head.body_start buffer) in
    ground (arith, start, inside, is.within_limit, body, done)

module _ (lower : Str → Str) (captures : Str → List Str) (buffer : Str) (max_body_size : ℕ) where
  -- Outside a chunked body, a request that was read takes at least four bytes, so that the
  -- reading loop goes on, and no more than the buffer holds, with a body within the limit.
  pub parse_http_protocol-IsConsumed :
      (result : RequestPayload × ℕ)
      → parse_http_protocol lower captures buffer false max_body_size ≡ complete result
      → IsConsumed buffer max_body_size result
  unfolding parse_http_protocol
  parse_http_protocol-IsConsumed result done =
      elim (Option-cases (valid_request_line buffer (position crlf buffer))) [
        | inl long ↦ absurd (ground (arith, long, done))
        | inr (valid, found) ↦ elim (Bool-cases valid) [
          | inl good ↦
              with_body-IsConsumed buffer max_body_size
                (parse_head lower captures buffer max_body_size) result
                (ground (arith, found, good, done))
                (parse_head-IsHead lower captures buffer max_body_size)
          | inr bad ↦ absurd (ground (arith, found, bad, done))
        ]
      ]
