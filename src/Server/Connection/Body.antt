-- ===== src/Server/Connection/Body.antt =====
-- What the handler of a streamed request reads from its body.
use Prim.Native.Nat.{min, max}
use mathlib.Core.Path.{subst}
use rpress.Common.{
  ℕ, zero, suc, ◌-◌, ◌≤◌, ◌<◌, true, false, some, List, [], ◌∷◌, ◌++◌, map, Str, take, drop, length,
  ltb, if◌then◌else◌, append-nil, append_assoc, length-append, ◌≡◌, refl, sym, ap, ◌∙◌, arith,
}
use rpress.Request.Outcome.{RequestPayload, HeadersParseResult}
use rpress.Request.Access.{collected, collect_body}
use rpress.Server.App.{Rpress}
use rpress.Server.Send.{dispatch_route}
use rpress.Server.Connection.{
  Event, Connection, received, Streaming, collecting, Platform, dispatch_streaming,
  finish_streaming, continue_streaming, start_streaming, on_chunk, handle_buffer, step, run,
}

feed : Streaming → List Str → Streaming
feed s [] = s
feed s (b ∷ bs) = feed (on_chunk s b) bs

collected-append : (xs : List Str) (b : Str) → collected (xs ++ b ∷ []) ≡ collected xs ++ b
unfolding collected
collected-append [] b = append-nil b
collected-append (x ∷ xs) b =
    ap (λ t. x ++ t) (collected-append xs b) ∙ sym (append_assoc x (collected xs) b)

take-nil : (n : ℕ) → take {A = ℕ} n [] ≡ []
take-nil zero = refl
take-nil (suc n) = refl

take-min : (n : ℕ) (s : Str) → take (min (length s) n) s ≡ take n s
take-min zero [] = refl
take-min zero (c ∷ s) =
    let e : min (length (c ∷ s)) 0 ≡ 0 = omega arith in ap (λ k. take k (c ∷ s)) e
take-min (suc n) [] =
    let e : min (length {A = ℕ} []) (suc n) ≡ 0 = omega arith in ap (λ k. take k []) e
take-min (suc n) (c ∷ s) =
    let e : min (length (c ∷ s)) (suc n) ≡ suc (min (length s) n) = omega arith in
    ap (λ k. take k (c ∷ s)) e ∙ ap (λ u. c ∷ u) (take-min n s)

take-append : (n : ℕ) (s t : Str) → take n (s ++ t) ≡ take n s ++ take (n - length s) t
take-append zero s t = let e : 0 ≡ 0 - length s = omega arith in ap (λ k. take k t) e
take-append (suc n) [] t = let e : suc n ≡ suc n - 0 = omega arith in ap (λ k. take k t) e
take-append (suc n) (c ∷ s) t =
    let e : n - length s ≡ suc n - suc (length s) = omega arith in
    ap (λ u. c ∷ u) (take-append n s t ∙ ap (λ k. take n s ++ take k t) e)

-- The chunks hold the bytes that came in, up to the length of the body.
feed-eq :
    (s : Streaming) (bs : List Str)
    → (collected (feed s bs).chunks ≡ collected s.chunks ++ take s.remaining (collected bs))
      × ((feed s bs).remaining ≡ s.remaining - length (collected bs))
      × ((feed s bs).request ≡ s.request)
unfolding feed on_chunk collected
feed-eq s [] = (
  sym (append-nil (collected s.chunks))
      ∙ ap (λ t. collected s.chunks ++ t) (sym (take-nil s.remaining)),
  omega arith,
  refl,
)
feed-eq s (b ∷ bs) =
    let (chunks, remaining, request) = feed-eq (on_chunk s b) bs in
    let first : collected (on_chunk s b).chunks ≡ collected s.chunks ++ take s.remaining b =
      collected-append s.chunks (take (min (length b) s.remaining) b)
      ∙ ap (λ t. collected s.chunks ++ t) (take-min s.remaining b) in
    let left : s.remaining - min (length b) s.remaining ≡ s.remaining - length b = omega arith in
    let both =
      ap (λ t. t ++ take (on_chunk s b).remaining (collected bs)) first
      ∙ (append_assoc (collected s.chunks) (take s.remaining b) _
          ∙ ap (λ t. collected s.chunks ++ t)
              (ap (λ k. take s.remaining b ++ take k (collected bs)) left
                ∙ sym (take-append s.remaining b (collected bs)))) in
    (chunks ∙ both, omega (arith, remaining, length-append b (collected bs)), request)

take-all : (n : ℕ) (s : Str) → length s ≤ n → take n s ≡ s
take-all zero [] fits = refl
take-all zero (c ∷ s) fits = absurd (omega (arith, fits))
take-all (suc n) [] fits = refl
take-all (suc n) (c ∷ s) fits = ap (λ u. c ∷ u) (take-all n s (omega (arith, fits)))

length-drop : (n : ℕ) (s : Str) → length (drop n s) ≡ length s - n
length-drop zero s = omega arith
length-drop (suc n) [] = omega arith
length-drop (suc n) (c ∷ s) = length-drop n s ∙ omega arith

-- A chunk that is sent when it is not empty.
first-chunks : (s : Str) (n : ℕ) → length s ≡ n → collected (if ltb 0 n then s ∷ [] else []) ≡ s
unfolding collected
first-chunks [] n e = let none_left : ltb 0 n ≡ false = ground (arith, e) in rw none_left refl
first-chunks (c ∷ s) n e =
    let some_left : ltb 0 n ≡ true = ground (arith, e) in rw some_left (append-nil (c ∷ s))

-- What the socket gives of the bytes that are still to come, each time as much as it likes: the last
-- read reaches the end of the body, and none before it does.
unfoldable pub Cuts : ℕ → List Str → Type 0
Cuts remaining [] = remaining ≡ 0
Cuts remaining (b ∷ bs) = (0 < remaining) × Cuts (remaining - length b) bs

module _ {W P : Type 0} (platform : Platform P) (app : Rpress W) where
  -- A step of the connection, and the events behind it.
  pub goes_on : List Event → Connection × (Str × W) → Connection × (Str × W)
  goes_on events (connection, (bytes, w)) =
      let (connection', (later, w')) = run platform app events connection w in
      (connection', (bytes ++ later, w'))

  run-feed :
      (s : Streaming) (bs : List Str) (w : W)
      → Cuts s.remaining bs
      → goes_on (map received bs) (continue_streaming platform app s w)
        ≡ finish_streaming platform app (feed s bs) w
  unfolding run step continue_streaming feed Cuts goes_on
  run-feed s [] w none_left =
      let done : ltb 0 s.remaining ≡ false = ground (arith, none_left) in
      let f = finish_streaming platform app s w in
      rw done (ap (λ t. (f.0, (t, f.1.1))) (append-nil f.1.0))
  run-feed s (b ∷ bs) w (more, cuts) =
      let left : ltb 0 s.remaining ≡ true = ground (arith, more) in
      let same : s.remaining - length b ≡ (on_chunk s b).remaining =
        unfold on_chunk in omega arith in
      rw left (run-feed (on_chunk s b) bs w (subst (λ n. Cuts n bs) same cuts))

  -- A streamed body is read to its end, whichever way the socket cut it, the bytes behind the head
  -- that came with it first: then its request is dispatched, and a handler that reads on until its
  -- channel is closed reads exactly as many bytes as `Content-Length` says, in their order; but if
  -- more of them than that came with the head, it reads all of those.
  pub run-streaming :
      (buffer : Str) (h : HeadersParseResult) (bs : List Str) (w : W)
      → Cuts (h.content_length - (length buffer - h.body_start)) bs
      → (request : RequestPayload) × (goes_on
            (map received bs)
            (handle_buffer platform app buffer (some h) w)
          ≡ (let (bytes, w') =
                dispatch_route platform.files platform.compressors platform.now app
                  (platform.request_ids 0)
                  request
                  w in
              (collecting [] true, (bytes, w'))))
        × (request.request_metadata ≡ some h.metadata)
        × ((collect_body request).0
            ≡ take
                (max h.content_length (length buffer - h.body_start))
                (drop h.body_start buffer ++ collected bs))
  unfolding handle_buffer start_streaming finish_streaming dispatch_streaming collect_body
  run-streaming buffer h bs w cuts =
      let s = start_streaming buffer h in
      let rest = drop h.body_start buffer in
      let size = length-drop h.body_start buffer in
      let most = max h.content_length (length buffer - h.body_start) in
      let (chunks, _, request) = feed-eq s bs in
      let left : h.content_length - (length buffer - h.body_start) ≡ most - length rest =
        omega (arith, size) in
      let body =
        chunks
        ∙ ap (λ t. t ++ take s.remaining (collected bs)) (first-chunks rest _ size)
        ∙ ap (λ k. rest ++ take k (collected bs)) left
        ∙ ap (λ t. t ++ take (most - length rest) (collected bs))
            (sym (take-all most rest (omega (arith, size))))
        ∙ sym (take-append most rest (collected bs)) in
      (
        record (feed s bs).request { body_receiver = some (feed s bs).chunks },
        run-feed s bs w cuts,
        ap (λ r. r.request_metadata) request,
        rw request body,
      )
