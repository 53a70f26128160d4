-- ===== src/Server/Answers.antt =====
-- What a client reads of an answer that the server sends.
use mathlib.Core.Path.{subst}
use rpress.Common.{
  suc, true, Option, none, some, [], ◌∷◌, map, Str, length, ◌≡◌, refl, inl, inr, Bool-cases,
}
use rpress.Payload.{ResponsePayload}
use rpress.Response.{Compressors, compress_body, final_body}
use rpress.Response.Head.{read_head, printed, sent_headers, status_text, read_head-send_response}
use rpress.Server.App.{Rpress}
use rpress.Server.Send.{finished, send_payload}

final_body-nil :
    (c : Compressors) (accept : Option Str) (ct : Str) → final_body c [] accept ct ≡ ([], none)
unfolding final_body compress_body
final_body-nil c none ct = refl
final_body-nil c (some accept) ct = elim (Bool-cases (c.joined [])) [
  | inl joined ↦ rw joined refl
  | inr failed ↦ rw failed refl
]

-- The client of a HEAD request reads the status line and one line for each header of the payload,
-- those that the server adds included, and no body; no encoding is announced, and the length is
-- zero, whatever the handler's body is.
pub read_head-send_payload :
    {W : Type 0} (c : Compressors) (now : Str) (app : Rpress W) (payload : ResponsePayload)
    (req_origin : Option Str) (request_id : Str) (accept : Option Str)
    → (let p = finished app payload req_origin request_id in
        let headers = sent_headers now p.content_type p.headers ([], none) in
        read_head
          (suc (suc (length headers)))
          (send_payload c now app payload req_origin true request_id accept)
        ≡ some (status_text p.status ∷ map printed headers, []))
unfolding send_payload
read_head-send_payload c now app payload req_origin request_id accept =
    let p = finished app payload req_origin request_id in
    subst
      (λ r.
        read_head (suc (suc (length (sent_headers now p.content_type p.headers r))))
          (send_payload c now app payload req_origin true request_id accept)
        ≡ some
            (status_text p.status ∷ map printed (sent_headers now p.content_type p.headers r), r.0))
      (final_body-nil c accept p.content_type)
      (read_head-send_response c now p.status [] p.content_type p.headers accept)
