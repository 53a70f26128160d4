-- ===== src/SocketIo/Packet/Events.antt =====
-- The events that are built and read.
use rpress.Common.{
  true, ℕ, Option, some, List, [], ◌∷◌, Str, drop, length, ltb, if◌then◌else◌, ◌≡◌, refl, ap, arith,
}
use rpress.SocketIo.Json.{Json, IsJson}
use rpress.SocketIo.Packet.{arguments, event, event_name, event_data}

drop_first :
    {V : Type 0} (v : V) (vs : List V)
    → (if ltb 1 (length (v ∷ vs)) then drop 1 (v ∷ vs) else []) ≡ vs
drop_first v [] = refl
drop_first v (w ∷ vs) = let more : ltb 1 (length (v ∷ w ∷ vs)) ≡ true = ground arith in rw more refl

-- From an event that was built its name and its arguments are read: the items of the data when that
-- is an array, and the data itself otherwise.
pub event_data-event :
    {V : Type 0} (json : Json V) (namespace name : Str) (content : V) (ack_id : Option ℕ)
    → IsJson json
    → (event_name json (event json namespace name content ack_id) ≡ some name)
      × (event_data json (event json namespace name content ack_id) ≡ some (arguments json content))
unfolding event_name event_data event
event_data-event json namespace name content ack_id h =
    let v = json.string name in
    let vs = arguments json content in
    (
      rw (h.as_array-array (v ∷ vs)) (h.as_str-string name),
      rw (h.as_array-array (v ∷ vs)) (ap some (drop_first v vs)),
    )
