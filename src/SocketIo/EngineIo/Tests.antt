-- ===== src/SocketIo/EngineIo/Tests.antt =====
-- Packets on the wire, as the source's own tests have them.
use rpress.Common.{none, some, List, [], ◌∷◌, ◌++◌, codes, runs, ◌≡◌, refl}
use rpress.SocketIo.EngineIo.{EioPacket, message, ping, from_byte, decode, encode_polling_payload}

abbrev packets : List EioPacket
packets =
    record { packet_type = message; content = some (codes "hello") }
    ∷ record { packet_type = ping; content = none }
    ∷ record { packet_type = message; content = some (codes "world") }
    ∷ []

payload_text :
    encode_polling_payload packets ≡ codes "4hello" ++ (0x1e ∷ 0x32 ∷ 0x1e ∷ codes "4world")
unfolding runs encode_polling_payload
payload_text = refl

decode_unknown : decode (codes "7x") ≡ none
unfolding decode from_byte
decode_unknown = refl
