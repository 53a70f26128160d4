-- ===== src/SocketIo/Packet/Tests.antt =====
-- Packets on the wire, as the source's own tests have them.
use rpress.Common.{some, [], ◌∷◌, codes, runs, ◌≡◌, refl, arith}
use rpress.Common.Decimal.{decimal}
use rpress.SocketIo.Sample.{Value, raw, json}
use rpress.SocketIo.Packet.{SioPacket, is_binary, binary_event_type, connect_type, as_char, encode}
use rpress.SocketIo.Packet.Decode.{
  decoded, panicked, decode, is_first_byte, next_holds, or_zero, ends_id,
}
use rpress.SocketIo.Packet.Fields.{IsNamespace}
use rpress.SocketIo.Packet.RoundTrip.{IsEncodable, decode-encode_packet}
use rpress.SocketIo.Packet.Panics.{decode-panicked}

abbrev packet : SioPacket Value
packet = record {
  packet_type = binary_event_type;
  namespace = codes "/admin";
  content = some (raw (codes "[\"upload\",{\"num\":0}]"));
  id = some 456;
  attachment_count = 1;
}

chat-IsNamespace : IsNamespace (codes "/admin")
unfolding next_holds
chat-IsNamespace = record {
  slash = refl;
  ascii = (refl, (refl, (refl, (refl, (refl, (refl, tt))))));
  no_comma = (refl, (refl, (refl, (refl, (refl, (refl, tt))))));
}

packet-IsEncodable : IsEncodable json packet
unfolding is_binary or_zero ends_id
packet-IsEncodable = record {
  attachments = refl;
  attachments_fit = omega arith;
  namespace = chat-IsNamespace;
  id_fits = omega arith;
  content = record { begins = refl; not_empty = refl; from_str-to_string = refl };
}

packet_text : encode json packet ≡ codes "51-/admin,456[\"upload\",{\"num\":0}]"
unfolding runs encode decimal
packet_text = refl

decode-encode_packet_example : decode json (encode json packet) ≡ decoded packet
decode-encode_packet_example = decode-encode_packet json packet packet-IsEncodable

two_byte_namespace : decode json (as_char connect_type ∷ b'/' ∷ 0xc3 ∷ 0xa9 ∷ b',' ∷ []) ≡ panicked
unfolding is_binary is_first_byte
two_byte_namespace = decode-panicked json connect_type 0xc3 0xa9 [] refl refl refl refl
