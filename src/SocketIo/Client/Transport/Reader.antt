-- ===== src/SocketIo/Client/Transport/Reader.antt =====
-- rpress-client/src/transport.rs: what the reader makes of the packets that a server sends.
use rpress.Common.{
  Bool, true, false, Option, some, List, [], ◌∷◌, ◌++◌, map, retain, All, Str, append-nil,
  append_assoc, sym, inl, inr, Bool-cases, ◌≡◌, refl, ap, ◌∙◌, arith,
}
use mathlib.Core.List.{map-append}
use rpress.SocketIo.EngineIo.{
  EioPacket, EioPacketType, open_packet, close, ping, pong, message, upgrade, noop, new_packet,
  encode,
}
use rpress.SocketIo.EngineIo.RoundTrip.{normal, decode-encode}
use rpress.SocketIo.Server.Loops.{Message, text_message}
use rpress.SocketIo.Client.Transport.{
  Channels, send_outgoing, send_incoming, on_eio_packet, on_message, reader_task,
}

abbrev pub is_close : EioPacket → Bool
is_close p = elim (p.packet_type) [ close ↦ true | _ ↦ false ]

abbrev pub is_ping : EioPacket → Bool
is_ping p = elim (p.packet_type) [ ping ↦ true | _ ↦ false ]

-- The packets for the client: all but those that keep the connection alive.
abbrev pub is_for_client : EioPacket → Bool
is_for_client p = elim (p.packet_type) [ ping ↦ false | noop ↦ false | _ ↦ true ]

abbrev pub answer : EioPacket → EioPacket
answer p = new_packet pong p.content

-- A packet as a frame of the socket.
abbrev pub frame : EioPacket → Option Message
frame p = some (text_message (encode p))

-- What packets put on the channels.
pub put : List EioPacket → Channels → Channels
put pkts c = record c {
  outgoing = c.outgoing ++ map answer (retain is_ping pkts);
  incoming = c.incoming ++ retain is_for_client pkts;
}

IsOpen : Channels → Type 0
IsOpen c = (c.outgoing_open ≡ true) × (c.incoming_open ≡ true)

-- One packet that is no close packet.
on_eio_packet-put :
    (t : EioPacketType) (content : Option Str) (c : Channels)
    → IsOpen c
    → is_close (record { packet_type = t; content = content }) ≡ false
    → on_eio_packet t (record { packet_type = t; content = content }) c
      ≡ (true, put (record { packet_type = t; content = content } ∷ []) c)
unfolding on_eio_packet put IsOpen send_outgoing send_incoming
on_eio_packet-put ping content c (out, inc) h = rw (out, append-nil c.incoming) refl
on_eio_packet-put close content c (out, inc) h = absurd (ground arith)
on_eio_packet-put noop content c (out, inc) h =
    rw (append-nil c.incoming, append-nil c.outgoing) refl
on_eio_packet-put open_packet content c (out, inc) h = rw (inc, append-nil c.outgoing) refl
on_eio_packet-put pong content c (out, inc) h = rw (inc, append-nil c.outgoing) refl
on_eio_packet-put message content c (out, inc) h = rw (inc, append-nil c.outgoing) refl
on_eio_packet-put upgrade content c (out, inc) h = rw (inc, append-nil c.outgoing) refl

retain-cons :
    (f : EioPacket → Bool) (p : EioPacket) (ps : List EioPacket)
    → retain f (p ∷ ps) ≡ retain f (p ∷ []) ++ retain f ps
retain-cons f p ps = elim (Bool-cases (f p)) [
  | inl kept ↦ rw kept refl
  | inr dropped ↦ rw dropped refl
]

put-cons :
    (p : EioPacket) (ps : List EioPacket) (c : Channels) → put (p ∷ ps) c ≡ put ps (put (p ∷ []) c)
unfolding put
put-cons p ps c =
    let out : c.outgoing ++ map answer (retain is_ping (p ∷ ps))
        ≡ (c.outgoing ++ map answer (retain is_ping (p ∷ []))) ++ map answer (retain is_ping ps) =
      ap (λ l. c.outgoing ++ map answer l) (retain-cons is_ping p ps)
      ∙ (ap (λ l. c.outgoing ++ l) (map-append answer (retain is_ping (p ∷ [])) (retain is_ping ps))
          ∙ sym (
              append_assoc c.outgoing (map answer (retain is_ping (p ∷ [])))
                (map answer (retain is_ping ps)))) in
    let inc : c.incoming ++ retain is_for_client (p ∷ ps)
        ≡ (c.incoming ++ retain is_for_client (p ∷ [])) ++ retain is_for_client ps =
      ap (λ l. c.incoming ++ l) (retain-cons is_for_client p ps)
      ∙ sym (append_assoc c.incoming (retain is_for_client (p ∷ [])) (retain is_for_client ps)) in
    ap (λ l. the_channels c l (c.incoming ++ retain is_for_client (p ∷ ps))) out
    ∙ ap
        (λ l.
          the_channels c
            ((c.outgoing ++ map answer (retain is_ping (p ∷ []))) ++ map answer (retain is_ping ps))
            l)
        inc
  where
    the_channels : Channels → List EioPacket → List EioPacket → Channels
    the_channels c out inc = record c { outgoing = out; incoming = inc }

put-nil : (c : Channels) → put [] c ≡ c
unfolding put
put-nil c = rw (append-nil c.outgoing, append-nil c.incoming) refl

reader_task-put :
    (ps : List EioPacket) (frames : List (Option Message)) (c : Channels)
    → IsOpen c
    → All (λ p. is_close (normal p) ≡ false) ps
    → reader_task (map frame ps ++ frames) c ≡ reader_task frames (put (map normal ps) c)
unfolding reader_task on_message IsOpen put normal
reader_task-put [] frames c h hs = ap (reader_task frames) (sym (put-nil c))
reader_task-put (p ∷ ps) frames c h (q, hs) =
    let first : on_message (text_message (encode p)) c ≡ (true, put (normal p ∷ []) c) =
      rw (decode-encode p, on_message) (on_eio_packet-put p.packet_type (normal p).content c h q) in
    rw first (
      reader_task-put ps frames (put (normal p ∷ []) c) h hs
      ∙ ap (reader_task frames) (sym (put-cons (normal p) (map normal ps) c)))

-- Of the packets that a server sends up to a close packet, the client gets, in their order, all but
-- the pings and those that do nothing, and the server gets one answer to each ping, with its
-- content and in their order; what is sent behind the close packet is not read, if both channels
-- are open.
pub reader_task-close :
    (ps : List EioPacket) (content : Option Str) (frames : List (Option Message)) (c : Channels)
    → c.outgoing_open ≡ true
    → c.incoming_open ≡ true
    → All (λ p. is_close p ≡ false) ps
    → (let c' = reader_task (map frame ps ++ (frame (new_packet close content) ∷ frames)) c in
        (c'.incoming ≡ c.incoming ++ retain is_for_client (map normal ps))
        × (c'.outgoing ≡ c.outgoing ++ map answer (retain is_ping (map normal ps))))
unfolding reader_task on_message on_eio_packet new_packet put IsOpen normal
reader_task-close ps content frames c out inc hs =
    let stopped : on_message (text_message (encode (new_packet close content)))
          (put (map normal ps) c)
        ≡ (false, put (map normal ps) c) =
      rw (decode-encode (new_packet close content), on_message) refl in
    let whole : reader_task (map frame ps ++ (frame (new_packet close content) ∷ frames)) c
        ≡ put (map normal ps) c =
      reader_task-put ps (frame (new_packet close content) ∷ frames) c (out, inc) hs
      ∙ rw stopped refl in
    (ap (λ (d : Channels). d.incoming) whole, ap (λ (d : Channels). d.outgoing) whole)
