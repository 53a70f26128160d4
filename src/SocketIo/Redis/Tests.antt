-- ===== src/SocketIo/Redis/Tests.antt =====
-- A codec of messages that writes lengths in front of texts.
use rpress.Common.{
  ℕ, zero, suc, Option, none, some, List, [], ◌∷◌, ◌++◌, append_assoc, Str, codes, take, drop,
  length, take-length, drop-length, nat_eq, list_eq, ◌≡◌, refl, ap, ◌∙◌,
}
use rpress.SocketIo.EngineIo.{EioPacket, message}
use rpress.SocketIo.Redis.{BroadcastMessage, Codec}
use rpress.SocketIo.Redis.Cluster.{IsCodec}

abbrev write_text : Str → Str
write_text s = length s ∷ s

abbrev read_text : Str → Str × Str
read_text [] = ([], [])
read_text (n ∷ s) = (take n s, drop n s)

read_text-write_text : (s r : Str) → read_text (write_text s ++ r) ≡ (s, r)
read_text-write_text s r =
    ap (λ t. (t, drop (length s) (s ++ r))) (take-length s r) ∙ ap (λ t. (s, t)) (drop-length s r)

abbrev write_option : Option Str → Str
write_option none = 0 ∷ []
write_option (some s) = 1 ∷ write_text s

abbrev read_option : Str → Option Str × Str
read_option [] = (none, [])
read_option (zero ∷ s) = (none, s)
read_option (suc n ∷ s) = (some (read_text s).0, (read_text s).1)

read_option-write_option : (o : Option Str) (r : Str) → read_option (write_option o ++ r) ≡ (o, r)
read_option-write_option none r = refl
read_option-write_option (some s) r = ap (λ p. (some p.0, p.1)) (read_text-write_text s r)

abbrev write_texts : List Str → Str
write_texts [] = 0 ∷ []
write_texts (s ∷ ss) = 1 ∷ (write_text s ++ write_texts ss)

-- As many texts as the number allows.
abbrev read_texts : ℕ → Str → List Str × Str
read_texts zero s = ([], s)
read_texts (suc n) [] = ([], [])
read_texts (suc n) (zero ∷ s) = ([], s)
read_texts (suc n) (suc m ∷ s) =
    let (ss, r) = read_texts n (read_text s).1 in ((read_text s).0 ∷ ss, r)

read_texts-write_texts :
    (ss : List Str) (r : Str) → read_texts (suc (length ss)) (write_texts ss ++ r) ≡ (ss, r)
read_texts-write_texts [] r = refl
read_texts-write_texts (s ∷ ss) r =
    ap (λ t. read_texts (suc (length (s ∷ ss))) (1 ∷ t))
      (append_assoc (write_text s) (write_texts ss) r)
    ∙ ap (λ p. (p.0 ∷ (read_texts (suc (length ss)) p.1).0, (read_texts (suc (length ss)) p.1).1))
        (read_text-write_text s (write_texts ss ++ r))
    ∙ ap (λ p. (s ∷ p.0, p.1)) (read_texts-write_texts ss r)

abbrev write_rooms : Option (List Str) → Str
write_rooms none = 0 ∷ []
write_rooms (some ss) = 1 ∷ suc (length ss) ∷ write_texts ss

abbrev read_rooms : Str → Option (List Str) × Str
read_rooms [] = (none, [])
read_rooms (zero ∷ s) = (none, s)
read_rooms (suc n ∷ []) = (none, [])
read_rooms (suc n ∷ m ∷ s) = (some (read_texts m s).0, (read_texts m s).1)

read_rooms-write_rooms :
    (o : Option (List Str)) (r : Str) → read_rooms (write_rooms o ++ r) ≡ (o, r)
read_rooms-write_rooms none r = refl
read_rooms-write_rooms (some ss) r = ap (λ p. (some p.0, p.1)) (read_texts-write_texts ss r)

abbrev head_or_zero : Str → ℕ
head_or_zero [] = 0
head_or_zero (n ∷ s) = n

abbrev read_tail : Str → Str → Option (List Str) → Str → BroadcastMessage
read_tail node_id namespace rooms s =
    let (packet_data, r) = read_option (drop 1 s) in
    record {
      node_id = node_id;
      namespace = namespace;
      rooms = rooms;
      packet_type = head_or_zero s;
      packet_data = packet_data;
      exclude = (read_option r).0;
    }

abbrev pub codec : Codec
codec = record {
  to_string = λ m.
      write_text m.node_id
      ++ (write_text m.namespace
          ++ (write_rooms m.rooms
              ++ (m.packet_type ∷ (write_option m.packet_data ++ (write_option m.exclude ++ [])))));
  from_str = λ s.
      let (node_id, s1) = read_text s in
      let (namespace, s2) = read_text s1 in
      let (rooms, s3) = read_rooms s2 in some (read_tail node_id namespace rooms s3);
}

pub codec-IsCodec : IsCodec codec
codec-IsCodec = record { from_str-to_string = λ m. reads m }
  where
    tail_of : BroadcastMessage → Str
    tail_of m = m.packet_type ∷ (write_option m.packet_data ++ (write_option m.exclude ++ []))

    reads : (m : BroadcastMessage) → codec.from_str (codec.to_string m) ≡ some m
    reads m =
        ap
          (λ p.
            let (namespace, s2) = read_text p.1 in
            let (rooms, s3) = read_rooms s2 in some (read_tail p.0 namespace rooms s3))
          (read_text-write_text m.node_id
            (write_text m.namespace ++ (write_rooms m.rooms ++ tail_of m)))
        ∙ ap (λ p. let (rooms, s3) = read_rooms p.1 in some (read_tail m.node_id p.0 rooms s3))
            (read_text-write_text m.namespace (write_rooms m.rooms ++ tail_of m))
        ∙ ap (λ p. some (read_tail m.node_id m.namespace p.0 p.1))
            (read_rooms-write_rooms m.rooms (tail_of m))
        ∙ ap (λ p. some (record m { packet_data = p.0; exclude = (read_option p.1).0 }))
            (read_option-write_option m.packet_data (write_option m.exclude ++ []))
        ∙ ap (λ p. some (record m { exclude = p.0 })) (read_option-write_option m.exclude [])

abbrev pub hello : EioPacket
hello = record { packet_type = message; content = some (codes "hello") }
