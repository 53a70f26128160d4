-- ===== src/SocketIo/Packet/Decode.antt =====
-- engine/src/core/socketio/socket_io.rs: `SioPacket::decode`. Positions are counted in characters
-- and texts are sliced by bytes, as in the source; a slice inside of a character panics.
use rpress.Common.{
  ℕ, ◌+◌, ◌-◌, ◌^◌, Bool, true, false, not, ◌&&◌, ◌||◌, Option, none, some, List, [], ◌∷◌, Str,
  codes, take, drop, length, retain, ltb, leb, ◌==◌, nat_eq, if◌then◌else◌,
}
use rpress.Common.Options.{◌>>=◌}
use rpress.Common.Decimal.{is_digit, parse_unsigned}
use rpress.SocketIo.Json.{Json}
use rpress.SocketIo.Packet.{SioPacketType, from_byte, is_binary, SioPacket}

-- What `decode` does: it panics, returns `None` or a packet.
pub data Decoded (V : Type 0) : Type 0 where
  panicked : Decoded V
  rejected : Decoded V
  decoded : SioPacket V → Decoded V

-- Whether a byte begins a character.
unfoldable pub is_first_byte : ℕ → Bool
is_first_byte b = ltb b 0x80 || leb 0xc0 b

-- `input.chars()`: of each character the first byte, which is the character where it is ASCII.
unfoldable pub chars : Str → List ℕ
unfolding is_first_byte
chars s = retain is_first_byte s

unfoldable pub begins_char : Str → Bool
unfolding is_first_byte
begins_char [] = true
begins_char (b ∷ s) = is_first_byte b

unfoldable pub is_char_boundary : Str → ℕ → Bool
unfolding begins_char
is_char_boundary s i = leb i (length s) && begins_char (drop i s)

-- `s[start..end]`; none where it panics.
unfoldable pub slice : Str → ℕ → ℕ → Option Str
unfolding is_char_boundary
slice s start end =
    if leb start end && (is_char_boundary s start && is_char_boundary s end)
    then some (take (end - start) (drop start s))
    else none

-- How many characters in front satisfy the test.
unfoldable pub count_while : (ℕ → Bool) → List ℕ → ℕ
count_while p [] = 0
count_while p (c ∷ cs) = let rest = count_while p cs in if p c then 1 + rest else 0

-- `pos < chars.len()`, and the test on `chars[pos]`
unfoldable pub next_holds : (ℕ → Bool) → List ℕ → Bool
next_holds p [] = false
next_holds p (c ∷ cs) = p c

unfoldable pub or_zero : Option ℕ → ℕ
or_zero none = 0
or_zero (some n) = n

abbrev pub is_char : ℕ → ℕ → Bool
is_char c d = d == c

-- The number of attachments in front of `pos`, and the position behind it.
unfoldable pub attachments_upto : Str → ℕ → ℕ → Option (ℕ × ℕ)
unfolding chars slice next_holds or_zero
attachments_upto input start pos =
    if next_holds (is_char b'-') (drop pos (chars input))
    then elim (slice input start pos) [
      | none ↦ none
      | some text ↦ some (or_zero (parse_unsigned (2 ^ 64) text), pos + 1)
    ]
    else some (0, pos)

unfoldable pub attachments_at : Str → SioPacketType → ℕ → Option (ℕ × ℕ)
unfolding is_binary count_while attachments_upto
attachments_at input t start =
    if is_binary t
    then attachments_upto input start (start + count_while is_digit (drop start (chars input)))
    else some (0, start)

unfoldable pub namespace_upto : Str → ℕ → ℕ → Option (Str × ℕ)
unfolding chars slice next_holds
namespace_upto input start pos = elim (slice input start pos) [
  | none ↦ none
  | some ns ↦ some (ns, if next_holds (is_char b',') (drop pos (chars input)) then pos + 1 else pos)
]

unfoldable pub namespace_at : Str → ℕ → Option (Str × ℕ)
unfolding namespace_upto next_holds count_while
namespace_at input start =
    if next_holds (is_char b'/') (drop start (chars input))
    then namespace_upto input start
        (start + count_while (λ c. not (c == b',')) (drop start (chars input)))
    else some (codes "/", start)

-- What may stand behind an ack id.
unfoldable pub ends_id : List ℕ → Bool
ends_id [] = true
ends_id (c ∷ cs) = (c == b'[') || (c == b'{')

unfoldable pub id_upto : Str → ℕ → ℕ → Option (Option ℕ × ℕ)
unfolding chars slice ends_id or_zero
id_upto input start pos =
    if ends_id (drop pos (chars input))
    then elim (slice input start pos) [
      | none ↦ none
      | some text ↦ some (some (or_zero (parse_unsigned (2 ^ 64) text)), pos)
    ]
    else some (none, start)

unfoldable pub id_at : Str → ℕ → Option (Option ℕ × ℕ)
unfolding next_holds count_while id_upto
id_at input start =
    if next_holds is_digit (drop start (chars input))
    then id_upto input start (start + count_while is_digit (drop start (chars input)))
    else some (none, start)

unfoldable pub data_at : {V : Type 0} → Json V → Str → ℕ → Option (Option V)
unfolding chars slice
data_at json input pos =
    if ltb pos (length (chars input))
    then elim (slice input pos (length input)) [
      | none ↦ none
      | some text ↦ some (json.from_str text)
    ]
    else some none

unfoldable pub decode_from : {V : Type 0} → Json V → Str → SioPacketType → Option (SioPacket V)
unfolding attachments_at namespace_at id_at data_at
decode_from json input t = do
  (attachment_count, p) ← attachments_at input t 1
  (namespace, q) ← namespace_at input p
  (id, r) ← id_at input q
  content ← data_at json input r
  some (record {
    packet_type = t;
    namespace = namespace;
    content = content;
    id = id;
    attachment_count = attachment_count;
  })

unfoldable pub decoded_or_panicked : {V : Type 0} → Option (SioPacket V) → Decoded V
decoded_or_panicked none = panicked
decoded_or_panicked (some p) = decoded p

unfoldable pub decode : {V : Type 0} → Json V → Str → Decoded V
unfolding from_byte decode_from decoded_or_panicked
decode json [] = rejected
decode json (b ∷ s) = elim (from_byte b) [
  | none ↦ rejected
  | some t ↦ decoded_or_panicked (decode_from json (b ∷ s) t)
]
