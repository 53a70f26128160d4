-- ===== src/SocketIo/Packet/Panics.antt =====
-- Packets that `decode` cannot slice.
use rpress.Common.{
  ℕ, true, false, none, some, ◌∷◌, Str, length, ltb, leb, ◌==◌, nat_eq, ◌≡◌, refl, ap, arith,
}
use rpress.SocketIo.Json.{Json}
use rpress.SocketIo.Packet.{SioPacketType, as_char, is_binary}
use rpress.SocketIo.Packet.Decode.{
  panicked, decode, decode_from, decoded_or_panicked, attachments_at, namespace_at, namespace_upto,
  slice, is_first_byte, chars,
}
use rpress.SocketIo.Packet.Fields.{attachments_at-not_binary}
use rpress.SocketIo.Packet.RoundTrip.{from_byte-as_char, as_char-IsAscii}

chars-two_bytes :
    (t b c : ℕ) (s : Str)
    → ltb t 0x80 ≡ true
    → is_first_byte b ≡ true
    → is_first_byte c ≡ false
    → chars (t ∷ b'/' ∷ b ∷ c ∷ b',' ∷ s) ≡ t ∷ b'/' ∷ b ∷ b',' ∷ chars s
unfolding chars
chars-two_bytes t b c s ascii first inside =
    let one : is_first_byte t ≡ true = is_first_byte-ascii t ascii in rw (one, first, inside) refl
  where
    is_first_byte-ascii : (t : ℕ) → ltb t 0x80 ≡ true → is_first_byte t ≡ true
    is_first_byte-ascii t ascii = ground (arith, ascii)

slice-inside :
    (t b c : ℕ) (s : Str) → is_first_byte c ≡ false → slice (t ∷ b'/' ∷ b ∷ c ∷ b',' ∷ s) 1 3 ≡ none
unfolding slice
slice-inside t b c s inside =
    let size : leb 3 (length (t ∷ b'/' ∷ b ∷ c ∷ b',' ∷ s)) ≡ true = ground arith in
    let size' : leb 1 (length (t ∷ b'/' ∷ b ∷ c ∷ b',' ∷ s)) ≡ true = ground arith in
    rw (size, size', inside) refl

namespace_at-inside :
    (t b c : ℕ) (s : Str)
    → ltb t 0x80 ≡ true
    → is_first_byte b ≡ true
    → (b == b',') ≡ false
    → is_first_byte c ≡ false
    → namespace_at (t ∷ b'/' ∷ b ∷ c ∷ b',' ∷ s) 1 ≡ none
unfolding namespace_at
namespace_at-inside t b c s ascii first no_comma inside =
    rw (chars-two_bytes t b c s ascii first inside)
      (rw no_comma (stopped (slice-inside t b c s inside)))
  where
    stopped :
        slice (t ∷ b'/' ∷ b ∷ c ∷ b',' ∷ s) 1 3 ≡ none
        → namespace_upto (t ∷ b'/' ∷ b ∷ c ∷ b',' ∷ s) 1 3 ≡ none
    stopped e = rw (e, namespace_upto) refl

-- A packet without attachments whose namespace is a slash and one character of two bytes panics:
-- the namespace is counted in characters and sliced by bytes.
pub decode-panicked :
    {V : Type 0} (json : Json V) (t : SioPacketType) (b c : ℕ) (s : Str)
    → is_binary t ≡ false
    → is_first_byte b ≡ true
    → (b == b',') ≡ false
    → is_first_byte c ≡ false
    → decode json (as_char t ∷ b'/' ∷ b ∷ c ∷ b',' ∷ s) ≡ panicked
unfolding decode decode_from
decode-panicked json t b c s text first no_comma inside =
    let none_there = attachments_at-not_binary (as_char t ∷ b'/' ∷ b ∷ c ∷ b',' ∷ s) t 1 text in
    let sliced = namespace_at-inside (as_char t) b c s (as_char-IsAscii t) first no_comma inside in
    rw (from_byte-as_char t, decode) (ap decoded_or_panicked (stopped none_there sliced))
  where
    stopped :
        attachments_at (as_char t ∷ b'/' ∷ b ∷ c ∷ b',' ∷ s) t 1 ≡ some (0, 1)
        → namespace_at (as_char t ∷ b'/' ∷ b ∷ c ∷ b',' ∷ s) 1 ≡ none
        → decode_from json (as_char t ∷ b'/' ∷ b ∷ c ∷ b',' ∷ s) t ≡ none
    stopped e f = rw (e, f) refl
