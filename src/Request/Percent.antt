-- ===== src/Request/Percent.antt =====
-- Percent encoding of a path as a client writes it, decoded by the server.
use rpress.Common.{
  ℕ, ◌+◌, ◌-◌, ◌/◌, ◌%◌, ◌<◌, Bool, true, some, [], ◌∷◌, Str, ltb, if◌then◌else◌, nat_eq, All, ◌≡◌,
  ◌≢◌, refl, inl, inr, Bool-cases, arith,
}
use rpress.Common.Hex.{hex_digit, parse_hex, parse_hex_digits}
use rpress.Common.Utf8.{from_utf8_lossy}
use rpress.Request.Uri.{is_char_boundary, decode_bytes, percent_decode}

-- A digit of an escape, in upper case.
unfoldable pub escape_digit : ℕ → ℕ
escape_digit n = if ltb n 10 then b'0' + n else b'A' + (n - 10)

-- Every byte that is not kept is written as `%` and two digits.
unfoldable pub percent_encode : (ℕ → Bool) → Str → Str
percent_encode keep [] = []
percent_encode keep (c ∷ s) =
    let rest = percent_encode keep s in
    if keep c then c ∷ rest else b'%' ∷ escape_digit (c / 16) ∷ escape_digit (c % 16) ∷ rest

hex_digit-escape_digit : (n : ℕ) → n < 16 → hex_digit (escape_digit n) ≡ some n
unfolding hex_digit escape_digit
hex_digit-escape_digit n h = ground arith

escape_digit-ne : (n : ℕ) → escape_digit n ≢ b'+'
unfolding escape_digit
escape_digit-ne n = ground arith

parse_hex-escape_digit :
    (c : ℕ) → c < 256 → parse_hex 256 (escape_digit (c / 16) ∷ escape_digit (c % 16) ∷ []) ≡ some c
unfolding parse_hex parse_hex_digits
parse_hex-escape_digit c h = ground (
  arith,
  escape_digit-ne (c / 16),
  hex_digit-escape_digit (c / 16) (omega arith),
  hex_digit-escape_digit (c % 16) (omega arith),
)

-- The bytes that are kept are in ASCII, and `%` is not one of them.
abbrev pub KeepsPlain : (ℕ → Bool) → Type 0
KeepsPlain keep = (c : ℕ) → keep c ≡ true → (c < 128) × (c ≢ b'%')

is_char_boundary-percent_encode :
    (keep : ℕ → Bool)
    → KeepsPlain keep
    → (s : Str) → is_char_boundary (percent_encode keep s) ≡ true
unfolding is_char_boundary percent_encode
is_char_boundary-percent_encode keep plain [] = refl
is_char_boundary-percent_encode keep plain (c ∷ s) = elim (Bool-cases (keep c)) [
  | inl kept ↦ let (ascii, h) = plain c kept in rw kept (ground arith)
  | inr escaped ↦ rw escaped refl
]

decode_bytes-plain :
    (c : ℕ) (s t : Str) → c ≢ b'%' → decode_bytes s ≡ some t → decode_bytes (c ∷ s) ≡ some (c ∷ t)
unfolding decode_bytes
decode_bytes-plain c [] t ne h = cc
decode_bytes-plain c (a ∷ []) t ne h = ground (arith, h)
decode_bytes-plain c (a ∷ b ∷ s) t ne h = ground (arith, h)

decode_bytes-percent_encode :
    (keep : ℕ → Bool)
    → KeepsPlain keep
    → (s : Str) → All (λ c. c < 256) s
    → decode_bytes (percent_encode keep s) ≡ some s
unfolding percent_encode decode_bytes
decode_bytes-percent_encode keep plain [] h = refl
decode_bytes-percent_encode keep plain (c ∷ s) (h, hs) = elim (Bool-cases (keep c)) [
  | inl kept ↦ rw kept (
      decode_bytes-plain c (percent_encode keep s) s ((plain c kept).1)
        (decode_bytes-percent_encode keep plain s hs))
  | inr escaped ↦
      rw
        (
          escaped,
          is_char_boundary-percent_encode keep plain s,
          parse_hex-escape_digit c h,
          decode_bytes-percent_encode keep plain s hs,
        )
        refl
]

-- An encoded path is decoded to the text that it stands for, its ill-formed parts replaced,
-- whichever plain characters the client keeps as they are.
pub percent_decode-percent_encode :
    (keep : ℕ → Bool)
    → KeepsPlain keep
    → (s : Str) → All (λ c. c < 256) s
    → percent_decode (percent_encode keep s) ≡ some (from_utf8_lossy s)
unfolding percent_decode
percent_decode-percent_encode keep plain s h =
    rw (decode_bytes-percent_encode keep plain s h, percent_decode) refl
