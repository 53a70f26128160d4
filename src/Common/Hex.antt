-- ===== src/Common/Hex.antt =====
-- `from_str_radix(_, 16)` of an unsigned type whose values lie below `limit`.
use Prim.Native.Nat.{ℕ, ◌+◌, ◌-◌, ◌*◌}
use mathlib.Core.Bool.{◌&&◌}
use mathlib.Core.Option.{Option, none, some}
use mathlib.Core.List.{[], ◌∷◌}
use rpress.Common.Tests.{ltb, leb, if◌then◌else◌}
use rpress.Common.Equality.{◌==◌, nat_eq}
use rpress.Common.Text.{Str}

unfoldable pub hex_digit : ℕ → Option ℕ
hex_digit c =
    if leb b'0' c && leb c b'9'
    then some (c - b'0')
    else if leb b'a' c && leb c b'f'
    then some (c - b'a' + 10)
    else if leb b'A' c && leb c b'F'
    then some (c - b'A' + 10)
    else none

unfoldable pub parse_hex_digits : ℕ → Str → Option ℕ
unfolding hex_digit
parse_hex_digits n [] = some n
parse_hex_digits n (c ∷ s) = elim (hex_digit c) [
  | none ↦ none
  | some d ↦ parse_hex_digits (n * 16 + d) s
]

below : ℕ → Option ℕ → Option ℕ
below limit none = none
below limit (some n) = if ltb n limit then some n else none

unfoldable pub parse_hex : ℕ → Str → Option ℕ
unfolding parse_hex_digits below
parse_hex limit [] = none
parse_hex limit (c ∷ []) = below limit (parse_hex_digits 0 (c ∷ []))
parse_hex limit (c ∷ d ∷ s) =
    below limit (if c == b'+' then parse_hex_digits 0 (d ∷ s) else parse_hex_digits 0 (c ∷ d ∷ s))
