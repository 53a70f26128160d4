-- ===== src/Common/Decimal.antt =====
-- Unsigned numbers in decimal: `to_string`, and `str::parse` with its overflow check.
use Prim.Native.Nat.{ℕ, zero, suc, ◌+◌, ◌-◌, ◌*◌, ◌/◌, ◌%◌, ◌<◌}
use mathlib.Core.Path.{◌≡◌, refl, ◌∙◌, ap}
use mathlib.Core.Logic.{inl, inr}
use mathlib.Core.Bool.{Bool, true, false, ◌&&◌}
use mathlib.Core.Option.{Option, none, some}
use mathlib.Core.List.{[], ◌∷◌}
use native.Mathlib.Omega.{arith}
use rpress.Common.Tests.{ltb, leb, if◌then◌else◌, Bool-cases}
use rpress.Common.Equality.{◌==◌, nat_eq}
use rpress.Common.Lists.{All, is_empty}
use rpress.Common.Text.{Str}

-- `is_ascii_digit`
abbrev pub is_digit : ℕ → Bool
is_digit c = leb b'0' c && leb c b'9'

digits_from : ℕ → ℕ → Str → Str
digits_from zero n acc = acc
digits_from (suc fuel) n acc =
    let more = digits_from fuel (n / 10) ((b'0' + n % 10) ∷ acc) in
    if ltb n 10 then (b'0' + n) ∷ acc else more

-- A number has no more digits than its successor counts.
unfoldable pub decimal : ℕ → Str
unfolding digits_from
decimal n = digits_from (suc n) n []

unfoldable pub parse_digits : ℕ → Str → Option ℕ
parse_digits n [] = some n
parse_digits n (c ∷ s) = if is_digit c then parse_digits (n * 10 + (c - b'0')) s else none

below : ℕ → Option ℕ → Option ℕ
below limit none = none
below limit (some n) = if ltb n limit then some n else none

-- `parse` of an unsigned type whose values lie below `limit`: one `+` may stand in front.
unfoldable pub parse_unsigned : ℕ → Str → Option ℕ
unfolding parse_digits below
parse_unsigned limit [] = none
parse_unsigned limit (c ∷ []) = below limit (parse_digits 0 (c ∷ []))
parse_unsigned limit (c ∷ d ∷ s) =
    below limit (if c == b'+' then parse_digits 0 (d ∷ s) else parse_digits 0 (c ∷ d ∷ s))

parse_digits-digit :
    (n d : ℕ) (acc : Str)
    → d < 10
    → parse_digits n ((b'0' + d) ∷ acc) ≡ parse_digits (n * 10 + d) acc
unfolding parse_digits
parse_digits-digit n d acc h = ground arith

parse_digits-digits_from :
    (fuel n : ℕ) (acc : Str)
    → n < fuel
    → parse_digits 0 (digits_from fuel n acc) ≡ parse_digits n acc
unfolding parse_digits digits_from
parse_digits-digits_from zero n acc h = absurd (omega arith)
parse_digits-digits_from (suc fuel) n acc h = elim (Bool-cases (ltb n 10)) [
  | inl last ↦
      rw last
        (parse_digits-digit 0 n acc (ground arith) ∙ ap (λ k. parse_digits k acc) (omega arith))
  | inr more ↦ rw more (
      parse_digits-digits_from fuel (n / 10) ((b'0' + n % 10) ∷ acc) (ground arith)
      ∙ (parse_digits-digit (n / 10) (n % 10) acc (omega arith)
          ∙ ap (λ k. parse_digits k acc) (omega arith)))
]

All-digits_from :
    (fuel n : ℕ) (acc : Str)
    → All (λ c. is_digit c ≡ true) acc
    → All (λ c. is_digit c ≡ true) (digits_from fuel n acc)
unfolding digits_from
All-digits_from zero n acc h = h
All-digits_from (suc fuel) n acc h = elim (Bool-cases (ltb n 10)) [
  | inl last ↦ rw last (ground arith, h)
  | inr more ↦ rw more (All-digits_from fuel (n / 10) _ (ground arith, h))
]

-- A printed number holds digits only.
pub All-decimal : (n : ℕ) → All (λ c. is_digit c ≡ true) (decimal n)
unfolding decimal
All-decimal n = All-digits_from (suc n) n [] tt

-- Parsing a printed number gives it back.
pub parse_digits-decimal : (n : ℕ) → parse_digits 0 (decimal n) ≡ some n
unfolding decimal parse_digits
parse_digits-decimal n = parse_digits-digits_from (suc n) n [] (omega arith)

is_empty-digits_from : (fuel n : ℕ) (acc : Str) → is_empty (digits_from (suc fuel) n acc) ≡ false
unfolding digits_from
is_empty-digits_from zero n acc = elim (Bool-cases (ltb n 10)) [
  | inl last ↦ rw last refl
  | inr more ↦ rw more refl
]
is_empty-digits_from (suc fuel) n acc = elim (Bool-cases (ltb n 10)) [
  | inl last ↦ rw last refl
  | inr more ↦ rw more (is_empty-digits_from fuel (n / 10) _)
]

-- A printed number is not empty.
pub is_empty-decimal : (n : ℕ) → is_empty (decimal n) ≡ false
unfolding decimal
is_empty-decimal n = is_empty-digits_from n n []

-- Digits are parsed without a sign.
parse_unsigned-digits :
    (limit : ℕ) (s : Str)
    → All (λ c. is_digit c ≡ true) s
    → is_empty s ≡ false
    → parse_unsigned limit s ≡ below limit (parse_digits 0 s)
unfolding parse_unsigned
parse_unsigned-digits limit [] digits some_digits = absurd (ground (arith, some_digits))
parse_unsigned-digits limit (c ∷ []) digits some_digits = refl
parse_unsigned-digits limit (c ∷ d ∷ s) (digit, _) some_digits =
    let no_sign : (c == b'+') ≡ false = ground (arith, digit) in rw no_sign refl

-- A printed number below the limit is read back.
pub parse_unsigned-decimal : (limit n : ℕ) → n < limit → parse_unsigned limit (decimal n) ≡ some n
unfolding below
parse_unsigned-decimal limit n fits =
    let inside : ltb n limit ≡ true = ground (arith, fits) in
    parse_unsigned-digits limit (decimal n) (All-decimal n) (is_empty-decimal n)
    ∙ ap (λ r. below limit r) (parse_digits-decimal n)
    ∙ rw inside refl
