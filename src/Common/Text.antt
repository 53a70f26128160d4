-- ===== src/Common/Text.antt =====
-- Rust's `str` and `[u8]` as lists of bytes, and the operations of the standard library on them.
use Prim.Native.Nat.{ℕ, zero, suc, ◌+◌}
use Prim.Native.Char.{code}
use Prim.Native.String.{String}
use mathlib.Core.Bool.{Bool, ◌&&◌}
use mathlib.Core.Option
use mathlib.Core.Option.{Option, none, some}
use mathlib.Core.List.{List, [], ◌∷◌, ◌++◌, map}
use rpress.Common.Tests.{if◌then◌else◌, leb, is_some}
use rpress.Common.Equality.{◌==◌, nat_eq, list_eq}
use rpress.Common.Lists.{length, take, drop}

abbrev pub Str : Type 0
Str = List ℕ

-- The bytes of an ASCII literal.
abbrev pub codes : String → Str
codes String.[] = []
codes (String.◌∷◌ c s) = code c ∷ codes s

unfoldable pub strip_prefix : Str → Str → Option Str
strip_prefix [] s = some s
strip_prefix (c ∷ p) [] = none
strip_prefix (c ∷ p) (d ∷ s) = if c == d then strip_prefix p s else none

abbrev pub starts_with : Str → Str → Bool
starts_with p s = is_some (strip_prefix p s)

-- `windows(n).position(…)` and `find`: where the pattern, which is not empty, stands first
unfoldable pub position : Str → Str → Option ℕ
position p [] = none
position p (c ∷ s) = if starts_with p (c ∷ s) then some 0 else Option.map suc (position p s)

abbrev pub contains : Str → Str → Bool
contains p s = is_some (position p s)

-- `split_once`
unfoldable pub split_once : Str → Str → Option (Str × Str)
split_once p s = elim (position p s) [
  | none ↦ none
  | some i ↦ some (take i s, drop (i + length p) s)
]

unfoldable pub cons_part : ℕ → List Str → List Str
cons_part c [] = (c ∷ []) ∷ []
cons_part c (p ∷ ps) = (c ∷ p) ∷ ps

-- `split` at one byte
unfoldable pub split : ℕ → Str → List Str
unfolding cons_part
split sep [] = [] ∷ []
split sep (c ∷ s) = let rest = split sep s in if c == sep then [] ∷ rest else cons_part c rest

-- `join`
unfoldable pub join : Str → List Str → Str
join sep [] = []
join sep (p ∷ []) = p
join sep (p ∷ q ∷ ps) = p ++ (sep ++ join sep (q ∷ ps))

abbrev pub lower_byte : ℕ → ℕ
lower_byte c = if leb b'A' c && leb c b'Z' then c + 32 else c

unfoldable pub eq_ignore_ascii_case : Str → Str → Bool
eq_ignore_ascii_case s t = map lower_byte s == map lower_byte t

-- `split` at a text that is not empty; a text has no more parts than bytes and one.
split_rounds : ℕ → Str → Str → List Str
unfolding split_once
split_rounds zero p s = s ∷ []
split_rounds (suc n) p s = elim (split_once p s) [
  | none ↦ s ∷ []
  | some (part, rest) ↦ part ∷ split_rounds n p rest
]

unfoldable pub split_str : Str → Str → List Str
unfolding split_rounds
split_str p s = split_rounds (length s) p s
