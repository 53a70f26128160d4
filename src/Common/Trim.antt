-- ===== src/Common/Trim.antt =====
-- `str::trim`, over the white space of Unicode in its UTF-8 form.
use Prim.Native.Nat.{ℕ, zero, suc}
use mathlib.Core.Option.{Option, none, some}
use mathlib.Core.List.{List, [], ◌∷◌, map, reverse}
use rpress.Common.Equality.{nat_eq}
use rpress.Common.Lists.{length}
use rpress.Common.Text.{Str, strip_prefix}

abbrev white_space : List Str
white_space =
    (0x20 ∷ [])
    ∷ (0x09 ∷ [])
    ∷ (0x0a ∷ [])
    ∷ (0x0b ∷ [])
    ∷ (0x0c ∷ [])
    ∷ (0x0d ∷ [])
    ∷ (0xc2 ∷ 0x85 ∷ [])
    ∷ (0xc2 ∷ 0xa0 ∷ [])
    ∷ (0xe1 ∷ 0x9a ∷ 0x80 ∷ [])
    ∷ (0xe2 ∷ 0x80 ∷ 0x80 ∷ [])
    ∷ (0xe2 ∷ 0x80 ∷ 0x81 ∷ [])
    ∷ (0xe2 ∷ 0x80 ∷ 0x82 ∷ [])
    ∷ (0xe2 ∷ 0x80 ∷ 0x83 ∷ [])
    ∷ (0xe2 ∷ 0x80 ∷ 0x84 ∷ [])
    ∷ (0xe2 ∷ 0x80 ∷ 0x85 ∷ [])
    ∷ (0xe2 ∷ 0x80 ∷ 0x86 ∷ [])
    ∷ (0xe2 ∷ 0x80 ∷ 0x87 ∷ [])
    ∷ (0xe2 ∷ 0x80 ∷ 0x88 ∷ [])
    ∷ (0xe2 ∷ 0x80 ∷ 0x89 ∷ [])
    ∷ (0xe2 ∷ 0x80 ∷ 0x8a ∷ [])
    ∷ (0xe2 ∷ 0x80 ∷ 0xa8 ∷ [])
    ∷ (0xe2 ∷ 0x80 ∷ 0xa9 ∷ [])
    ∷ (0xe2 ∷ 0x80 ∷ 0xaf ∷ [])
    ∷ (0xe2 ∷ 0x81 ∷ 0x9f ∷ [])
    ∷ (0xe3 ∷ 0x80 ∷ 0x80 ∷ [])
    ∷ []

strip_any : List Str → Str → Option Str
strip_any [] s = none
strip_any (w ∷ ws) s = elim (strip_prefix w s) [ some rest ↦ some rest | none ↦ strip_any ws s ]

-- Every round drops a byte at least, so as many rounds as bytes are enough.
strip_all : List Str → ℕ → Str → Str
unfolding strip_any strip_prefix
strip_all ws zero s = s
strip_all ws (suc n) s = elim (strip_any ws s) [ none ↦ s | some rest ↦ strip_all ws n rest ]

unfoldable pub trim_start : Str → Str
unfolding strip_all
trim_start s = strip_all white_space (length s) s

unfoldable pub trim_end : Str → Str
unfolding strip_all
trim_end s = reverse (strip_all (map reverse white_space) (length s) (reverse s))

unfoldable pub trim : Str → Str
unfolding trim_start trim_end
trim s = trim_end (trim_start s)
