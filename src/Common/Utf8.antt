-- ===== src/Common/Utf8.antt =====
-- `String::from_utf8_lossy`: each maximal ill-formed part becomes U+FFFD.
use Prim.Native.Nat.{ℕ, zero, suc}
use mathlib.Core.Path.{◌≡◌, refl}
use mathlib.Core.Bool.{true, ◌&&◌}
use mathlib.Core.Option.{Option, none, some}
use mathlib.Core.List.{[], ◌∷◌, ◌++◌}
use native.Mathlib.Omega.{arith}
use rpress.Common.Tests.{ltb, leb, if◌then◌else◌}
use rpress.Common.Equality.{◌==◌, nat_eq}
use rpress.Common.Lists.{All}
use rpress.Common.Text.{Str}

abbrev replacement : Str
replacement = 0xef ∷ 0xbf ∷ 0xbd ∷ []

-- A sequence that is under way: how many bytes follow the next one, the range of the next one,
-- and the bytes so far.
record Pending : Type 0 where
  following : ℕ
  low : ℕ
  high : ℕ
  bytes : Str

wait : ℕ → ℕ → ℕ → ℕ → Str × Option Pending
wait following low high b =
    ([], some (record { following = following; low = low; high = high; bytes = b ∷ [] }))

-- The first byte of a sequence.
lead : ℕ → Str × Option Pending
unfolding wait
lead b =
    if ltb b 0x80
    then (b ∷ [], none)
    else if leb 0xc2 b && leb b 0xdf
    then wait 0 0x80 0xbf b
    else if b == 0xe0
    then wait 1 0xa0 0xbf b
    else if b == 0xed
    then wait 1 0x80 0x9f b
    else if leb 0xe1 b && leb b 0xef
    then wait 1 0x80 0xbf b
    else if b == 0xf0
    then wait 2 0x90 0xbf b
    else if leb 0xf1 b && leb b 0xf3
    then wait 2 0x80 0xbf b
    else if b == 0xf4
    then wait 2 0x80 0x8f b
    else (replacement, none)

extend : ℕ → ℕ → Str → Str × Option Pending
extend b zero bytes = (bytes ++ b ∷ [], none)
extend b (suc k) bytes =
    ([], some (record { following = k; low = 0x80; high = 0xbf; bytes = bytes ++ b ∷ [] }))

replaced : Str × Option Pending → Str × Option Pending
replaced (out, st) = (replacement ++ out, st)

lossy_step : Option Pending → ℕ → Str × Option Pending
unfolding lead extend replaced
lossy_step none b = lead b
lossy_step (some p) b =
    if leb p.low b && leb b p.high then extend b p.following p.bytes else replaced (lead b)

abbrev flush : Option Pending → Str
flush none = []
flush (some p) = replacement

lossy_from : Option Pending → Str → Str
unfolding lossy_step
lossy_from st [] = flush st
lossy_from st (b ∷ s) = let (out, st') = lossy_step st b in out ++ lossy_from st' s

unfoldable pub from_utf8_lossy : Str → Str
unfolding lossy_from
from_utf8_lossy s = lossy_from none s

abbrev pub IsAscii : Str → Type 0
IsAscii = All (λ c. ltb c 0x80 ≡ true)

-- ASCII stays as it is.
pub from_utf8_lossy_ascii : (s : Str) → IsAscii s → from_utf8_lossy s ≡ s
unfolding from_utf8_lossy
from_utf8_lossy_ascii [] h = refl
from_utf8_lossy_ascii (b ∷ s) (h, hs) = ground (arith, from_utf8_lossy_ascii s hs)
