-- ===== src/Common/Lines.antt =====
-- Lines that end in CR LF, and texts that lack a byte.
use Prim.Native.Nat.{ℕ}
use mathlib.Core.Path.{◌≡◌, refl, ap, ◌∙◌}
use mathlib.Core.Logic.{◌≢◌}
use mathlib.Core.Option.{none, some}
use mathlib.Core.List.{List, [], ◌∷◌, ◌++◌}
use native.Mathlib.Omega.{arith}
use rpress.Common.Equality.{eq_refl, nat_eq, list_eq}
use rpress.Common.Lists.{length, take-length, drop-length_add, All}
use rpress.Common.Text.{Str, strip_prefix, position, split_once, split, cons_part, join}

abbrev pub crlf : Str
crlf = 13 ∷ 10 ∷ []

abbrev pub Lacks : ℕ → Str → Type 0
Lacks c = All (λ d. d ≢ c)

pub strip_prefix-append : (p rest : Str) → strip_prefix p (p ++ rest) ≡ some rest
unfolding strip_prefix
strip_prefix-append [] rest = refl
strip_prefix-append (c ∷ p) rest = rw (eq_refl c) (strip_prefix-append p rest)

module _ (c : ℕ) where
  -- The pattern's first byte does not occur before it.
  pub position-append :
      (p s rest : Str) → Lacks c s → position (c ∷ p) (s ++ ((c ∷ p) ++ rest)) ≡ some (length s)
  unfolding position strip_prefix
  position-append p [] rest h = ground (arith, eq_refl c, strip_prefix-append p rest)
  position-append p (d ∷ s) rest (h, hs) = ground (arith, position-append p s rest hs)

  pub split_once-append :
      (p s rest : Str) → Lacks c s → split_once (c ∷ p) (s ++ ((c ∷ p) ++ rest)) ≡ some (s, rest)
  unfolding split_once
  split_once-append p s rest h =
      rw (position-append p s rest h, split_once)
        (cc (take-length s ((c ∷ p) ++ rest), drop-length_add s (c ∷ p) rest))

  pub position-lacking : (p s : Str) → Lacks c s → position (c ∷ p) s ≡ none
  unfolding position strip_prefix
  position-lacking p [] h = refl
  position-lacking p (d ∷ s) (h, hs) = ground (arith, position-lacking p s hs)

  pub split_once-lacking : (p s : Str) → Lacks c s → split_once (c ∷ p) s ≡ none
  unfolding split_once
  split_once-lacking p s h = rw (position-lacking p s h, split_once) refl

-- Splitting a join at its separator gives the parts back, if none of them holds it.
split_lacking : (sep : ℕ) (s : Str) → Lacks sep s → split sep s ≡ s ∷ []
unfolding split cons_part
split_lacking sep [] h = refl
split_lacking sep (c ∷ s) (h, hs) = ground (arith, split_lacking sep s hs)

split-append :
    (sep : ℕ) (s rest : Str) → Lacks sep s → split sep (s ++ sep ∷ rest) ≡ s ∷ split sep rest
unfolding split cons_part
split-append sep [] rest h = rw (eq_refl sep)
split-append sep (c ∷ s) rest (h, hs) = ground (arith, split-append sep s rest hs)

pub split-join :
    (sep : ℕ) (p : Str) (ps : List Str)
    → Lacks sep p
    → All (Lacks sep) ps
    → split sep (join (sep ∷ []) (p ∷ ps)) ≡ p ∷ ps
unfolding join
split-join sep p [] h hs = split_lacking sep p h
split-join sep p (q ∷ ps) h (hq, hs) =
    split-append sep p (join (sep ∷ []) (q ∷ ps)) h ∙ ap (λ t. p ∷ t) (split-join sep q ps hq hs)
