-- ===== src/Common/Assoc.antt =====
-- A `HashMap` as an association list. The order of the entries stands for the map's own order
-- of iteration, which the program must not rely on.
use mathlib.Core.Path.{◌≡◌, refl}
use mathlib.Core.Bool.{Bool}
use mathlib.Core.Option.{Option, none, some}
use mathlib.Core.List.{List, [], ◌∷◌}
use native.Mathlib.Omega.{arith}
use rpress.Common.Tests.{if◌then◌else◌, is_some}
use rpress.Common.Equality.{Eq, ◌==◌, eq_iff}

abbrev pub HashMap {ℓ} : Type ℓ → Type ℓ → Type ℓ
HashMap K V = List (K × V)

module _ {ℓ} {K V : Type ℓ} ⦃e : Eq K⦄ where
  -- `get`
  unfoldable pub lookup : K → HashMap K V → Option V
  lookup key [] = none
  lookup key ((at, value) ∷ rest) = if at == key then some value else lookup key rest

  -- `insert`: the value of a key that is there is replaced
  unfoldable pub insert : K → V → HashMap K V → HashMap K V
  insert key new [] = (key, new) ∷ []
  insert key new ((at, value) ∷ rest) =
      if at == key then (at, new) ∷ rest else (at, value) ∷ insert key new rest

  unfoldable pub remove : K → HashMap K V → HashMap K V
  remove key [] = []
  remove key ((at, value) ∷ rest) =
      let others = remove key rest in if at == key then others else (at, value) ∷ others

  abbrev pub contains_key : K → HashMap K V → Bool
  contains_key key entries = is_some (lookup key entries)

  pub lookup-insert :
      (key other : K) (new : V) (entries : HashMap K V)
      → lookup other (insert key new entries)
        ≡ (if key == other then some new else lookup other entries)
  unfolding insert lookup
  lookup-insert key other new [] = refl
  lookup-insert key other new ((at, value) ∷ rest) =
      let later = lookup-insert key other new rest in
      ground (arith, later, eq_iff at key, eq_iff key other, eq_iff at other)

  pub lookup-remove :
      (key other : K) (entries : HashMap K V)
      → lookup other (remove key entries) ≡ (if key == other then none else lookup other entries)
  unfolding remove lookup
  lookup-remove key other [] = ground arith
  lookup-remove key other ((at, value) ∷ rest) =
      let later = lookup-remove key other rest in
      ground (arith, later, eq_iff at key, eq_iff key other, eq_iff at other)
