-- ===== src/Routes/Pattern.antt =====
-- Routes as patterns: what a trie holds, read off one pattern at a time, with no search.

use rpress.Common.{
  map, retain, not, is_empty, split, ℕ, Bool, true, false, Option, none, some, List, [], ◌∷◌, Str,
  codes, strip_prefix, HashMap, lookup, ◌==◌, Eq, eq_iff, nat_eq, list_eq, if◌then◌else◌, ◌≡◌, ◌↔◌,
  arith,
}
use rpress.Routes.{Route, node, DynamicParam, absent, present, handlers, get_child}

pub data Edge : Type 0 where
  literal : Str → Edge
  param : Str → Edge

-- How a segment of a registered path is read.
unfoldable pub edge : Str → Edge
edge seg = elim (strip_prefix (codes ":") seg) [ none ↦ literal seg | some name ↦ param name ]

-- The pattern of a registered path.
unfoldable pub pattern_of : Str → List Edge
pattern_of path = map edge (retain (λ s. not (is_empty s)) (split b'/' path))

unfoldable pub edge_beq : Edge → Edge → Bool
edge_beq (literal s) (literal t) = s == t
edge_beq (param s) (param t) = s == t
edge_beq _ _ = false

pub edge_beq_iff : (a b : Edge) → (edge_beq a b ≡ true) ↔ (a ≡ b)
unfolding edge_beq
edge_beq_iff (literal s) (literal t) = ground (arith, eq_iff s t)
edge_beq_iff (param s) (param t) = ground (arith, eq_iff s t)
edge_beq_iff (literal s) (param t) = (λ h. cc, λ h. cc)
edge_beq_iff (param s) (literal t) = (λ h. cc, λ h. cc)

instance abbrev pub edge_eq : Eq Edge
edge_eq = record { equals = edge_beq; equals_iff = edge_beq_iff }

-- Which request segments an edge accepts.
abbrev pub Accepts : Edge → Str → Type 0
Accepts (literal k) seg = k ≡ seg
Accepts (param name) seg = Unit

abbrev pub Matches : List Edge → List Str → Type 0
Matches [] [] = Unit
Matches (a ∷ p) (seg ∷ segs) = Accepts a seg × Matches p segs
Matches _ _ = ⊥

-- Each parameter of the pattern has the segment at its place for its value.
abbrev pub Binds : List Edge → List Str → HashMap Str Str → Type 0
Binds (param name ∷ p) (seg ∷ segs) params = (lookup name params ≡ some seg) × Binds p segs params
Binds (literal k ∷ p) (seg ∷ segs) params = Binds p segs params
Binds _ _ params = Unit

module _ {H : Type 0} where
  unfoldable pub follow_dynamic : Str → DynamicParam H → Option (Route H)
  follow_dynamic name absent = none
  follow_dynamic name (present existing r) = if existing == name then some r else none

  unfoldable pub follow : Edge → Route H → Option (Route H)
  unfolding follow_dynamic get_child
  follow (literal seg) (node st dy hs) = get_child seg st
  follow (param name) (node st dy hs) = follow_dynamic name dy

  -- The node that a pattern leads to.
  unfoldable pub node_at : List Edge → Route H → Option (Route H)
  node_at [] r = some r
  node_at (a ∷ p) r = elim (follow a r) [ none ↦ none | some r' ↦ node_at p r' ]

  abbrev handler_of : Str → Option (Route H) → Option (H × Option ℕ)
  handler_of method none = none
  handler_of method (some r) = lookup method (handlers r)

  -- The handler registered for a pattern and a method.
  unfoldable pub handler_at : List Edge → Str → Route H → Option (H × Option ℕ)
  handler_at p method r = handler_of method (node_at p r)

  pub node_at-step :
      (a : Edge) (p : List Edge) (r c : Route H)
      → follow a r ≡ some c
      → node_at (a ∷ p) r ≡ node_at p c
  unfolding node_at
  node_at-step a p r c there = rw (there, node_at)

  pub follow_dynamic-eq-some :
      (name : Str) (dy : DynamicParam H) (c : Route H)
      → follow_dynamic name dy ≡ some c
      → dy ≡ present name c
  unfolding follow_dynamic
  follow_dynamic-eq-some name absent c e = absurd (ground arith)
  follow_dynamic-eq-some name (present existing r) c e = ground (arith, eq_iff existing name)
