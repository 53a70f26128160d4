-- ===== src/Routes.antt =====
-- The routing trie of engine/src/core/routes.rs. `H` is the type of handlers (`ArcHandler`).
-- `none` as the result of an insertion is the panic on conflicting parameter names.
pub mod Pattern
pub mod Insertion
pub mod Names
pub mod Search
mod Tests
pub mod Lookup
use mathlib.Core.Option
use rpress.Common.{
  ℕ, not, ◌&&◌, Option, none, some, List, [], ◌∷◌, Str, codes, strip_prefix, split, HashMap, lookup,
  insert, retain, is_empty, ◌==◌, nat_eq, list_eq, if◌then◌else◌,
}

mutual
  pub data Route (H : Type 0) : Type 0 where
    node : Children H → DynamicParam H → HashMap Str (H × Option ℕ) → Route H

  -- `HashMap<String, Route>`
  pub data Children (H : Type 0) : Type 0 where
    leaf : Children H
    child : Str → Route H → Children H → Children H

  -- `Option<Box<DynamicParam>>`
  pub data DynamicParam (H : Type 0) : Type 0 where
    absent : DynamicParam H
    present : Str → Route H → DynamicParam H

pub data RouteMatch (H : Type 0) : Type 0 where
  found : H → HashMap Str Str → Option ℕ → RouteMatch H
  wrong_method : RouteMatch H
  not_found : RouteMatch H

-- The parameters are updated in place, also by a branch that fails.
abbrev pub Matcher : Type 0 → Type 0
Matcher H = Route H → HashMap Str Str → Option (Route H) × HashMap Str Str

unfoldable pub segments_of : Str → List Str
segments_of path =
    retain (λ s. not (is_empty s) && (not (s == codes ".") && not (s == codes "..")))
      (split b'/' path)

module _ {H : Type 0} where
  abbrev pub new : Route H
  new = node leaf absent []

  abbrev pub handlers : Route H → HashMap Str (H × Option ℕ)
  handlers (node st dy hs) = hs

  -- `static_path.get`
  unfoldable pub get_child : Str → Children H → Option (Route H)
  get_child seg leaf = none
  get_child seg (child k r rest) = if k == seg then some r else get_child seg rest

  -- `static_path.entry(seg).or_default()` and the insertion below the entry
  unfoldable pub at_child : (Route H → Option (Route H)) → Str → Children H → Option (Children H)
  at_child f seg leaf = Option.map (λ r. child seg r leaf) (f new)
  at_child f seg (child k r rest) =
      let here = Option.map (λ r'. child k r' rest) (f r) in
      let later = Option.map (child k r) (at_child f seg rest) in if k == seg then here else later

  unfoldable pub at_dynamic :
      (Route H → Option (Route H)) → Str → DynamicParam H → Option (DynamicParam H)
  at_dynamic f name absent = Option.map (present name) (f new)
  at_dynamic f name (present existing r) =
      if existing == name then Option.map (present existing) (f r) else none

  -- One level of `recursive_insert`; `f` inserts the remaining segments.
  unfoldable pub insert_at : (Route H → Option (Route H)) → Str → Route H → Option (Route H)
  unfolding at_child at_dynamic
  insert_at f seg (node st dy hs) = elim (strip_prefix (codes ":") seg) [
    | some name ↦ Option.map (λ dy'. node st dy' hs) (at_dynamic f name dy)
    | none ↦ Option.map (λ st'. node st' dy hs) (at_child f seg st)
  ]

  unfoldable pub recursive_insert : List Str → Str → H → Option ℕ → Route H → Option (Route H)
  unfolding insert_at
  recursive_insert [] method handler limit (node st dy hs) =
      some (node st dy (insert method (handler, limit) hs))
  recursive_insert (seg ∷ remaining) method handler limit r =
      insert_at (recursive_insert remaining method handler limit) seg r

  unfoldable pub insert_route : Str → Str → H → Option ℕ → Route H → Option (Route H)
  unfolding recursive_insert
  insert_route path method handler limit r =
      let segments = retain (λ s. not (is_empty s)) (split b'/' path) in
      recursive_insert segments method handler limit r

  unfoldable pub match_dynamic :
      Matcher H → Str → DynamicParam H → HashMap Str Str → Option (Route H) × HashMap Str Str
  match_dynamic next seg absent params = (none, params)
  match_dynamic next seg (present name r) params = next r (insert name seg params)

  unfoldable pub or_dynamic :
      Matcher H
      → Str
      → DynamicParam H
      → Option (Route H) × HashMap Str Str
      → Option (Route H) × HashMap Str Str
  unfolding match_dynamic
  or_dynamic next seg dy (some result, params) = (some result, params)
  or_dynamic next seg dy (none, params) = match_dynamic next seg dy params

  unfoldable pub match_static :
      Matcher H → Str → Children H → HashMap Str Str → Option (Route H) × HashMap Str Str
  match_static next seg st params = elim (get_child seg st) [
    | none ↦ (none, params)
    | some child_node ↦ next child_node params
  ]

  unfoldable pub match_recursive : List Str → Matcher H
  unfolding match_static or_dynamic get_child
  match_recursive [] r params = (if is_empty (handlers r) then none else some r, params)
  match_recursive (seg ∷ remaining) (node st dy hs) params =
      or_dynamic (match_recursive remaining) seg dy
        (match_static (match_recursive remaining) seg st params)

  unfoldable pub select : Str → Option (Route H) × HashMap Str Str → RouteMatch H
  select method (none, params) = not_found
  select method (some r, params) = elim (lookup method (handlers r)) [
    | none ↦ wrong_method
    | some (handler, limit) ↦ found handler params limit
  ]

  unfoldable pub find : Str → Str → Route H → RouteMatch H
  unfolding match_recursive segments_of select
  find path method r = select method (match_recursive (segments_of path) r [])
