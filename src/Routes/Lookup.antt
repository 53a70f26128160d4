-- ===== src/Routes/Lookup.antt =====
-- What `find` answers, against the handlers that the trie holds.
use rpress.Common.{
  ℕ, true, false, Option, none, some, List, [], ◌∷◌, map, Str, HashMap, lookup, eq_refl, ◌≡◌, ◌≢◌,
  refl, ◌∙◌, ◌↔◌, arith, Option-cases, inl, inr, is_empty, nat_eq, list_eq,
}
use rpress.Routes.{
  Route, node, found, wrong_method, not_found, handlers, match_recursive, segments_of, select, find,
  insert_route,
}
use rpress.Routes.Pattern.{Edge, literal, edge_eq, pattern_of, Matches, Binds, node_at, handler_at}
use rpress.Routes.Names.{distinct_names}
use rpress.Routes.Search.{
  match_recursive-IsReached, match_recursive-ne-none, match_recursive-literal,
}
use rpress.Routes.Insertion.{handler_at-insert_route}

module _ {H : Type 0} where
  select-eq-found :
      (method : Str) (result : Option (Route H) × HashMap Str Str) {h : H}
      {params : HashMap Str Str} {limit : Option ℕ}
      → select method result ≡ found h params limit
      → (n : Route H) × (result ≡ (some n, params)) × (lookup method (handlers n) ≡ some (h, limit))
  unfolding select
  select-eq-found method (none, params) e = absurd (ground arith)
  select-eq-found method (some n, params) e = elim (Option-cases (lookup method (handlers n))) [
    | inl missing ↦ absurd (ground arith)
    | inr ((h, limit), there) ↦ (n, ground arith, ground arith)
  ]

  -- A handler that `find` answers with is the one registered for the method and a pattern that
  -- accepts the path's segments, with its body limit.
  pub find-eq-found :
      (path method : Str) (r : Route H) (h : H) (params : HashMap Str Str) (limit : Option ℕ)
      → find path method r ≡ found h params limit
      → (p : List Edge) × Matches p (segments_of path) × (handler_at p method r ≡ some (h, limit))
  unfolding find handler_at
  find-eq-found path method r h params limit e =
      let (n, result, there) = select-eq-found method (match_recursive (segments_of path) r []) e in
      let reached = match_recursive-IsReached (segments_of path) r n [] params result in
      (reached.pattern, reached.accepted, rw reached.leads there)

  -- If no route of the trie names a parameter twice, a handler that `find` answers with is the one
  -- registered for the method and a pattern that accepts the path's segments, with its body limit,
  -- and each parameter of the pattern has the segment at its place for its value.
  pub find-Binds :
      (path method : Str) (r : Route H) (h : H) (params : HashMap Str Str) (limit : Option ℕ)
      → distinct_names r ≡ true
      → find path method r ≡ found h params limit
      → (p : List Edge) × Matches p (segments_of path)
        × (handler_at p method r ≡ some (h, limit))
        × Binds p (segments_of path) params
  unfolding find handler_at
  find-Binds path method r h params limit d e =
      let (n, result, there) = select-eq-found method (match_recursive (segments_of path) r []) e in
      let reached = match_recursive-IsReached (segments_of path) r n [] params result in
      (reached.pattern, reached.accepted, rw reached.leads there, reached.bound d)

  select-eq-not_found_iff :
      (method : Str) (result : Option (Route H) × HashMap Str Str)
      → (select method result ≡ not_found) ↔ (result.0 ≡ none)
  unfolding select
  select-eq-not_found_iff method (none, params) = (λ _. refl, λ _. refl)
  select-eq-not_found_iff method (some n, params) = ground arith

  handled_of_lookup :
      (m : Str) (hs : HashMap Str (H × Option ℕ)) {x : H × Option ℕ}
      → lookup m hs ≡ some x
      → is_empty hs ≡ false
  unfolding lookup
  handled_of_lookup m [] e = absurd (ground arith)
  handled_of_lookup m (h ∷ hs) e = refl

  handler_at-eq-some :
      (p : List Edge) (m : Str) (r : Route H) {x : H × Option ℕ}
      → handler_at p m r ≡ some x
      → (n : Route H) × (node_at p r ≡ some n)
        × (lookup m (handlers n) ≡ some x)
        × (is_empty (handlers n) ≡ false)
  unfolding handler_at
  handler_at-eq-some p m r e = elim (Option-cases (node_at p r)) [
    | inl missing ↦ absurd (ground arith)
    | inr (n, there) ↦
        let held : lookup m (handlers n) ≡ some _ = ground arith in
        (n, there, held, handled_of_lookup m (handlers n) held)
  ]

  -- A node with handlers has one for some method.
  handler_of_handled :
      (p : List Edge) (r n : Route H)
      → node_at p r ≡ some n
      → is_empty (handlers n) ≡ false
      → (m : Str) × (handler_at p m r ≢ none)
  handler_of_handled p r (node st dy []) leads handled = absurd (ground arith)
  handler_of_handled p r (node st dy ((m, x) ∷ hs)) leads handled =
      (m, unfold handler_at lookup in rw leads (ground (arith, eq_refl m)))

  -- If `find` answers that nothing is found, no pattern that accepts the path's segments has a
  -- handler, for any method.
  pub find-eq-not_found :
      (path method : Str) (r : Route H) (p : List Edge) (m : Str)
      → find path method r ≡ not_found
      → Matches p (segments_of path)
      → handler_at p m r ≡ none
  unfolding find
  find-eq-not_found path method r p m e ok = elim (Option-cases (handler_at p m r)) [
    | inl missing ↦ missing
    | inr (x, held) ↦
        let (n, leads, _, handled) = handler_at-eq-some p m r held in
        absurd (
          match_recursive-ne-none (segments_of path) p r n [] ok leads handled
            ((select-eq-not_found_iff method _).0 e))
  ]

  select-eq-wrong_method :
      (method : Str) (result : Option (Route H) × HashMap Str Str)
      → select method result ≡ wrong_method
      → (n : Route H) × (params : HashMap Str Str) × (result ≡ (some n, params))
        × (lookup method (handlers n) ≡ none)
  unfolding select
  select-eq-wrong_method method (none, params) e = absurd (ground arith)
  select-eq-wrong_method method (some n, params) e = (n, params, refl, ground arith)

  -- If `find` answers that the method is wrong, some pattern that accepts the path's segments has
  -- a handler for another method and none for this one.
  pub find-eq-wrong_method :
      (path method : Str) (r : Route H)
      → find path method r ≡ wrong_method
      → (p : List Edge) × Matches p (segments_of path)
        × (handler_at p method r ≡ none)
        × (m : Str) × (handler_at p m r ≢ none)
  unfolding find
  find-eq-wrong_method path method r e =
      let (n, params, result, missing) = select-eq-wrong_method method _ e in
      let reached = match_recursive-IsReached (segments_of path) r n [] params result in
      let (m, other) = handler_of_handled reached.pattern r n reached.leads reached.handled in
      (reached.pattern, reached.accepted, unfold handler_at in rw reached.leads missing, m, other)

  -- A handler whose pattern is the path itself, with no parameter, is what `find` answers with,
  -- whatever other patterns accept the path, and no parameter is bound.
  pub find-literal :
      (path method : Str) (r : Route H) (h : H) (limit : Option ℕ)
      → handler_at (map literal (segments_of path)) method r ≡ some (h, limit)
      → find path method r ≡ found h [] limit
  unfolding find select
  find-literal path method r h limit held =
      let (n, leads, there, handled) = handler_at-eq-some _ method r held in
      rw (match_recursive-literal (segments_of path) r n [] leads handled) (rw (there, select))

  -- A route that is registered with a path of plain segments is what `find` answers with for that
  -- path and method, whatever the trie holds besides.
  pub find-insert_route :
      (path method : Str) (handler : H) (limit : Option ℕ) (r r' : Route H)
      → pattern_of path ≡ map literal (segments_of path)
      → insert_route path method handler limit r ≡ some r'
      → find path method r' ≡ found handler [] limit
  find-insert_route path method handler limit r r' plain e =
      find-literal path method r' handler limit (
        rw (← plain) (
          handler_at-insert_route path method handler limit r r' (pattern_of path) method e
          ∙ rw (eq_refl (pattern_of path), eq_refl method)))
