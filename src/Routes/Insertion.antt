-- ===== src/Routes/Insertion.antt =====
-- What the insertion of a route changes in the table that a trie stands for.
use rpress.Common.{
  ℕ, ◌&&◌, Option, none, some, List, [], ◌∷◌, map, Str, codes, strip_prefix, lookup, lookup-insert,
  ◌==◌, eq_iff, nat_eq, list_eq, if◌then◌else◌, ◌≡◌, refl, arith, Bool-cases, Option-cases, inl,
  inr, list_beq, unwrap_or, retain, split, not, is_empty,
}
use rpress.Routes.{
  Route, node, Children, leaf, child, DynamicParam, absent, present, new, get_child, at_child,
  at_dynamic, insert_at, recursive_insert, insert_route, handlers,
}
use rpress.Routes.Pattern.{
  Edge, literal, param, edge, edge_eq, edge_beq, follow, follow_dynamic, node_at, handler_at,
  pattern_of,
}

module _ {H : Type 0} where
  at_child_lem :
      (f : Route H → Option (Route H)) (seg : Str) (st st' : Children H)
      → at_child f seg st ≡ some st'
      → (s : Route H) × (f (unwrap_or (get_child seg st) new) ≡ some s)
        × ((k : Str) → get_child k st' ≡ (if k == seg then some s else get_child k st))
  unfolding at_child get_child
  at_child_lem f seg leaf st' e = elim (Option-cases (f new)) [
    | inl failed ↦ absurd (ground arith)
    | inr (s, made) ↦ (s, made, λ k. ground (arith, eq_iff k seg, eq_iff seg k))
  ]
  at_child_lem f seg (child k r rest) st' e = elim (Bool-cases (k == seg)) [
    | inl here ↦ elim (Option-cases (f r)) [
      | inl failed ↦ absurd (ground arith)
      | inr (s, made) ↦
          (s, ground arith, λ j. ground (arith, eq_iff j seg, eq_iff k seg, eq_iff k j))
    ]
    | inr other ↦ elim (Option-cases (at_child f seg rest)) [
      | inl failed ↦ absurd (ground arith)
      | inr (rest', made) ↦
          let (s, made', others) = at_child_lem f seg rest rest' made in
          (s, ground arith, λ j. ground (arith, others j, eq_iff j seg, eq_iff k seg, eq_iff k j))
    ]
  ]

  at_dynamic_lem :
      (f : Route H → Option (Route H)) (name : Str) (dy dy' : DynamicParam H)
      → at_dynamic f name dy ≡ some dy'
      → (s : Route H) × (f (unwrap_or (follow_dynamic name dy) new) ≡ some s)
        × ((k : Str) → follow_dynamic k dy' ≡ (if k == name then some s else follow_dynamic k dy))
  unfolding at_dynamic follow_dynamic
  at_dynamic_lem f name absent dy' e = elim (Option-cases (f new)) [
    | inl failed ↦ absurd (ground arith)
    | inr (s, made) ↦ (s, made, λ k. ground (arith, eq_iff k name, eq_iff name k))
  ]
  at_dynamic_lem f name (present existing r) dy' e = elim (Bool-cases (existing == name)) [
    | inl here ↦ elim (Option-cases (f r)) [
      | inl failed ↦ absurd (ground arith)
      | inr (s, made) ↦ (
        s,
        ground arith,
        λ k. ground (arith, eq_iff k name, eq_iff existing name, eq_iff existing k),
      )
    ]
    | inr other ↦ absurd (ground arith)
  ]

  -- One level of an insertion: the edge leads to what `f` made of the node below, the other
  -- edges lead where they led, and the handlers stay.
  insert_at_lem :
      (f : Route H → Option (Route H)) (seg : Str) (r r' : Route H)
      → insert_at f seg r ≡ some r'
      → (s : Route H) × (f (unwrap_or (follow (edge seg) r) new) ≡ some s)
        × (handlers r' ≡ handlers r)
        × ((a : Edge) → follow a r' ≡ (if a == edge seg then some s else follow a r))
  unfolding insert_at edge follow edge_beq strip_prefix
  insert_at_lem f seg (node st dy hs) r' e = elim (Option-cases (strip_prefix (codes ":") seg)) [
    | inl plain ↦ elim (Option-cases (at_child f seg st)) [
      | inl failed ↦ absurd (ground arith)
      | inr (st', made) ↦
          let (s, below, others) = at_child_lem f seg st st' made in
          let same : r' ≡ node st' dy hs = ground arith in
          rw (same, plain) (s, below, refl, elim [ literal k ↦ others k | param k ↦ refl ])
    ]
    | inr (name, dynamic) ↦ elim (Option-cases (at_dynamic f name dy)) [
      | inl failed ↦ absurd (ground arith)
      | inr (dy', made) ↦
          let (s, below, others) = at_dynamic_lem f name dy dy' made in
          let same : r' ≡ node st dy' hs = ground arith in
          rw (same, dynamic) (s, below, refl, elim [ literal k ↦ refl | param k ↦ others k ])
    ]
  ]

  handler_at-new : (p : List Edge) (method : Str) → handler_at {H = H} p method new ≡ none
  unfolding handler_at node_at follow lookup
  handler_at-new [] method = refl
  handler_at-new (literal k ∷ p) method = refl
  handler_at-new (param k ∷ p) method = refl

  -- What an unknown edge would lead to holds nothing.
  handler_at-or_new :
      (a : Edge) (p : List Edge) (m : Str) (r : Route H)
      → handler_at (a ∷ p) m r ≡ handler_at p m (unwrap_or (follow a r) new)
  handler_at-or_new a p m r = elim (Option-cases (follow a r)) [
    | inl missing ↦
        rw (missing, handler_at-new p m) (unfold handler_at node_at in rw (missing, node_at))
    | inr (s, there) ↦ rw there (unfold handler_at node_at in rw (there, node_at))
  ]

  handler_at-step :
      (a : Edge) (p : List Edge) (m : Str) (r s : Route H)
      → follow a r ≡ some s
      → handler_at (a ∷ p) m r ≡ handler_at p m s
  handler_at-step a p m r s there = unfold handler_at node_at in rw (there, node_at)

  handler_at-same :
      (a : Edge) (p : List Edge) (m : Str) (r s : Route H)
      → follow a s ≡ follow a r
      → handler_at (a ∷ p) m s ≡ handler_at (a ∷ p) m r
  handler_at-same a p m r s e = unfold handler_at node_at in rw (e, node_at)

  -- After an insertion that does not panic, the entry of the inserted pattern and method is the
  -- inserted handler with its body limit, and every other entry is what it was.
  pub handler_at-recursive_insert :
      (segs : List Str) (method : Str) (handler : H) (limit : Option ℕ) (r r' : Route H)
      (p : List Edge) (m : Str)
      → recursive_insert segs method handler limit r ≡ some r'
      → handler_at p m r'
        ≡ (if p == map edge segs && m == method then some (handler, limit) else handler_at p m r)
  unfolding recursive_insert handler_at node_at follow list_beq
  handler_at-recursive_insert [] method handler limit (node st dy hs) r' [] m e =
      ground (arith, lookup-insert method m (handler, limit) hs, eq_iff method m, eq_iff m method)
  handler_at-recursive_insert [] method handler limit (node st dy hs) r' (literal k ∷ p) m e =
      ground arith
  handler_at-recursive_insert [] method handler limit (node st dy hs) r' (param k ∷ p) m e =
      ground arith
  handler_at-recursive_insert (seg ∷ segs) method handler limit r r' [] m e =
      let (s, below, same, others) =
        insert_at_lem (recursive_insert segs method handler limit) seg r r' e in
      rw same refl
  handler_at-recursive_insert (seg ∷ segs) method handler limit r r' (a ∷ p) m e =
      let (s, below, same, others) =
        insert_at_lem (recursive_insert segs method handler limit) seg r r' e in
      let old = handler_at-or_new a p m r in
      elim (Bool-cases (a == edge seg)) [
        | inl here ↦
            let same_edge = (eq_iff a (edge seg)).0 here in
            let below' : recursive_insert segs method handler limit (unwrap_or (follow a r) new)
                ≡ some s =
              rw same_edge below in
            let ih = handler_at-recursive_insert segs method handler limit _ s p m below' in
            ground (arith, handler_at-step a p m r' s (ground (arith, others a)))
        | inr other ↦ ground (arith, handler_at-same a p m r r' (ground (arith, others a)))
      ]

  -- A registration that succeeds sets the handler of its own pattern and method, and leaves the
  -- handler of every other pattern or method as it was.
  pub handler_at-insert_route :
      (path method : Str) (handler : H) (limit : Option ℕ) (r r' : Route H) (p : List Edge)
      (m : Str)
      → insert_route path method handler limit r ≡ some r'
      → handler_at p m r'
        ≡ (if p == pattern_of path && m == method then some (handler, limit) else handler_at p m r)
  unfolding insert_route pattern_of
  handler_at-insert_route path method handler limit r r' p m e =
      handler_at-recursive_insert (retain (λ s. not (is_empty s)) (split b'/' path)) method handler
        limit r r' p m e
