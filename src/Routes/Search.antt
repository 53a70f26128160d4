-- ===== src/Routes/Search.antt =====
-- What the search of a trie finds: a pattern that accepts the request's segments.
use rpress.Common.{
  true, false, Option, none, some, List, [], ◌∷◌, map, Str, HashMap, lookup, insert, eq_refl,
  lookup-insert, sym, ap, ◌∙◌, nat_eq, list_eq, ◌≡◌, ◌≢◌, refl, arith, Bool-cases, Option-cases,
  inl, inr, ◌⊎◌, is_empty,
}
use rpress.Routes.{
  Route, node, Children, DynamicParam, absent, present, Matcher, handlers, get_child, match_static,
  match_dynamic, or_dynamic, match_recursive,
}
use rpress.Routes.Pattern.{
  Edge, literal, param, Matches, Binds, follow, follow_dynamic, node_at, node_at-step,
  follow_dynamic-eq-some,
}
use rpress.Routes.Names.{
  distinct_names, distinct_names-get_child, distinct_names-present, lookup-match_recursive_unused,
}

module _ {H : Type 0} where
  -- The search stopped at `n` below `r`: a pattern leads there and accepts the segments, and `n`
  -- has a handler.
  pub record IsReached (segs : List Str) (r n : Route H) (params : HashMap Str Str) : Type 0 where
    pub pattern : List Edge
    pub accepted : Matches pattern segs
    pub leads : node_at pattern r ≡ some n
    pub handled : is_empty (handlers n) ≡ false
    pub bound : distinct_names r ≡ true → Binds pattern segs params

  match_static-eq-some :
      (next : Matcher H) (seg : Str) (st : Children H) (params : HashMap Str Str) {n : Route H}
      {params' : HashMap Str Str}
      → match_static next seg st params ≡ (some n, params')
      → (c : Route H) × (get_child seg st ≡ some c) × (next c params ≡ (some n, params'))
  unfolding match_static
  match_static-eq-some next seg st params e = elim (Option-cases (get_child seg st)) [
    | inl missing ↦ absurd (ground arith)
    | inr (c, there) ↦ (c, there, ground arith)
  ]

  match_static_lem :
      (next : Matcher H) (seg : Str) (st : Children H) (params : HashMap Str Str) (c : Route H)
      → get_child seg st ≡ some c
      → match_static next seg st params ≡ next c params
  unfolding match_static
  match_static_lem next seg st params c there = rw (there, match_static)

  or_dynamic-eq-some :
      (next : Matcher H) (seg : Str) (dy : DynamicParam H)
      (result : Option (Route H) × HashMap Str Str) {n : Route H} {params' : HashMap Str Str}
      → or_dynamic next seg dy result ≡ (some n, params')
      → (result ≡ (some n, params'))
        ⊎ ((name : Str) × (c : Route H) × (dy ≡ present name c)
            × (next c (insert name seg result.1) ≡ (some n, params')))
  unfolding or_dynamic match_dynamic
  or_dynamic-eq-some next seg dy (some m, params) e = inl e
  or_dynamic-eq-some next seg absent (none, params) e = absurd (ground arith)
  or_dynamic-eq-some next seg (present name c) (none, params) e = inr (name, c, refl, e)

  pub match_recursive-IsReached :
      (segs : List Str) (r n : Route H) (params params' : HashMap Str Str)
      → match_recursive segs r params ≡ (some n, params')
      → IsReached segs r n params'
  unfolding match_recursive node_at follow follow_dynamic
  match_recursive-IsReached [] r n params params' e = elim (Bool-cases (is_empty (handlers r))) [
    | inl bare ↦ absurd (ground arith)
    | inr handled ↦
        let same : r ≡ n = ground arith in
        record {
          pattern = [];
          accepted = tt;
          leads = ground arith;
          handled = rw (← same) handled;
          bound = λ _. tt;
        }
  ]
  match_recursive-IsReached (seg ∷ segs) (node st dy hs) n params params' e =
      elim (or_dynamic-eq-some (match_recursive segs) seg dy
        (match_static (match_recursive segs) seg st params) e) [
          | inl static ↦
              let (c, there, deeper) =
                match_static-eq-some (match_recursive segs) seg st params static in
              let ih = match_recursive-IsReached segs c n params params' deeper in
              record {
                pattern = literal seg ∷ ih.pattern;
                accepted = (refl, ih.accepted);
                leads = node_at-step (literal seg) ih.pattern (node st dy hs) c there ∙ ih.leads;
                handled = ih.handled;
                bound = λ d. ih.bound (distinct_names-get_child seg c st dy hs d there);
              }
          | inr (name, c, there, deeper) ↦
              let params₁ = (match_static (match_recursive segs) seg st params).1 in
              let ih =
                match_recursive-IsReached segs c n (insert name seg params₁) params' deeper in
              let followed : follow (param name) (node st dy hs) ≡ some c =
                ground (arith, eq_refl name) in
              record {
                pattern = param name ∷ ih.pattern;
                accepted = (tt, ih.accepted);
                leads = node_at-step (param name) ih.pattern (node st dy hs) c followed ∙ ih.leads;
                handled = ih.handled;
                bound = λ d.
                    let (unused, distinct) = distinct_names-present name c st dy hs d there in
                    let kept =
                      lookup-match_recursive_unused segs name c (insert name seg params₁) unused in
                    (
                      ap (λ s. lookup name s.1) (sym deeper)
                          ∙ kept
                          ∙ (lookup-insert name name seg params₁ ∙ rw (eq_refl name)),
                      ih.bound distinct,
                    );
              }
        ]

  or_dynamic-found :
      (next : Matcher H) (seg : Str) (dy : DynamicParam H)
      (result : Option (Route H) × HashMap Str Str)
      → result.0 ≢ none
      → (or_dynamic next seg dy result).0 ≢ none
  unfolding or_dynamic
  or_dynamic-found next seg dy (some r, params) h = h
  or_dynamic-found next seg dy (none, params) h = absurd (h refl)

  or_dynamic-ne-none :
      (next : Matcher H) (seg name : Str) (c : Route H)
      (result : Option (Route H) × HashMap Str Str)
      → ((params : HashMap Str Str) → (next c params).0 ≢ none)
      → (or_dynamic next seg (present name c) result).0 ≢ none
  unfolding or_dynamic match_dynamic
  or_dynamic-ne-none next seg name c (some r, params) h = λ e. cc
  or_dynamic-ne-none next seg name c (none, params) h = h (insert name seg params)

  -- Whatever pattern accepts the segments and leads to a node with a handler, the search ends at
  -- some node.
  pub match_recursive-ne-none :
      (segs : List Str) (p : List Edge) (r n : Route H) (params : HashMap Str Str)
      → Matches p segs
      → node_at p r ≡ some n
      → is_empty (handlers n) ≡ false
      → (match_recursive segs r params).0 ≢ none
  unfolding match_recursive node_at follow
  match_recursive-ne-none [] [] r n params ok leads handled = ground arith
  match_recursive-ne-none [] (a ∷ p) r n params ok leads handled = absurd ok
  match_recursive-ne-none (seg ∷ segs) [] r n params ok leads handled = absurd ok
  match_recursive-ne-none (seg ∷ segs) (literal k ∷ p) (node st dy hs) n params (same, ok) leads
        handled =
      elim (Option-cases (get_child k st)) [
        | inl missing ↦ absurd (ground arith)
        | inr (c, there) ↦
            let ih = match_recursive-ne-none segs p c n params ok (ground arith) handled in
            or_dynamic-found (match_recursive segs) seg dy
              (match_static (match_recursive segs) seg st params)
              (rw (match_static_lem (match_recursive segs) seg st params c (rw same at there)) ih)
      ]
  match_recursive-ne-none (seg ∷ segs) (param k ∷ p) (node st dy hs) n params (_, ok) leads
        handled =
      elim (Option-cases (follow_dynamic k dy)) [
        | inl missing ↦ absurd (ground arith)
        | inr (c, there) ↦ rw (follow_dynamic-eq-some k dy c there) (
            or_dynamic-ne-none (match_recursive segs) seg k c _
              λ ps. match_recursive-ne-none segs p c n ps ok (ground arith) handled)
      ]

  -- A path that is registered as it stands is found before any pattern with parameters, and
  -- binds nothing.
  pub match_recursive-literal :
      (segs : List Str) (r n : Route H) (params : HashMap Str Str)
      → node_at (map literal segs) r ≡ some n
      → is_empty (handlers n) ≡ false
      → match_recursive segs r params ≡ (some n, params)
  unfolding match_recursive node_at follow or_dynamic
  match_recursive-literal [] r n params leads handled = ground arith
  match_recursive-literal (seg ∷ segs) (node st dy hs) n params leads handled =
      elim (Option-cases (get_child seg st)) [
        | inl missing ↦ absurd (ground arith)
        | inr (c, there) ↦ ap (or_dynamic (match_recursive segs) seg dy) (
            match_static_lem (match_recursive segs) seg st params c there
            ∙ match_recursive-literal segs c n params (ground arith) handled)
      ]
