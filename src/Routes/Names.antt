-- ===== src/Routes/Names.antt =====
-- Parameter names in a trie, and which of them a search can bind.
use rpress.Common.{
  ℕ, Bool, true, false, not, ◌&&◌, ◌||◌, Option, none, some, List, [], ◌∷◌, Str, HashMap, lookup,
  insert, lookup-insert, ◌==◌, nat_eq, list_eq, ◌≡◌, refl, ◌∙◌, arith, Option-cases, inl, inr,
}
use rpress.Routes.{
  Route, node, Children, leaf, child, DynamicParam, absent, present, get_child, match_static,
  or_dynamic, match_recursive, Matcher,
}

unfoldable mutual
  -- Some route of the trie has a parameter of this name.
  pub uses_name : {H : Type 0} → Str → Route H → Bool
  uses_name name (node st dy hs) = uses_name_below name st || uses_name_dynamic name dy

  pub uses_name_below : {H : Type 0} → Str → Children H → Bool
  uses_name_below name leaf = false
  uses_name_below name (child k r rest) = uses_name name r || uses_name_below name rest

  pub uses_name_dynamic : {H : Type 0} → Str → DynamicParam H → Bool
  uses_name_dynamic name absent = false
  uses_name_dynamic name (present k r) = k == name || uses_name name r

unfoldable mutual
  -- No route of the trie names a parameter twice.
  pub distinct_names : {H : Type 0} → Route H → Bool
  distinct_names (node st dy hs) = distinct_below st && distinct_dynamic dy

  pub distinct_below : {H : Type 0} → Children H → Bool
  distinct_below leaf = true
  distinct_below (child k r rest) = distinct_names r && distinct_below rest

  pub distinct_dynamic : {H : Type 0} → DynamicParam H → Bool
  distinct_dynamic absent = true
  distinct_dynamic (present k r) = not (uses_name k r) && distinct_names r

module _ {H : Type 0} where
  distinct_below-get_child :
      (seg : Str) (c : Route H) (st : Children H)
      → distinct_below st ≡ true
      → get_child seg st ≡ some c
      → distinct_names c ≡ true
  unfolding distinct_names get_child
  distinct_below-get_child seg c leaf d e = absurd (ground arith)
  distinct_below-get_child seg c (child k r rest) d e =
      ground (arith, distinct_below-get_child seg c rest)

  pub distinct_names-get_child :
      (seg : Str) (c : Route H) (st : Children H) (dy : DynamicParam H)
      (hs : HashMap Str (H × Option ℕ))
      → distinct_names (node st dy hs) ≡ true
      → get_child seg st ≡ some c
      → distinct_names c ≡ true
  unfolding distinct_names
  distinct_names-get_child seg c st dy hs d e = distinct_below-get_child seg c st (ground arith) e

  uses_name-get_child :
      (name seg : Str) (c : Route H) (st : Children H)
      → uses_name_below name st ≡ false
      → get_child seg st ≡ some c
      → uses_name name c ≡ false
  unfolding uses_name get_child
  uses_name-get_child name seg c leaf d e = absurd (ground arith)
  uses_name-get_child name seg c (child k r rest) d e =
      ground (arith, uses_name-get_child name seg c rest)

  -- A search leaves the names that the trie does not use as they were.
  abbrev Keeps : Str → Matcher H → Route H → Type 0
  Keeps name next r =
      (params : HashMap Str Str) → lookup name (next r params).1 ≡ lookup name params

  match_static-Keeps :
      (next : Matcher H) (name seg : Str) (st : Children H) (params : HashMap Str Str)
      → ((c : Route H) → uses_name name c ≡ false → Keeps name next c)
      → uses_name_below name st ≡ false
      → lookup name (match_static next seg st params).1 ≡ lookup name params
  unfolding match_static
  match_static-Keeps next name seg st params keeps unused = elim (Option-cases (get_child seg st)) [
    | inl missing ↦ ground arith
    | inr (c, there) ↦
        ground (arith, keeps c (uses_name-get_child name seg c st unused there) params)
  ]

  or_dynamic-Keeps :
      (next : Matcher H) (name seg : Str) (dy : DynamicParam H)
      (result : Option (Route H) × HashMap Str Str)
      → ((c : Route H) → uses_name name c ≡ false → Keeps name next c)
      → uses_name_dynamic name dy ≡ false
      → lookup name (or_dynamic next seg dy result).1 ≡ lookup name result.1
  unfolding or_dynamic uses_name
  or_dynamic-Keeps next name seg dy (some r, params) keeps unused = refl
  or_dynamic-Keeps next name seg absent (none, params) keeps unused = refl
  or_dynamic-Keeps next name seg (present k c) (none, params) keeps unused =
      ground (arith, keeps c (ground arith) (insert k seg params), lookup-insert k name seg params)

  pub lookup-match_recursive_unused :
      (segs : List Str) (name : Str) (r : Route H) (params : HashMap Str Str)
      → uses_name name r ≡ false
      → lookup name (match_recursive segs r params).1 ≡ lookup name params
  unfolding match_recursive uses_name
  lookup-match_recursive_unused [] name r params unused = refl
  lookup-match_recursive_unused (seg ∷ segs) name (node st dy hs) params unused =
      let keeps = λ (c : Route H) (u : uses_name name c ≡ false) (ps : HashMap Str Str).
        lookup-match_recursive_unused segs name c ps u in
      or_dynamic-Keeps (match_recursive segs) name seg dy
        (match_static (match_recursive segs) seg st params) keeps (ground arith)
      ∙ match_static-Keeps (match_recursive segs) name seg st params keeps (ground arith)

  pub distinct_names-present :
      (name : Str) (c : Route H) (st : Children H) (dy : DynamicParam H)
      (hs : HashMap Str (H × Option ℕ))
      → distinct_names (node st dy hs) ≡ true
      → dy ≡ present name c
      → (uses_name name c ≡ false) × (distinct_names c ≡ true)
  unfolding distinct_names
  distinct_names-present name c st absent hs d e = absurd (ground arith)
  distinct_names-present name c st (present k r) hs d e = (ground arith, ground arith)
