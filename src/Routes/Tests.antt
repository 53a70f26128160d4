-- ===== src/Routes/Tests.antt =====
-- Runs of the router on small tries, and instances of the theorems about it.
use rpress.Common.{
  runs, ℕ, String, none, some, List, [], ◌∷◌, Str, codes, ◌≡◌, ◌≢◌, refl, unwrap_or, arith,
}
use rpress.Routes.{Route, new, found, wrong_method, not_found, segments_of, insert_route, find}
use rpress.Routes.Pattern.{
  Edge, literal, param, edge, pattern_of, node_at, follow, Matches, Binds, handler_at, edge_beq,
}
use rpress.Routes.Names.{distinct_names, uses_name}
use rpress.Routes.Insertion.{handler_at-insert_route}
use rpress.Routes.Lookup.{find-Binds, find-eq-not_found, find-eq-wrong_method}

abbrev add : String → String → ℕ → Route ℕ → Route ℕ
add path method handler r = unwrap_or (insert_route (codes path) (codes method) handler none r) r

-- `/users/:id`, `/users/me` and `/a/:p/z` beside `/:q/b/c`
abbrev table : Route ℕ
table =
    add "/:q/b/c" "GET" 4
      (add "/a/:p/z" "GET" 3 (add "/users/me" "GET" 2 (add "/users/:id" "POST" 1 new)))

router : Unit {0}
unfolding runs insert_route find pattern_of edge handler_at node_at follow distinct_names uses_name
router = tt

find_tests :
    (find (codes "/users/42") (codes "POST") table ≡ found 1 ((codes "id", codes "42") ∷ []) none)
    × (find (codes "/users/me/") (codes "GET") table ≡ found 2 [] none)
    × (find (codes "/users/me") (codes "POST") table ≡ wrong_method)
    × (find (codes "/none") (codes "GET") table ≡ not_found)
unfolding router
find_tests = (refl, refl, refl, refl)

-- A parameter of a branch that was given up is still bound when the search succeeds elsewhere.
stale_parameter :
    find (codes "/a/b/c") (codes "GET") table
    ≡ found 4 ((codes "p", codes "b") ∷ (codes "q", codes "a") ∷ []) none
unfolding router
stale_parameter = refl

conflict : insert_route (codes "/users/:name") (codes "GET") 9 none table ≡ none
unfolding router
conflict = refl

handler_at-insert_route_example :
    handler_at
      (literal (codes "users") ∷ param (codes "id") ∷ [])
      (codes "POST")
      (add "/users/:id" "POST" 7 table)
    ≡ some (7, none)
unfolding router edge_beq
handler_at-insert_route_example =
    handler_at-insert_route (codes "/users/:id") (codes "POST") 7 none table
      (add "/users/:id" "POST" 7 table) (literal (codes "users") ∷ param (codes "id") ∷ [])
      (codes "POST") refl

find-Binds_example :
    (p : List Edge) × Matches p (segments_of (codes "/users/42"))
    × (handler_at p (codes "POST") table ≡ some (1, none))
    × Binds p (segments_of (codes "/users/42")) ((codes "id", codes "42") ∷ [])
unfolding router
find-Binds_example =
    find-Binds (codes "/users/42") (codes "POST") table 1 ((codes "id", codes "42") ∷ []) none refl
      refl

find-eq-not_found_example : handler_at (param (codes "q") ∷ []) (codes "GET") table ≡ none
unfolding router
find-eq-not_found_example =
    find-eq-not_found (codes "/none") (codes "GET") table (param (codes "q") ∷ []) (codes "GET")
      refl (omega arith)

find-eq-wrong_method_example :
    (p : List Edge) × Matches p (segments_of (codes "/users/me"))
    × (handler_at p (codes "POST") table ≡ none)
    × (m : Str) × (handler_at p m table ≢ none)
unfolding router
find-eq-wrong_method_example = find-eq-wrong_method (codes "/users/me") (codes "POST") table refl
