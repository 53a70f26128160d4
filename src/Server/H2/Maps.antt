-- ===== src/Server/H2/Maps.antt =====
-- engine/src/core/h2_handler.rs: the headers and the query of a stream, and those that a client of
-- HTTP/1.1 would have sent.
use rpress.Common.{
  Option, none, some, List, [], ◌∷◌, ◌++◌, Str, codes, HashMap, lookup, insert, lookup-insert,
  eq_iff, join, unwrap_or, if◌then◌else◌, ◌==◌, nat_eq, list_eq, append_assoc, ◌≡◌, refl, ap, ◌∙◌,
  inl, inr, Bool-cases,
}
use rpress.Server.H2.{joined, header_map}

-- The texts of the headers of a name, in their order.
pub texts : (Str → Str) → Str → List (Str × Option Str) → List Str
texts lower key [] = []
texts lower key ((name, value) ∷ headers) =
    let rest = texts lower key headers in
    if lower name == key then unwrap_or value [] ∷ rest else rest

extend : Option Str → List Str → Option Str
extend o [] = o
extend o (v ∷ vs) = extend (some (joined o v)) vs

-- The texts behind one another, or none.
pub join_texts : List Str → Option Str
join_texts [] = none
join_texts (v ∷ vs) = some (join (codes ", ") (v ∷ vs))

lookup-header_map_from :
    (lower : Str → Str) (m : HashMap Str Str) (headers : List (Str × Option Str)) (key : Str)
    → lookup key (header_map lower m headers) ≡ extend (lookup key m) (texts lower key headers)
unfolding header_map texts extend
lookup-header_map_from lower m [] key = refl
lookup-header_map_from lower m ((name, value) ∷ headers) key =
    let at = lower name in
    let text = unwrap_or value [] in
    let later =
      lookup-header_map_from lower (insert at (joined (lookup at m) text) m) headers key in
    let found = lookup-insert at key (joined (lookup at m) text) m in
    elim (Bool-cases (at == key)) [
      | inl same ↦
          let here : lookup key (insert at (joined (lookup at m) text) m)
              ≡ some (joined (lookup key m) text) =
            found ∙ rw (same, (eq_iff at key).0 same) refl in
          rw same (later ∙ ap (λ o. extend o (texts lower key headers)) here)
      | inr other ↦
          let there : lookup key (insert at (joined (lookup at m) text) m) ≡ lookup key m =
            found ∙ rw other refl in
          rw other (later ∙ ap (λ o. extend o (texts lower key headers)) there)
    ]

join-append :
    (a s v : Str) (vs : List Str) → join s ((a ++ (s ++ v)) ∷ vs) ≡ a ++ (s ++ join s (v ∷ vs))
unfolding join
join-append a s v [] = refl
join-append a s v (w ∷ ws) =
    append_assoc a (s ++ v) (s ++ join s (w ∷ ws))
    ∙ ap (λ t. a ++ t) (append_assoc s v (s ++ join s (w ∷ ws)))

extend-some : (a : Str) (vs : List Str) → extend (some a) vs ≡ some (join (codes ", ") (a ∷ vs))
unfolding extend join joined
extend-some a [] = refl
extend-some a (v ∷ vs) =
    extend-some (a ++ (codes ", " ++ v)) vs ∙ ap some (join-append a (codes ", ") v vs)

extend-none : (vs : List Str) → extend none vs ≡ join_texts vs
unfolding extend joined join_texts
extend-none [] = refl
extend-none (v ∷ vs) = extend-some v vs

-- A handler of a stream reads under a name the texts of all headers of that name, whatever their
-- case, in their order, with a comma and a space between them; an ill-formed one as an empty text.
pub lookup-header_map :
    (lower : Str → Str) (headers : List (Str × Option Str)) (key : Str)
    → lookup key (header_map lower [] headers) ≡ join_texts (texts lower key headers)
unfolding lookup
lookup-header_map lower headers key =
    lookup-header_map_from lower [] headers key ∙ extend-none (texts lower key headers)
