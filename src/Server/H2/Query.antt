-- ===== src/Server/H2/Query.antt =====
-- engine/src/core/h2_handler.rs and request.rs: the two parsers of a query.
use rpress.Common.{
  ℕ, zero, suc, ◌+◌, Bool, true, not, none, some, List, [], ◌∷◌, map, Str, codes, HashMap, insert,
  all, All, drop, position, strip_prefix, split, split_once, cons_part, is_empty, if◌then◌else◌,
  ◌==◌, nat_eq, list_eq, ◌≡◌, refl, arith, inl, inr, Bool-cases, Option-cases,
}
use rpress.Request.Uri
use rpress.Request.Uri.{query_value, query_pairs}
use rpress.Server.H2.{add_pairs, parse_query_string}

-- A text without the sign of an escape.
abbrev pub is_plain : Str → Bool
is_plain = all (λ c. not (c == b'%'))

abbrev plus_to_space : Str → Str
plus_to_space = map (λ c. if c == b'+' then b' ' else c)

position-plain : (s : Str) → is_plain s ≡ true → position (codes "%") s ≡ none
unfolding position strip_prefix
position-plain [] h = refl
position-plain (c ∷ s) h = ground (arith, position-plain s)

all-drop : (n : ℕ) (s : Str) → is_plain s ≡ true → is_plain (drop n s) ≡ true
all-drop zero s h = h
all-drop (suc n) [] h = refl
all-drop (suc n) (c ∷ s) h = all-drop n s (ground arith)

plain_plus : (s : Str) → is_plain s ≡ true → is_plain (plus_to_space s) ≡ true
plain_plus [] h = refl
plain_plus (c ∷ s) h = ground (arith, plain_plus s)

AllPlain : List Str → Type 0
AllPlain = All (λ s. is_plain s ≡ true)

cons_part-AllPlain :
    (c : ℕ) (ps : List Str) → not (c == b'%') ≡ true → AllPlain ps → AllPlain (cons_part c ps)
unfolding AllPlain cons_part
cons_part-AllPlain c [] h k = (ground arith, tt)
cons_part-AllPlain c (p ∷ ps) h (k, ks) = (ground arith, ks)

split-AllPlain : (sep : ℕ) (s : Str) → is_plain s ≡ true → AllPlain (split sep s)
unfolding AllPlain split
split-AllPlain sep [] h = (refl, tt)
split-AllPlain sep (c ∷ s) h = elim (Bool-cases (c == sep)) [
  | inl cut ↦ rw cut (refl, split-AllPlain sep s (ground arith))
  | inr kept ↦
      rw kept
        (cons_part-AllPlain c (split sep s) (ground arith) (split-AllPlain sep s (ground arith)))
]

split_once-plain :
    (q key value : Str)
    → is_plain q ≡ true
    → split_once (codes "=") q ≡ some (key, value)
    → is_plain value ≡ true
unfolding split_once
split_once-plain q key value h cut = elim (Option-cases (position (codes "=") q)) [
  | inl none_there ↦ absurd (ground arith)
  | inr (i, there) ↦
      let at : drop (i + 1) q ≡ value = ground arith in rw (← at) (all-drop (i + 1) q h)
]

module _ (captures : Str → List Str) where
  query_value-plain : (s : Str) → is_plain s ≡ true → query_value captures s ≡ plus_to_space s
  unfolding query_value
  query_value-plain s h = rw (position-plain (plus_to_space s) (plain_plus s h)) refl

  query_pairs-eq-add_pairs :
      (result : HashMap Str Str) (qs : List Str)
      → AllPlain qs
      → query_pairs captures result qs ≡ add_pairs result qs
  unfolding query_pairs add_pairs AllPlain
  query_pairs-eq-add_pairs result [] h = refl
  query_pairs-eq-add_pairs result (q ∷ qs) (h, hs) =
      elim (Option-cases (split_once (codes "=") q)) [
        | inl whole ↦ rw (whole, query_pairs, add_pairs) (query_pairs-eq-add_pairs result qs hs)
        | inr ((key, value), cut) ↦
            let at_value = query_value-plain value (split_once-plain q key value h cut) in
            elim (Bool-cases (is_empty key)) [
              | inl empty ↦
                  rw (cut, query_pairs, add_pairs, empty) (query_pairs-eq-add_pairs result qs hs)
              | inr named ↦
                  rw (cut, query_pairs, add_pairs, named, at_value)
                    (query_pairs-eq-add_pairs (insert key (plus_to_space value) result) qs hs)
            ]
      ]

  -- A query without the sign of an escape means the same to a handler over HTTP/1.1 and over
  -- HTTP/2.
  pub parse_query_string-eq :
      (query_path : Str)
      → is_plain query_path ≡ true
      → Uri.parse_query_string captures query_path ≡ parse_query_string query_path
  unfolding Uri.parse_query_string parse_query_string
  parse_query_string-eq query_path h = elim (Bool-cases (is_empty query_path)) [
    | inl none_there ↦ rw none_there refl
    | inr some_there ↦
        rw some_there
          (query_pairs-eq-add_pairs [] (split b'&' query_path) (split-AllPlain b'&' query_path h))
  ]
