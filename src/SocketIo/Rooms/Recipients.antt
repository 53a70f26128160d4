-- ===== src/SocketIo/Rooms/Recipients.antt =====
-- The sockets in the rooms of a namespace, each once.

use rpress.Common.{
  ℕ, ◌+◌, ltb, Bool, false, not, ◌&&◌, ◌||◌, List, [], ◌∷◌, ◌++◌, Str, any, any-append,
  if◌then◌else◌, ◌==◌, eq_iff, nat_eq, list_eq, ◌≡◌, refl, ap, inl, inr, Bool-cases, arith,
}
use rpress.SocketIo.Rooms.{Rooms}

-- Those of the members who are not seen yet, each once.
unfoldable pub unseen : List Str → List Str → List Str
unseen [] seen = []
unseen (s ∷ members) seen =
    let later = unseen members (seen ++ s ∷ []) in
    let skip = unseen members seen in if any (λ x. x == s) seen then skip else s ∷ later

-- The sockets in the rooms of a namespace, each once.
unfoldable pub sockets_in : Str → Rooms → List Str → List Str
sockets_in namespace [] seen = []
sockets_in namespace ((key, members) ∷ rooms) seen =
    let here = unseen members seen in
    let later = sockets_in namespace rooms (seen ++ here) in
    let skip = sockets_in namespace rooms seen in if key.0 == namespace then here ++ later else skip

-- How often a socket is in a list.
unfoldable pub count : Str → List Str → ℕ
count s [] = 0
count s (x ∷ xs) = let rest = count s xs in if x == s then 1 + rest else rest

-- Whether a socket is in a room of the namespace.
unfoldable pub in_namespace : Str → Str → Rooms → Bool
in_namespace namespace s [] = false
in_namespace namespace s ((key, members) ∷ rooms) =
    key.0 == namespace && any (λ x. x == s) members || in_namespace namespace s rooms

abbrev pub once : Bool → ℕ
once b = if b then 1 else 0

count-append : (s : Str) (xs ys : List Str) → count s (xs ++ ys) ≡ count s xs + count s ys
unfolding count
count-append s [] ys = omega arith
count-append s (x ∷ xs) ys = ground (arith, count-append s xs ys)

any-count : (s : Str) (xs : List Str) → any (λ x. x == s) xs ≡ ltb 0 (count s xs)
unfolding count
any-count s [] = refl
any-count s (x ∷ xs) = ground (arith, any-count s xs)

count-unseen :
    (s : Str) (members seen : List Str)
    → count s (unseen members seen)
      ≡ once (any (λ x. x == s) members && not (any (λ x. x == s) seen))
unfolding count unseen
count-unseen s [] seen = refl
count-unseen s (x ∷ members) seen =
    let skip = count-unseen s members seen in
    let later = count-unseen s members (seen ++ x ∷ []) in
    let both = any-append (λ y. y == s) seen (x ∷ []) in
    elim (Bool-cases (x == s)) [
      | inl same ↦
          let e : x ≡ s = (eq_iff x s).0 same in
          let also : any (λ y. y == x) seen ≡ any (λ y. y == s) seen =
            ap (λ k. any (λ y. y == k) seen) e in
          ground (arith, same, also, skip, later, both)
      | inr other ↦ ground (arith, other, skip, later, both)
    ]

pub count-sockets_in :
    (namespace s : Str) (rooms : Rooms) (seen : List Str)
    → count s (sockets_in namespace rooms seen)
      ≡ once (in_namespace namespace s rooms && not (any (λ x. x == s) seen))
unfolding count sockets_in in_namespace
count-sockets_in namespace s [] seen = refl
count-sockets_in namespace s ((key, members) ∷ rooms) seen =
    let here = unseen members seen in
    let first = count-unseen s members seen in
    ground (
      arith,
      first,
      any-count s here,
      count-append s here (sockets_in namespace rooms (seen ++ here)),
      count-sockets_in namespace s rooms seen,
      count-sockets_in namespace s rooms (seen ++ here),
      any-append (λ x. x == s) seen here,
    )
