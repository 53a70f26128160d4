-- ===== src/SocketIo/Rooms/Members.antt =====
-- Rooms as a relation of rooms and sockets, and what each operation makes of it.
use rpress.Common.{
  Bool, true, false, not, ◌&&◌, ◌||◌, Option, none, some, List, [], ◌∷◌, Str, lookup, insert,
  remove, lookup-insert, lookup-remove, any, any-append, is_empty, ◌==◌, eq_iff, nat_eq, list_eq,
  pair_eq, unwrap_or, ◌≡◌, refl, sym, ap, ◌∙◌, inl, inr, Bool-cases, Option-cases, arith,
}
use rpress.SocketIo.Rooms.{
  RoomKey, Rooms, set_insert, set_remove, join_room, leave_room, leave_rooms,
}

-- Whether the socket is in the room.
unfoldable pub is_in : Str → Option (List Str) → Bool
is_in s none = false
is_in s (some set) = any (λ x. x == s) set

unfoldable pub member : RoomKey → Str → Rooms → Bool
unfolding is_in
member key s rooms = is_in s (lookup key rooms)

any-set_insert :
    (s t : Str) (set : List Str)
    → any (λ x. x == t) (set_insert s set) ≡ (s == t || any (λ x. x == t) set)
unfolding set_insert
any-set_insert s t set = elim (Bool-cases (any (λ x. x == s) set)) [
  | inl there ↦ rw there (elim (Bool-cases (s == t)) [
    | inl same ↦
        let e : s ≡ t = (eq_iff s t).0 same in
        ground (arith, same, ap (λ u. any (λ x. x == u) set) e, there)
    | inr other ↦ rw other refl
  ])
  | inr missing ↦ rw missing (ground (arith, any-append (λ x. x == t) set (s ∷ [])))
]

any-set_remove :
    (s t : Str) (set : List Str)
    → any (λ x. x == t) (set_remove s set) ≡ (any (λ x. x == t) set && not (s == t))
unfolding set_remove
any-set_remove s t [] = refl
any-set_remove s t (x ∷ set) =
    ground (arith, any-set_remove s t set, eq_iff x s, eq_iff x t, eq_iff s t)

-- Every room is listed once, and none is empty.
unfoldable pub IsRooms : Rooms → Type 0
IsRooms [] = Unit
IsRooms ((key, members) ∷ rooms) =
    (lookup key rooms ≡ none) × (is_empty members ≡ false) × IsRooms rooms

pub insert-IsRooms :
    (key : RoomKey) (members : List Str) (rooms : Rooms)
    → is_empty members ≡ false
    → IsRooms rooms
    → IsRooms (insert key members rooms)
unfolding IsRooms insert lookup
insert-IsRooms key members [] some_one h = (refl, some_one, tt)
insert-IsRooms key members ((k, ms) ∷ rooms) some_one (fresh, full, h) =
    elim (Bool-cases (k == key)) [
      | inl same ↦ rw same (fresh, some_one, h)
      | inr other ↦ rw other (
        ground (arith, other, eq_iff k key, eq_iff key k, fresh, lookup-insert key k members rooms),
        full,
        insert-IsRooms key members rooms some_one h,
      )
    ]

pub remove-IsRooms : (key : RoomKey) (rooms : Rooms) → IsRooms rooms → IsRooms (remove key rooms)
unfolding IsRooms remove
remove-IsRooms key [] h = tt
remove-IsRooms key ((k, ms) ∷ rooms) (fresh, full, h) = elim (Bool-cases (k == key)) [
  | inl same ↦ rw same (remove-IsRooms key rooms h)
  | inr other ↦
      rw other (ground (arith, fresh, lookup-remove key k rooms), full, remove-IsRooms key rooms h)
]

pub lookup-leave_rooms :
    (s : Str) (key : RoomKey) (rooms : Rooms)
    → lookup key rooms ≡ none
    → lookup key (leave_rooms s rooms) ≡ none
unfolding leave_rooms lookup
lookup-leave_rooms s key [] h = refl
lookup-leave_rooms s key ((k, ms) ∷ rooms) h = elim (Bool-cases (k == key)) [
  | inl same ↦ absurd (ground (arith, same, h))
  | inr other ↦
      let later : lookup key (leave_rooms s rooms) ≡ none =
        lookup-leave_rooms s key rooms (ground (arith, other, h)) in
      elim (Bool-cases (is_empty (set_remove s ms))) [
        | inl left ↦ rw left later
        | inr stays ↦ rw (stays, other) later
      ]
]

pub leave_rooms-IsRooms : (s : Str) (rooms : Rooms) → IsRooms rooms → IsRooms (leave_rooms s rooms)
unfolding IsRooms leave_rooms
leave_rooms-IsRooms s [] h = tt
leave_rooms-IsRooms s ((k, ms) ∷ rooms) (fresh, full, h) =
    elim (Bool-cases (is_empty (set_remove s ms))) [
      | inl left ↦ rw left (leave_rooms-IsRooms s rooms h)
      | inr stays ↦
          rw stays (lookup-leave_rooms s k rooms fresh, stays, leave_rooms-IsRooms s rooms h)
    ]

any-is_empty : (t : Str) (set : List Str) → is_empty set ≡ true → any (λ x. x == t) set ≡ false
any-is_empty t [] h = refl
any-is_empty t (x ∷ set) h = cc

-- A room that nobody is left in had no other socket.
any-set_remove-nobody :
    (s t : Str) (set : List Str)
    → is_empty (set_remove s set) ≡ true
    → any (λ x. x == t) set && not (s == t) ≡ false
any-set_remove-nobody s t set h = sym (any-set_remove s t set) ∙ any-is_empty t (set_remove s set) h

any-unwrap_or : (t : Str) (o : Option (List Str)) → any (λ x. x == t) (unwrap_or o []) ≡ is_in t o
unfolding is_in
any-unwrap_or t none = refl
any-unwrap_or t (some set) = refl

-- What the operations do to the relation.
pub member-join_room :
    (key k : RoomKey) (s t : Str) (rooms : Rooms)
    → member k t (join_room key s rooms) ≡ (key == k && s == t || member k t rooms)
unfolding member join_room
member-join_room key k s t rooms =
    let found = lookup-insert key k (set_insert s (unwrap_or (lookup key rooms) [])) rooms in
    let added = any-set_insert s t (unwrap_or (lookup key rooms) []) in
    elim (Bool-cases (key == k)) [
      | inl same ↦
          let e : key ≡ k = (eq_iff key k).0 same in
          let before : any (λ x. x == t) (unwrap_or (lookup key rooms) [])
              ≡ is_in t (lookup k rooms) =
            any-unwrap_or t (lookup key rooms) ∙ ap (λ q. is_in t (lookup q rooms)) e in
          rw (found, same) (added ∙ ap (λ b. s == t || b) before)
      | inr other ↦ rw (found, other) refl
    ]

pub member-leave_room :
    (key k : RoomKey) (s t : Str) (rooms : Rooms)
    → member k t (leave_room key s rooms) ≡ (member k t rooms && not (key == k && s == t))
unfolding member leave_room
member-leave_room key k s t rooms = elim (Option-cases (lookup key rooms)) [
  | inl unknown ↦ elim (Bool-cases (key == k)) [
    | inl same ↦
        let e : key ≡ k = (eq_iff key k).0 same in
        ground (arith, unknown, same, ap (λ q. lookup q rooms) (sym e) ∙ unknown)
    | inr other ↦ ground (arith, unknown, other)
  ]
  | inr (members, known) ↦ elim (Bool-cases (key == k)) [
    | inl same ↦
        let e : key ≡ k = (eq_iff key k).0 same in
        let there : lookup k rooms ≡ some members = ap (λ q. lookup q rooms) (sym e) ∙ known in
        elim (Bool-cases (is_empty (set_remove s members))) [
          | inl left ↦ ground (
            arith,
            known,
            there,
            same,
            left,
            lookup-remove key k rooms,
            any-set_remove-nobody s t members left,
          )
          | inr stays ↦ ground (
            arith,
            known,
            there,
            same,
            stays,
            lookup-insert key k (set_remove s members) rooms,
            any-set_remove s t members,
          )
        ]
    | inr other ↦ elim (Bool-cases (is_empty (set_remove s members))) [
      | inl left ↦ ground (arith, known, other, left, lookup-remove key k rooms)
      | inr stays ↦
          ground (arith, known, other, stays, lookup-insert key k (set_remove s members) rooms)
    ]
  ]
]

pub member-leave_rooms :
    (k : RoomKey) (s t : Str) (rooms : Rooms)
    → IsRooms rooms
    → member k t (leave_rooms s rooms) ≡ (member k t rooms && not (s == t))
unfolding member leave_rooms IsRooms lookup
member-leave_rooms k s t [] h = refl
member-leave_rooms k s t ((key, members) ∷ rooms) (fresh, full, h) =
    let later = member-leave_rooms k s t rooms h in
    elim (Bool-cases (key == k)) [
      | inl same ↦
          let e : key ≡ k = (eq_iff key k).0 same in
          let gone : lookup k (leave_rooms s rooms) ≡ none =
            lookup-leave_rooms s k rooms (ap (λ q. lookup q rooms) (sym e) ∙ fresh) in
          elim (Bool-cases (is_empty (set_remove s members))) [
            | inl left ↦ ground (arith, same, left, gone, any-set_remove-nobody s t members left)
            | inr stays ↦ ground (arith, same, stays, any-set_remove s t members)
          ]
      | inr other ↦ elim (Bool-cases (is_empty (set_remove s members))) [
        | inl left ↦ ground (arith, other, left, later)
        | inr stays ↦ ground (arith, other, stays, later)
      ]
    ]
