-- ===== src/SocketIo/Adapter/Shares.antt =====
-- The members of a room that live on one node.
use rpress.Common.{
  true, false, ◌&&◌, List, [], ◌∷◌, ◌++◌, Str, any, retain, ◌==◌, eq_iff, nat_eq, list_eq, pair_eq,
  append-nil, ◌≡◌, refl, ap, ◌∙◌, inl, inr, Bool-cases, arith,
}
use rpress.SocketIo.Rooms.{RoomKey, set_insert, set_remove}
use rpress.SocketIo.Adapter.{
  AdapterCall, register_sender, unregister_sender, join, leave, leave_all, socket_of,
}
use rpress.SocketIo.Adapter.Effects.{effect}

-- `home` tells the node on which a socket lives.
module _ (home : Str → Str) (id : Str) where
  unfoldable pub share : List Str → List Str
  share set = retain (λ s. home s == id) set

  -- A member is in the share of the node on which it lives, and in no other.
  pub any-share :
      (s : Str) (set : List Str)
      → any (λ x. x == s) (share set) ≡ (any (λ x. x == s) set && (home s == id))
  unfolding share
  any-share s [] = refl
  any-share s (x ∷ set) =
      let later = any-share s set in
      elim (Bool-cases (x == s)) [
        | inl same ↦
            let e : (home x == id) ≡ (home s == id) =
              ap (λ t. home t == id) ((eq_iff x s).0 same) in
            ground (arith, later, same, e)
        | inr other ↦ ground (arith, later, other)
      ]

  any-share_here :
      (s : Str) (set : List Str)
      → (home s == id) ≡ true
      → any (λ x. x == s) (share set) ≡ any (λ x. x == s) set
  any-share_here s set h = ground (arith, any-share s set, h)

  share-append : (xs ys : List Str) → share (xs ++ ys) ≡ share xs ++ share ys
  unfolding share
  share-append [] ys = refl
  share-append (x ∷ xs) ys = elim (Bool-cases (home x == id)) [
    | inl here ↦ rw here (ap (λ t. x ∷ t) (share-append xs ys))
    | inr away ↦ rw away (share-append xs ys)
  ]

  share_one : (s : Str) → (home s == id) ≡ true → share (s ∷ []) ≡ s ∷ []
  unfolding share
  share_one s h = rw h refl

  share_none : (s : Str) → (home s == id) ≡ false → share (s ∷ []) ≡ []
  unfolding share
  share_none s h = rw h refl

  share-set_insert :
      (s : Str) (set : List Str)
      → (home s == id) ≡ true
      → share (set_insert s set) ≡ set_insert s (share set)
  unfolding set_insert
  share-set_insert s set h = elim (Bool-cases (any (λ x. x == s) set)) [
    | inl there ↦ rw (there, any-share_here s set h ∙ there) refl
    | inr missing ↦
        rw (missing, any-share_here s set h ∙ missing)
          (share-append set (s ∷ []) ∙ ap (λ t. share set ++ t) (share_one s h))
  ]

  share-set_insert_away :
      (s : Str) (set : List Str) → (home s == id) ≡ false → share (set_insert s set) ≡ share set
  unfolding set_insert
  share-set_insert_away s set h = elim (Bool-cases (any (λ x. x == s) set)) [
    | inl there ↦ rw there refl
    | inr missing ↦ rw missing (
        share-append set (s ∷ [])
        ∙ (ap (λ t. share set ++ t) (share_none s h) ∙ append-nil (share set)))
  ]

  share-set_remove :
      (s : Str) (set : List Str) → share (set_remove s set) ≡ set_remove s (share set)
  unfolding share set_remove
  share-set_remove s [] = refl
  share-set_remove s (x ∷ set) = elim (Bool-cases (x == s)) [
    | inl same ↦ elim (Bool-cases (home x == id)) [
      | inl here ↦ rw (same, here, same) (share-set_remove s set)
      | inr away ↦ rw (same, away) (share-set_remove s set)
    ]
    | inr other ↦ elim (Bool-cases (home x == id)) [
      | inl here ↦ rw (other, here, other) (ap (λ t. x ∷ t) (share-set_remove s set))
      | inr away ↦ rw (other, away) (share-set_remove s set)
    ]
  ]

  share-set_remove_away :
      (s : Str) (set : List Str) → (home s == id) ≡ false → share (set_remove s set) ≡ share set
  unfolding share set_remove
  share-set_remove_away s [] h = refl
  share-set_remove_away s (x ∷ set) h = elim (Bool-cases (x == s)) [
    | inl same ↦
        let away : (home x == id) ≡ false = ap (λ t. home t == id) ((eq_iff x s).0 same) ∙ h in
        rw (same, away) (share-set_remove_away s set h)
    | inr other ↦ elim (Bool-cases (home x == id)) [
      | inl here ↦ rw (other, here) (ap (λ t. x ∷ t) (share-set_remove_away s set h))
      | inr away ↦ rw (other, away) (share-set_remove_away s set h)
    ]
  ]

abbrev pair : Str → Str → RoomKey
pair namespace room = (namespace, room)

module _ {T : Type 0} (home : Str → Str) (id : Str) where
  -- A call about a socket of the node does to the share what it does to the room.
  pub share-effect :
      (call : AdapterCall T) (k : RoomKey) (set : List Str)
      → (home (socket_of call) == id) ≡ true
      → share home id (effect call k set) ≡ effect call k (share home id set)
  unfolding effect socket_of
  share-effect (register_sender s tx) k set h = refl
  share-effect (unregister_sender s) k set h = refl
  share-effect (join namespace room s) k set h = elim (Bool-cases (pair namespace room == k)) [
    | inl same ↦ rw same (share-set_insert home id s set h)
    | inr other ↦ rw other refl
  ]
  share-effect (leave namespace room s) k set h = elim (Bool-cases (pair namespace room == k)) [
    | inl same ↦ rw same (share-set_remove home id s set)
    | inr other ↦ rw other refl
  ]
  share-effect (leave_all s) k set h = share-set_remove home id s set

  -- A call about a socket of another node leaves the share alone.
  pub share-effect_away :
      (call : AdapterCall T) (k : RoomKey) (set : List Str)
      → (home (socket_of call) == id) ≡ false
      → share home id (effect call k set) ≡ share home id set
  unfolding effect socket_of
  share-effect_away (register_sender s tx) k set h = refl
  share-effect_away (unregister_sender s) k set h = refl
  share-effect_away (join namespace room s) k set h = elim (Bool-cases (pair namespace room == k)) [
    | inl same ↦ rw same (share-set_insert_away home id s set h)
    | inr other ↦ rw other refl
  ]
  share-effect_away (leave namespace room s) k set h =
      elim (Bool-cases (pair namespace room == k)) [
        | inl same ↦ rw same (share-set_remove_away home id s set h)
        | inr other ↦ rw other refl
      ]
  share-effect_away (leave_all s) k set h = share-set_remove_away home id s set h
