-- ===== src/SocketIo/Rooms/Broadcast.antt =====
-- Who a broadcast reaches.
use mathlib.Core.Path.{subst}
use rpress.Common.{
  Bool, true, false, not, ◌&&◌, ◌||◌, Option, is_some, List, [], ◌∷◌, ◌++◌, append_assoc,
  append-nil, Str, HashMap, lookup, any, any-append, if◌then◌else◌, ◌==◌, eq_iff, nat_eq, list_eq,
  ◌≡◌, refl, sym, ap, ◌∙◌, inl, inr, Bool-cases, Option-cases, arith,
}
use rpress.SocketIo.EngineIo.{EioPacket}
use rpress.SocketIo.Rooms.{
  Rooms, RoomManager, is_excluded, send_members, send_unsent, send_rooms, broadcast_namespace,
}
use rpress.SocketIo.Rooms.Recipients.{unseen, sockets_in, count, in_namespace, count-sockets_in}

unseen-seen :
    (s : Str) (members seen : List Str)
    → any (λ x. x == s) seen ≡ true
    → unseen (s ∷ members) seen ≡ unseen members seen
unfolding unseen
unseen-seen s members seen h = rw h refl

unseen-new :
    (s : Str) (members seen : List Str)
    → any (λ x. x == s) seen ≡ false
    → unseen (s ∷ members) seen ≡ s ∷ unseen members (seen ++ s ∷ [])
unfolding unseen
unseen-new s members seen h = rw h refl

module _ {T : Type 0} (senders : HashMap Str T) (packet : EioPacket) (exclude : Option Str) where
  sendable : Str → Bool
  sendable s = not (is_excluded exclude s) && is_some (lookup s senders)

  send_members-skip :
      (s : Str) (members : List Str)
      → sendable s ≡ false
      → send_members senders packet exclude (s ∷ members)
        ≡ send_members senders packet exclude members
  unfolding sendable send_members
  send_members-skip s members h = elim (Bool-cases (is_excluded exclude s)) [
    | inl out ↦ rw out refl
    | inr stays ↦ elim (Option-cases (lookup s senders)) [
      | inl missing ↦ rw (stays, missing) refl
      | inr (tx, found) ↦ absurd (ground (arith, h, stays, found))
    ]
  ]

  send_unsent-skip :
      (s : Str) (members sent : List Str)
      → sendable s && not (any (λ x. x == s) sent) ≡ false
      → send_unsent senders packet exclude (s ∷ members) sent
        ≡ send_unsent senders packet exclude members sent
  unfolding sendable send_unsent
  send_unsent-skip s members sent h =
      elim (Bool-cases (is_excluded exclude s || any (λ x. x == s) sent)) [
        | inl out ↦ rw out refl
        | inr stays ↦ elim (Option-cases (lookup s senders)) [
          | inl missing ↦ rw (stays, missing) refl
          | inr (tx, found) ↦ absurd (ground (arith, h, stays, found))
        ]
      ]

  send_members-able :
      (s : Str)
      → sendable s ≡ true
      → (tx : T) × ((members : List Str)
          → send_members senders packet exclude (s ∷ members)
            ≡ (tx, packet) ∷ send_members senders packet exclude members)
  unfolding sendable send_members
  send_members-able s h = elim (Option-cases (lookup s senders)) [
    | inl missing ↦ absurd (ground (arith, h, missing))
    | inr (tx, found) ↦
        let stays : is_excluded exclude s ≡ false = ground (arith, h) in
        (tx, λ members. rw (stays, found) refl)
  ]

  -- A member that is sent to.
  send_both :
      (s : Str) (members members' sent : List Str)
      → sendable s ≡ true
      → any (λ x. x == s) sent ≡ false
      → (tx : T) × (send_members senders packet exclude (s ∷ members')
          ≡ (tx, packet) ∷ send_members senders packet exclude members')
        × (send_unsent senders packet exclude (s ∷ members) sent ≡ (
            let r = send_unsent senders packet exclude members (sent ++ s ∷ []) in
            ((tx, packet) ∷ r.0, r.1)))
  unfolding sendable send_members send_unsent
  send_both s members members' sent h new = elim (Option-cases (lookup s senders)) [
    | inl missing ↦ absurd (ground (arith, h, missing))
    | inr (tx, found) ↦
        let stays : is_excluded exclude s ≡ false = ground (arith, h) in
        (tx, rw (stays, found) refl, rw (stays, new, found) refl)
  ]

  -- Of those who can be sent to, the ones that were are the ones that were seen.
  Agree : List Str → List Str → Type 0
  Agree sent seen = (s : Str) → sendable s ≡ true → any (λ x. x == s) sent ≡ any (λ x. x == s) seen

  Agree-both :
      (s : Str) (sent seen : List Str) → Agree sent seen → Agree (sent ++ s ∷ []) (seen ++ s ∷ [])
  unfolding Agree
  Agree-both s sent seen h t able = ground (
    arith,
    h t able,
    any-append (λ x. x == t) sent (s ∷ []),
    any-append (λ x. x == t) seen (s ∷ []),
  )

  Agree-seen :
      (s : Str) (sent seen : List Str)
      → sendable s ≡ false
      → Agree sent seen
      → Agree sent (seen ++ s ∷ [])
  unfolding Agree
  Agree-seen s sent seen unable h t able = elim (Bool-cases (s == t)) [
    | inl same ↦
        let e : s ≡ t = (eq_iff s t).0 same in
        absurd (ground (arith, sym (ap sendable e) ∙ unable, able))
    | inr other ↦ ground (arith, other, h t able, any-append (λ x. x == t) seen (s ∷ []))
  ]

  -- What a list of members gives is what those of them give who are not seen yet.
  Sends : List Str → List Str → List Str → Type 0
  Sends members sent seen =
      ((send_unsent senders packet exclude members sent).0
        ≡ send_members senders packet exclude (unseen members seen))
      × Agree (send_unsent senders packet exclude members sent).1 (seen ++ unseen members seen)

  Sends-skip :
      (s : Str) (members sent seen : List Str)
      → sendable s && not (any (λ x. x == s) sent) ≡ false
      → any (λ x. x == s) seen ≡ true
      → Sends members sent seen
      → Sends (s ∷ members) sent seen
  unfolding Sends
  Sends-skip s members sent seen out again h =
      rw (send_unsent-skip s members sent out, unseen-seen s members seen again) h

  Sends-pass :
      (s : Str) (members sent seen : List Str)
      → sendable s ≡ false
      → any (λ x. x == s) seen ≡ false
      → Sends members sent (seen ++ s ∷ [])
      → Sends (s ∷ members) sent seen
  unfolding Sends
  Sends-pass s members sent seen unable new (sends, agree) =
      let rest = unseen members (seen ++ s ∷ []) in
      let out : sendable s && not (any (λ x. x == s) sent) ≡ false = ground (arith, unable) in
      rw
        (
          send_unsent-skip s members sent out,
          unseen-new s members seen new,
          send_members-skip s rest unable,
        )
        (
          sends,
          subst (Agree (send_unsent senders packet exclude members sent).1)
              (append_assoc seen (s ∷ []) rest) agree,
        )

  Sends-send :
      (s : Str) (members sent seen : List Str)
      → sendable s ≡ true
      → any (λ x. x == s) sent ≡ false
      → any (λ x. x == s) seen ≡ false
      → Sends members (sent ++ s ∷ []) (seen ++ s ∷ [])
      → Sends (s ∷ members) sent seen
  unfolding Sends
  Sends-send s members sent seen able unsent new (sends, agree) =
      let rest = unseen members (seen ++ s ∷ []) in
      let (tx, whole, part) = send_both s members rest sent able unsent in
      rw (part, unseen-new s members seen new, whole)
        (
          ap (λ l. (tx, packet) ∷ l) sends,
          subst (Agree (send_unsent senders packet exclude members (sent ++ s ∷ [])).1)
              (append_assoc seen (s ∷ []) rest) agree,
        )

  send_unsent-unseen : (members sent seen : List Str) → Agree sent seen → Sends members sent seen
  unfolding Sends Agree send_unsent send_members unseen
  send_unsent-unseen [] sent seen h = (refl, subst (Agree sent) (sym (append-nil seen)) h)
  send_unsent-unseen (s ∷ members) sent seen h = elim (Bool-cases (sendable s)) [
    | inl able ↦ elim (Bool-cases (any (λ x. x == s) sent)) [
      | inl again ↦
          Sends-skip s members sent seen (ground (arith, again)) (sym (h s able) ∙ again)
            (send_unsent-unseen members sent seen h)
      | inr new ↦
          Sends-send s members sent seen able new (sym (h s able) ∙ new) (
            send_unsent-unseen members (sent ++ s ∷ []) (seen ++ s ∷ []) (Agree-both s sent seen h))
    ]
    | inr unable ↦ elim (Bool-cases (any (λ x. x == s) seen)) [
      | inl again ↦
          Sends-skip s members sent seen (ground (arith, unable)) again
            (send_unsent-unseen members sent seen h)
      | inr new ↦
          Sends-pass s members sent seen unable new
            (send_unsent-unseen members sent (seen ++ s ∷ []) (Agree-seen s sent seen unable h))
    ]
  ]

  send_members-append :
      (members members' : List Str)
      → send_members senders packet exclude (members ++ members')
        ≡ send_members senders packet exclude members
          ++ send_members senders packet exclude members'
  send_members-append [] members' = unfold send_members in refl
  send_members-append (s ∷ members) members' = elim (Bool-cases (sendable s)) [
    | inl able ↦
        let (tx, sends) = send_members-able s able in
        sends (members ++ members')
        ∙ ap (λ l. (tx, packet) ∷ l) (send_members-append members members')
        ∙ ap (λ l. l ++ send_members senders packet exclude members') (sym (sends members))
    | inr unable ↦
        send_members-skip s (members ++ members') unable
        ∙ send_members-append members members'
        ∙ ap (λ l. l ++ send_members senders packet exclude members')
            (sym (send_members-skip s members unable))
  ]

  send_rooms-sockets_in :
      (namespace : Str) (rooms : Rooms) (sent seen : List Str)
      → Agree sent seen
      → send_rooms senders namespace packet exclude rooms sent
        ≡ send_members senders packet exclude (sockets_in namespace rooms seen)
  unfolding send_rooms sockets_in send_members Sends
  send_rooms-sockets_in namespace [] sent seen h = refl
  send_rooms-sockets_in namespace ((key, members) ∷ rooms) sent seen h =
      elim (Bool-cases (key.0 == namespace)) [
        | inl same ↦
            let (sends, agree) = send_unsent-unseen members sent seen h in
            let here = unseen members seen in
            rw same (
              ap
                (λ l.
                  l
                  ++ send_rooms senders namespace packet exclude rooms
                      (send_unsent senders packet exclude members sent).1)
                sends
              ∙ ap (λ l. send_members senders packet exclude here ++ l)
                  (send_rooms-sockets_in namespace rooms
                    (send_unsent senders packet exclude members sent).1 (seen ++ here) agree)
              ∙ sym (send_members-append here (sockets_in namespace rooms (seen ++ here))))
        | inr other ↦ rw other (send_rooms-sockets_in namespace rooms sent seen h)
      ]

-- A broadcast to a namespace sends the packet to the members of one list, in its order, but for the
-- socket that is excluded and those without a channel. In that list a socket stands once if it is
-- in a room of the namespace, however many rooms of it, and not at all otherwise.
pub broadcast_namespace-sockets_in :
    {T : Type 0} (namespace s : Str) (packet : EioPacket) (exclude : Option Str) (m : RoomManager T)
    → (broadcast_namespace namespace packet exclude m
        ≡ send_members m.senders packet exclude (sockets_in namespace m.rooms []))
      × (count s (sockets_in namespace m.rooms [])
          ≡ (if in_namespace namespace s m.rooms then 1 else 0))
unfolding broadcast_namespace Agree
broadcast_namespace-sockets_in namespace s packet exclude m = (
  send_rooms-sockets_in m.senders packet exclude namespace m.rooms [] [] (λ t able. refl),
  count-sockets_in namespace s m.rooms [] ∙ ground arith,
)
