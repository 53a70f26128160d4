-- ===== src/Server/H2/Bodies.antt =====
-- engine/src/core/h2_handler.rs: the body of a stream.
use rpress.Common.{
  ℕ, true, false, ◌≤◌, List, [], ◌∷◌, ◌++◌, map, Str, length, length-append, ltb, if◌then◌else◌,
  append-nil, append_assoc, ◌≡◌, refl, arith, inl, inr, Bool-cases,
}
use rpress.Request.Access.{collected}
use rpress.Server.H2.{data_frame, whole, too_large, read_body}

-- A body that is too large stays so, whatever is behind it.
read_body-collected :
    (max : ℕ) (acc : Str) (parts : List Str)
    → length acc ≤ max
    → read_body max acc (map data_frame parts) ≡ (
        if ltb max (length (acc ++ collected parts))
        then too_large
        else whole (acc ++ collected parts))
unfolding read_body collected
read_body-collected max acc [] fits =
    let small : ltb max (length acc) ≡ false = ground arith in rw (append-nil acc, small) refl
read_body-collected max acc (part ∷ parts) fits =
    elim (Bool-cases (ltb max (length (acc ++ part)))) [
      | inl over ↦
          let more : ltb max (length (acc ++ (part ++ collected parts))) ≡ true = ground (
            arith,
            length-append acc part,
            length-append acc (part ++ collected parts),
            length-append part (collected parts),
          ) in
          rw (over, more) refl
      | inr under ↦
          rw (under, ← append_assoc acc part (collected parts))
            (read_body-collected max (acc ++ part) parts (ground arith))
    ]

-- However the body of a request is cut into frames, it is refused exactly if it has more bytes than
-- the limit, and else it is given whole.
pub read_body-frames :
    (max : ℕ) (parts : List Str)
    → read_body max [] (map data_frame parts)
      ≡ (if ltb max (length (collected parts)) then too_large else whole (collected parts))
read_body-frames max parts = read_body-collected max [] parts (omega arith)
