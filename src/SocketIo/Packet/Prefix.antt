-- ===== src/SocketIo/Packet/Prefix.antt =====
-- Positions behind ASCII text: there the characters and the bytes are counted alike.
use rpress.Common.{
  ℕ, ◌+◌, ◌-◌, Bool, true, false, some, List, [], ◌∷◌, ◌++◌, append-nil, Str, take, drop, length,
  take-length, drop-length, length-append, append_assoc, ltb, leb, All, All-append, ◌≡◌, refl, sym,
  ap, ◌∙◌, arith,
}
use rpress.Common.Utf8.{IsAscii}
use rpress.SocketIo.Packet.Decode.{
  is_first_byte, chars, begins_char, is_char_boundary, slice, count_while, next_holds,
}

pub chars-append : (s r : Str) → IsAscii s → chars (s ++ r) ≡ s ++ chars r
unfolding chars is_first_byte
chars-append [] r ascii = refl
chars-append (c ∷ s) r (one, rest) = rw one (ap (λ t. c ∷ t) (chars-append s r rest))

pub drop-chars : (s r : Str) → IsAscii s → drop (length s) (chars (s ++ r)) ≡ chars r
drop-chars s r ascii =
    ap (λ t. drop (length s) t) (chars-append s r ascii) ∙ drop-length s (chars r)

is_char_boundary-append :
    (s r : Str) → begins_char r ≡ true → is_char_boundary (s ++ r) (length s) ≡ true
unfolding is_char_boundary
is_char_boundary-append s r first =
    let inside : leb (length s) (length (s ++ r)) ≡ true = ground (arith, length-append s r) in
    rw inside (ap begins_char (drop-length s r) ∙ first)

-- What stands between two pieces of text is sliced out.
pub slice-middle :
    (s mid r : Str)
    → begins_char (mid ++ r) ≡ true
    → begins_char r ≡ true
    → slice (s ++ (mid ++ r)) (length s) (length s + length mid) ≡ some mid
unfolding slice
slice-middle s mid r first last =
    let ordered : leb (length s) (length s + length mid) ≡ true = ground arith in
    let from : is_char_boundary (s ++ (mid ++ r)) (length s) ≡ true =
      is_char_boundary-append s (mid ++ r) first in
    let to : is_char_boundary (s ++ (mid ++ r)) (length s + length mid) ≡ true =
      sym (ap (λ t. is_char_boundary t (length s + length mid)) (append_assoc s mid r))
      ∙ ap (λ k. is_char_boundary ((s ++ mid) ++ r) k) (sym (length-append s mid))
      ∙ is_char_boundary-append (s ++ mid) r last in
    let size : length s + length mid - length s ≡ length mid = omega arith in
    rw (ordered, from, to)
      (ap (λ t. some (take (length s + length mid - length s) t)) (drop-length s (mid ++ r))
        ∙ ap (λ k. some (take k (mid ++ r))) size
        ∙ ap some (take-length mid r))

-- What stands behind some text is sliced out up to the end.
pub slice-end :
    (s d : Str) → begins_char d ≡ true → slice (s ++ d) (length s) (length (s ++ d)) ≡ some d
unfolding begins_char
slice-end s d first =
    ap (λ t. slice (s ++ t) (length s) (length (s ++ t))) (sym (append-nil d))
    ∙ ap (λ t. slice (s ++ (d ++ [])) (length s) (length (s ++ t))) (append-nil d)
    ∙ ap (slice (s ++ (d ++ [])) (length s)) (length-append s d)
    ∙ slice-middle s d [] (ap begins_char (append-nil d) ∙ first) refl

pub count_while-stops :
    (p : ℕ → Bool) (mid cs : List ℕ)
    → All (λ c. p c ≡ true) mid
    → next_holds p cs ≡ false
    → count_while p (mid ++ cs) ≡ length mid
unfolding count_while next_holds
count_while-stops p [] [] all stop = refl
count_while-stops p [] (c ∷ cs) all stop = rw stop refl
count_while-stops p (c ∷ mid) cs (one, rest) stop =
    rw one (ap (λ n. 1 + n) (count_while-stops p mid cs rest stop) ∙ omega arith)

pub begins_char-append :
    (s r : Str) → IsAscii s → begins_char r ≡ true → begins_char (s ++ r) ≡ true
unfolding begins_char is_first_byte
begins_char-append [] r ascii first = first
begins_char-append (c ∷ s) r (one, rest) first = rw one refl

pub IsAscii-append : (s t : Str) → IsAscii s → IsAscii t → IsAscii (s ++ t)
IsAscii-append s t hs ht = All-append (λ c. ltb c 0x80 ≡ true) s t hs ht

-- A scan from behind some text over the characters that satisfy the test: where it stops, what is
-- there, and what it went over.
pub scan :
    (p : ℕ → Bool) (s mid r : Str)
    → IsAscii s
    → IsAscii mid
    → All (λ c. p c ≡ true) mid
    → next_holds p (chars r) ≡ false
    → begins_char r ≡ true
    → (length s + count_while p (drop (length s) (chars (s ++ (mid ++ r)))) ≡ length s + length mid)
      × (drop (length s + length mid) (chars (s ++ (mid ++ r))) ≡ chars r)
      × (slice (s ++ (mid ++ r)) (length s) (length s + length mid) ≡ some mid)
scan p s mid r hs hmid all stop first = (
  ap (λ t. length s + count_while p t) (drop-chars s (mid ++ r) hs ∙ chars-append mid r hmid)
      ∙ ap (λ n. length s + n) (count_while-stops p mid (chars r) all stop),
  ap (λ n. drop n (chars (s ++ (mid ++ r)))) (sym (length-append s mid))
      ∙ ap (λ t. drop (length (s ++ mid)) (chars t)) (sym (append_assoc s mid r))
      ∙ drop-chars (s ++ mid) r (IsAscii-append s mid hs hmid),
  slice-middle s mid r (begins_char-append mid r hmid first) first,
)
