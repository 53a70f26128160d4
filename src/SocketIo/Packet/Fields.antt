-- ===== src/SocketIo/Packet/Fields.antt =====
-- The namespace and the numbers of a packet, read from behind some text.
use rpress.Common.{
  ℕ, ◌+◌, ◌^◌, ◌<◌, Bool, true, false, not, Option, none, some, List, [], ◌∷◌, ◌++◌, append-nil,
  append_assoc, Str, codes, drop, length, length-append, ltb, ◌==◌, nat_eq, list_eq, eq_iff,
  if◌then◌else◌, is_empty, All, ◌≡◌, refl, sym, ap, ◌∙◌, inl, inr, Bool-cases, arith,
}
use rpress.Common.Decimal.{is_digit, decimal, All-decimal, is_empty-decimal, parse_unsigned-decimal}
use rpress.Common.Utf8.{IsAscii}
use rpress.SocketIo.Packet.{SioPacketType, is_binary, attachment_text, namespace_text, id_text}
use rpress.SocketIo.Packet.Decode.{
  is_first_byte, chars, begins_char, slice, next_holds, is_char, ends_id, or_zero, attachments_upto,
  attachments_at, namespace_upto, namespace_at, id_upto, id_at,
}
use rpress.SocketIo.Packet.Prefix.{scan, drop-chars, chars-append}

pub is_digit-IsAscii : (s : Str) → All (λ c. is_digit c ≡ true) s → IsAscii s
is_digit-IsAscii [] digits = tt
is_digit-IsAscii (c ∷ s) (digit, digits) = (ground (arith, digit), is_digit-IsAscii s digits)

abbrev pub u64_limit : ℕ
u64_limit = 2 ^ 64

-- The text of an array, of an object, or nothing.
pub begins_json :
    (d : Str)
    → ends_id d ≡ true
    → (begins_char d ≡ true)
      × (ends_id (chars d) ≡ true)
      × (next_holds is_digit (chars d) ≡ false)
      × (next_holds (is_char b'/') (chars d) ≡ false)
unfolding ends_id begins_char chars next_holds is_first_byte
begins_json [] h = (refl, refl, refl, refl)
begins_json (c ∷ d) h =
    let first : is_first_byte c ≡ true = ground (arith, h) in
    let digit : is_digit c ≡ false = ground (arith, h) in
    let slash : is_char b'/' c ≡ false = ground (arith, h) in
    (first, rw first h, rw first digit, rw first slash)

next_holds-append :
    (p : ℕ → Bool) (s r : Str)
    → All (λ c. p c ≡ true) s
    → is_empty s ≡ false
    → next_holds p (s ++ r) ≡ true
unfolding next_holds
next_holds-append p [] r all e = absurd (ground (arith, e))
next_holds-append p (c ∷ s) r (one, _) e = one

-- The identifier that the digits between two positions give.
id_upto-decimal :
    (s d : Str) (n : ℕ)
    → ends_id (chars d) ≡ true
    → drop (length s + length (decimal n)) (chars (s ++ (decimal n ++ d))) ≡ chars d
    → slice (s ++ (decimal n ++ d)) (length s) (length s + length (decimal n)) ≡ some (decimal n)
    → n < u64_limit
    → id_upto (s ++ (decimal n ++ d)) (length s) (length s + length (decimal n))
      ≡ some (some n, length (s ++ decimal n))
unfolding id_upto or_zero
id_upto-decimal s d n ends behind middle fits =
    rw (behind, ends, middle, parse_unsigned-decimal u64_limit n fits)
      (ap (λ k. some (some n, k)) (sym (length-append s (decimal n))))

-- The identifier of the acknowledgement, from behind some text.
pub id_at-id_text :
    (s d : Str) (id : Option ℕ)
    → IsAscii s
    → ends_id d ≡ true
    → or_zero id < u64_limit
    → id_at (s ++ (id_text id ++ d)) (length s) ≡ some (id, length (s ++ id_text id))
unfolding id_at id_text or_zero
id_at-id_text s d none hs hd fits =
    let (_, _, no_digit, _) = begins_json d hd in
    rw (drop-chars s d hs, no_digit) (ap (λ t. some (none, length t)) (sym (append-nil s)))
id_at-id_text s d (some n) hs hd fits =
    let digits = All-decimal n in
    let (first, ends, no_digit, _) = begins_json d hd in
    let text = is_digit-IsAscii (decimal n) digits in
    let (stop, behind, middle) = scan is_digit s (decimal n) d hs text digits no_digit first in
    let some_digit : next_holds is_digit (drop (length s) (chars (s ++ (decimal n ++ d)))) ≡ true =
      ap (next_holds is_digit) (drop-chars s (decimal n ++ d) hs ∙ chars-append (decimal n) d text)
      ∙ next_holds-append is_digit (decimal n) (chars d) digits (is_empty-decimal n) in
    rw some_digit (
      ap (id_upto (s ++ (decimal n ++ d)) (length s)) stop
      ∙ id_upto-decimal s d n ends behind middle fits)

-- A namespace that can be written.
pub record IsNamespace (ns : Str) : Type 0 where
  pub slash : next_holds (is_char b'/') ns ≡ true
  pub ascii : IsAscii ns
  pub no_comma : All (λ c. not (c == b',') ≡ true) ns

comma_next :
    (r : Str)
    → (begins_char (b',' ∷ r) ≡ true)
      × (next_holds (λ c. not (c == b',')) (chars (b',' ∷ r)) ≡ false)
      × (next_holds (is_char b',') (chars (b',' ∷ r)) ≡ true)
unfolding begins_char next_holds chars is_first_byte
comma_next r = (refl, refl, refl)

dash_next :
    (r : Str)
    → (begins_char (b'-' ∷ r) ≡ true)
      × (next_holds is_digit (chars (b'-' ∷ r)) ≡ false)
      × (next_holds (is_char b'-') (chars (b'-' ∷ r)) ≡ true)
unfolding begins_char next_holds chars is_first_byte
dash_next r = (refl, refl, refl)

slash_next :
    (ns : Str) (cs : List ℕ)
    → next_holds (is_char b'/') ns ≡ true
    → next_holds (is_char b'/') (ns ++ cs) ≡ true
unfolding next_holds
slash_next [] cs h = absurd (ground (arith, h))
slash_next (c ∷ ns) cs h = h

namespace_upto-comma :
    (s ns r : Str)
    → drop (length s + length ns) (chars (s ++ (ns ++ b',' ∷ r))) ≡ chars (b',' ∷ r)
    → slice (s ++ (ns ++ b',' ∷ r)) (length s) (length s + length ns) ≡ some ns
    → namespace_upto (s ++ (ns ++ b',' ∷ r)) (length s) (length s + length ns)
      ≡ some (ns, length (s ++ (ns ++ b',' ∷ [])))
unfolding namespace_upto
namespace_upto-comma s ns r behind middle =
    let size : length s + length ns + 1 ≡ length (s ++ (ns ++ b',' ∷ [])) =
      omega (arith, length-append s (ns ++ b',' ∷ []), length-append ns (b',' ∷ [])) in
    rw (middle, namespace_upto) (rw behind (ap (λ k. some (ns, k)) size))

-- A namespace that is written, from behind some text.
namespace_at-comma :
    (s ns r : Str)
    → IsAscii s
    → IsNamespace ns
    → namespace_at (s ++ (ns ++ b',' ∷ r)) (length s) ≡ some (ns, length (s ++ (ns ++ b',' ∷ [])))
unfolding namespace_at
namespace_at-comma s ns r hs h =
    let (first, stops, _) = comma_next r in
    let (stop, behind, middle) =
      scan (λ c. not (c == b',')) s ns (b',' ∷ r) hs h.ascii h.no_comma stops first in
    let slash : next_holds (is_char b'/') (drop (length s) (chars (s ++ (ns ++ b',' ∷ r)))) ≡ true =
      ap (next_holds (is_char b'/'))
        (drop-chars s (ns ++ b',' ∷ r) hs ∙ chars-append ns (b',' ∷ r) h.ascii)
      ∙ slash_next ns (chars (b',' ∷ r)) h.slash in
    rw slash (
      ap (namespace_upto (s ++ (ns ++ b',' ∷ r)) (length s)) stop
      ∙ namespace_upto-comma s ns r behind middle)

-- No namespace that is written, from behind some text.
namespace_at-slash :
    (s r : Str)
    → IsAscii s
    → next_holds (is_char b'/') (chars r) ≡ false
    → namespace_at (s ++ r) (length s) ≡ some (codes "/", length s)
unfolding namespace_at
namespace_at-slash s r hs no_slash = rw (drop-chars s r hs, no_slash) refl

pub namespace_at-namespace_text :
    (s ns r : Str)
    → IsAscii s
    → IsNamespace ns
    → next_holds (is_char b'/') (chars r) ≡ false
    → namespace_at (s ++ (namespace_text ns ++ r)) (length s)
      ≡ some (ns, length (s ++ namespace_text ns))
unfolding namespace_text
namespace_at-namespace_text s ns r hs h no_slash = elim (Bool-cases (ns == codes "/")) [
  | inl root ↦ rw root (
      namespace_at-slash s r hs no_slash
      ∙ ap (λ n. some (n, length s)) (sym ((eq_iff ns (codes "/")).0 root))
      ∙ ap (λ t. some (ns, length t)) (sym (append-nil s)))
  | inr other ↦ rw other (
      ap (λ t. namespace_at (s ++ t) (length s)) (append_assoc ns (b',' ∷ []) r)
      ∙ namespace_at-comma s ns r hs h)
]

-- A number of attachments, from behind some text.
attachments_upto-dash :
    (s r : Str) (n : ℕ)
    → drop (length s + length (decimal n)) (chars (s ++ (decimal n ++ b'-' ∷ r))) ≡ chars (b'-' ∷ r)
    → slice (s ++ (decimal n ++ b'-' ∷ r)) (length s) (length s + length (decimal n))
      ≡ some (decimal n)
    → n < u64_limit
    → attachments_upto (s ++ (decimal n ++ b'-' ∷ r)) (length s) (length s + length (decimal n))
      ≡ some (n, length (s ++ (decimal n ++ b'-' ∷ [])))
unfolding attachments_upto or_zero
attachments_upto-dash s r n behind middle fits =
    let (_, _, dash) = dash_next r in
    let size : length s + length (decimal n) + 1 ≡ length (s ++ (decimal n ++ b'-' ∷ [])) =
      omega
        (arith, length-append s (decimal n ++ b'-' ∷ []), length-append (decimal n) (b'-' ∷ [])) in
    rw (behind, dash, middle, parse_unsigned-decimal u64_limit n fits) (ap (λ k. some (n, k)) size)

attachments_at-dash :
    (s r : Str) (t : SioPacketType) (n : ℕ)
    → IsAscii s
    → is_binary t ≡ true
    → n < u64_limit
    → attachments_at (s ++ (decimal n ++ b'-' ∷ r)) t (length s)
      ≡ some (n, length (s ++ (decimal n ++ b'-' ∷ [])))
unfolding attachments_at
attachments_at-dash s r t n hs binary fits =
    let (first, stops, _) = dash_next r in
    let digits = All-decimal n in
    let (stop, behind, middle) =
      scan is_digit s (decimal n) (b'-' ∷ r) hs (is_digit-IsAscii (decimal n) digits) digits stops
        first in
    rw binary (
      ap (attachments_upto (s ++ (decimal n ++ b'-' ∷ r)) (length s)) stop
      ∙ attachments_upto-dash s r n behind middle fits)

pub attachments_at-not_binary :
    (input : Str) (t : SioPacketType) (start : ℕ)
    → is_binary t ≡ false
    → attachments_at input t start ≡ some (0, start)
unfolding attachments_at
attachments_at-not_binary input t start other = rw other refl

attachment_text-eq : (n : ℕ) → attachment_text n ≡ (if ltb 0 n then decimal n ++ b'-' ∷ [] else [])
unfolding attachment_text
attachment_text-eq n = refl

pub attachments_at-attachment_text :
    (s r : Str) (t : SioPacketType) (n : ℕ)
    → IsAscii s
    → is_binary t ≡ ltb 0 n
    → n < u64_limit
    → attachments_at (s ++ (attachment_text n ++ r)) t (length s)
      ≡ some (n, length (s ++ attachment_text n))
attachments_at-attachment_text s r t n hs binary fits = elim (Bool-cases (ltb 0 n)) [
  | inl some_attachments ↦
      rw (attachment_text-eq n, some_attachments)
        (ap (λ u. attachments_at (s ++ u) t (length s)) (append_assoc (decimal n) (b'-' ∷ []) r)
          ∙ attachments_at-dash s r t n hs (binary ∙ some_attachments) fits)
  | inr no_attachments ↦
      let zero : 0 ≡ n = ground (arith, no_attachments) in
      rw (attachment_text-eq n, no_attachments)
        (attachments_at-not_binary (s ++ r) t (length s) (binary ∙ no_attachments)
          ∙ ap (λ k. some (k, length s)) zero
          ∙ ap (λ u. some (n, length u)) (sym (append-nil s)))
]
