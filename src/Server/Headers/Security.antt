-- ===== src/Server/Headers/Security.antt =====
-- What `apply_security_headers` adds to the headers of a response.
use rpress.Common.{
  Option, none, any, ◌==◌, eq_iff, refl, ap, true, false, ◌++◌, some, List, [], ◌∷◌, Str,
  any-append, append_assoc, append-nil, eq_ignore_ascii_case, eq_refl, All, All-imp, if◌then◌else◌,
  ◌≡◌, sym, arith, Bool-cases, inl, inr, list_eq, nat_eq, map, lower_byte,
}
use rpress.Security.{RpressSecurityHeaders}
use rpress.Payload.{ResponsePayload}
use rpress.Server.Headers.Defs.{has_header, push_missing, apply_security_headers}

eq_ignore_ascii_case_refl : (s : Str) → eq_ignore_ascii_case s s ≡ true
unfolding eq_ignore_ascii_case
eq_ignore_ascii_case_refl s = eq_refl (map lower_byte s)

has_header-push :
    (key value k : Str) (hs : List (Str × Str))
    → has_header k hs ≡ true
    → has_header k (if has_header key hs then hs else hs ++ (key, value) ∷ []) ≡ true
has_header-push key value k hs h =
    ground (arith, any-append (λ p. eq_ignore_ascii_case p.0 k) hs ((key, value) ∷ []))

has_header-pushed :
    (key value : Str) (hs : List (Str × Str))
    → has_header key (if has_header key hs then hs else hs ++ (key, value) ∷ []) ≡ true
has_header-pushed key value hs = ground (
  arith,
  any-append (λ p. eq_ignore_ascii_case p.0 key) hs ((key, value) ∷ []),
  eq_ignore_ascii_case_refl key,
)

-- Pushing never removes a name.
has_header-push_missing :
    (sec hs : List (Str × Str)) (k : Str)
    → has_header k hs ≡ true
    → has_header k (push_missing sec hs) ≡ true
unfolding push_missing
has_header-push_missing [] hs k h = h
has_header-push_missing ((key, value) ∷ sec) hs k h =
    has_header-push_missing sec _ k (has_header-push key value k hs h)

All-push_missing :
    (sec hs : List (Str × Str)) → All (λ h. has_header h.0 (push_missing sec hs) ≡ true) sec
unfolding push_missing
All-push_missing [] hs = tt
All-push_missing ((key, value) ∷ sec) hs =
    (has_header-push_missing sec _ key (has_header-pushed key value hs), All-push_missing sec _)

-- The value that a list of headers gives to a name first, whatever the case of the letters.
pub first_value : Str → List (Str × Str) → Option Str
first_value key [] = none
first_value key ((k, value) ∷ hs) =
    let rest = first_value key hs in if eq_ignore_ascii_case k key then some value else rest

-- A header that is added: its name was not there, and its value is the first one configured.
abbrev pub IsAdded : List (Str × Str) → List (Str × Str) → Str × Str → Type 0
IsAdded sec hs h = (has_header h.0 hs ≡ false) × (first_value h.0 sec ≡ some h.1)

has_header-eq :
    (key k : Str) (hs : List (Str × Str))
    → eq_ignore_ascii_case key k ≡ true
    → has_header key hs ≡ has_header k hs
unfolding eq_ignore_ascii_case
has_header-eq key k hs same =
    ap (λ t. any (λ (h : Str × Str). map lower_byte h.0 == t) hs)
      ((eq_iff (map lower_byte key) (map lower_byte k)).0 same)

push_missing-IsAdded :
    (sec hs : List (Str × Str))
    → (added : List (Str × Str)) × (push_missing sec hs ≡ hs ++ added) × All (IsAdded sec hs) added
unfolding push_missing first_value
push_missing-IsAdded [] hs = ([], sym (append-nil hs), tt)
push_missing-IsAdded ((key, value) ∷ sec) hs = elim (Bool-cases (has_header key hs)) [
  | inl there ↦
      let (added, same, fresh) = push_missing-IsAdded sec hs in
      (
        added,
        rw there same,
        All-imp _ _ added
            (λ h (f, v). elim (Bool-cases (eq_ignore_ascii_case key h.0)) [
              | inl again ↦ absurd (ground (arith, has_header-eq key h.0 hs again, f, there))
              | inr other ↦ (f, rw other v)
            ])
            fresh,
      )
  | inr missing ↦
      let (added, same, fresh) = push_missing-IsAdded sec (hs ++ (key, value) ∷ []) in
      rw missing (
        (key, value) ∷ added,
        rw same (append_assoc hs ((key, value) ∷ []) added),
        (
          (missing, rw (eq_ignore_ascii_case_refl key) refl),
          All-imp _ _ added
              (λ h (f, v).
                let both = any-append (λ p. eq_ignore_ascii_case p.0 h.0) hs ((key, value) ∷ []) in
                let other : eq_ignore_ascii_case key h.0 ≡ false = ground (arith, both, f) in
                (ground (arith, both, f), rw other v))
              fresh,
        ),
      )
]

-- The response keeps the headers that it had, in front and unchanged; what is added bears no name
-- that it had, whatever the case of the letters, and has the value that is configured for its name
-- first; and every configured name is there at the end.
pub apply_security_headers_lem :
    (sec : RpressSecurityHeaders) (p : ResponsePayload)
    → (added : List (Str × Str)) × ((apply_security_headers (some sec) p).headers
        ≡ p.headers ++ added)
      × All (IsAdded sec.headers p.headers) added
      × All (λ h. has_header h.0 (apply_security_headers (some sec) p).headers ≡ true) sec.headers
unfolding apply_security_headers
apply_security_headers_lem sec p =
    let (added, same, fresh) = push_missing-IsAdded sec.headers p.headers in
    (added, same, fresh, All-push_missing sec.headers p.headers)
